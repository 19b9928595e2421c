-- ===== src/Lib.antt =====
-- The executor protocol of the UMAT control plane (src/umat).
--
-- UMAT analyses malware samples. A user submits a sample to a case, which makes an analysis run of
-- stages: the platform analysis, the command-and-control analysis, their adaptations, the
-- aggregation and the report. Executors on other hosts claim queued stages under a lease, send
-- heartbeats, record their native task and their interactive session, and complete or fail the
-- stage; the scheduler takes back leases that are over; users confirm, cancel and retry runs. All
-- of them work on one database, each request in a transaction, and every change is logged in a hash
-- chain.
--
-- The parts and their files:
--   Models, Models/Rows, Models/Sessions   the enumerations and rows of umat/db/models.py
--   Environment     settings.policy_for_stage of umat/config/settings.py, token_hash of
--                   umat/auth/security.py, and what is taken from outside the repository
--   Database        the tables, HTTPException, and a handler as an action on the tables; commit
--   Audit           umat/audit/chain.py; its laws are in Audit/Chain
--   Executors/Request, Request/Replay      current_executor and verify_executor_signature of
--                   umat/executors/security.py, signature_message of umat/executors/protocol.py,
--                   and signed_request, validate_lease and verify_stage_mutation of
--                   umat/api/executor_routes.py
--   Executors/Registration, Workflow, Expiry, Claim, Heartbeat, Completion, Sessions, Profiles
--                   the other routes and helpers of umat/api/executor_routes.py
--   Executors/Custody   the invariant of the leases and attempts, and that every route keeps it
--   Executors/Laws      what the single routes do; Laws/Lifetime says how long a lease passes
--   Runs            accessible_case, owned_run, confirm_run and cancel_run of
--                   umat/api/case_routes.py, retry_run of umat/api/operations_routes.py
--   Reporting       umat/reporting/worker.py
--   Reporting/Visible, Reporting/Findings   filter_report_for_roles, the confidence of findings and
--                   the verdict of umat/reporting/aggregator.py
--   Accounts        umat/auth/dependencies.py and umat/api/auth_routes.py: logins, web sessions and
--                   the throttle of failed logins
--   Storage         umat/storage/local.py; Storage/Integrity, Storage/Roundtrip and
--                   Storage/Contents hold its theorems, the last against a map of digests
--   Transfer        download_stage_sample, download_stage_input and upload_artifact of
--                   umat/api/executor_routes.py, on the database and the store together;
--                   Transfer/Backed and Transfer/Sent hold its theorems
--   Egress          umat/egress/manager.py, the broker of controlled egress; Egress/Firewall is its
--                   host, Egress/Cover and Egress/Invariant the invariant, Egress/History and
--                   Egress/Laws the theorems, with Egress/Closing on an end of the broker that
--                   fails; Egress/Capture is umat/capture.py
--   Cape            umat/cape_gateway/manager.py: machines for Windows profiles; Cape/Labels holds
--                   their names, Cape/Deletion the method delete, Cape/Built, Cape/Rollback and
--                   Cape/Laws what a creation leaves, Cape/Addresses the addresses
--   Protocol        histories of calls, and what holds after every history
--   Tests           a small database, and the theorems at it
--
-- How the code is read. A table is a list of rows, the newest first; the audit log alone is in the
-- order of its sequence numbers. A primary key is a number, given out by one growing counter. A
-- time is a number of microseconds; a handler that reads the clock is given the instants, and the
-- reads of one handler that no test tells apart are one instant. A handler is a function from the
-- database to an answer with the new database, or to an HTTPException, and then nothing is kept, as
-- a session that is closed without a commit rolls back. A row lock, and a query that skips locked
-- rows, do nothing, since one call runs after the other. The relationship of a row to others is a
-- query. The one dynamic session of a run, which the database makes unique, is written by a query
-- on the run. The lists of texts that the code makes sets keep their order and repetitions, which
-- nothing reads. Where an HTTPException lists the offending values its text here leaves them out.
-- Loops are structural recursion on the list of rows that the query returned. Only the wait for the
-- header of a capture has fuel: a turn sleeps 50 ms and the wait lasts 5 seconds, so 101 turns are
-- enough, which is proved.
--
-- The store is two lists of files; a path is the list of its parts, and there are no symbolic links. A
-- file is written at once, so a copy that breaks off half way is not modelled. The egress broker is
-- given what its host answers to each call; a deletion from a set of the firewall succeeds, and a
-- stopped capture does not run. The source ignores a failed deletion
-- from a set and raises when a process does not end in time; both are left out. The gateway of
-- machines is given which of its commands raise. One that raises changes nothing, except that convert
-- and snapshot-create-as leave files, that net-update may have made the reservation, and that the
-- deletion which takes a row of CAPE's database back may raise too; the commands that it does not
-- check, the clean-up after a failure among them, do what they are told. A
-- text that stands for bytes is a text of characters.
--
-- Parameters: the digest, the encodings, the conversions of texts and times, and the signature check
-- of the runtime and of the `cryptography` package are fields of Env. No theorem assumes anything of
-- them, except that the round trip of an upload, the map of digests and two theorems on transfers
-- assume of the digest that it is a text of at least three characters without slash and dot, as every
-- hexadecimal digest is. The aggregation of a report is a parameter of the report worker; the
-- password hasher and the normalisation of user names are fields of Logins. Drawn tokens and names of
-- temporary files are arguments.
--
-- Not modelled: the platform adapters and executors; the command-and-control runtime; the building of
-- the other parts of a report, and exports; of the gateway the XML of a domain, the customisation of
-- the guest, the text of CAPE's configuration and console_target; the web pages, the command line, the
-- administration of users, the deployment and the migrations. A history of calls has none of these,
-- and no step of the report worker, the transfers, the accounts, the store, the egress broker or the
-- gateway; the last four have sequences of calls of their own.
mod Prelude
pub mod Json
pub mod Models
pub mod Environment
pub mod Database
pub mod Audit
pub mod Executors
pub mod Reporting
pub mod Runs
pub mod Storage
pub mod Transfer
pub mod Accounts
pub mod Cape
pub mod Egress
pub mod Protocol
pub mod Tests
