-- ===== src/Tests.antt =====
-- Tests: a small database and the theorems of the library at it.
pub mod Fixtures
pub mod Protocol
pub mod Requests
pub mod Stages
pub mod Records
pub mod Stores
pub mod Reports
pub mod Captures
pub mod Logins
pub mod Machines
pub mod Transfers
