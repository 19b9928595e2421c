-- ===== src/Tests/Records.antt =====
-- Sessions, profiles, users, reports and the audit log.
use e_rakshak_umat.Prelude.{
  ℕ, ◌≡◌, ◌≢◌, refl, ◌↔◌, String, true, false, none, some, [], ◌∷◌, str_eq, eq_iff, arith,
}
use e_rakshak_umat.Prelude.Tables.{count}
use e_rakshak_umat.Json.{Json, null, obj, field, string, end}
use e_rakshak_umat.Models.{
  report_generation, StageState, RunResult, Verdict, terminal, create, WindowsProfileState,
  WindowsProfileOperationState,
}
use e_rakshak_umat.Models.Rows.{
  AnalysisStage, AuditEvent, CaseReportSnapshot, run_entity, stage_entity, case_entity,
}
use e_rakshak_umat.Models.Sessions.{
  WindowsDynamicSession, AndroidDynamicSession, AndroidSessionCommand, WindowsVmProfile,
  WindowsProfileOperation, windows_session_entity, android_session_entity, command_entity,
}
use e_rakshak_umat.Environment.{Env, ◌<>◌}
use e_rakshak_umat.Database.{Db}
use e_rakshak_umat.Audit.{
  zero_hash, calculate_event_hash, event_fields, verify_from, is_broken, verify_audit_chain,
}
use e_rakshak_umat.Audit.Chain.{Linked, verify_audit_chain_iff, tampered_fields}
use e_rakshak_umat.Executors.Request.{Holding}
use e_rakshak_umat.Executors.Sessions.Windows
use e_rakshak_umat.Executors.Sessions.Android
use e_rakshak_umat.Executors.Profiles.{WindowsProfileOperationCompleteRequest}
use e_rakshak_umat.Executors.Laws.Pipeline.{OncePerType}
use e_rakshak_umat.Runs.{Principal}
use e_rakshak_umat.Tests.Fixtures.{
  runtime, windows_run, analysis, queued_db, leased, attempt, lease, leased_db,
}

abbrev holding : Holding
holding = record { stage = leased; attempt = attempt; lease = lease }

abbrev console : WindowsDynamicSession
console = record {
  id = 60;
  analysis_run_id = 1;
  stage_id = 2;
  attempt_id = 10;
  executor_id = 3;
  state = "ready";
  cape_task_id = 1;
  machine_label = "vm";
  console_url = "https://console";
  expires_at = 90;
  started_at = 0;
  last_seen_at = 0;
  ended_at = none;
  status_details = null;
}

abbrev console_db : Db
console_db = record leased_db { windows_sessions = console ∷ [] }

abbrev console_ready : Windows.WindowsSessionReadyRequest
console_ready = record {
  lease_id = 11;
  attempt_id = 10;
  cape_task_id = 1;
  machine_label = "vm";
  console_url = "https://console";
  duration_seconds = 300;
}

abbrev guest : AndroidDynamicSession
guest = record {
  id = 61;
  analysis_run_id = 1;
  stage_id = 2;
  attempt_id = 10;
  executor_id = 3;
  state = "ready";
  scan_hash = "scan";
  package_name = none;
  main_activity = none;
  guest_ip = none;
  expires_at = 90;
  started_at = 0;
  last_seen_at = 0;
  ended_at = none;
  status_details = null;
}

abbrev tap : AndroidSessionCommand
tap = record {
  id = 62;
  session_id = 61;
  requested_by_user_id = 7;
  command_type = "tap";
  payload = end;
  state = "queued";
  result = end;
  created_at = 0;
  claimed_at = none;
  completed_at = none;
}

abbrev guest_db : Db
guest_db = record leased_db { android_sessions = guest ∷ []; commands = tap ∷ [] }

abbrev polled : ℕ → Json × Db
polled now = Android.poll_session runtime now guest guest_db

abbrev profile : WindowsVmProfile
profile = record {
  id = 70;
  name = "win10";
  state = WindowsProfileState.provisioning;
  windows_version = "10";
  architecture = "x64";
  vcpus = 2;
  ram_mb = 4096;
  disk_gb = 64;
  user_profile = end;
  analysis_profile = "default";
  cape_machine_label = none;
  cape_template = "template";
  error_detail = none;
}

abbrev creation : WindowsProfileOperation
creation = record {
  id = 71;
  profile_id = 70;
  operation_type = create;
  state = WindowsProfileOperationState.leased;
  executor_id = some 3;
  lease_token_hash = some "token";
  lease_expires_at = some 90;
  native_operation_id = none;
  result = null;
  error_detail = none;
  created_at = 0;
  completed_at = none;
}

abbrev profile_db : Db
profile_db = record leased_db { profiles = profile ∷ []; operations = creation ∷ [] }

abbrev created : WindowsProfileOperationCompleteRequest
created = record {
  operation_id = 71;
  success = true;
  native_operation_id = none;
  cape_machine_label = some "vm";
  detail = none;
}

abbrev owner : Principal
owner = record { user_id = 7; roles = [] }

abbrev stranger : Principal
stranger = record { user_id = 8; roles = "officer" ∷ [] }

abbrev failed_db : Db
failed_db = record queued_db {
  runs = record windows_run { status = terminal; result = some RunResult.failed } ∷ [];
}

abbrev analyst : Principal
analyst = record { user_id = 9; roles = "analyst" ∷ [] }

abbrev report : CaseReportSnapshot
report = record {
  id = 80;
  case_id = 4;
  analysis_run_id = 1;
  revision = 1;
  verdict = Verdict.malicious;
}

abbrev reporting : AnalysisStage
reporting = record analysis { stage_type = report_generation; state = StageState.running }

abbrev report_db : Db
report_db = record queued_db { stages = reporting ∷ []; reports = report ∷ [] }

once_queued : OncePerType 1 queued_db
unfolding count
once_queued t = ground arith

-- a runtime that writes of an event the action alone
action_of : Json → String
action_of (obj (field _ _ (field _ _ (field _ (string action) _)))) = action
action_of _ = ""

abbrev actions : Env
actions = record runtime { canonical_json = action_of }

abbrev event : ℕ → String → String → String → AuditEvent
event sequence action previous_hash event_hash = record {
  sequence = sequence;
  actor_type = "executor";
  actor_id = none;
  action = action;
  target_type = "analysis_stage";
  target_id = none;
  payload = end;
  previous_hash = previous_hash;
  event_hash = event_hash;
  created_at = 0;
}

abbrev first_event : AuditEvent
first_event = event 1 "leased" zero_hash (zero_hash <> "leased")

abbrev second_event : AuditEvent
second_event = event 2 "done" (zero_hash <> "leased") (zero_hash <> "leased" <> "done")

-- the action changed, with the old hash
abbrev forged : AuditEvent
forged = event 1 "failed" zero_hash (zero_hash <> "leased")

-- and with a new one
abbrev resealed : AuditEvent
resealed = event 1 "failed" zero_hash (zero_hash <> "failed")

differ : (a b : String) → str_eq a b ≡ false → a ≢ b
differ a b h e = ground (arith, h, (eq_iff a b).1 e)

verify_audit_chain_example :
    (verify_audit_chain actions queued_db ≡ none) ↔ Linked actions zero_hash queued_db.audit
verify_audit_chain_example = verify_audit_chain_iff actions queued_db

tampered_fields_example : verify_from actions zero_hash (forged ∷ second_event ∷ []) ≡ some 1
unfolding verify_from is_broken calculate_event_hash event_fields action_of
tampered_fields_example =
    tampered_fields actions [] (second_event ∷ []) first_event forged refl
      (differ (zero_hash <> "leased") (zero_hash <> "failed") refl)
