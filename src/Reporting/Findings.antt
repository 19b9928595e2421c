-- ===== src/Reporting/Findings.antt =====
-- The confidence of a finding and the verdict of a run; _confidence, _c2_lacks_sample_process,
-- _effective_c2_confidence and CaseAggregator._verdict of src/umat/reporting/aggregator.py.
pub mod Laws
pub mod Network
use e_rakshak_umat.Prelude.{
  ℕ, String, Bool, true, false, not, ◌&&◌, ◌||◌, Option, none, some, List, [], ◌∷◌, leb, str_eq,
  is_some, is_none, contains, if◌then◌else◌,
}
use e_rakshak_umat.Prelude.Tables.{scalar}
use e_rakshak_umat.Json.{Json, string, bool, obj, arr, Fields, end, field, Items, nil, cons, lookup}
use e_rakshak_umat.Models.{
  Verdict, StageType, StageState, type_eq, state_eq, platform_analysis, platform_adaptation,
  c2_analysis, c2_adaptation,
}
use e_rakshak_umat.Models.Rows.{AnalysisStage}

-- CONFIDENCE_RANK; a value that it does not have counts 1
unfoldable pub confidence : String → ℕ
confidence value =
    if str_eq value "allowlisted"
    then 0
    else if str_eq value "unconfirmed"
    then 1
    else if str_eq value "weak"
    then 2
    else if str_eq value "strong"
    then 3
    else if str_eq value "confirmed"
    then 4
    else 1

abbrev pub malicious_kinds : List String
malicious_kinds =
    "command_and_control" ∷ "credential_theft" ∷ "exfil" ∷ "malware" ∷ "ransomware" ∷ "trojan" ∷ []

abbrev pub negative_blocking_caveats : List String
negative_blocking_caveats =
    "android_api_monitoring_failed" ∷ "application_data_collection_failed" ∷ "analysis_timed_out"
    ∷ "c2_analysis_failed" ∷ "host_telemetry_degraded" ∷ "network_capture_incomplete"
    ∷ "static_analysis_only" ∷ "stimulation_incomplete" ∷ []

pub record C2Finding : Type 0 where
  pub finding_kind : String
  pub confidence : String
  pub capped_by_caveat : Option String
  pub details : Json

-- isinstance(ref, dict) and ref.get("sample_lineage") is True
abbrev is_true : Option Json → Bool
is_true (some (bool b)) = b
is_true _ = false

abbrev pub is_of_sample : Json → Bool
is_of_sample (obj ref) = is_true (lookup "sample_lineage" ref)
is_of_sample _ = false

unfoldable pub any_of_sample : Items → Bool
any_of_sample nil = false
any_of_sample (cons ref refs) = is_of_sample ref || any_of_sample refs

-- `for ref in refs or []`, where the references are a list or None
abbrev pub refs_of_sample : Option Json → Bool
refs_of_sample (some (arr refs)) = any_of_sample refs
refs_of_sample _ = false

abbrev pub evidence_refs : Json → Option Json
evidence_refs (obj details) = lookup "evidence_refs" details
evidence_refs _ = none

abbrev is_unattributed : Option String → Bool
is_unattributed none = false
is_unattributed (some c) =
    str_eq c "network_process_not_sample" || str_eq c "network_process_unattributed"

unfoldable pub c2_lacks_sample_process : C2Finding → Bool
c2_lacks_sample_process item =
    if str_eq item.finding_kind "static_ioc"
    then false
    else if is_unattributed item.capped_by_caveat
    then true
    else str_eq item.finding_kind "dns" && not (refs_of_sample (evidence_refs item.details))

unfoldable pub effective_c2_confidence : C2Finding → String
effective_c2_confidence item =
    if not (c2_lacks_sample_process item) || str_eq item.confidence "allowlisted"
    then item.confidence
    else "weak"

-- an item of the list of findings, as `_findings` writes it
pub record Finding : Type 0 where
  pub confidence : String
  pub kind : String
  pub details : Fields  -- `finding.get("details") or {}`

abbrev is_text : String → Option Json → Bool
is_text t (some (string s)) = str_eq s t
is_text t _ = false

unfoldable pub configured_malicious : Finding → Bool
configured_malicious f =
    is_text "malicious" (lookup "verdict" f.details) || is_true (lookup "malicious" f.details)

unfoldable pub proves_malice : Finding → Bool
proves_malice f =
    str_eq f.confidence "confirmed" && (contains f.kind malicious_kinds || configured_malicious f)

-- any(test(item) for item in items)
module _ {A : Type 0} where
  unfoldable pub any : (A → Bool) → List A → Bool
  any p [] = false
  any p (x ∷ xs) = p x || any p xs

abbrev pub is_weak : Finding → Bool
is_weak f = leb (confidence "weak") (confidence f.confidence)

abbrev pub blocks_negative : String → Bool
blocks_negative c = contains c negative_blocking_caveats

-- the first platform analysis of the run has failed
abbrev platform_failed : Option AnalysisStage → Bool
platform_failed none = false
platform_failed (some s) = state_eq s.state StageState.failed

abbrev pub is_finished : StageType → AnalysisStage → Bool
is_finished t s =
    type_eq s.stage_type t
    && (state_eq s.state StageState.completed || state_eq s.state StageState.partial)

-- mandatory.issubset(completed)
unfoldable pub mandatory_done : Bool → List AnalysisStage → Bool
mandatory_done requires_c2 stages =
    any (is_finished platform_analysis) stages
    && (any (is_finished platform_adaptation) stages
        && (not requires_c2
            || (any (is_finished c2_analysis) stages && any (is_finished c2_adaptation) stages)))

-- the returns of `_verdict` in their order, by the tests before them
unfoldable pub judge : Bool → Bool → Bool → Bool → Bool → Verdict
judge failed malice weak lacking done =
    if failed
    then Verdict.failed
    else if malice
    then Verdict.malicious
    else if weak
    then Verdict.suspicious
    else if lacking
    then Verdict.inconclusive
    else if done
    then Verdict.no_malicious_activity_observed
    else Verdict.inconclusive

abbrev pub platform_missing : Bool → List AnalysisStage → Bool
platform_missing has_platform stages =
    not has_platform
    && platform_failed (scalar (λ s. type_eq s.stage_type platform_analysis) stages)

unfoldable pub verdict :
    List Finding → List String → List AnalysisStage → Bool → Bool → Bool → Verdict
verdict findings caveats stages has_platform has_c2 requires_c2 =
    judge (platform_missing has_platform stages) (any proves_malice findings) (any is_weak findings)
      (not has_platform || ((requires_c2 && not has_c2) || any blocks_negative caveats))
      (mandatory_done requires_c2 stages)
