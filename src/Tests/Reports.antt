-- ===== src/Tests/Reports.antt =====
-- What readers see of a report, and verdicts.
use e_rakshak_umat.Prelude.{
  ◌≤◌, ◌≡◌, ◌↔◌, String, true, false, ◌&&◌, none, some, [], ◌∷◌, ◌++◌, leb, str_eq, if◌then◌else◌,
}
use e_rakshak_umat.Prelude.Tables.{select}
use e_rakshak_umat.Json.{null, string, field, end, lookup}
use e_rakshak_umat.Models.{Verdict, StageState, platform_adaptation}
use e_rakshak_umat.Models.Rows.{AnalysisStage}
use e_rakshak_umat.Reporting.Visible.{Report, filter_report_for_roles}
use e_rakshak_umat.Reporting.Visible.Laws.{level, clearance, filter-IsSafe}
use e_rakshak_umat.Reporting.Findings.{C2Finding, Finding, verdict}
use e_rakshak_umat.Reporting.Findings.Laws.{IsClean, severity, verdict_mono, verdict-IsClean_iff}
use e_rakshak_umat.Tests.Fixtures.{analysis}

abbrev report : Report
report = record {
  artifacts =
      field "access_tier" (string "officer") end
      ∷ field "access_tier" (string "administrator") end
      ∷ [];
  entries = field "verdict" (string "malicious") (field "technical" null end);
}

filter-IsSafe_example :
    ((filter_report_for_roles report ("officer" ∷ [])).artifacts
      ≡ select (λ a. leb (level a) (clearance ("officer" ∷ []))) report.artifacts)
    × ((k : String)
        → lookup k (filter_report_for_roles report ("officer" ∷ [])).entries ≡ (
            if str_eq "technical" k && leb (clearance ("officer" ∷ [])) 0
            then none
            else lookup k report.entries))
filter-IsSafe_example = filter-IsSafe report ("officer" ∷ [])

abbrev beacon : C2Finding
beacon = record {
  finding_kind = "beacon";
  confidence = "unconfirmed";
  capped_by_caveat = some "network_process_not_sample";
  details = null;
}

abbrev note : Finding
note = record { confidence = "weak"; kind = "dns"; details = end }

verdict_mono_example :
    severity (verdict [] [] (analysis ∷ []) true true true)
    ≤ severity
        (verdict ([] ++ note ∷ []) ([] ++ "analysis_timed_out" ∷ []) (analysis ∷ []) true true true)
verdict_mono_example =
    verdict_mono [] (note ∷ []) [] ("analysis_timed_out" ∷ []) (analysis ∷ []) true true true

abbrev finished : AnalysisStage
finished = record analysis { state = StageState.completed }

verdict-IsClean_example :
    (verdict [] []
        (finished ∷ record finished { stage_type = platform_adaptation } ∷ [])
        true
        false
        false
      ≡ Verdict.no_malicious_activity_observed)
    ↔ IsClean [] []
        (finished ∷ record finished { stage_type = platform_adaptation } ∷ [])
        true
        false
        false
verdict-IsClean_example =
    verdict-IsClean_iff [] [] (finished ∷ record finished { stage_type = platform_adaptation } ∷ [])
      true false false
