-- ===== src/Reporting/Findings/Network.antt =====
-- How network activity without a process of the sample counts.
use e_rakshak_umat.Prelude.{
  ◌≤◌, ◌<◌, ◌≡◌, ◌⊎◌, refl, ap, ◌∙◌, inl, inr, String, Bool, true, false, List, [], ◌∷◌, str_eq,
  eq_iff, arith, Bool-cases,
}
use e_rakshak_umat.Json.{Fields}
use e_rakshak_umat.Models.{Verdict}
use e_rakshak_umat.Models.Rows.{AnalysisStage}
use e_rakshak_umat.Reporting.Findings.{
  confidence, C2Finding, c2_lacks_sample_process, effective_c2_confidence, proves_malice, judge,
  any, verdict,
}
use e_rakshak_umat.Reporting.Findings.Laws.{
  two_weak, zero_allowlisted, one_unconfirmed, no_malice_of_low,
}

-- Network activity without a process of the sample counts at most as weak whatever the
-- command-and-control analysis said, so that it never proves a malicious run; any other activity
-- keeps its confidence.
pub effective_c2_confidence_lem :
    (item : C2Finding) (kind : String) (details : Fields)
    → ((c2_lacks_sample_process item ≡ true)
        × (confidence (effective_c2_confidence item) ≤ 2)
        × (proves_malice
              (record { confidence = effective_c2_confidence item; kind = kind; details = details })
            ≡ false))
      ⊎ ((c2_lacks_sample_process item ≡ false) × (effective_c2_confidence item ≡ item.confidence))
unfolding effective_c2_confidence proves_malice
effective_c2_confidence_lem item kind details = elim (Bool-cases (c2_lacks_sample_process item)) [
  | inr e ↦ rw e (inr (refl, refl))
  | inl e ↦ rw e (elim (Bool-cases (str_eq item.confidence "allowlisted")) [
    | inl a ↦ rw (a) (
        let zero_rank : confidence item.confidence ≡ 0 =
          ap confidence ((eq_iff item.confidence "allowlisted").0 a) ∙ zero_allowlisted in
        inl (refl, omega arith, no_malice_of_low _ (omega arith)))
    | inr a ↦ rw a (inl (refl, omega (arith, two_weak), refl))
  ])
]

lifted-weak :
    (item : C2Finding)
    → c2_lacks_sample_process item ≡ true
    → item.confidence ≡ "unconfirmed"
    → effective_c2_confidence item ≡ "weak"
unfolding effective_c2_confidence
lifted-weak item lacks un =
    let other : str_eq item.confidence "allowlisted" ≡ false =
      ap (λ c. str_eq c "allowlisted") un in
    rw lacks (rw other refl)

-- Activity without a process of the sample that the command-and-control analysis left unconfirmed
-- is lifted to weak, and makes a run that has nothing against it suspicious.
pub unconfirmed_lifted :
    (item : C2Finding) (kind : String) (details : Fields) (caveats : List String)
    (stages : List AnalysisStage) (has_c2 requires_c2 : Bool)
    → c2_lacks_sample_process item ≡ true
    → item.confidence ≡ "unconfirmed"
    → (confidence item.confidence < confidence (effective_c2_confidence item))
      × (verdict
            (record { confidence = effective_c2_confidence item; kind = kind; details = details }
              ∷ [])
            caveats
            stages
            true
            has_c2
            requires_c2
          ≡ Verdict.suspicious)
unfolding verdict judge any proves_malice
unconfirmed_lifted item kind details caveats stages has_c2 requires_c2 lacks un =
    rw (lifted-weak item lacks un) (
      let one : confidence item.confidence ≡ 1 = ap confidence un ∙ one_unconfirmed in
          omega (arith, two_weak),
      rw two_weak refl,
    )
