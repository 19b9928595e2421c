-- ===== src/Reporting/Findings/Laws.antt =====
-- What the verdict of a run says of its findings, caveats and stages.
use e_rakshak_umat.Prelude.{
  ℕ, ◌≤◌, ◌<◌, ◌≡◌, ◌↔◌, ◌⊎◌, refl, ap, ◌∙◌, inl, inr, String, Bool, true, false, ◌&&◌, ◌||◌, not,
  List, [], ◌∷◌, ◌++◌, str_eq, eq_iff, contains, arith, Bool-cases,
}
use e_rakshak_umat.Prelude.Tables.{All}
use e_rakshak_umat.Models.{
  Verdict, platform_analysis, platform_adaptation, c2_analysis, c2_adaptation,
}
use e_rakshak_umat.Models.Rows.{AnalysisStage}
use e_rakshak_umat.Reporting.Findings.{
  confidence, negative_blocking_caveats, Finding, proves_malice, judge, platform_missing, any,
  is_weak, blocks_negative, is_finished, mandatory_done, verdict,
}

-- some member passes
module _ {A : Type 0} where
  abbrev pub Any : (A → Bool) → List A → Type 0
  Any p [] = ⊥
  Any p (x ∷ xs) = (p x ≡ true) ⊎ Any p xs

module _ {A : Type 0} (p : A → Bool) where
  any-none : (xs : List A) → any p xs ≡ false → All (λ x. p x ≡ false) xs
  unfolding any
  any-none [] h = tt
  any-none (x ∷ xs) h = (ground (arith, h), any-none xs (ground (arith, h)))

  none-any : (xs : List A) → All (λ x. p x ≡ false) xs → any p xs ≡ false
  unfolding any
  none-any [] h = refl
  none-any (x ∷ xs) h = ground (arith, none-any xs h.1)

  Any-any : (xs : List A) → any p xs ≡ true → Any p xs
  unfolding any
  Any-any [] h = cc
  Any-any (x ∷ xs) h = elim (Bool-cases (p x)) [
    | inl e ↦ inl e
    | inr e ↦ inr (Any-any xs (ground (arith, h, e)))
  ]

  any-Any : (xs : List A) → Any p xs → any p xs ≡ true
  unfolding any
  any-Any [] h = absurd h
  any-Any (x ∷ xs) (inl e) = ground (arith, e)
  any-Any (x ∷ xs) (inr h) = ground (arith, any-Any xs h)

  any-append : (xs ys : List A) → any p (xs ++ ys) ≡ any p xs || any p ys
  unfolding any
  any-append [] ys = refl
  any-append (x ∷ xs) ys = ground (arith, any-append xs ys)

-- from the cleanest
abbrev pub severity : Verdict → ℕ
severity Verdict.no_malicious_activity_observed = 0
severity Verdict.inconclusive = 1
severity Verdict.suspicious = 2
severity Verdict.malicious = 3
severity Verdict.failed = 4

or_assoc : (a b c : Bool) → a || (b || c) ≡ (a || b) || c
or_assoc true b c = refl
or_assoc false b c = refl

judge_mono :
    (failed a b c d e f done : Bool)
    → severity (judge failed a c e done) ≤ severity (judge failed (a || b) (c || d) (e || f) done)
unfolding judge
judge_mono true a b c d e f done = ground arith
judge_mono false true b c d e f done = ground arith
judge_mono false false true c d e f done = ground arith
judge_mono false false false c d e f done = ground arith

-- More findings and more caveats never give a cleaner verdict.
pub verdict_mono :
    (findings more : List Finding) (caveats others : List String) (stages : List AnalysisStage)
    (has_platform has_c2 requires_c2 : Bool)
    → severity (verdict findings caveats stages has_platform has_c2 requires_c2)
      ≤ severity
          (verdict (findings ++ more) (caveats ++ others) stages has_platform has_c2 requires_c2)
unfolding verdict
verdict_mono findings more caveats others stages has_platform has_c2 requires_c2 =
    rw
      (
        any-append proves_malice findings more,
        any-append is_weak findings more,
        any-append blocks_negative caveats others,
        or_assoc (requires_c2 && not has_c2) (any blocks_negative caveats)
            (any blocks_negative others),
        or_assoc (not has_platform) ((requires_c2 && not has_c2) || any blocks_negative caveats)
            (any blocks_negative others),
      )
      (judge_mono (platform_missing has_platform stages) (any proves_malice findings)
        (any proves_malice more) (any is_weak findings) (any is_weak more)
        (not has_platform || ((requires_c2 && not has_c2) || any blocks_negative caveats))
        (any blocks_negative others) (mandatory_done requires_c2 stages))

-- What a verdict of no malicious activity rests on.
pub record IsClean (findings : List Finding) (caveats : List String) (stages : List AnalysisStage)
    (has_platform has_c2 requires_c2 : Bool) : Type 0 where
  pub platform : has_platform ≡ true
  pub c2 : (requires_c2 ≡ false) ⊎ (has_c2 ≡ true)
  pub findings_low : All (λ f. confidence f.confidence < 2) findings
  pub caveats_free : All (λ c. contains c negative_blocking_caveats ≡ false) caveats
  pub analysed :
      Any (is_finished platform_analysis) stages × Any (is_finished platform_adaptation) stages
  pub c2_analysed :
      (requires_c2 ≡ false)
      ⊎ (Any (is_finished c2_analysis) stages × Any (is_finished c2_adaptation) stages)

judge-clean :
    (failed malice weak lacking done : Bool)
    → judge failed malice weak lacking done ≡ Verdict.no_malicious_activity_observed
    → (weak ≡ false) × (lacking ≡ false) × (done ≡ true)
unfolding judge
judge-clean failed malice weak lacking done h = ground arith

pub two_weak : confidence "weak" ≡ 2
unfolding confidence
two_weak = refl

pub zero_allowlisted : confidence "allowlisted" ≡ 0
unfolding confidence
zero_allowlisted = refl

pub one_unconfirmed : confidence "unconfirmed" ≡ 1
unfolding confidence
one_unconfirmed = refl

four_confirmed : confidence "confirmed" ≡ 4
unfolding confidence
four_confirmed = refl

low_of_weak : (f : Finding) → is_weak f ≡ false → confidence f.confidence < 2
low_of_weak f h = ground (arith, h, two_weak)

weak_of_low : (f : Finding) → confidence f.confidence < 2 → is_weak f ≡ false
weak_of_low f h = ground (arith, two_weak)

pub no_malice_of_low : (f : Finding) → confidence f.confidence < 2 → proves_malice f ≡ false
unfolding proves_malice
no_malice_of_low f h = elim (Bool-cases (str_eq f.confidence "confirmed")) [
  | inl e ↦
      let four : confidence f.confidence ≡ 4 =
        ap confidence ((eq_iff f.confidence "confirmed").0 e) ∙ four_confirmed in
      absurd (omega arith)
  | inr e ↦ rw e refl
]

module _ {A : Type 0} {P Q : A → Type 0} where
  All-map : ((x : A) → P x → Q x) → (xs : List A) → All P xs → All Q xs
  All-map f [] h = tt
  All-map f (x ∷ xs) h = (f x h.0, All-map f xs h.1)

lacking_parts :
    (has_platform has_c2 requires_c2 blocked : Bool)
    → not has_platform || ((requires_c2 && not has_c2) || blocked) ≡ false
    → (has_platform ≡ true) × ((requires_c2 ≡ false) ⊎ (has_c2 ≡ true)) × (blocked ≡ false)
lacking_parts true true r blocked h = (refl, inr refl, ground (arith, h))
lacking_parts true false false blocked h = (refl, inl refl, ground (arith, h))
lacking_parts true false true blocked h = cc
lacking_parts false has_c2 r blocked h = cc

mandatory_parts :
    (requires_c2 : Bool) (stages : List AnalysisStage)
    → mandatory_done requires_c2 stages ≡ true
    → (Any (is_finished platform_analysis) stages × Any (is_finished platform_adaptation) stages)
      × ((requires_c2 ≡ false)
          ⊎ (Any (is_finished c2_analysis) stages × Any (is_finished c2_adaptation) stages))
unfolding mandatory_done
mandatory_parts false stages h = (
  (
    Any-any (is_finished platform_analysis) stages (ground (arith, h)),
    Any-any (is_finished platform_adaptation) stages (ground (arith, h)),
  ),
  inl refl,
)
mandatory_parts true stages h = (
  (
    Any-any (is_finished platform_analysis) stages (ground (arith, h)),
    Any-any (is_finished platform_adaptation) stages (ground (arith, h)),
  ),
  inr (
    Any-any (is_finished c2_analysis) stages (ground (arith, h)),
    Any-any (is_finished c2_adaptation) stages (ground (arith, h)),
  ),
)

mandatory_whole :
    (requires_c2 : Bool) (stages : List AnalysisStage)
    → Any (is_finished platform_analysis) stages × Any (is_finished platform_adaptation) stages
    → (requires_c2 ≡ false)
      ⊎ (Any (is_finished c2_analysis) stages × Any (is_finished c2_adaptation) stages)
    → mandatory_done requires_c2 stages ≡ true
unfolding mandatory_done
mandatory_whole r stages (a, b) (inl e) =
    rw
      (
        any-Any (is_finished platform_analysis) stages a,
        any-Any (is_finished platform_adaptation) stages b,
        e,
      )
      refl
mandatory_whole r stages (a, b) (inr (c, d)) =
    rw
      (
        any-Any (is_finished platform_analysis) stages a,
        any-Any (is_finished platform_adaptation) stages b,
        any-Any (is_finished c2_analysis) stages c,
        any-Any (is_finished c2_adaptation) stages d,
      )
      (ground arith)

module _ (findings : List Finding) (caveats : List String) (stages : List AnalysisStage)
    (has_platform has_c2 requires_c2 : Bool) where
  IsClean-verdict :
      verdict findings caveats stages has_platform has_c2 requires_c2
        ≡ Verdict.no_malicious_activity_observed
      → IsClean findings caveats stages has_platform has_c2 requires_c2
  unfolding verdict
  IsClean-verdict h =
      let flags = judge-clean _ _ _ _ _ h in
      let parts =
        lacking_parts has_platform has_c2 requires_c2 (any blocks_negative caveats) flags.1 in
      let done = mandatory_parts requires_c2 stages flags.2 in
      record {
        platform = parts.0;
        c2 = parts.1;
        findings_low = All-map low_of_weak findings (any-none is_weak findings flags.0);
        caveats_free = any-none blocks_negative caveats parts.2;
        analysed = done.0;
        c2_analysed = done.1;
      }

  verdict-IsClean :
      IsClean findings caveats stages has_platform has_c2 requires_c2
      → verdict findings caveats stages has_platform has_c2 requires_c2
        ≡ Verdict.no_malicious_activity_observed
  unfolding verdict judge
  verdict-IsClean c =
      rw
        (
          c.platform,
          none-any proves_malice findings (All-map no_malice_of_low findings c.findings_low),
          none-any is_weak findings (All-map weak_of_low findings c.findings_low),
          none-any blocks_negative caveats c.caveats_free,
          mandatory_whole requires_c2 stages c.analysed c.c2_analysed,
        )
        (ground arith)

  -- A run is reported without malicious activity exactly if its platform was adapted, and its
  -- command-and-control analysis too where the run asks for it; no finding has a confidence of weak or above; no caveat
  -- speaks against a negative verdict; and the stages of these analyses ended completed or partial.
  pub verdict-IsClean_iff :
      (verdict findings caveats stages has_platform has_c2 requires_c2
        ≡ Verdict.no_malicious_activity_observed)
      ↔ IsClean findings caveats stages has_platform has_c2 requires_c2
  verdict-IsClean_iff = (IsClean-verdict, verdict-IsClean)
