-- ===== src/Reporting/Visible/Laws.antt =====
-- No reader sees more of a report than his roles allow.
use e_rakshak_umat.Prelude.{
  ℕ, ◌≤◌, leb, ◌≡◌, refl, sym, ap, ◌∙◌, inl, inr, String, true, ◌&&◌, Option, none, some, List, [],
  ◌∷◌, str_eq, eq_iff, contains, arith, Bool-cases, if◌then◌else◌,
}
use e_rakshak_umat.Prelude.Tables.{select}
use e_rakshak_umat.Json.{Json, null, bool, num, string, arr, obj, Fields, end, field, lookup}
use e_rakshak_umat.Reporting.Visible.{
  Report, pop, is_technical, allowed_tiers, is_among, visible_artifacts, filter_report_for_roles,
}

-- officer, analyst and administrator, from below
abbrev pub clearance : List String → ℕ
clearance roles =
    if contains "administrator" roles then 2 else if contains "analyst" roles then 1 else 0

-- any other tier is above every reader
abbrev pub tier_level : Option Json → ℕ
tier_level (some (string t)) =
    if str_eq "officer" t
    then 0
    else if str_eq "analyst" t
    then 1
    else if str_eq "administrator" t
    then 2
    else 3
tier_level _ = 3

abbrev pub level : Fields → ℕ
level a = tier_level (lookup "access_tier" a)

is_among-text :
    (t : String) (roles : List String)
    → contains t (allowed_tiers roles) ≡ leb (tier_level (some (string t))) (clearance roles)
unfolding allowed_tiers contains
is_among-text t roles = elim (Bool-cases (contains "administrator" roles)) [
  | inl e ↦ rw e (ground arith)
  | inr e ↦ rw e (ground arith)
]

is_among-level :
    (roles : List String) (v : Option Json)
    → is_among (allowed_tiers roles) v ≡ leb (tier_level v) (clearance roles)
is_among-level roles none = ground arith
is_among-level roles (some (string t)) = is_among-text t roles
is_among-level roles (some null) = ground arith
is_among-level roles (some (bool b)) = ground arith
is_among-level roles (some (num n)) = ground arith
is_among-level roles (some (arr x)) = ground arith
is_among-level roles (some (obj x)) = ground arith

is_technical-level : (roles : List String) → is_technical roles ≡ leb 1 (clearance roles)
unfolding is_technical
is_technical-level roles = ground arith

visible-select :
    (roles : List String) (artifacts : List Fields)
    → visible_artifacts (allowed_tiers roles) artifacts
      ≡ select (λ a. leb (level a) (clearance roles)) artifacts
unfolding visible_artifacts select
visible-select roles [] = refl
visible-select roles (a ∷ r) =
    rw (is_among-level roles (lookup "access_tier" a), visible-select roles r) refl

lookup-pop :
    (k j : String) (fs : Fields) → lookup k (pop j fs) ≡ (if str_eq j k then none else lookup k fs)
unfolding lookup pop
lookup-pop k j end = ground arith
lookup-pop k j (field i v r) = ground (arith, lookup-pop k j r, eq_iff i j, eq_iff i k, eq_iff j k)

-- A reader gets exactly the artifacts that are not above his clearance, the technical part only
-- with a clearance above an officer's, and every other entry as it is.
pub filter-IsSafe :
    (report : Report) (roles : List String)
    → ((filter_report_for_roles report roles).artifacts
        ≡ select (λ a. leb (level a) (clearance roles)) report.artifacts)
      × ((k : String)
          → lookup k (filter_report_for_roles report roles).entries ≡ (
              if str_eq "technical" k && leb (clearance roles) 0
              then none
              else lookup k report.entries))
unfolding filter_report_for_roles
filter-IsSafe report roles = (
  visible-select roles report.artifacts,
  λ k. ground (arith, is_technical-level roles, lookup-pop k "technical" report.entries),
)

visible-narrower :
    (wide narrow : List String) (artifacts : List Fields)
    → ((v : Option Json) → is_among narrow v ≡ true → is_among wide v ≡ true)
    → visible_artifacts narrow (visible_artifacts wide artifacts)
      ≡ visible_artifacts narrow artifacts
unfolding visible_artifacts
visible-narrower wide narrow [] h = refl
visible-narrower wide narrow (a ∷ r) h =
    let tail = visible-narrower wide narrow r h in
    elim (Bool-cases (is_among narrow (lookup "access_tier" a))) [
      | inl e ↦ rw (h (lookup "access_tier" a) e) (rw e (ap (λ x. a ∷ x) tail))
      | inr e ↦ rw e (elim (Bool-cases (is_among wide (lookup "access_tier" a))) [
        | inl w ↦ rw w (rw e tail)
        | inr w ↦ rw w tail
      ])
    ]

wider : (n low high : ℕ) → low ≤ high → leb n low ≡ true → leb n high ≡ true
wider n low high h e = ground arith

among-wider :
    (first second : List String)
    → clearance second ≤ clearance first
    → (v : Option Json) → is_among (allowed_tiers second) v ≡ true
    → is_among (allowed_tiers first) v ≡ true
among-wider first second h v e =
    is_among-level first v
    ∙ wider (tier_level v) (clearance second) (clearance first) h
        (sym (is_among-level second v) ∙ e)

pop-pop : (k : String) (fs : Fields) → pop k (pop k fs) ≡ pop k fs
unfolding pop
pop-pop k end = refl
pop-pop k (field j v r) = ground (arith, pop-pop k r)

-- A report that was filtered for one reader is, for a reader with no more clearance, as good as the
-- report itself: filtering both ways gives the same. So filtering twice for one reader is filtering
-- once.
pub filter-filter :
    (report : Report) (first second : List String)
    → clearance second ≤ clearance first
    → filter_report_for_roles (filter_report_for_roles report first) second
      ≡ filter_report_for_roles report second
unfolding filter_report_for_roles
filter-filter report first second h = ground (
  arith,
  visible-narrower (allowed_tiers first) (allowed_tiers second) report.artifacts
      (among-wider first second h),
  is_technical-level first,
  is_technical-level second,
  pop-pop "technical" report.entries,
)
