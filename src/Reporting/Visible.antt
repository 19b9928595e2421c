-- ===== src/Reporting/Visible.antt =====
-- What of a report a reader gets, by his roles; filter_report_for_roles of
-- src/umat/reporting/aggregator.py.
pub mod Laws
use e_rakshak_umat.Prelude.{
  String, Bool, true, false, ◌||◌, Option, none, some, List, [], ◌∷◌, str_eq, contains,
  if◌then◌else◌,
}
use e_rakshak_umat.Json.{Json, string, Fields, end, field, lookup}

-- a report: `report.get("artifacts", [])`, a list of dicts, and the other entries
pub record Report : Type 0 where
  pub artifacts : List Fields
  pub entries : Fields

-- dict.pop(key, None)
unfoldable pub pop : String → Fields → Fields
pop k end = end
pop k (field j v r) = if str_eq j k then pop k r else field j v (pop k r)

unfoldable pub is_technical : List String → Bool
is_technical roles = contains "analyst" roles || contains "administrator" roles

unfoldable pub allowed_tiers : List String → List String
allowed_tiers roles =
    if contains "administrator" roles
    then "officer" ∷ "analyst" ∷ "administrator" ∷ []
    else if contains "analyst" roles
    then "officer" ∷ "analyst" ∷ []
    else "officer" ∷ []

-- value in tiers
abbrev pub is_among : List String → Option Json → Bool
is_among tiers (some (string t)) = contains t tiers
is_among tiers _ = false

unfoldable pub visible_artifacts : List String → List Fields → List Fields
visible_artifacts tiers [] = []
visible_artifacts tiers (a ∷ r) =
    let rest = visible_artifacts tiers r in
    if is_among tiers (lookup "access_tier" a) then a ∷ rest else rest

unfoldable pub filter_report_for_roles : Report → List String → Report
filter_report_for_roles report roles = record {
  artifacts = visible_artifacts (allowed_tiers roles) report.artifacts;
  entries = if is_technical roles then report.entries else pop "technical" report.entries;
}
