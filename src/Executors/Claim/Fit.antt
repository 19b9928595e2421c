-- ===== src/Executors/Claim/Fit.antt =====
-- The checks of claim_stage, src/umat/api/executor_routes.py, that come before a stage is looked
-- for: the scope of the executor, the platforms and the capabilities that it has published.
use e_rakshak_umat.Prelude.{
  String, Bool, true, false, not, ◌&&◌, ◌||◌, Option, some, List, [], ◌∷◌, ◌==◌, str_eq, contains,
  if◌then◌else◌, none, characters,
}
use e_rakshak_umat.Prelude.Tables.{select}
use e_rakshak_umat.Json.{
  Json, Items, Fields, nil, cons, null, bool, num, string, arr, obj, end, field, lookup,
}
use e_rakshak_umat.Models.Rows.{Executor}
use e_rakshak_umat.Environment.{Env}

pub record ClaimRequest : Type 0 where
  pub stage_types : List String
  pub platforms : List String

-- set(requested).intersection(scope); the order of a set is not used
unfoldable pub allowed_types : Executor → ClaimRequest → List String
allowed_types executor body =
    select (λ t. contains t executor.supported_stage_types) body.stage_types

abbrev as_text : Env → Json → String
as_text env (string s) = s
as_text env j = env.str_value j

abbrev as_texts : Env → Items → List String
as_texts env nil = []
as_texts env (cons j js) = as_text env j ∷ as_texts env js

abbrev keys : Fields → List String
keys end = []
keys (field k v r) = k ∷ keys r

-- {str(value) for value in values}: of a text its characters, of an object its keys
unfoldable listed : Env → Option Json → List String
unfolding characters
listed env none = []
listed env (some (arr js)) = as_texts env js
listed env (some (string s)) = characters s
listed env (some (obj r)) = keys r
listed env (some _) = []

-- the values that a loop refuses with a TypeError
abbrev is_not_iterable : Option Json → Bool
is_not_iterable (some null) = true
is_not_iterable (some (bool b)) = true
is_not_iterable (some (num n)) = true
is_not_iterable _ = false

-- the platforms that the executor has published are no collection, and the request fails
unfoldable pub is_unreadable : Fields → Bool
is_unreadable capabilities = is_not_iterable (lookup "platforms" capabilities)

-- the platforms that the executor has published
unfoldable pub advertised : Env → Fields → List String
unfolding listed
advertised env capabilities = listed env (lookup "platforms" capabilities)

abbrev narrowed : List String → List String → List String
narrowed [] advertised = advertised
narrowed (p ∷ ps) advertised = select (λ q. contains q advertised) (p ∷ ps)

abbrev compatible_of : List String → List String → List String
compatible_of requested [] = requested
compatible_of requested (a ∷ as') = narrowed requested (a ∷ as')

-- the platforms that the executor may be given a run of; none listed means any
unfoldable pub compatible : Env → ClaimRequest → Fields → List String
unfolding advertised
compatible env body capabilities = compatible_of body.platforms (advertised env capabilities)

abbrev is_nil : List String → Bool
is_nil [] = true
is_nil (_ ∷ _) = false

-- `value == True`, which holds of the number 1 too
abbrev equals_true : Option Json → Bool
equals_true (some (bool b)) = b
equals_true (some (num n)) = n == 1
equals_true _ = false

abbrev equals_text : String → Option Json → Bool
equals_text s (some (string t)) = str_eq t s
equals_text s _ = false

-- the requirements of a platform
unfoldable pub meets : Fields → String → Bool
meets capabilities platform =
    if str_eq platform "windows"
    then equals_true (lookup "cape_native" capabilities)
      && equals_text "1.0" (lookup "handoff_schema" capabilities)
    else if str_eq platform "android"
    then equals_true (lookup "ephemeral_avd" capabilities)
      && (equals_true (lookup "pcap_capture" capabilities)
          && equals_text "v1" (lookup "mobsf_api" capabilities))
    else true

unfoldable pub meets_all : Fields → List String → Bool
meets_all capabilities [] = true
meets_all capabilities (p ∷ ps) = meets capabilities p && meets_all capabilities ps

abbrev or_else : List String → List String → List String
or_else [] ys = ys
or_else (x ∷ xs) ys = x ∷ xs

-- platform-scoped work wants published platforms
platforms_known : Env → Executor → ClaimRequest → Fields → Bool
platforms_known env executor body capabilities =
    let allowed = allowed_types executor body in
    not (
      (contains "platform_analysis" allowed || contains "c2_analysis" allowed)
      && is_nil (advertised env capabilities))

-- a platform that was asked for must be among the published ones, if any are published
platforms_match : Env → ClaimRequest → Fields → Bool
platforms_match env body capabilities =
    is_nil (advertised env capabilities)
    || is_nil body.platforms
    || not (is_nil (compatible env body capabilities))

c2_schema_fits : Executor → ClaimRequest → Fields → Bool
c2_schema_fits executor body capabilities =
    not (contains "c2_analysis" (allowed_types executor body))
    || equals_text "1.3" (lookup "native_event_schema_version" capabilities)

platform_requirements : Env → Executor → ClaimRequest → Fields → Bool
platform_requirements env executor body capabilities =
    not (contains "platform_analysis" (allowed_types executor body))
    || str_eq executor.executor_type "fake"
    || meets_all capabilities
        (or_else (compatible env body capabilities) (advertised env capabilities))

-- none of the early returns is taken
unfoldable pub fits : Env → Executor → ClaimRequest → Fields → Bool
unfolding platforms_known platforms_match c2_schema_fits platform_requirements
fits env executor body capabilities =
    platforms_known env executor body capabilities
    && (platforms_match env body capabilities
        && (c2_schema_fits executor body capabilities
            && platform_requirements env executor body capabilities))
