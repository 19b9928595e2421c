-- ===== src/Environment.antt =====
-- What the control plane takes from outside the repository: the runtime's text, time, digest and
-- encoding functions and the signature check of the `cryptography` package; and the settings of
-- src/umat/config/settings.py that the protocol reads. A byte string is a text here.
use Prim.Native.String.{◌++◌}
use e_rakshak_umat.Prelude.{ℕ, ◌*◌, String, Bool, Option, List, [], ◌∷◌, str_eq, if◌then◌else◌}
use e_rakshak_umat.Json.{Json}
use e_rakshak_umat.Models.{StageType, stage_type_value}

-- datetime.fromisoformat: with or without a time zone, at an instant
pub data Instant : Type 0 where
  naive : Instant
  aware : ℕ → Instant

pub record Settings : Type 0 where
  pub lease_ttl_seconds : ℕ
  pub default_stage_max_attempts : ℕ
  pub default_stage_timeout_seconds : ℕ
  pub stage_max_attempts : List (String × ℕ)
  pub stage_timeout_seconds : List (String × ℕ)

pub record Env : Type 0 where
  pub sha256 : String → String  -- hashlib.sha256(data).hexdigest()
  pub canonical_json : Json → String  -- json.dumps with sorted keys and no spaces
  pub json_dumps : Json → String  -- json.dumps
  pub upper : String → String  -- str.upper
  pub zulu_to_offset : String → String  -- str.replace("Z", "+00:00")
  pub fromisoformat : String → Option Instant  -- none: it raises ValueError
  pub isoformat : ℕ → String
  pub str_uuid : ℕ → String  -- str(uuid)
  pub str_value : Json → String  -- str(value) of a value that is no text
  pub b64decode : String → Option String  -- base64.b64decode(…, validate=True)
  pub byte_length : String → ℕ  -- len(data)
  pub ed25519_verify : String → String → String → Bool  -- key, signature, message
  pub settings : Settings

-- timedelta(seconds=n)
abbrev pub seconds : ℕ → ℕ
seconds n = n * 1000000

infixr 65 ◌<>◌
abbrev pub ◌<>◌ : String → String → String
a <> b = a ++ b

-- dict.get(key, default)
get_or : List (String × ℕ) → String → ℕ → ℕ
get_or [] k d = d
get_or ((j, v) ∷ r) k d = if str_eq j k then v else get_or r k d

-- max_attempts and timeout_seconds
unfoldable pub policy_for_stage : Settings → StageType → ℕ × ℕ
unfolding get_or
policy_for_stage s t = (
  get_or s.stage_max_attempts (stage_type_value t) s.default_stage_max_attempts,
  get_or s.stage_timeout_seconds (stage_type_value t) s.default_stage_timeout_seconds,
)

-- umat.auth.security.token_hash
unfoldable pub token_hash : Env → String → String
token_hash env token = env.sha256 token
