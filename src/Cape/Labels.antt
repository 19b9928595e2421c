-- ===== src/Cape/Labels.antt =====
-- The labels of machines: LABEL_PATTERN and the label that `_create_locked` makes;
-- src/umat/cape_gateway/manager.py.
use Prim.Native.Char.{code}
use e_rakshak_umat.Prelude.{
  ℕ, suc, ◌+◌, String, Bool, true, false, ◌&&◌, ◌||◌, List, [], ◌∷◌, ◌==◌, leb, if◌then◌else◌,
  from_char, up_to_char,
}
use e_rakshak_umat.Environment.{Env, ◌<>◌}

abbrev codes : String → List ℕ
codes String.[] = []
codes (String.◌∷◌ c s) = code c ∷ codes s

abbrev length : List ℕ → ℕ
length [] = 0
length (x ∷ xs) = suc (length xs)

is_between : ℕ → ℕ → ℕ → Bool
is_between low high c = leb low c && leb c high

-- [a-z0-9-]
is_name_char : ℕ → Bool
unfolding is_between
is_name_char c = is_between b'a' b'z' c || (is_between b'0' b'9' c || c == b'-')

-- [0-9a-f]
is_hex_char : ℕ → Bool
unfolding is_between
is_hex_char c = is_between b'0' b'9' c || is_between b'a' b'f' c

all_hex : List ℕ → Bool
unfolding is_hex_char
all_hex [] = true
all_hex (c ∷ cs) = is_hex_char c && all_hex cs

is_tail : List ℕ → Bool
unfolding all_hex
is_tail [] = false
is_tail (c ∷ cs) = c == b'-' && (length cs == 8 && all_hex cs)

-- [a-z0-9-]{k,80}-[0-9a-f]{8}, after `done` characters of the name
is_name_tail : ℕ → List ℕ → Bool
unfolding is_name_char is_tail
is_name_tail done [] = false
is_name_tail done (c ∷ cs) =
    (leb 1 done && is_tail (c ∷ cs))
    || (leb (done + 1) 80 && (is_name_char c && is_name_tail (done + 1) cs))

-- LABEL_PATTERN.fullmatch
unfoldable pub matches_label : String → Bool
unfolding is_name_tail
matches_label s = elim (codes s) [
  | u ∷ m ∷ a ∷ t ∷ d ∷ rest ↦
      u == b'u' && (m == b'm' && (a == b'a' && (t == b't' && (d == b'-' && is_name_tail 0 rest))))
  | _ ↦ false
]

-- text.replace("-", "")
without_dashes : String → String
without_dashes String.[] = String.[]
without_dashes (String.◌∷◌ c s) =
    let rest = without_dashes s in if code c == b'-' then rest else String.◌∷◌ c rest

unfoldable pub label_of : String → String → String
unfolding without_dashes
label_of name profile_id = "umat-" <> (name <> ("-" <> up_to_char 8 (without_dashes profile_id)))

-- _mac: the first three bytes of the digest of the label
unfoldable pub mac_of : Env → String → String
mac_of env label =
    let digest = env.sha256 label in
    "52:54:00:"
    <> (up_to_char 2 digest
        <> (":"
            <> (up_to_char 2 (from_char 2 digest) <> (":" <> up_to_char 2 (from_char 4 digest)))))
