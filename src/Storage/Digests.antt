-- ===== src/Storage/Digests.antt =====
-- The paths of digests: a key of an object stands below the root, and keeps its digest.
use Prim.Native.String.append
use Prim.Native.Char.{code}
use text.Mathlib.TextLemmas.{append_assoc}
use e_rakshak_umat.Prelude.{
  ℕ, ◌≡◌, ◌≢◌, ◌↔◌, refl, ap, sym, ◌∙◌, String, true, false, [], ◌∷◌, str_eq, eq_iff, arith,
  from_char, up_to_char,
}
use e_rakshak_umat.Environment.{◌<>◌}
use e_rakshak_umat.Storage.{object_key, resolve, LocalArtifactStore, ok}
use e_rakshak_umat.Storage.Paths.{
  FilePath, parts, enter, walk, locate, same, is_parent, is_absolute,
}

-- the text of a digest has no "/" and no "."
abbrev pub IsPlain : String → Type 0
IsPlain String.[] = Unit {0}
IsPlain (String.◌∷◌ c s) = (code c ≢ b'/') × (code c ≢ b'.') × IsPlain s

-- hashlib's hexdigest: at least three characters, all of them digits or letters
pub record IsDigest (s : String) : Type 0 where
  pub plain : IsPlain s
  pub long : from_char 2 s ≢ ""

pub same_iff : (p q : FilePath) → (same p q ≡ true) ↔ (p ≡ q)
unfolding same
same_iff [] [] = (λ _. refl, λ _. refl)
same_iff [] (b ∷ q) = ground arith
same_iff (a ∷ p) [] = ground arith
same_iff (a ∷ p) (b ∷ q) = ground (arith, eq_iff a b, same_iff p q)

parts-plain : (s : String) → IsPlain s → parts s ≡ s ∷ []
unfolding parts
parts-plain String.[] h = refl
parts-plain (String.◌∷◌ c s) h = ground (arith, parts-plain s h.2)

parts-slash : (s t : String) → IsPlain s → parts (s <> String.◌∷◌ "/" t) ≡ s ∷ parts t
unfolding parts
parts-slash String.[] t h = rw (append.nil (String.◌∷◌ "/" t)) refl
parts-slash (String.◌∷◌ c s) t h =
    rw (append.cons c s (String.◌∷◌ "/" t)) (ground (arith, parts-slash s t h.2))

up_to-IsPlain : (s : String) → IsPlain s → IsPlain (up_to_char 2 s)
unfolding up_to_char
up_to-IsPlain String.[] h = tt
up_to-IsPlain (String.◌∷◌ c String.[]) h = (h.0, h.1, tt)
up_to-IsPlain (String.◌∷◌ c (String.◌∷◌ d s)) h = (h.0, h.1, (h.2.0, h.2.1, tt))

from-IsPlain : (s : String) → IsPlain s → IsPlain (from_char 2 s)
unfolding from_char
from-IsPlain String.[] h = tt
from-IsPlain (String.◌∷◌ c String.[]) h = tt
from-IsPlain (String.◌∷◌ c (String.◌∷◌ d s)) h = h.2.2

-- the two halves of a text are the text
halves :
    (s t : String)
    → up_to_char 2 s ≡ up_to_char 2 t
    → from_char 2 s ≡ from_char 2 t
    → from_char 2 s ≢ ""
    → s ≡ t
unfolding up_to_char from_char
halves String.[] t a b n = absurd (n refl)
halves (String.◌∷◌ c String.[]) t a b n = absurd (n refl)
halves (String.◌∷◌ c (String.◌∷◌ d s)) String.[] a b n = absurd (n b)
halves (String.◌∷◌ c (String.◌∷◌ d s)) (String.◌∷◌ e String.[]) a b n = absurd (n b)
halves (String.◌∷◌ c (String.◌∷◌ d s)) (String.◌∷◌ e (String.◌∷◌ f t)) a b n = cc

first_half : (s : String) → from_char 2 s ≢ "" → up_to_char 2 s ≢ ""
unfolding up_to_char from_char
first_half String.[] n e = n refl
first_half (String.◌∷◌ c String.[]) n e = n refl
first_half (String.◌∷◌ c (String.◌∷◌ d s)) n e = cc

text-ne : (a b : String) → a ≢ b → str_eq a b ≡ false
text-ne a b n = ground (arith, eq_iff a b)

abbrev first_code : String → ℕ
first_code String.[] = 0
first_code (String.◌∷◌ c s) = code c

-- a plain text that is not empty is a part of its own
enter-plain : (s : String) (path : FilePath) → IsPlain s → s ≢ "" → enter s path ≡ s ∷ path
unfolding enter
enter-plain String.[] path h n = absurd (n refl)
enter-plain (String.◌∷◌ c s) path h n = rw (
  text-ne (String.◌∷◌ c s) "" n,
  text-ne (String.◌∷◌ c s) "." (λ e. h.1 (ap first_code e)),
  text-ne (String.◌∷◌ c s) ".." (λ e. h.1 (ap first_code e)),
)

slash : (t : String) → "/" <> t ≡ String.◌∷◌ "/" t
slash t = append.cons "/" "" t ∙ ap (String.◌∷◌ "/") (append.nil t)

abbrev object_path : FilePath → String → FilePath
object_path root s = from_char 2 s ∷ up_to_char 2 s ∷ "sha256" ∷ "objects" ∷ root

-- the key at its slashes
key-slashes :
    (a b : String)
    → "objects/sha256/" <> (a <> ("/" <> b))
      ≡ "objects" <> String.◌∷◌ "/" ("sha256" <> String.◌∷◌ "/" (a <> String.◌∷◌ "/" b))
key-slashes a b = rw (
  slash b,
  ← slash (a <> String.◌∷◌ "/" b),
  ← slash ("sha256" <> ("/" <> (a <> String.◌∷◌ "/" b))),
  ← append_assoc "sha256" "/" (a <> String.◌∷◌ "/" b),
  ← append_assoc "/" "sha256/" (a <> String.◌∷◌ "/" b),
  ← append_assoc "objects" "/sha256/" (a <> String.◌∷◌ "/" b),
)

parts-key :
    (a b : String)
    → IsPlain a
    → IsPlain b
    → parts ("objects/sha256/" <> (a <> ("/" <> b))) ≡ "objects" ∷ "sha256" ∷ a ∷ b ∷ []
parts-key a b ha hb = rw (
  key-slashes a b,
  parts-slash "objects" ("sha256" <> String.◌∷◌ "/" (a <> String.◌∷◌ "/" b)) (omega arith),
  parts-slash "sha256" (a <> String.◌∷◌ "/" b) (omega arith),
  parts-slash a b ha,
  parts-plain b hb,
)

key-relative : (x : String) → is_absolute ("objects/sha256/" <> x) ≡ false
key-relative x = rw (append.cons "o" "bjects/sha256/" x) refl

walk-plain :
    (root : FilePath) (a b : String)
    → IsPlain a
    → a ≢ ""
    → IsPlain b
    → b ≢ ""
    → walk root ("objects" ∷ "sha256" ∷ a ∷ b ∷ []) ≡ b ∷ a ∷ "sha256" ∷ "objects" ∷ root
unfolding walk
walk-plain root a b ha na hb nb = rw (
  enter-plain "objects" root (omega arith) (λ e. cc),
  enter-plain "sha256" ("objects" ∷ root) (omega arith) (λ e. cc),
  enter-plain a ("sha256" ∷ "objects" ∷ root) ha na,
  enter-plain b (a ∷ "sha256" ∷ "objects" ∷ root) hb nb,
)

pub locate-object_key :
    (root : FilePath) (s : String) → IsDigest s → locate root (object_key s) ≡ object_path root s
unfolding object_key locate
locate-object_key root s d =
    rw
      (
        key-relative (up_to_char 2 s <> ("/" <> from_char 2 s)),
        parts-key (up_to_char 2 s) (from_char 2 s) (up_to-IsPlain s d.plain)
            (from-IsPlain s d.plain),
      )
      (walk-plain root (up_to_char 2 s) (from_char 2 s) (up_to-IsPlain s d.plain)
        (first_half s d.long) (from-IsPlain s d.plain) d.long)

-- Two digests have one place only if they are the same.
pub same_digest :
    (root : FilePath) (s t : String)
    → IsDigest s
    → IsDigest t
    → locate root (object_key s) ≡ locate root (object_key t)
    → s ≡ t
same_digest root s t d e h =
    let q : object_path root s ≡ object_path root t =
      sym (locate-object_key root s d) ∙ (h ∙ locate-object_key root t e) in
    halves s t (cc) (cc) d.long

same_self : (p : FilePath) → same p p ≡ true
same_self p = (same_iff p p).1 refl

is_parent-object_path : (root : FilePath) (s : String) → is_parent root (object_path root s) ≡ true
unfolding is_parent
is_parent-object_path root s = ground (arith, same_self root)

-- The key of a digest resolves, to the place of the digest below the root.
pub resolve-object_key :
    (store : LocalArtifactStore) (s : String)
    → IsDigest s
    → resolve (object_key s) store ≡ ok (locate store.artifact_root (object_key s))
unfolding resolve
resolve-object_key store s d =
    rw (locate-object_key store.artifact_root s d, is_parent-object_path store.artifact_root s) refl
