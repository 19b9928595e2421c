-- ===== src/Prelude/Texts.antt =====
-- Slices of a text.
use Prim.Native.Nat.{ℕ, zero, suc}
use Prim.Native.String.{String, [], ◌∷◌}
use mathlib.Core.List.{List, [] as []ᴸ, ◌∷◌ as ◌∷ᴸ◌}

-- text[n:]
unfoldable pub from_char : ℕ → String → String
from_char zero s = s
from_char (suc n) [] = []
from_char (suc n) (c ∷ s) = from_char n s

-- text[:n]
unfoldable pub up_to_char : ℕ → String → String
up_to_char zero s = []
up_to_char (suc n) [] = []
up_to_char (suc n) (c ∷ s) = c ∷ up_to_char n s

-- list(text): the characters, each a text
unfoldable pub characters : String → List String
characters [] = []ᴸ
characters (c ∷ s) = (c ∷ []) ∷ᴸ characters s
