-- ===== src/Storage/Paths.antt =====
-- Paths as pathlib reads them: the parts of a text, and the walk of a text from a folder. A path is
-- the list of its parts, the last part first, with no symbolic link on the way.
use Prim.Native.Char.{Char, code}
use e_rakshak_umat.Prelude.{
  String, Bool, true, false, List, [], ◌∷◌, ◌&&◌, ◌==◌, str_eq, if◌then◌else◌,
}

abbrev pub FilePath : Type 0
FilePath = List String

-- text.split("/")
abbrev pub join_char : Char → List String → List String
join_char c [] = String.◌∷◌ c String.[] ∷ []
join_char c (p ∷ ps) = String.◌∷◌ c p ∷ ps

unfoldable pub parts : String → List String
parts String.[] = String.[] ∷ []
parts (String.◌∷◌ c s) =
    let rest = parts s in if code c == b'/' then String.[] ∷ rest else join_char c rest

abbrev pub parent : FilePath → FilePath
parent [] = []
parent (_ ∷ p) = p

-- one part: "." and the empty part stay, ".." goes up
unfoldable pub enter : String → FilePath → FilePath
enter p path =
    if str_eq p ""
    then path
    else if str_eq p "."
    then path
    else if str_eq p ".."
    then parent path
    else p ∷ path

unfoldable pub walk : FilePath → List String → FilePath
walk path [] = path
walk path (p ∷ ps) = walk (enter p path) ps

abbrev pub is_absolute : String → Bool
is_absolute String.[] = false
is_absolute (String.◌∷◌ c s) = code c == b'/'

-- (root / key).resolve(): an absolute key leaves the root
unfoldable pub locate : FilePath → String → FilePath
locate root key = if is_absolute key then walk [] (parts key) else walk root (parts key)

unfoldable pub same : FilePath → FilePath → Bool
same [] [] = true
same [] (_ ∷ _) = false
same (_ ∷ _) [] = false
same (a ∷ p) (b ∷ q) = str_eq a b && same p q

-- root in path.parents
unfoldable pub is_parent : FilePath → FilePath → Bool
is_parent root [] = false
is_parent root (_ ∷ p) = if same root p then true else is_parent root p
