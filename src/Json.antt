-- ===== src/Json.antt =====
-- The values of `dict[str, Any]`: request bodies, stored responses, audit payloads, profile
-- snapshots and capability documents.
use e_rakshak_umat.Prelude.{
  ℕ, String, Bool, true, false, Option, none, some, List, [], ◌∷◌, str_eq, if◌then◌else◌,
}

mutual
  pub data Json : Type 0 where
    null : Json
    bool : Bool → Json
    num : ℕ → Json
    string : String → Json
    arr : Items → Json
    obj : Fields → Json

  pub data Items : Type 0 where
    nil : Items
    cons : Json → Items → Items

  pub data Fields : Type 0 where
    end : Fields
    field : String → Json → Fields → Fields

-- a dict literal and a list literal
abbrev pub fields : List (String × Json) → Fields
fields [] = end
fields ((k, v) ∷ r) = field k v (fields r)

abbrev pub dict : List (String × Json) → Json
dict r = obj (fields r)

abbrev pub items : List Json → Items
items [] = nil
items (x ∷ xs) = cons x (items xs)

abbrev pub texts : List String → Items
texts [] = nil
texts (x ∷ xs) = cons (string x) (texts xs)

-- a value that may be None
abbrev pub optional : Option String → Json
optional none = null
optional (some s) = string s

-- `bool(value)` of an optional dict column: an empty dict and None are false
abbrev pub truthy : Option Json → Bool
truthy (some (obj (field k v r))) = true
truthy _ = false

-- dict.get(key)
unfoldable pub lookup : String → Fields → Option Json
lookup k end = none
lookup k (field j v r) = if str_eq j k then some v else lookup k r

-- data[key] = value: a key that is present keeps its place
unfoldable pub assign : String → Json → Fields → Fields
assign k v end = field k v end
assign k v (field j w r) = if str_eq j k then field j v r else field j w (assign k v r)
