-- ===== src/Prelude.antt =====
-- The names that every module shares: the library's, passed on, the tests on numbers and texts,
-- the lemmas on options and Booleans, and the tables of the database (Prelude/Tables.antt).
pub mod Tables
mod Texts
pub use Prim.Native.Nat.{ℕ, zero, suc, ◌+◌, ◌-◌, ◌*◌, ◌^◌, ◌≤◌, ◌<◌, min}
pub use Prim.Native.String.{String}
pub use mathlib.Core.Path.{◌≡◌, refl, sym, ap, ◌∙◌}
pub use mathlib.Core.Logic.{◌≢◌, ◌⊎◌, ◌↔◌, inl, inr}
pub use mathlib.Core.Bool.{Bool, true, false, not, ◌&&◌, ◌||◌}
pub use mathlib.Core.Option.{Option, none, some}
pub use mathlib.Core.List.{List, [], ◌∷◌, ◌++◌, map}
pub use native.Mathlib.Omega.{arith}
pub use text.Mathlib.Text.{◌==◌ as str_eq}
pub use text.Mathlib.TextEquality.{eq_iff}
unfoldable pub use Tests.*
unfoldable pub use Texts.{from_char, up_to_char, characters}
pub use text.Mathlib.Text.{starts_with}
mod Tests
