-- ===== src/Prelude/Texts.antt =====
-- Texts compared, and their equality decided.
use mathlib.Core.Path.{◌≡◌}
use mathlib.Core.Logic.{◌↔◌}
use mathlib.Core.Bool.{Bool, true}
use mathlib.Core.List.{List}
use Prim.Native.String.{◌++◌}
use text.Mathlib.Text.{◌==◌}
use text.Mathlib.TextEquality.{eq_iff}
pub use Prim.Native.String.{String}
pub use text.Mathlib.Text.{starts_with}
use veraqis_recover.Prelude.Lists.{any}

abbrev pub text_eq : String → String → Bool
text_eq s t = s == t

pub text_eq_iff : (s t : String) → (text_eq s t ≡ true) ↔ (s ≡ t)
text_eq_iff = eq_iff

-- `list.contains(&text)`.
abbrev pub contains : String → List String → Bool
contains s texts = any (text_eq s) texts

-- Two texts put together.
abbrev pub text_append : String → String → String
text_append s t = s ++ t
