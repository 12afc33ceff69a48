-- ===== src/Prelude/Texts.antt =====
-- Lists and tables keyed by text: membership, lookup, and the order of texts.
use Prim.Native.Char.{code}
use Prim.Native.String.{String}
use mathlib.Core.Path.{◌≡◌}
use mathlib.Core.Logic.{◌↔◌}
use mathlib.Core.Bool.{Bool, true, false}
use mathlib.Core.Option.{Option, none, some}
use mathlib.Core.List.{List, [], ◌∷◌}
use text.Mathlib.Text.{◌==◌}
use text.Mathlib.TextEquality.{eq_iff}
use apollo_mcp_server.Prelude.Tests.{ltb, nat_eq, if◌then◌else◌}
use apollo_mcp_server.Prelude.Lists.{any, Any, any_iff}

-- `Vec<String>::contains`
abbrev pub contains : List String → String → Bool
contains xs a = any (λ x. x == a) xs

abbrev pub IsIn : String → List String → Type 0
IsIn a xs = Any (λ x. x ≡ a) xs

pub contains_iff : (xs : List String) (a : String) → (contains xs a ≡ true) ↔ IsIn a xs
contains_iff xs a = any_iff (λ x. x == a) (λ x. x ≡ a) (λ x. eq_iff x a) xs

-- `get` of a map whose keys are texts: an association list, in which the first entry of a key counts.
module _ {ℓ} {V : Type ℓ} where
  unfoldable pub lookup : String → List (String × V) → Option V
  lookup key [] = none
  lookup key ((name, value) ∷ entries) =
      let later = lookup key entries in if name == key then some value else later

-- `<=` of `str`: byte order, which is the order of the code points.
unfoldable pub str_le : String → String → Bool
str_le String.[] t = true
str_le (String.◌∷◌ c s) String.[] = false
str_le (String.◌∷◌ c s) (String.◌∷◌ d t) =
    if ltb (code c) (code d) then true else if nat_eq (code c) (code d) then str_le s t else false
