-- ===== src/Prelude/Maps.antt =====
-- Rust's `HashMap` over an abstract type of keys with a decidable equality. The program never relies on
-- the order of the entries.
use mathlib.Core.Path.{◌≡◌}
use mathlib.Core.Logic.{◌↔◌}
use mathlib.Core.Bool.{Bool, true}
use mathlib.Core.Option.{Option, none, some}
use mathlib.Core.List.{List, [], ◌∷◌}
use native.Mathlib.Omega.{arith}
use apollo_mcp_server.Prelude.Tests.{if◌then◌else◌}

-- `Eq` of a key type.
pub record KeyEq (K : Type 0) : Type 0 where
  pub same : K → K → Bool
  pub same_iff : (a b : K) → (same a b ≡ true) ↔ (a ≡ b)

module _ {K V : Type 0} (eq : KeyEq K) where
  unfoldable pub find : List (K × V) → K → Option V
  find [] k = none
  find ((j, v) ∷ m) k = let others = find m k in if eq.same j k then some v else others

  -- `remove`
  unfoldable pub discard : List (K × V) → K → List (K × V)
  discard [] k = []
  discard ((j, v) ∷ m) k =
      let others = discard m k in if eq.same j k then others else (j, v) ∷ others

  -- `insert`: an older entry of the key goes.
  unfoldable pub assign : List (K × V) → K → V → List (K × V)
  assign m k v = (k, v) ∷ discard m k

  pub find-discard :
      (m : List (K × V)) (k j : K) → find (discard m k) j ≡ (if eq.same k j then none else find m j)
  unfolding find discard
  find-discard [] k j = ground arith
  find-discard ((i, v) ∷ m) k j =
      ground (arith, find-discard m k j, eq.same_iff i k, eq.same_iff i j, eq.same_iff k j)

  pub find-assign :
      (m : List (K × V)) (k j : K) (v : V)
      → find (assign m k v) j ≡ (if eq.same k j then some v else find m j)
  unfolding find assign
  find-assign m k j v = ground (arith, find-discard m k j)
