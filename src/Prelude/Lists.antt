-- ===== src/Prelude/Lists.antt =====
-- Lists measured by native numbers, Boolean tests over lists and what they mean.
use Prim.Native.Nat.{ℕ, suc}
use mathlib.Core.Path.{◌≡◌, refl}
use mathlib.Core.Logic.{◌↔◌, ◌⊎◌, inl, inr}
use mathlib.Core.Bool.{Bool, true, false, ◌&&◌, ◌||◌}
use mathlib.Core.List.{List, [], ◌∷◌}
use native.Mathlib.Omega.{arith}
use apollo_mcp_server.Prelude.Tests.{and-eq-true_iff, or-eq-true_iff}

module _ {ℓ} {A : Type ℓ} where
  abbrev pub length : List A → ℕ
  length [] = 0
  length (x ∷ xs) = suc (length xs)

  -- `is_empty`
  abbrev pub is_empty : List A → Bool
  is_empty [] = true
  is_empty (x ∷ xs) = false

  abbrev pub all : (A → Bool) → List A → Bool
  all p [] = true
  all p (x ∷ xs) = p x && all p xs

  abbrev pub any : (A → Bool) → List A → Bool
  any p [] = false
  any p (x ∷ xs) = p x || any p xs

module _ {ℓ} {A : Type ℓ} where
  -- Every item satisfies `P`.
  abbrev pub All : (A → Type 0) → List A → Type 0
  All P [] = Unit
  All P (x ∷ xs) = P x × All P xs

  -- Some item satisfies `P`.
  abbrev pub Any : (A → Type 0) → List A → Type 0
  Any P [] = ⊥
  Any P (x ∷ xs) = P x ⊎ Any P xs

  pub all_iff :
      (p : A → Bool) (P : A → Type 0)
      → ((a : A) → (p a ≡ true) ↔ P a)
      → (xs : List A) → (all p xs ≡ true) ↔ All P xs
  all_iff p P h [] = (λ _. tt, λ _. refl)
  all_iff p P h (x ∷ xs) = (
    λ e. let (here, rest) = (and-eq-true_iff _ _).0 e in ((h x).0 here, (all_iff p P h xs).0 rest),
    λ t. (and-eq-true_iff _ _).1 ((h x).1 t.0, (all_iff p P h xs).1 t.1),
  )

  pub any_iff :
      (p : A → Bool) (P : A → Type 0)
      → ((a : A) → (p a ≡ true) ↔ P a)
      → (xs : List A) → (any p xs ≡ true) ↔ Any P xs
  any_iff p P h [] = (λ e. absurd (ground arith), λ t. absurd t)
  any_iff p P h (x ∷ xs) = (
    λ e. elim ((or-eq-true_iff _ _).0 e) [
      | inl here ↦ inl ((h x).0 here)
      | inr rest ↦ inr ((any_iff p P h xs).0 rest)
    ],
    λ t.
        (or-eq-true_iff _ _).1
          (elim t [ inl here ↦ inl ((h x).1 here) | inr rest ↦ inr ((any_iff p P h xs).1 rest) ]),
  )

  pub All-map : {P Q : A → Type 0} → ((a : A) → P a → Q a) → (xs : List A) → All P xs → All Q xs
  All-map f [] h = tt
  All-map f (x ∷ xs) h = (f x h.0, All-map f xs h.1)

  pub Any-map : {P Q : A → Type 0} → ((a : A) → P a → Q a) → (xs : List A) → Any P xs → Any Q xs
  Any-map f [] h = h
  Any-map f (x ∷ xs) (inl h) = inl (f x h)
  Any-map f (x ∷ xs) (inr h) = inr (Any-map f xs h)

  -- A test that fails everywhere.
  pub any_none : (p : A → Bool) (xs : List A) → All (λ a. p a ≡ false) xs → any p xs ≡ false
  any_none p [] h = refl
  any_none p (x ∷ xs) h = ground (arith, any_none p xs h.1)

-- Every item of a list is one of its items.
pub members : {A : Type 0} → (xs : List A) → All (λ x. Any (λ y. x ≡ y) xs) xs
members [] = tt
members (x ∷ xs) = (inl refl, All-map (λ y found. inr found) xs (members xs))
