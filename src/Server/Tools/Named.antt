-- ===== src/Server/Tools/Named.antt =====
-- Names in the lists of the parent: sorted, appended and searched.
use mathlib.Core.List.{Memᴰ}
use apollo_mcp_server.Prelude.{
  some, ap, ◌∙◌, ◌==◌, ◌≡◌, ◌⊎◌, true, is_some, List, [], ◌∷◌, ◌++◌, String, str_le, Any,
  Bool-cases, inl, inr, arith, eq_iff,
}
use apollo_mcp_server.Server.Tools.{insert_sorted, sort_by, find_named}

module _ {A : Type 0} where
  pub Any-append : (P : A → Type 0) (xs ys : List A) → Any P (xs ++ ys) → Any P xs ⊎ Any P ys
  Any-append P [] ys h = inr h
  Any-append P (x ∷ xs) ys (inl h) = inl (inl h)
  Any-append P (x ∷ xs) ys (inr h) = elim (Any-append P xs ys h) [
    | inl k ↦ inl (inr k)
    | inr k ↦ inr k
  ]

  pub append-Any : (P : A → Type 0) (xs ys : List A) → Any P xs → Any P (xs ++ ys)
  append-Any P [] ys h = absurd h
  append-Any P (x ∷ xs) ys (inl h) = inl h
  append-Any P (x ∷ xs) ys (inr h) = inr (append-Any P xs ys h)

module _ {A : Type 0} (name : A → String) where
  insert-Any :
      (P : A → Type 0) (a : A) (xs : List A) → Any P (insert_sorted name a xs) → P a ⊎ Any P xs
  unfolding insert_sorted
  insert-Any P a [] (inl h) = inl h
  insert-Any P a [] (inr h) = absurd h
  insert-Any P a (b ∷ xs) h = elim (Bool-cases (str_le (name a) (name b))) [
    | inl before ↦ elim (rw (before, insert_sorted) at h) [ inl k ↦ inl k | inr k ↦ inr k ]
    | inr behind ↦ elim (rw (behind, insert_sorted) at h) [
      | inl k ↦ inr (inl k)
      | inr k ↦ elim (insert-Any P a xs k) [ inl found ↦ inl found | inr found ↦ inr (inr found) ]
    ]
  ]

  Any-insert :
      (P : A → Type 0) (a : A) (xs : List A) → P a ⊎ Any P xs → Any P (insert_sorted name a xs)
  unfolding insert_sorted
  Any-insert P a [] h = h
  Any-insert P a (b ∷ xs) h = elim (Bool-cases (str_le (name a) (name b))) [
    | inl before ↦ rw (before) h
    | inr behind ↦ rw (behind) (elim h [
      | inl k ↦ inr (Any-insert P a xs (inl k))
      | inr k ↦ elim k [ inl first ↦ inl first | inr later ↦ inr (Any-insert P a xs (inr later)) ]
    ])
  ]

  pub sort-Any : (P : A → Type 0) (xs : List A) → Any P (sort_by name xs) → Any P xs
  unfolding sort_by
  sort-Any P [] h = h
  sort-Any P (x ∷ xs) h = elim (insert-Any P x (sort_by name xs) h) [
    | inl k ↦ inl k
    | inr k ↦ inr (sort-Any P xs k)
  ]

  pub Any-sort : (P : A → Type 0) (xs : List A) → Any P xs → Any P (sort_by name xs)
  unfolding sort_by
  Any-sort P [] h = absurd h
  Any-sort P (x ∷ xs) (inl h) = Any-insert P x (sort_by name xs) (inl h)
  Any-sort P (x ∷ xs) (inr h) = Any-insert P x (sort_by name xs) (inr (Any-sort P xs h))

  -- Some item has the name.
  abbrev pub HasName : String → List A → Type 0
  HasName wanted xs = Any (λ x. name x ≡ wanted) xs

  pub found_named :
      (wanted : String) (xs : List A)
      → HasName wanted xs
      → is_some (find_named name wanted xs) ≡ true
  unfolding find_named
  found_named wanted [] h = absurd h
  found_named wanted (x ∷ xs) (inl h) = ground (arith, eq_iff (name x) wanted)
  found_named wanted (x ∷ xs) (inr h) = ground (arith, found_named wanted xs h)

  pub find_named-some :
      (wanted : String) (xs : List A) (x : A)
      → find_named name wanted xs ≡ some x
      → Memᴰ x xs × (name x ≡ wanted)
  unfolding find_named
  find_named-some wanted [] x h = absurd (cc)
  find_named-some wanted (y ∷ xs) x h = elim (Bool-cases (name y == wanted)) [
    | inl here ↦
        let same : x ≡ y = ground arith in
        (Memᴰ.head same, ap name same ∙ (eq_iff (name y) wanted).0 here)
    | inr later ↦
        let (rest, named) = find_named-some wanted xs x (ground arith) in (Memᴰ.tail rest, named)
  ]
