-- ===== src/TreeShake/Reaches.antt =====
-- What the tree shaker retains besides a type: each step without a depth limit retains all that the
-- step's part of the schema refers to.
use mathlib.Core.Option.{some-injective}
use mathlib.Core.Path.{subst}
use mathlib.Core.List.{append-nil}
use apollo_mcp_server.Prelude.{
  ◌≡◌, inl, refl, sym, true, Option, none, some, List, [], ◌∷◌, ◌++◌, String, All,
}
use apollo_mcp_server.TreeShake.Syntax.{Schema}
use apollo_mcp_server.TreeShake.Shaker.{SchemaTreeShaker, for_each, Then, ◌>>>◌, skip}
use apollo_mcp_server.TreeShake.Shaken.{is_retained, is_directive_retained}
use apollo_mcp_server.TreeShake.Extends.{
  Reference, all_references, Item, of_type, of_field, of_directive, shows, has, HasAll, Extends,
  Extends-refl, Extends-trans, HasAll-Extends,
}

pub All-append :
    {A : Type 0} (P : A → Type 0) (xs ys : List A) → All P xs → All P ys → All P (xs ++ ys)
All-append P [] ys h k = k
All-append P (x ∷ xs) ys h k = (h.0, All-append P xs ys h.1 k)

-- The state between two steps.
pub bind-some :
    (o : Option SchemaTreeShaker) (k : Then) {t : SchemaTreeShaker}
    → (elim o [ none ↦ none | some u ↦ k u ]) ≡ some t
    → (u : SchemaTreeShaker) × (o ≡ some u) × (k u ≡ some t)
bind-some none k h = absurd (cc)
bind-some (some u) k h = (u, refl, h)

described_shows :
    (s : SchemaTreeShaker) (descriptions : List (String × List String)) (item : Item)
    → shows (record s { arguments_descriptions = descriptions }) item ≡ true
    → shows s item ≡ true
unfolding shows is_retained is_directive_retained
described_shows s descriptions (of_type name) h = h
described_shows s descriptions (of_field name f) h = h
described_shows s descriptions (of_directive name) h = h

module _ (schema : Schema) where
  -- If the step ends, the state grows and has the references.
  abbrev pub Reaches : Then → List Reference → Type 0
  Reaches step references =
      (s t : SchemaTreeShaker) → step s ≡ some t → Extends schema s t × HasAll schema t references

  pub skip-Reaches : Reaches skip []
  skip-Reaches s t h = (subst (Extends schema s) (some-injective _ _ h) (Extends-refl schema s), tt)

  pub then-Reaches :
      (m k : Then) (before after : List Reference)
      → Reaches m before
      → Reaches k after
      → Reaches (m >>> k) (before ++ after)
  then-Reaches m k before after hm hk s t h =
      let (middle, e, e') = bind-some (m s) k h in
      let (grown, had) = hm s middle e in
      let (grown', had') = hk middle t e' in
      (
        Extends-trans schema grown grown',
        All-append (λ r. has schema t r ≡ true) before after
            (HasAll-Extends schema grown' before had) had',
      )

  pub for_each-Reaches :
      {V : Type 0} (body : V → Then) (references : V → List Reference)
      → ((x : V) → Reaches (body x) (references x))
      → (xs : List V) → Reaches (for_each body xs) (all_references references xs)
  unfolding for_each
  for_each-Reaches body references h [] = skip-Reaches
  for_each-Reaches body references h (x ∷ xs) =
      then-Reaches (body x) (for_each body xs) (references x) (all_references references xs) (h x)
        (for_each-Reaches body references h xs)

  -- A step that reaches some references reaches what these imply.
  pub weaken-Reaches :
      (m : Then) (references fewer : List Reference)
      → ((t : SchemaTreeShaker) → HasAll schema t references → HasAll schema t fewer)
      → Reaches m references
      → Reaches m fewer
  weaken-Reaches m references fewer imply h s t e = ((h s t e).0, imply t (h s t e).1)

  pub nothing-Reaches :
      (m : Then) (references : List Reference) → Reaches m references → Reaches m []
  nothing-Reaches m references h = weaken-Reaches m references [] (λ t k. tt) h

  -- A step after which nothing more is asked for.
  pub then-Reaches_nil :
      (m k : Then) (references : List Reference)
      → Reaches m references
      → Reaches k []
      → Reaches (m >>> k) references
  then-Reaches_nil m k references hm hk =
      weaken-Reaches (m >>> k) (references ++ []) references
        (λ t h. subst (HasAll schema t) (append-nil references) h)
        (then-Reaches m k references [] hm hk)

  -- Descriptions have nothing to do with the nodes.
  pub described-Extends :
      (s : SchemaTreeShaker) (descriptions : List (String × List String))
      → Extends schema s (record s { arguments_descriptions = descriptions })
  unfolding is_retained is_directive_retained
  described-Extends s descriptions = record {
    same_types = λ name. refl;
    same_directives = λ name. refl;
    grows_types = λ name h. h;
    grows_directives = λ name h. h;
    closes = λ item h. inl (described_shows s descriptions item h);
  }

  -- A step that first changes descriptions.
  pub described-Reaches :
      (change : SchemaTreeShaker → SchemaTreeShaker) (step : Then) (references : List Reference)
      → ((s : SchemaTreeShaker)
          → (d : List (String × List String)) × (change s
              ≡ record s { arguments_descriptions = d }))
      → Reaches step references
      → Reaches (λ s. step (change s)) references
  described-Reaches change step references only h s t e =
      let (d, same) = only s in
      let (grown, had) = h (change s) t e in
      (
        Extends-trans schema (subst (Extends schema s) (sym same) (described-Extends s d)) grown,
        had,
      )
