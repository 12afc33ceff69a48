-- ===== src/Server/Tools/Order.antt =====
-- The order of the operations in the lists of the parent.
use Prim.Native.Char.{code}
use mathlib.Core.List.{Permᴰ}
use text.Mathlib.TextEquality.{Char-path}
use apollo_mcp_server.Prelude.{
  members, ◌≡◌, ◌∙◌, sym, refl, Bool, true, false, List, [], ◌∷◌, String, str_le, All, Any,
  Bool-cases, Option-cases, inl, inr, arith, Option, none, some,
}
use apollo_mcp_server.Server.Tools.{
  Tool, Toolbox, JsonValues, AppTarget, tool_name, insert_sorted, sort_by, list_tools, plain_list,
  app_list, app_name, find_named,
}

str_le_total : (s t : String) → str_le s t ≡ false → str_le t s ≡ true
unfolding str_le
str_le_total String.[] t h = absurd (ground arith)
str_le_total (String.◌∷◌ c s) String.[] h = refl
str_le_total (String.◌∷◌ c s) (String.◌∷◌ d t) h = ground (arith, str_le_total s t)

str_le_antisymm : (s t : String) → str_le s t ≡ true → str_le t s ≡ true → s ≡ t
unfolding str_le
str_le_antisymm String.[] String.[] h k = refl
str_le_antisymm String.[] (String.◌∷◌ d t) h k = absurd (ground arith)
str_le_antisymm (String.◌∷◌ c s) String.[] h k = absurd (ground arith)
str_le_antisymm (String.◌∷◌ c s) (String.◌∷◌ d t) h k =
    let same : code c ≡ code d = ground arith in
    let rest : s ≡ t = str_le_antisymm s t (ground arith) (ground arith) in
    let first : c ≡ d = Char-path c d same in λ i. String.◌∷◌ (first i) (rest i)

str_le_trans : (s t u : String) → str_le s t ≡ true → str_le t u ≡ true → str_le s u ≡ true
unfolding str_le
str_le_trans String.[] t u h k = refl
str_le_trans (String.◌∷◌ c s) String.[] u h k = absurd (ground arith)
str_le_trans (String.◌∷◌ c s) (String.◌∷◌ d t) String.[] h k = absurd (ground arith)
str_le_trans (String.◌∷◌ c s) (String.◌∷◌ d t) (String.◌∷◌ e u) h k =
    ground (arith, str_le_trans s t u)

module _ {A : Type 0} (name : A → String) where
  insert_empty :
      (a b : A)
      → (name a ≡ name b → a ≡ b)
      → insert_sorted name a (insert_sorted name b [])
        ≡ insert_sorted name b (insert_sorted name a [])
  unfolding insert_sorted
  insert_empty a b same = elim (Bool-cases (str_le (name a) (name b))) [
    | inl ab ↦ elim (Bool-cases (str_le (name b) (name a))) [
      | inl ba ↦ let one : a ≡ b = same (str_le_antisymm (name a) (name b) ab ba) in rw (one) refl
      | inr ba ↦ rw (ab, ba) refl
    ]
    | inr ab ↦ rw (ab, str_le_total (name a) (name b) ab) refl
  ]

  -- Two items of which the first must stand before the second.
  insert_ordered :
      (a b u : A) (us : List A)
      → str_le (name a) (name b) ≡ true
      → str_le (name b) (name a) ≡ false
      → insert_sorted name a (insert_sorted name b us)
        ≡ insert_sorted name b (insert_sorted name a us)
      → insert_sorted name a (insert_sorted name b (u ∷ us))
        ≡ insert_sorted name b (insert_sorted name a (u ∷ us))
  unfolding insert_sorted
  insert_ordered a b u us ab ba ih = elim (Bool-cases (str_le (name b) (name u))) [
    | inl bu ↦
        let au = str_le_trans (name a) (name b) (name u) ab bu in rw (bu, au, ab, ba, bu) refl
    | inr bu ↦ elim (Bool-cases (str_le (name a) (name u))) [
      | inl au ↦ rw (bu, au, ba, bu) refl
      | inr au ↦ rw (bu, au, bu, ih) refl
    ]
  ]

  insert_under :
      (a b u : A) (us : List A)
      → (name a ≡ name b → a ≡ b)
      → insert_sorted name a (insert_sorted name b us)
        ≡ insert_sorted name b (insert_sorted name a us)
      → insert_sorted name a (insert_sorted name b (u ∷ us))
        ≡ insert_sorted name b (insert_sorted name a (u ∷ us))
  insert_under a b u us same ih = elim (Bool-cases (str_le (name a) (name b))) [
    | inr ab ↦ sym (insert_ordered b a u us (str_le_total (name a) (name b) ab) ab (sym ih))
    | inl ab ↦ elim (Bool-cases (str_le (name b) (name a))) [
      | inl ba ↦ let one : a ≡ b = same (str_le_antisymm (name a) (name b) ab ba) in rw (one) refl
      | inr ba ↦ insert_ordered a b u us ab ba ih
    ]
  ]

  insert_swap :
      (a b : A) (us : List A)
      → (name a ≡ name b → a ≡ b)
      → insert_sorted name a (insert_sorted name b us)
        ≡ insert_sorted name b (insert_sorted name a us)
  insert_swap a b [] same = insert_empty a b same
  insert_swap a b (u ∷ us) same = insert_under a b u us same (insert_swap a b us same)

  -- Names tell the items of a class apart.
  abbrev pub Identify : (A → Type 0) → Type 0
  Identify P = (a b : A) → P a → P b → name a ≡ name b → a ≡ b

  All-Permᴰ : (P : A → Type 0) {xs ys : List A} → Permᴰ xs ys → All P xs → All P ys
  All-Permᴰ P Permᴰ.nil h = tt
  All-Permᴰ P (Permᴰ.cons e r) h = (rw (← e) h.0, All-Permᴰ P r h.1)
  All-Permᴰ P (Permᴰ.swap e f) h = (rw (← f) h.1.0, (rw (← e) h.0, h.1.1))
  All-Permᴰ P (Permᴰ.trans r s) h = All-Permᴰ P s (All-Permᴰ P r h)

  sort_by-Permᴰ :
      (P : A → Type 0) {xs ys : List A}
      → Identify P
      → Permᴰ xs ys
      → All P xs
      → sort_by name xs ≡ sort_by name ys
  unfolding sort_by
  sort_by-Permᴰ P same Permᴰ.nil h = refl
  sort_by-Permᴰ P same (Permᴰ.cons e r) h = rw (e, sort_by-Permᴰ P same r h.1) refl
  sort_by-Permᴰ P same (Permᴰ.swap {a} {b} {l = l} e f) h =
      rw (← e, ← f) (insert_swap a b (sort_by name l) (same a b h.0 h.1.0))
  sort_by-Permᴰ P same (Permᴰ.trans r s) h =
      sort_by-Permᴰ P same r h ∙ sort_by-Permᴰ P same s (All-Permᴰ P r h)

module _ {Json Detail : Type 0} (json : JsonValues Json) where
  -- The list of tools does not depend on the order of the operations in the catalog, as long as their
  -- names tell them apart: clients can cache it.
  pub list_tools-Permᴰ :
      (box : Toolbox Json Detail) (operations : List (Tool Json Detail)) (app_param : Option String)
      (app_target : Option AppTarget) (supported : Bool)
      → Identify tool_name (λ tool. Any (λ other. tool ≡ other) box.operations)
      → Permᴰ box.operations operations
      → list_tools json box app_param app_target supported
        ≡ list_tools json (record box { operations = operations }) app_param app_target supported
  unfolding list_tools app_list plain_list
  list_tools-Permᴰ box operations app_param none supported same r = refl
  list_tools-Permᴰ box operations none (some app_target) supported same r =
      rw
        (sort_by-Permᴰ tool_name (λ tool. Any (λ other. tool ≡ other) box.operations) same r
          (members box.operations))
        refl
  list_tools-Permᴰ box operations (some wanted) (some app_target) supported same r =
      let sorted =
        sort_by-Permᴰ tool_name (λ tool. Any (λ other. tool ≡ other) box.operations) same r
          (members box.operations) in
      elim (Option-cases (find_named app_name wanted box.apps)) [
        | inl missing ↦ rw (missing, list_tools) refl
        | inr (app, found) ↦ rw (found, sorted, list_tools) refl
      ]
