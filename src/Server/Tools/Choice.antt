-- ===== src/Server/Tools/Choice.antt =====
-- When the choice of the parent by the name of a tool finds one.
use mathlib.Core.List.{Memᴰ}
use apollo_mcp_server.Prelude.{
  List, Option-cases, ◌≡◌, ◌⊎◌, ◌∙◌, sym, refl, Bool, true, false, Option, none, some, is_some,
  String, Bool-cases, inl, inr, arith, ◌==◌, eq_iff,
}
use apollo_mcp_server.Server.Tools.Named.{HasName, found_named, find_named-some}
use apollo_mcp_server.Server.Tools.{
  of_operation, find_named, find_operation, tool_name, Tool, Toolbox, introspect_tool_name,
  search_tool_name, explorer_tool_name, execute_tool_name, validate_tool_name, Target, introspect,
  search, explorer, execute, validate, tool_not_found, dispatch_other, built_in, dispatch,
}

module _ {Json Detail : Type 0} where
  unfoldable pub is_found : Target Json Detail → Bool
  is_found tool_not_found = false
  is_found _ = true

  -- The built-in tools carry their reserved names.
  pub record IsNamed (box : Toolbox Json Detail) : Type 0 where
    pub introspects :
        (tool : Tool Json Detail)
        → box.introspect_tool ≡ some tool
        → tool.name ≡ introspect_tool_name
    pub searches :
        (tool : Tool Json Detail) → box.search_tool ≡ some tool → tool.name ≡ search_tool_name
    pub explores :
        (tool : Tool Json Detail) → box.explorer_tool ≡ some tool → tool.name ≡ explorer_tool_name
    pub executes :
        (tool : Tool Json Detail) → box.execute_tool ≡ some tool → tool.name ≡ execute_tool_name
    pub validates :
        (tool : Tool Json Detail) → box.validate_tool ≡ some tool → tool.name ≡ validate_tool_name

  -- A built-in tool that is on and has this name.
  abbrev pub Reserved : Option (Tool Json Detail) → String → String → Type 0
  Reserved tool reserved wanted = (is_some tool ≡ true) × (reserved ≡ wanted)

  -- The target is the built-in tool that is on and has this name.
  abbrev pub RunsBuiltIn :
      Option (Tool Json Detail)
      → String
      → (Tool Json Detail → Target Json Detail)
      → String
      → Target Json Detail
      → Type 0
  RunsBuiltIn slot reserved go wanted target =
      (tool : Tool Json Detail) × (slot ≡ some tool) × (wanted ≡ reserved) × (target ≡ go tool)

  built_in-cases :
      (wanted reserved : String) (slot : Option (Tool Json Detail))
      (go : Tool Json Detail → Target Json Detail) (others : Target Json Detail)
      → RunsBuiltIn slot reserved go wanted (built_in wanted reserved slot go others)
        ⊎ ((Reserved slot reserved wanted → ⊥) × (built_in wanted reserved slot go others ≡ others))
  unfolding built_in
  built_in-cases wanted reserved none go others = inr (λ h. absurd (ground arith), refl)
  built_in-cases wanted reserved (some tool) go others = elim (Bool-cases (wanted == reserved)) [
    | inl same ↦ inl (tool, refl, (eq_iff wanted reserved).0 same, rw same refl)
    | inr other ↦ inr (λ h. absurd (ground (arith, h.1, eq_iff wanted reserved)), rw other refl)
  ]

  built_in_missed :
      (wanted reserved : String) (tool : Option (Tool Json Detail))
      (go : Tool Json Detail → Target Json Detail) (others : Target Json Detail)
      → (is_some tool ≡ true → reserved ≡ wanted → ⊥)
      → built_in wanted reserved tool go others ≡ others
  unfolding built_in
  built_in_missed wanted reserved none go others free = refl
  built_in_missed wanted reserved (some t) go others free = elim (Bool-cases (wanted == reserved)) [
    | inl same ↦ absurd (free refl (sym ((eq_iff wanted reserved).0 same)))
    | inr other ↦ rw (other) refl
  ]

  -- The name is that of a built-in tool that is on, or else the rest holds.
  abbrev pub OneOf : Toolbox Json Detail → String → Type 0 → Type 0
  OneOf box wanted Rest =
      Reserved box.introspect_tool introspect_tool_name wanted
      ⊎ (Reserved box.search_tool search_tool_name wanted
          ⊎ (Reserved box.explorer_tool explorer_tool_name wanted
              ⊎ (Reserved box.execute_tool execute_tool_name wanted
                  ⊎ (Reserved box.validate_tool validate_tool_name wanted ⊎ Rest))))

  -- Without a built-in tool of the name, the rest of the alternatives holds.
  rest_of :
      (box : Toolbox Json Detail) (wanted : String) (Rest : Type 0)
      → (Reserved box.introspect_tool introspect_tool_name wanted → ⊥)
      → (Reserved box.search_tool search_tool_name wanted → ⊥)
      → (Reserved box.explorer_tool explorer_tool_name wanted → ⊥)
      → (Reserved box.execute_tool execute_tool_name wanted → ⊥)
      → (Reserved box.validate_tool validate_tool_name wanted → ⊥)
      → OneOf box wanted Rest
      → Rest
  rest_of box wanted Rest a b c d e (inl h) = absurd (a h)
  rest_of box wanted Rest a b c d e (inr (inl h)) = absurd (b h)
  rest_of box wanted Rest a b c d e (inr (inr (inl h))) = absurd (c h)
  rest_of box wanted Rest a b c d e (inr (inr (inr (inl h)))) = absurd (d h)
  rest_of box wanted Rest a b c d e (inr (inr (inr (inr (inl h))))) = absurd (e h)
  rest_of box wanted Rest a b c d e (inr (inr (inr (inr (inr h))))) = h

  -- The target is an operation of the name.
  abbrev pub RunsOperation : List (Tool Json Detail) → String → Target Json Detail → Type 0
  RunsOperation operations wanted target =
      (tool : Tool Json Detail) × Memᴰ tool operations
      × (tool.name ≡ wanted)
      × (target ≡ of_operation tool)

  -- What a call without an app may run under a name: the built-in tool of that name, if it is on, and
  -- otherwise an operation of that name.
  abbrev pub Runs : Toolbox Json Detail → String → Target Json Detail → Type 0
  Runs box wanted target =
      RunsBuiltIn box.introspect_tool introspect_tool_name introspect wanted target
      ⊎ (RunsBuiltIn box.search_tool search_tool_name search wanted target
          ⊎ (RunsBuiltIn box.explorer_tool explorer_tool_name explorer wanted target
              ⊎ (RunsBuiltIn box.execute_tool execute_tool_name execute wanted target
                  ⊎ (RunsBuiltIn box.validate_tool validate_tool_name validate wanted target
                      ⊎ ((OneOf box wanted ⊥ → ⊥) × RunsOperation box.operations wanted target)))))

  operation_runs :
      (operations : List (Tool Json Detail)) (wanted : String)
      → HasName tool_name wanted operations
      → RunsOperation operations wanted (find_operation operations wanted)
  unfolding find_operation
  operation_runs operations wanted h =
      elim (Option-cases (find_named tool_name wanted operations)) [
        | inl missing ↦ absurd (ground (arith, found_named tool_name wanted operations h))
        | inr (tool, found) ↦
            let (here, named) = find_named-some tool_name wanted operations tool found in
            (tool, here, named, rw (found, find_operation) refl)
      ]

  pub dispatch-Runs :
      (box : Toolbox Json Detail) (wanted : String)
      → OneOf box wanted (HasName tool_name wanted box.operations)
      → Runs box wanted (dispatch box none wanted)
  unfolding dispatch dispatch_other
  dispatch-Runs box wanted h =
      elim (built_in-cases wanted introspect_tool_name box.introspect_tool introspect _) [
        | inl runs ↦ inl runs
        | inr (no_introspect, e) ↦
            elim (built_in-cases wanted search_tool_name box.search_tool search _) [
              | inl (tool, on, same, e') ↦ inr (inl (tool, on, same, e ∙ e'))
              | inr (no_search, f) ↦
                  elim (built_in-cases wanted explorer_tool_name box.explorer_tool explorer _) [
                    | inl (tool, on, same, e') ↦ inr (inr (inl (tool, on, same, e ∙ f ∙ e')))
                    | inr (no_explorer, g) ↦
                        elim (built_in-cases wanted execute_tool_name box.execute_tool execute _) [
                          | inl (tool, on, same, e') ↦
                              inr (inr (inr (inl (tool, on, same, e ∙ f ∙ g ∙ e'))))
                          | inr (no_execute, k) ↦
                              elim (built_in-cases wanted validate_tool_name box.validate_tool
                                validate (find_operation box.operations wanted)) [
                                  | inl (tool, on, same, e') ↦
                                      inr
                                        (inr (inr (inr (inl (tool, on, same, e ∙ f ∙ g ∙ k ∙ e')))))
                                  | inr (no_validate, l) ↦
                                      let free : (Rest : Type 0) → OneOf box wanted Rest → Rest =
                                        λ Rest.
                                          rest_of box wanted Rest no_introspect no_search
                                            no_explorer no_execute no_validate in
                                      let (tool, here, named, e') =
                                        operation_runs box.operations wanted
                                          (free (HasName tool_name wanted box.operations) h) in
                                      inr (
                                        inr (
                                          inr (
                                            inr (
                                              inr (
                                                free ⊥,
                                                (tool, here, named, e ∙ f ∙ g ∙ k ∙ l ∙ e'),
                                              )))))
                                ]
                        ]
                  ]
            ]
      ]

  pub dispatch_missed :
      (box : Toolbox Json Detail) (app_param : Option String) (wanted : String)
      → (OneOf box wanted ⊥ → ⊥)
      → dispatch box app_param wanted ≡ dispatch_other box app_param wanted
  unfolding dispatch
  dispatch_missed box app_param wanted free =
      built_in_missed wanted introspect_tool_name box.introspect_tool introspect _
        (λ on e. free (inl (on, e)))
      ∙ built_in_missed wanted search_tool_name box.search_tool search _
          (λ on e. free (inr (inl (on, e))))
      ∙ built_in_missed wanted explorer_tool_name box.explorer_tool explorer _
          (λ on e. free (inr (inr (inl (on, e)))))
      ∙ built_in_missed wanted execute_tool_name box.execute_tool execute _
          (λ on e. free (inr (inr (inr (inl (on, e))))))
      ∙ built_in_missed wanted validate_tool_name box.validate_tool validate _
          (λ on e. free (inr (inr (inr (inr (inl (on, e)))))))
