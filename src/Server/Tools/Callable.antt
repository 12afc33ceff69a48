-- ===== src/Server/Tools/Callable.antt =====
-- Which listed tools the choice of the parent finds when they are called.
use apollo_mcp_server.Prelude.{
  ◌≡◌, ◌∙◌, sym, refl, Bool, true, false, Option, none, some, List, [], ◌∷◌, String, inl, inr,
  arith,
}
use apollo_mcp_server.Server.Tools.{
  Tool, App, Toolbox, JsonValues, AppTarget, introspect_tool_name, search_tool_name,
  explorer_tool_name, execute_tool_name, validate_tool_name, sort_by, find_named, listed, tool_name,
  app_name, app_tool_name, strip_output, app_list, plain_list, list_tools, tool_not_found,
  find_app_tool, dispatch_other, dispatch,
}
use apollo_mcp_server.Server.Tools.Named.{HasName, Any-append, append-Any, sort-Any, Any-sort}
use apollo_mcp_server.Server.Tools.Choice.{
  Runs, IsNamed, Reserved, OneOf, dispatch-Runs, dispatch_missed,
}

module _ {Json Detail : Type 0} (json : JsonValues Json) where
  strip_names :
      (supported : Bool) (wanted : String) (tools : List (Tool Json Detail))
      → HasName tool_name wanted (strip_output json supported tools)
      → HasName tool_name wanted tools
  unfolding strip_output
  strip_names true wanted tools h = h
  strip_names false wanted (t ∷ tools) (inl h) = inl h
  strip_names false wanted [] h = absurd h
  strip_names false wanted (t ∷ tools) (inr h) = inr (strip_names false wanted tools h)

  listed-Reserved :
      (tool : Option (Tool Json Detail)) (reserved wanted : String)
      → ((t : Tool Json Detail) → tool ≡ some t → t.name ≡ reserved)
      → HasName tool_name wanted (listed tool)
      → Reserved tool reserved wanted
  listed-Reserved none reserved wanted named h = absurd h
  listed-Reserved (some t) reserved wanted named (inl h) = (refl, sym (named t refl) ∙ h)
  listed-Reserved (some t) reserved wanted named (inr h) = absurd h

  plain_found :
      (box : Toolbox Json Detail) (wanted : String)
      → IsNamed box
      → HasName tool_name wanted (plain_list json box)
      → Runs box wanted (dispatch box none wanted)
  unfolding plain_list
  plain_found box wanted named h =
      let P : Tool Json Detail → Type 0 = λ t. t.name ≡ wanted in
      dispatch-Runs box wanted (elim (Any-append P (sort_by tool_name box.operations) _ h) [
        | inl k ↦ inr (inr (inr (inr (inr (sort-Any tool_name P box.operations k)))))
        | inr h ↦ elim (Any-append P (listed box.execute_tool) _ h) [
          | inl k ↦ inr (
              inr (
                inr (
                  inl
                    (listed-Reserved box.execute_tool execute_tool_name wanted named.executes k))))
          | inr h ↦ elim (Any-append P (listed box.introspect_tool) _ h) [
            | inl k ↦ inl (
                listed-Reserved box.introspect_tool introspect_tool_name wanted named.introspects k)
            | inr h ↦ elim (Any-append P (listed box.search_tool) _ h) [
              | inl k ↦
                  inr
                    (inl (listed-Reserved box.search_tool search_tool_name wanted named.searches k))
              | inr h ↦ elim (Any-append P (listed box.explorer_tool) _ h) [
                | inl k ↦ inr (
                    inr (
                      inl (
                        listed-Reserved box.explorer_tool explorer_tool_name wanted named.explores
                          k)))
                | inr k ↦ inr (
                    inr (
                      inr (
                        inr (
                          inl (
                            listed-Reserved box.validate_tool validate_tool_name wanted
                              named.validates k)))))
              ]
            ]
          ]
        ]
      ])

  -- Without an app, a call of a name that is listed runs the built-in tool of that name, if it is on, and
  -- otherwise an operation of that name, whatever the order of the operations. So a name that is listed
  -- is never refused, although an operation with the name of a built-in tool that is on never runs.
  -- (The built-in tools carry their reserved names.)
  pub list_tools-dispatch :
      (box : Toolbox Json Detail) (app_target : Option AppTarget) (supported : Bool)
      (tools : List (Tool Json Detail)) (wanted : String)
      → IsNamed box
      → list_tools json box none app_target supported ≡ some tools
      → HasName tool_name wanted tools
      → Runs box wanted (dispatch box none wanted)
  unfolding list_tools
  list_tools-dispatch box none supported tools wanted named h has = absurd (ground arith)
  list_tools-dispatch box (some app_target) supported tools wanted named h has =
      let same : strip_output json supported (plain_list json box) ≡ tools = ground arith in
      plain_found box wanted named
        (strip_names supported wanted (plain_list json box) (rw (← same) at has))

  names_strip :
      (supported : Bool) (wanted : String) (tools : List (Tool Json Detail))
      → HasName tool_name wanted tools
      → HasName tool_name wanted (strip_output json supported tools)
  unfolding strip_output
  names_strip true wanted tools h = h
  names_strip false wanted [] h = absurd h
  names_strip false wanted (t ∷ tools) (inl h) = inl h
  names_strip false wanted (t ∷ tools) (inr h) = inr (names_strip false wanted tools h)

  other_app_tool :
      (apps : List (App Json Detail)) (app : App Json Detail) (app_param wanted : String)
      → find_named app_name app_param apps ≡ some app
      → find_named app_tool_name wanted app.tools ≡ none
      → find_app_tool apps app_param wanted ≡ tool_not_found
  unfolding find_app_tool
  other_app_tool apps app app_param wanted found missing = rw (found, missing, find_app_tool) refl

  -- With an app, the operations are listed next to the tools of the app, but a call of one of them is
  -- refused: only a tool of the app or a built-in tool of that name would run.
  pub list_tools-app_operation :
      (box : Toolbox Json Detail) (app : App Json Detail) (app_param : String)
      (app_target : AppTarget) (supported : Bool) (tools : List (Tool Json Detail))
      (wanted : String)
      → find_named app_name app_param box.apps ≡ some app
      → list_tools json box (some app_param) (some app_target) supported ≡ some tools
      → HasName tool_name wanted box.operations
      → find_named app_tool_name wanted app.tools ≡ none
      → (OneOf box wanted ⊥ → ⊥)
      → HasName tool_name wanted tools × (dispatch box (some app_param) wanted ≡ tool_not_found)
  unfolding list_tools app_list dispatch_other
  list_tools-app_operation box app app_param app_target supported tools wanted found h has missing
        free =
      let same : strip_output json supported (app_list json box app_target app) ≡ tools =
        ground arith in
      let P : Tool Json Detail → Type 0 = λ t. t.name ≡ wanted in
      (
        rw (← same) (
            names_strip supported wanted (app_list json box app_target app) (
              append-Any P (sort_by tool_name box.operations) _
                (Any-sort tool_name P box.operations has))),
        dispatch_missed box (some app_param) wanted free
            ∙ other_app_tool box.apps app app_param wanted found missing,
      )
