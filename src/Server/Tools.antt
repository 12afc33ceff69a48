-- ===== src/Server/Tools.antt =====
-- The tools that a running server lists and calls: `list_tools_impl` and `call_tool_impl` of
-- crates/apollo-mcp-server/src/server/states/running.rs, with the lookups of
-- crates/apollo-mcp-server/src/apps/tool.rs and crates/apollo-mcp-server/src/operations/execution.rs.
pub mod Order
pub mod Named
pub mod Choice
pub mod Callable
mod Tests
use apollo_mcp_server.Prelude.{
  ℕ, suc, ◌≡◌, Bool, true, false, not, ◌&&◌, Option, none, some, is_none, is_some, List, [], ◌∷◌,
  ◌++◌, map, String, Result, ok, err, KeyEq, assign, str_le, ◌==◌, eq_iff, if◌then◌else◌,
}

-- The part of a tool that the lists read or change; `detail` is the rest.
pub record Tool (Json Detail : Type 0) : Type 0 where
  pub name : String
  pub output_schema : Option Json
  pub meta : List (String × Json)
  pub detail : Detail

pub record AppTool (Json Detail : Type 0) : Type 0 where
  pub invoking : Option String
  pub invoked : Option String
  pub tool : Tool Json Detail

pub record App (Json Detail : Type 0) : Type 0 where
  pub name : String
  pub uri : String
  pub tools : List (AppTool Json Detail)

-- The fields of `Running` that name tools. Operations are their tools.
pub record Toolbox (Json Detail : Type 0) : Type 0 where
  pub operations : List (Tool Json Detail)
  pub apps : List (App Json Detail)
  pub execute_tool : Option (Tool Json Detail)
  pub introspect_tool : Option (Tool Json Detail)
  pub search_tool : Option (Tool Json Detail)
  pub explorer_tool : Option (Tool Json Detail)
  pub validate_tool : Option (Tool Json Detail)

pub data AppTarget : Type 0 where
  apps_sdk : AppTarget
  mcp_apps : AppTarget

-- The JSON values that the source builds: a text, and the object under `ui`.
pub record JsonValues (Json : Type 0) : Type 0 where
  pub text : String → Json
  pub ui : Option String → List String → Json

abbrev pub introspect_tool_name : String
introspect_tool_name = "introspect"

abbrev pub search_tool_name : String
search_tool_name = "search"

abbrev pub explorer_tool_name : String
explorer_tool_name = "explorer"

abbrev pub execute_tool_name : String
execute_tool_name = "execute"

abbrev pub validate_tool_name : String
validate_tool_name = "validate"

abbrev pub texts : KeyEq String
texts = record { same = λ a b. a == b; same_iff = eq_iff }

module _ {A : Type 0} (name : A → String) where
  unfoldable pub insert_sorted : A → List A → List A
  insert_sorted a [] = a ∷ []
  insert_sorted a (b ∷ bs) =
      let later = insert_sorted a bs in if str_le (name a) (name b) then a ∷ b ∷ bs else b ∷ later

  -- `sort_by`, which is stable, on the names
  unfoldable pub sort_by : List A → List A
  unfolding insert_sorted
  sort_by [] = []
  sort_by (a ∷ rest) = insert_sorted a (sort_by rest)

  -- `iter().find(..)` on the names
  unfoldable pub find_named : String → List A → Option A
  find_named wanted [] = none
  find_named wanted (a ∷ rest) =
      let later = find_named wanted rest in if name a == wanted then some a else later

abbrev pub listed : {A : Type 0} → Option A → List A
listed none = []
listed (some a) = a ∷ []

abbrev pub tool_name : {Json Detail : Type 0} → Tool Json Detail → String
tool_name tool = tool.name

abbrev pub app_name : {Json Detail : Type 0} → App Json Detail → String
app_name app = app.name

abbrev pub app_tool_name : {Json Detail : Type 0} → AppTool Json Detail → String
app_tool_name app_tool = app_tool.tool.name

module _ {Json Detail : Type 0} (json : JsonValues Json) where
  abbrev insert_meta : String → Json → Tool Json Detail → Tool Json Detail
  insert_meta key value tool = record tool { meta = assign texts tool.meta key value }

  unfoldable pub make_tool_private : Tool Json Detail → Tool Json Detail
  make_tool_private tool = insert_meta "ui" (json.ui none ("app" ∷ [])) tool

  label : AppTarget → String → Option String → Tool Json Detail → Tool Json Detail
  label apps_sdk key (some value) tool = insert_meta key (json.text value) tool
  label apps_sdk key none tool = tool
  label mcp_apps key value tool = tool

  unfoldable pub attach_tool_metadata :
      App Json Detail → AppTarget → AppTool Json Detail → Tool Json Detail
  unfolding label
  attach_tool_metadata app app_target app_tool =
      let with_uri = insert_meta "ui/resourceUri" (json.text app.uri) app_tool.tool in
      let with_invoking =
        label app_target "openai/toolInvocation/invoking" app_tool.invoking with_uri in
      let with_invoked =
        label app_target "openai/toolInvocation/invoked" app_tool.invoked with_invoking in
      insert_meta "ui" (json.ui (some app.uri) ("model" ∷ "app" ∷ [])) with_invoked

  abbrev without_output_schema : Tool Json Detail → Tool Json Detail
  without_output_schema tool = record tool { output_schema = none }

  unfoldable pub strip_output : Bool → List (Tool Json Detail) → List (Tool Json Detail)
  strip_output supported tools = if not supported then map without_output_schema tools else tools

  -- What is listed for an app, and without one.
  unfoldable pub app_list :
      Toolbox Json Detail → AppTarget → App Json Detail → List (Tool Json Detail)
  unfolding sort_by make_tool_private attach_tool_metadata
  app_list box app_target app =
      sort_by tool_name box.operations
      ++ (map make_tool_private (listed box.execute_tool)
          ++ map (attach_tool_metadata app app_target) app.tools)

  unfoldable pub plain_list : Toolbox Json Detail → List (Tool Json Detail)
  unfolding sort_by
  plain_list box =
      sort_by tool_name box.operations
      ++ (listed box.execute_tool
          ++ (listed box.introspect_tool
              ++ (listed box.search_tool
                  ++ (listed box.explorer_tool ++ listed box.validate_tool))))

  -- `list_tools_with_protocol_max`, with the app target that the request asks for; `none` is an error.
  unfoldable pub list_tools :
      Toolbox Json Detail
      → Option String
      → Option AppTarget
      → Bool
      → Option (List (Tool Json Detail))
  unfolding strip_output app_list plain_list find_named
  list_tools box app_param none supported = none
  list_tools box none (some app_target) supported = some (strip_output supported (plain_list box))
  list_tools box (some wanted) (some app_target) supported =
      elim (find_named app_name wanted box.apps) [
        | none ↦ none
        | some app ↦ some (strip_output supported (app_list box app_target app))
      ]

-- What a call runs.
pub data Target (Json Detail : Type 0) : Type 0 where
  introspect : Tool Json Detail → Target Json Detail
  search : Tool Json Detail → Target Json Detail
  explorer : Tool Json Detail → Target Json Detail
  execute : Tool Json Detail → Target Json Detail
  validate : Tool Json Detail → Target Json Detail
  of_app : App Json Detail → AppTool Json Detail → Target Json Detail
  of_operation : Tool Json Detail → Target Json Detail
  tool_not_found : Target Json Detail

module _ {Json Detail : Type 0} where
  -- `find_and_execute_app_tool`
  unfoldable pub find_app_tool : List (App Json Detail) → String → String → Target Json Detail
  unfolding find_named
  find_app_tool apps app_param wanted = elim (find_named app_name app_param apps) [
    | none ↦ tool_not_found
    | some app ↦ elim (find_named app_tool_name wanted app.tools) [
      | none ↦ tool_not_found
      | some app_tool ↦ of_app app app_tool
    ]
  ]

  -- `find_and_execute_operation`
  unfoldable pub find_operation : List (Tool Json Detail) → String → Target Json Detail
  unfolding find_named
  find_operation operations wanted = elim (find_named tool_name wanted operations) [
    | none ↦ tool_not_found
    | some tool ↦ of_operation tool
  ]

  unfoldable pub dispatch_other : Toolbox Json Detail → Option String → String → Target Json Detail
  unfolding find_app_tool find_operation
  dispatch_other box none wanted = find_operation box.operations wanted
  dispatch_other box (some app_param) wanted = find_app_tool box.apps app_param wanted

  -- A built-in tool, if it is on and is the one that is wanted, or else the rest of the choice.
  unfoldable pub built_in :
      String
      → String
      → Option (Tool Json Detail)
      → (Tool Json Detail → Target Json Detail)
      → Target Json Detail
      → Target Json Detail
  built_in wanted reserved none run others = others
  built_in wanted reserved (some tool) run others = if wanted == reserved then run tool else others

  -- The choice that `call_tool_impl` makes by the name of the tool.
  unfoldable pub dispatch : Toolbox Json Detail → Option String → String → Target Json Detail
  unfolding built_in dispatch_other
  dispatch box app_param wanted =
      built_in wanted introspect_tool_name box.introspect_tool introspect (
        built_in wanted search_tool_name box.search_tool search (
          built_in wanted explorer_tool_name box.explorer_tool explorer (
            built_in wanted execute_tool_name box.execute_tool execute (
              built_in wanted validate_tool_name box.validate_tool validate
                (dispatch_other box app_param wanted)))))
