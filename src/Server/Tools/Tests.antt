-- ===== src/Server/Tools/Tests.antt =====
-- Tests of the lists and the choice of tools, and their theorems at concrete inputs.
use mathlib.Core.List.{Permᴰ}
use apollo_mcp_server.Prelude.{
  ◌≡◌, ◌∙◌, sym, ap, refl, Bool, true, none, some, List, [], ◌∷◌, String, find, discard, assign,
  str_le, Any, inl, inr, arith, ◌==◌, eq_iff,
}
use apollo_mcp_server.Server.Tools.{
  Tool, App, Toolbox, JsonValues, apps_sdk, insert_sorted, sort_by, find_named, tool_name,
  make_tool_private, attach_tool_metadata, strip_output, app_list, plain_list, list_tools,
  of_operation, tool_not_found, find_app_tool, find_operation, dispatch_other, built_in, dispatch,
  execute,
}
use apollo_mcp_server.Server.Tools.Named.{HasName}
use apollo_mcp_server.Server.Tools.Choice.{Runs, IsNamed, OneOf}
use apollo_mcp_server.Server.Tools.Order.{Identify, list_tools-Permᴰ}
use apollo_mcp_server.Server.Tools.Callable.{list_tools-dispatch, list_tools-app_operation}

abbrev json : JsonValues String
json = record { text = λ s. s; ui = λ uri visibility. "ui" }

abbrev plain : String → Tool String Bool
plain name = record { name = name; output_schema = some "object"; meta = []; detail = true }

abbrev shop : App String Bool
shop = record {
  name = "shop";
  uri = "ui://shop";
  tools = record { invoking = none; invoked = some "done"; tool = plain "buy" } ∷ [];
}

abbrev box : Toolbox String Bool
box = record {
  operations = plain "weather" ∷ plain "alerts" ∷ [];
  apps = shop ∷ [];
  execute_tool = some (plain "execute");
  introspect_tool = none;
  search_tool = none;
  explorer_tool = none;
  validate_tool = none;
}

tools_open : Unit {0}
unfolding insert_sorted sort_by find_named make_tool_private attach_tool_metadata strip_output
    app_list plain_list list_tools find_app_tool find_operation dispatch_other built_in dispatch
    find discard assign str_le
tools_open = tt

lists :
    list_tools json box none (some apps_sdk) true
    ≡ some (plain "alerts" ∷ plain "weather" ∷ plain "execute" ∷ [])
unfolding tools_open
lists = refl

abbrev shop_tools : List (Tool String Bool)
shop_tools =
    plain "alerts"
    ∷ plain "weather"
    ∷ record (plain "execute") { meta = ("ui", "ui") ∷ [] }
    ∷ record (plain "buy") {
      meta =
          ("ui", "ui")
          ∷ ("openai/toolInvocation/invoked", "done")
          ∷ ("ui/resourceUri", "ui://shop")
          ∷ [];
    }
    ∷ []

lists_shop : list_tools json box (some "shop") (some apps_sdk) true ≡ some shop_tools
unfolding tools_open
lists_shop = refl

calls :
    (dispatch box none "weather" ≡ of_operation (plain "weather"))
    × (dispatch box none "buy" ≡ tool_not_found)
    × (dispatch box (some "shop") "execute" ≡ execute (plain "execute"))
    × (dispatch box (some "shop") "weather" ≡ tool_not_found)
unfolding tools_open
calls = (refl, refl, refl, refl)

box-IsNamed : IsNamed box
box-IsNamed = record {
  introspects = λ tool e. absurd (ground arith);
  searches = λ tool e. absurd (ground arith);
  explores = λ tool e. absurd (ground arith);
  executes = λ tool e. ground arith;
  validates = λ tool e. absurd (ground arith);
}

list_tools-dispatch_example : Runs box "execute" (dispatch box none "execute")
list_tools-dispatch_example =
    list_tools-dispatch json box (some apps_sdk) true
      (plain "alerts" ∷ plain "weather" ∷ plain "execute" ∷ []) "execute" box-IsNamed lists
      (inr (inr (inl refl)))

not_execute : ◌≡◌ {A = String} "execute" "weather" → ⊥
not_execute h =
    let e : ("execute" == "weather") ≡ true = (eq_iff "execute" "weather").1 h in
    absurd (ground arith)

not_alerts : ◌≡◌ {A = String} "weather" "alerts" → ⊥
not_alerts h = cc h

weather_is_free : OneOf box "weather" ⊥ → ⊥
weather_is_free (inl h) = absurd (ground arith)
weather_is_free (inr (inl h)) = absurd (ground arith)
weather_is_free (inr (inr (inl h))) = absurd (ground arith)
weather_is_free (inr (inr (inr (inl h)))) = not_execute h.1
weather_is_free (inr (inr (inr (inr (inl h))))) = absurd (ground arith)
weather_is_free (inr (inr (inr (inr (inr h))))) = h

list_tools-app_operation_example :
    HasName tool_name "weather" shop_tools × (dispatch box (some "shop") "weather" ≡ tool_not_found)
unfolding tools_open
list_tools-app_operation_example =
    list_tools-app_operation json box shop "shop" apps_sdk true shop_tools "weather" refl lists_shop
      (inl refl) refl weather_is_free

abbrev Ours : Tool String Bool → Type 0
Ours tool = Any (λ other. tool ≡ other) box.operations

apart : (a b : Tool String Bool) → Ours a → Ours b → a.name ≡ b.name → a ≡ b
apart a b (inl e) (inl f) n = e ∙ sym f
apart a b (inl e) (inr (inl f)) n = absurd (not_alerts (sym (ap tool_name e) ∙ n ∙ ap tool_name f))
apart a b (inr (inl e)) (inl f) n =
    absurd (not_alerts (sym (ap tool_name f) ∙ sym n ∙ ap tool_name e))
apart a b (inr (inl e)) (inr (inl f)) n = e ∙ sym f
apart a b (inr (inr e)) h n = absurd e
apart a b h (inr (inr f)) n = absurd f

box-Identify : Identify tool_name (λ tool. Any (λ other. tool ≡ other) box.operations)
box-Identify = apart

list_tools-Permᴰ_example :
    list_tools json box none (some apps_sdk) true
    ≡ list_tools json
        (record box { operations = plain "alerts" ∷ plain "weather" ∷ [] })
        none
        (some apps_sdk)
        true
list_tools-Permᴰ_example =
    list_tools-Permᴰ json box (plain "alerts" ∷ plain "weather" ∷ []) none (some apps_sdk) true
      box-Identify (Permᴰ.swap refl refl)
