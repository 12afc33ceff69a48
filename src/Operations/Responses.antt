-- ===== src/Operations/Responses.antt =====
-- The responses to operations with private fields: filter_private_fields of
-- crates/apollo-mcp-server/src/operations/private_fields.rs, and the split of a response in
-- crates/apollo-mcp-server/src/graphql.rs.
pub mod Filtered
pub mod Visible
mod Tests
use apollo_mcp_server.Prelude.{Bool, Option, none, some, String, ◌==◌, if◌then◌else◌}
use apollo_mcp_server.Operations.Private.{PrivateFieldTree, node, Children, is_private, get_child}

-- `serde_json::Value`, with numbers as their text.
mutual
  pub data Value : Type 0 where
    null : Value
    boolean : Bool → Value
    number : String → Value
    text : String → Value
    array : Items → Value
    object : Members → Value

  pub data Items : Type 0 where
    no_items : Items
    item : Value → Items → Items

  pub data Members : Type 0 where
    no_members : Members
    member : String → Value → Members → Members

unfoldable mutual
  pub filter_object : Value → PrivateFieldTree → Value
  filter_object (object members) (node marked children) = object (filter_members members children)
  filter_object (array items) tree = array (filter_items items tree)
  filter_object null tree = null
  filter_object (boolean b) tree = boolean b
  filter_object (number n) tree = number n
  filter_object (text s) tree = text s

  pub filter_items : Items → PrivateFieldTree → Items
  filter_items no_items tree = no_items
  filter_items (item value items) tree = item (filter_object value tree) (filter_items items tree)

  pub filter_members : Members → Children → Members
  filter_members no_members children = no_members
  filter_members (member key value members) children =
      let others = filter_members members children in
      elim (get_child key children) [
        | none ↦ member key value others
        | some tree ↦
            if is_private tree then others else member key (filter_object value tree) others
      ]

-- `filter_private_fields` on the members of the response.
unfoldable pub filter_response : Members → PrivateFieldTree → Members
filter_response no_members tree = no_members
filter_response (member key value members) tree =
    member key (if key == "data" then filter_object value tree else value)
      (filter_response members tree)

unfoldable pub filter_private_fields : Value → PrivateFieldTree → Value
filter_private_fields (object members) tree = object (filter_response members tree)
filter_private_fields (array items) tree = array items
filter_private_fields null tree = null
filter_private_fields (boolean b) tree = boolean b
filter_private_fields (number n) tree = number n
filter_private_fields (text s) tree = text s

-- The content that the model sees and the full response for the app.
unfoldable pub split_response : Value → Option PrivateFieldTree → Value × Option Value
split_response json none = (json, none)
split_response json (some tree) = (filter_private_fields json tree, some json)
