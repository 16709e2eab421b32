-- ===== src/Web/Nodes.antt =====
-- frontend/src/components/NodeFormModal.jsx, EndpointDrawer.jsx and NodesTable.jsx: creating a node,
-- choosing the endpoints under which it reaches its peers, and the table of nodes.
pub mod Forms
use peer_wan.Prelude.{
  ℕ, String, ◌==◌, Bool, true, false, not, Option, none, some, List, [], ◌∷◌, ◌⧺◌, map, keep,
  find_first, join, ◌||◌, is_blank, if◌then◌else◌,
}
use peer_wan.Prelude.Dict.{Dict}
use peer_wan.Web.Js.{
  Json, Toast, JsError, new_error, error, shown, Act, pure, throw, try_catch, finally_do, detached,
  when_valid, set_own, toast, gets, ◌>>=◌, ◌>>◌,
}
use peer_wan.Web.Api.{Net, Answer, Reply, object, plain, api, post_json, no_options}

-- An entry of `/api/v1/nodes`; a field that is missing or `null` is `none`.
pub record NodeItem : Type 0 where
  pub id : String
  pub overlay_ip : Option String
  pub endpoints : Option (List String)
  pub cidrs : Option (List String)
  pub config_version : Option String
  pub peer_endpoints : Option (Dict String)

-- What the form of NodeFormModal holds.
pub record NodeForm : Type 0 where
  pub id : Option String
  pub listen_port : Option String

pub record NodePage : Type 0 where
  pub form : NodeForm
  pub loading : Bool
  pub shown_form : Bool

-- `validateFields`: both fields are required. So `v.listenPort || 8082` is the field itself.
unfoldable pub node_values : NodeForm → Option (String × String)
node_values f = elim f.id [
  | none ↦ none
  | some id ↦ elim f.listen_port [
    | none ↦ none
    | some port ↦ if is_blank id || is_blank port then none else some (id, port)
  ]
]

module _ (net : Net) (any : String → Answer (Unit {0})) (number : String → Json) where
  -- `submit` of NodeFormModal past the validation; `number` is JavaScript's `Number` as JSON
  unfoldable pub create_node_values :
      Act NodePage (Unit {0}) → String × String → Act NodePage (Unit {0})
  unfolding api
  create_node_values on_ok (id, port) = do
    set_own (λ s. record s { loading = true })
    finally_do
        (try_catch
          (do
            api net any "/api/v1/nodes/register"
                (post_json (("id", Json.text id) ∷ ("listenPort", number port) ∷ []))
            toast (Toast.success "节点已创建")
            detached on_ok
            set_own (λ s. record s { shown_form = false }))
          (λ e. toast (Toast.failure ("创建失败: " ⧺ shown e))))
        (λ p. record p { own = record p.own { loading = false } })

  unfoldable pub create_node : Act NodePage (Unit {0}) → Act NodePage (Unit {0})
  unfolding create_node_values
  create_node on_ok p = when_valid (node_values p.own.form) (create_node_values on_ok) p

-- The state of EndpointDrawer; its form holds the chosen endpoint of each peer.
pub record EndpointPage : Type 0 where
  pub peer_endpoints : Dict String
  pub loading : Bool
  pub drawer_open : Bool

abbrev or_no_entries : Option (Dict String) → Dict String
or_no_entries none = []
or_no_entries (some m) = m

abbrev endpoints_of : Option NodeItem → Dict String
endpoints_of none = []
endpoints_of (some n) = or_no_entries n.peer_endpoints

-- `res.find` of a text is no function.
abbrev found_in : {S : Type 0} → String → Reply (List NodeItem) → Act S (Dict String)
found_in id (plain _) = throw (error "TypeError" "res.find is not a function")
found_in id (object nodes) = pure (endpoints_of (find_first (λ n. n.id == id) nodes))

-- The object that `submit` sends.
abbrev pub endpoint_payload : String → Dict String → List (String × Json)
endpoint_payload id m =
    ("id", Json.text id) ∷ ("peerEndpoints", Json.table m) ∷ ("force", Json.flag true) ∷ []

module _ (net : Net) where
  unfoldable pub load_endpoints :
      (String → Answer (List NodeItem)) → String → Act EndpointPage (Unit {0})
  unfolding api
  load_endpoints parse id =
      try_catch
        (do
          res ← api net parse "/api/v1/nodes" no_options
          found ← found_in id res
          set_own (λ s. record s { peer_endpoints = found }))
        (λ e. toast (Toast.failure "加载节点失败"))

  -- `submit` of EndpointDrawer; its form has no required field
  unfoldable pub save_endpoints :
      (String → Answer (Unit {0})) → String → Act EndpointPage (Unit {0})
  unfolding api
  save_endpoints any id = do
    s ← gets (λ p. p.own)
    set_own (λ s. record s { loading = true })
    finally_do
        (try_catch
          (do
            api net any "/api/v1/nodes/register" (post_json (endpoint_payload id s.peer_endpoints))
            toast (Toast.success "Endpoint 已更新")
            set_own (λ s. record s { drawer_open = false }))
          (λ e. toast (Toast.failure ("保存失败: " ⧺ shown e))))
        (λ p. record p { own = record p.own { loading = false } })

abbrev or_no_texts : Option (List String) → List String
or_no_texts none = []
or_no_texts (some l) = l

abbrev pub is_current : Option String → String → Bool
is_current none id = false
is_current (some c) id = c == id

-- The choices of the drawer: every other node, with its endpoints.
unfoldable pub endpoint_choices : Option String → List NodeItem → List (String × List String)
endpoint_choices current nodes =
    map (λ n. (n.id, or_no_texts n.endpoints)) (keep (λ n. not (is_current current n.id)) nodes)

-- A row of NodesTable: ID, overlay address, endpoints, CIDRs and version.
unfoldable pub table_row : NodeItem → String × Option String × String × String × Option String
table_row n = (
  n.id,
  n.overlay_ip,
  join ", " (or_no_texts n.endpoints),
  join ", " (or_no_texts n.cidrs),
  n.config_version,
)
