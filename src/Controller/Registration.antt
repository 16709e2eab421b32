-- ===== src/Controller/Registration.antt =====
-- The node that a request to `/api/v1/nodes/register` of pkg/api/controller.go is merged into, and
-- whether it is written.
use peer_wan.Prelude.{
  ℕ, Char, code, String, ◌==◌, Bool, true, false, not, ◌&&◌, ◌||◌, Option, none, some, List, [],
  ◌∷◌, eqb, is_blank, is_empty, text_of, if◌then◌else◌,
}
use peer_wan.Prelude.Dict.{Dict}
use peer_wan.Model.{Node, no_node}
use peer_wan.Store.{MemoryStore, upsert_node}

-- `NodeRegistrationRequest`
pub record Registration : Type 0 where
  pub id : String
  pub public_key : String
  pub endpoints : List String
  pub cidrs : List String
  pub listen_port : ℕ
  pub overlay_ip : String
  pub asn : ℕ
  pub router_id : String
  pub peer_endpoints : Dict String
  pub provision_token : String
  pub force : Bool

unfoldable pub same_texts : List String → List String → Bool
same_texts [] [] = true
same_texts [] (b ∷ bs) = false
same_texts (a ∷ rest) [] = false
same_texts (a ∷ rest) (b ∷ bs) = (a == b) && same_texts rest bs

unfoldable pub node_equal : Node → Node → Bool
unfolding same_texts
node_equal a b =
    (a.id == b.id)
    && (a.public_key == b.public_key)
    && eqb a.listen_port b.listen_port
    && (a.overlay_ip == b.overlay_ip)
    && eqb a.asn b.asn
    && (a.router_id == b.router_id)
    && same_texts a.endpoints b.endpoints
    && same_texts a.cidrs b.cidrs

-- The node of a request, before it is merged; `stub-public-key` stands for no key.
unfoldable pub node_of : Registration → String → Node
node_of req token = record no_node {
  id = req.id;
  public_key = if req.public_key == "stub-public-key" then "" else req.public_key;
  endpoints = req.endpoints;
  cidrs = req.cidrs;
  listen_port = req.listen_port;
  overlay_ip = req.overlay_ip;
  asn = req.asn;
  router_id = req.router_id;
  peer_endpoints = req.peer_endpoints;
  provision_token = token;
}

abbrev pub or_text : String → String → String
or_text s other = if is_blank s then other else s

abbrev or_number : ℕ → ℕ → ℕ
or_number n other = if eqb n 0 then other else n

abbrev or_list {ℓ} : {A : Type ℓ} → List A → List A → List A
or_list l other = if is_empty l then other else l

unfoldable pub is_placeholder_overlay : String → Bool
is_placeholder_overlay s = is_blank s || (s == "10.10.1.1/32")

-- The overlay address of a node that is registered again.
unfoldable pub merged_overlay : String → String → String
unfolding is_placeholder_overlay
merged_overlay stored sent =
    if not (is_blank stored)
    then stored
    else if is_blank sent || (is_placeholder_overlay sent && not (is_blank stored))
    then stored
    else sent

-- The two branches that merge a request into the stored node, one for a node with its token and one
-- for the user interface, do the same.
unfoldable pub merge : Node → Node → Node
unfolding merged_overlay
merge existing n = record n {
  public_key = or_text n.public_key existing.public_key;
  private_key = or_text n.private_key existing.private_key;
  overlay_ip = merged_overlay existing.overlay_ip n.overlay_ip;
  provision_token = existing.provision_token;
  listen_port = or_number n.listen_port existing.listen_port;
  asn = or_number n.asn existing.asn;
  router_id = or_text n.router_id existing.router_id;
  endpoints = or_list n.endpoints existing.endpoints;
  cidrs = or_list n.cidrs existing.cidrs;
  peer_endpoints = or_list n.peer_endpoints existing.peer_endpoints;
}

abbrev pub merged : Option Node → Node → Node
unfolding merge
merged none n = n
merged (some existing) n = merge existing n

abbrev prepend : Char → Option String → Option String
prepend c none = none
prepend c (some s) = some (text_of c s)

-- `node.OverlayIP[:idx]` for the index of the first `/`; `none` where there is none
unfoldable pub before_slash : String → Option String
before_slash String.[] = none
before_slash (String.◌∷◌ c s) =
    let rest = before_slash s in if eqb (code c) b'/' then some "" else prepend c rest

abbrev router_from : String → Option String → String
router_from old none = old
router_from old (some s) = or_text s old

-- A router ID is taken from the overlay address where none is given (`idx > 0`).
unfoldable pub with_router_id : Node → Node
unfolding before_slash
with_router_id n =
    if is_blank n.router_id && not (is_blank n.overlay_ip)
    then record n { router_id = router_from n.router_id (before_slash n.overlay_ip) }
    else n

-- The node that a registration leads to.
unfoldable pub registered : Option Node → Registration → String → Node
unfolding node_of with_router_id
registered existing req token = with_router_id (merged existing (node_of req token))

unfoldable pub unchanged : Option Node → Registration → Node → Bool
unfolding node_equal
unchanged none req n = false
unchanged (some e) req n = not req.force && node_equal e n

abbrev or_zero_node : Option Node → Node
or_zero_node none = no_node
or_zero_node (some e) = e

-- The node that is stored in the end, and the store: an unchanged node is not written again.
unfoldable pub persist : Option Node → Registration → Node → MemoryStore → Node × MemoryStore
unfolding upsert_node
persist existing req n s =
    if unchanged existing req n then (or_zero_node existing, s) else upsert_node n s
