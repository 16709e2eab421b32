-- ===== src/Prepare.antt =====
-- pkg/api/prepare.go: a node that is about to be installed gets its keys, its token and an overlay
-- address. The key pair that `wgtypes` generates, `none` where that fails, is a parameter, and so are
-- the time and the address under which the controller was reached.
pub mod Octets
pub mod Overlays
pub mod Sequence
use peer_wan.Prelude.{
  ℕ, zero, suc, ◌+◌, ◌*◌, ◌-◌, Char, code, String, ◌==◌, ◌⧺◌, Bool, true, false, not, ◌&&◌, ◌||◌,
  Option, none, some, List, [], ◌∷◌, decimal, eqb, leb, ltb, is_blank, if◌then◌else◌,
}
use peer_wan.Prelude.Strings.{strip_start, begins_with}
use peer_wan.Model.{Node, no_node}
use peer_wan.Store.{MemoryStore, list_nodes, get_node, upsert_node}
use peer_wan.Controller.{Controller, bump_plan_version}
use peer_wan.Controller.Registration.{before_slash}
use peer_wan.Controller.Handlers.{Reply}

abbrev cut_at : String → Option String → String
cut_at s none = s
cut_at s (some t) = if is_blank t then s else t

-- `ipWithoutMask`: up to the first slash, where that is not at the start
unfoldable pub ip_without_mask : String → String
unfolding before_slash
ip_without_mask s = cut_at s (before_slash s)

abbrev pub is_digit : ℕ → Bool
is_digit c = leb b'0' c && leb c b'9'

-- The number that `%d` reads, and the point after it; `any` tells that a digit has been read.
unfoldable pub number_dot : Bool → ℕ → String → Option ℕ
number_dot any n String.[] = none
number_dot any n (String.◌∷◌ c s) =
    let rest = number_dot true (n * 10 + (code c - b'0')) s in
    if is_digit (code c) then rest else if any && eqb (code c) b'.' then some n else none

abbrev drop_plus : String → String
drop_plus String.[] = ""
drop_plus (String.◌∷◌ c s) = if eqb (code c) b'+' then s else String.◌∷◌ c s

abbrev after_point : String → String
after_point
      (String.◌∷◌ a (String.◌∷◌ b (String.◌∷◌ c (String.◌∷◌ d (String.◌∷◌ e (String.◌∷◌ f s)))))) =
    s
after_point s = ""

-- `fmt.Sscanf(ip, "10.10.%d.", &third)`. The verb skips blanks and takes a sign. A negative number and
-- one that does not fit an `int` are left out: the loop below looks for 1 to 253 only.
unfoldable pub third_octet : String → Option ℕ
unfolding begins_with strip_start number_dot
third_octet ip =
    if begins_with ip "10.10."
    then number_dot false 0 (drop_plus (strip_start (λ c. eqb c 32 || eqb c 9) (after_point ip)))
    else none

abbrev pub note : Option ℕ → List ℕ → List ℕ
note none used = used
note (some i) used = i ∷ used

-- The keys of `used`.
unfoldable pub octets : List Node → List ℕ
unfolding third_octet ip_without_mask
octets [] = []
octets (n ∷ nodes) = note (third_octet (ip_without_mask n.overlay_ip)) (octets nodes)

abbrev pub mem : List ℕ → ℕ → Bool
mem [] a = false
mem (x ∷ xs) a = eqb x a || mem xs a

-- The loop from `i` with the given rounds left.
unfoldable pub first_free : ℕ → ℕ → List ℕ → Option ℕ
first_free zero i used = none
first_free (suc rounds) i used =
    let rest = first_free rounds (suc i) used in if mem used i then rest else some i

unfoldable pub overlay_of : ℕ → String
overlay_of i = "10.10." ⧺ (decimal i ⧺ ".1/32")

abbrev pub or_fallback : Option ℕ → String
unfolding overlay_of
or_fallback none = "10.10.250.1/32"
or_fallback (some i) = overlay_of i

unfoldable pub assign_overlay : MemoryStore → String
unfolding octets first_free list_nodes
assign_overlay s = or_fallback (first_free 253 1 (octets (list_nodes s)))

-- `PrepareResponse`
pub record Prepared : Type 0 where
  pub id : String
  pub public_key : String
  pub private_key : String
  pub overlay_ip : String
  pub listen_port : ℕ
  pub provision_token : String
  pub command : String

pub record KeyPair : Type 0 where
  pub private_half : String
  pub public_half : String

unfoldable pub install_command : String → String → String → String
install_command addr id token =
    "curl -fsSL https://raw.githubusercontent.com/NiuStar/peer-wan/refs/heads/main/scripts/agent-install.sh -o /tmp/agent-install.sh && chmod +x /tmp/agent-install.sh && sudo /tmp/agent-install.sh --controller="
    ⧺ (addr ⧺ (" --node-id=" ⧺ (id ⧺ (" --provision-token=" ⧺ (token ⧺ " --auto-endpoint=true")))))

unfoldable pub new_node : String → KeyPair → String → ℕ → Node
unfolding ip_without_mask
new_node id keys overlay now = record no_node {
  id = id;
  public_key = keys.public_half;
  private_key = keys.private_half;
  overlay_ip = overlay;
  listen_port = 8082;
  asn = 65000;
  router_id = ip_without_mask overlay;
  provision_token = "pt-" ⧺ decimal now;
}

-- `existing`, where it can be used as it is
abbrev pub reusable : Option Node → Option Node
reusable none = none
reusable (some n) = if is_blank n.provision_token then none else some n

unfoldable pub answer : String → String → Node → Prepared
unfolding install_command
answer addr id n = record {
  id = id;
  public_key = n.public_key;
  private_key = n.private_key;
  overlay_ip = n.overlay_ip;
  listen_port = n.listen_port;
  provision_token = n.provision_token;
  command = install_command addr id n.provision_token;
}

-- The node that is installed, and the store; `none` where no keys could be made.
unfoldable pub take_node :
    ℕ → Option KeyPair → String → Option Node → MemoryStore → Option (Node × MemoryStore)
unfolding new_node assign_overlay upsert_node
take_node now keys id (some n) s = some (n, s)
take_node now none id none s = none
take_node now (some keys) id none s =
    let n : Node = new_node id keys (assign_overlay s) now in some (n, (upsert_node n s).1)

unfoldable pub finish :
    String → String → Controller → Option (Node × MemoryStore) → Reply Prepared × Controller
unfolding answer bump_plan_version
finish addr id c none = (Reply.http_error 500 "failed to generate key", c)
finish addr id c (some (n, s)) =
    (Reply.replied (answer addr id n), bump_plan_version (record c { store = s }))

-- `/api/v1/nodes/prepare`, for a POST whose body has been decoded
unfoldable pub prepare :
    ℕ → Option KeyPair → String → Bool → String → Controller → Reply Prepared × Controller
unfolding finish take_node get_node
prepare now keys addr auth id c =
    if not auth
    then (Reply.http_error 401 "unauthorized", c)
    else if is_blank id
    then (Reply.http_error 400 "invalid payload", c)
    else finish addr id c (take_node now keys id (reusable (get_node id c.store)) c.store)
