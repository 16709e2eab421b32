-- ===== src/Prepare/Sequence.antt =====
-- A sequence of calls of the handler of pkg/api/prepare.go, and the octets of the nodes it leaves.
use peer_wan.Prelude.{ℕ, ◌≤◌, String, Bool, false, Option, List, [], ◌∷◌, ◌≡◌, arith, length, eqb}
use peer_wan.Prelude.Dict.{Dict}
use peer_wan.Model.{Node}
use peer_wan.Store.{list_nodes}
use peer_wan.Controller.{Controller}
use peer_wan.Prepare.{KeyPair, third_octet, ip_without_mask, octets, mem, prepare}

-- No number stands twice in the list.
abbrev pub AllDistinct : List ℕ → Type 0
AllDistinct [] = Unit
AllDistinct (i ∷ is) = (mem is i ≡ false) × AllDistinct is

eqb_swap : (i j : ℕ) → eqb i j ≡ false → eqb j i ≡ false
eqb_swap i j h = ground arith

-- The octet of the node's overlay address.
abbrev pub octet : Node → Option ℕ
octet n = third_octet (ip_without_mask n.overlay_ip)

-- Distinct octets, and at most `n` nodes.
abbrev pub IsAddressed : ℕ → Controller → Type 0
IsAddressed n c = AllDistinct (octets (list_nodes c.store)) × (length (list_nodes c.store) ≤ n)

-- A call, with the time and the keys that it meets.
pub record Ask : Type 0 where
  pub now : ℕ
  pub keys : Option KeyPair
  pub auth : Bool
  pub id : String

unfoldable pub prepare_all : String → List Ask → Controller → Controller
prepare_all addr [] c = c
prepare_all addr (a ∷ asks) c = prepare_all addr asks (prepare a.now a.keys addr a.auth a.id c).1
