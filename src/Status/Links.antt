-- ===== src/Status/Links.antt =====
-- pkg/api/status.go: the state of each link between two nodes, from their health reports.
use peer_wan.Prelude.{
  ℕ, suc, ◌+◌, ◌*◌, String, Bool, false, ◌||◌, Option, none, some, List, [], ◌∷◌, ◌++◌, ◌≡◌, refl,
  ap, arith, ltb, is_empty, length, length-append, if◌then◌else◌,
}
use peer_wan.Prelude.Dict.{Dict, lookup}
use peer_wan.Model.{Node, HealthReport}
use peer_wan.Controller.{health_map}
use peer_wan.Prepare.{ip_without_mask}
use peer_wan.Status.{or_zero}

-- `LinkStatus`
pub record Link : Type 0 where
  pub from : String
  pub to : String
  pub ok : Bool
  pub latency_ms : ℕ
  pub packet_loss : ℕ
  pub probe_ip : String
  pub reason : String

-- The latency that a report has for an address, with the loss.
abbrev pub measured_at : HealthReport → String → Option ℕ → Option (ℕ × ℕ × String)
measured_at h ip none = none
measured_at h ip (some ms) = some (ms, or_zero (lookup ip h.packet_loss), ip)

unfoldable pub measured : Option HealthReport → String → Option (ℕ × ℕ × String)
unfolding lookup
measured none ip = none
measured (some h) ip = measured_at h ip (lookup ip h.latency_ms)

abbrev pub or_other {ℓ} : {A : Type ℓ} → Option A → Option A → Option A
or_other none o = o
or_other (some a) o = some a

abbrev pub with_measure : String → String → Option (ℕ × ℕ × String) → Link
with_measure from to none = record {
  from = from;
  to = to;
  ok = false;
  latency_ms = 0;
  packet_loss = 0;
  probe_ip = "";
  reason = "no telemetry";
}
with_measure from to (some m) = record {
  from = from;
  to = to;
  ok = ltb m.1 100;
  latency_ms = m.0;
  packet_loss = m.1;
  probe_ip = m.2;
  reason = if ltb m.1 100 then "" else "packet loss 100%";
}

-- The body of the inner loop.
unfoldable pub link_of : Dict HealthReport → Node → Node → Link
unfolding measured ip_without_mask lookup
link_of health a b =
    if is_empty a.endpoints || is_empty b.endpoints
    then record {
      from = a.id;
      to = b.id;
      ok = false;
      latency_ms = 0;
      packet_loss = 0;
      probe_ip = "";
      reason = "missing endpoint";
    }
    else with_measure a.id b.id (
        or_other (measured (lookup a.id health) (ip_without_mask b.overlay_ip))
          (measured (lookup b.id health) (ip_without_mask a.overlay_ip)))

unfoldable pub links_from : Dict HealthReport → Node → List Node → List Link
unfolding link_of
links_from health a [] = []
links_from health a (b ∷ rest) = link_of health a b ∷ links_from health a rest

unfoldable pub links_between : Dict HealthReport → List Node → List Link
unfolding links_from
links_between health [] = []
links_between health (a ∷ rest) = links_from health a rest ++ links_between health rest

-- `buildLinkStatuses`
unfoldable pub build_link_statuses : List Node → List HealthReport → List Link
unfolding links_between health_map
build_link_statuses nodes reports = links_between (health_map reports []) nodes

length-links_from :
    (health : Dict HealthReport) (a : Node) (nodes : List Node)
    → length (links_from health a nodes) ≡ length nodes
unfolding links_from
length-links_from health a [] = refl
length-links_from health a (b ∷ rest) = ap suc (length-links_from health a rest)

square : (n m : ℕ) → m * 2 + n ≡ n * n → (n + m) * 2 + suc n ≡ suc n * suc n
square n m h = omega (arith, h)

-- Twice the number of links.
length-links_between :
    (health : Dict HealthReport) (nodes : List Node)
    → length (links_between health nodes) * 2 + length nodes ≡ length nodes * length nodes
unfolding links_between
length-links_between health [] = refl
length-links_between health (a ∷ rest) =
    rw (length-append (links_from health a rest) (links_between health rest)) (
      rw (length-links_from health a rest) (
        square (length rest) (length (links_between health rest))
          (length-links_between health rest)))

-- There is one link for each pair of nodes: n nodes have n * (n - 1) / 2.
pub length-build_link_statuses :
    (nodes : List Node) (reports : List HealthReport)
    → length (build_link_statuses nodes reports) * 2 + length nodes ≡ length nodes * length nodes
unfolding build_link_statuses
length-build_link_statuses nodes reports = length-links_between (health_map reports []) nodes
