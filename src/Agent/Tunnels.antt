-- ===== src/Agent/Tunnels.antt =====
-- pkg/agent/wstunnel.go and render.go: the local ports of the tunnels, and the endpoints that the
-- WireGuard configuration names in place of the peers' own. `split` is the host that `net.SplitHostPort`
-- finds, `is_number` whether `strconv.Atoi` takes a text.
pub mod Ports
use mathlib.Core.List.{append_assoc, append-nil}
use peer_wan.Prelude.{
  ℕ, suc, ◌+◌, String, ◌==◌, ◌⧺◌, Bool, true, false, ◌||◌, Option, none, some, is_some, List, [],
  ◌∷◌, ◌++◌, ◌≡◌, refl, sym, subst, length, contains, Distinct-snoc, ap, ◌∙◌, arith, All, decimal,
  is_blank, Distinct, ==_refl, Bool-cases, inl, inr, ◌⊎◌, if◌then◌else◌,
}
use peer_wan.Prelude.Dict.{Dict, lookup, insert, keys, lookup-insert}
use peer_wan.Prelude.Strings.{includes}
use peer_wan.Model.{Peer}

pub record Net : Type 0 where
  pub split : String → Option String
  pub is_number : String → Bool

abbrev pub bare_host : Net → String → String
bare_host net ep = if net.is_number ep then "" else ep

abbrev pub split_or : Net → String → Option String → String
split_or net ep none = bare_host net ep
split_or net ep (some h) = h

-- `endpointHost`
unfoldable pub endpoint_host : Net → String → String
unfolding includes
endpoint_host net ep =
    if is_blank ep
    then ""
    else if includes ep ":"
    then split_or net ep (net.split ep)
    else bare_host net ep

unfoldable pub next_ports : String → Dict ℕ × ℕ → Dict ℕ × ℕ
unfolding lookup insert
next_ports host s =
    if is_blank host || is_some (lookup host s.0) then s else (insert host s.1 s.0, suc s.1)

unfoldable pub allocate_from : Net → List Peer → Dict ℕ × ℕ → Dict ℕ × ℕ
unfolding next_ports endpoint_host
allocate_from net [] s = s
allocate_from net (p ∷ peers) s =
    allocate_from net peers (next_ports (endpoint_host net p.endpoint) s)

-- `allocateLocalPorts`
unfoldable pub allocate_local_ports : Net → List Peer → ℕ → Dict ℕ
unfolding allocate_from
allocate_local_ports net peers base = (allocate_from net peers ([], base)).0

abbrev pub local_or : Option ℕ → Peer → Peer
local_or none p = p
local_or (some port) p = record p { endpoint = "127.0.0.1:" ⧺ decimal port }

-- The loop of `RenderAndWrite` over the peers' endpoints.
unfoldable pub tunneled : Net → Dict ℕ → Peer → Peer
unfolding endpoint_host lookup decimal
tunneled net ports p =
    if is_blank (endpoint_host net p.endpoint)
    then p
    else local_or (lookup (endpoint_host net p.endpoint) ports) p
