-- ===== src/Hub.antt =====
-- pkg/api/ws.go: the connections of the agents in `WSHub`. A connection goes by a number. What a
-- connection does is outside: `connected` is an upgraded request, `ended` the end of its `readLoop`,
-- whose deferred function runs then. Each step holds the hub's mutex.
pub mod Reconnect
pub mod Tasks
pub mod Logs
pub mod Following
use peer_wan.Prelude.{ℕ, String, ◌==◌, Option, none, some, List, [], ◌∷◌, ◌++◌, if◌then◌else◌}
use peer_wan.Prelude.Dict.{Dict, lookup, insert}

-- `closed` lists the connections that the hub has closed, `written` what it has written to which.
pub record Hub : Type 0 where
  pub agents : Dict ℕ
  pub closed : List ℕ
  pub written : List (ℕ × String)

abbrev pub new_hub : Hub
new_hub = record { agents = []; closed = []; written = [] }

-- `delete(m, k)`
unfoldable pub remove : String → Dict ℕ → Dict ℕ
remove k [] = []
remove k ((j, c) ∷ rest) = let left = remove k rest in if j == k then left else (j, c) ∷ left

abbrev close_old : Option ℕ → List ℕ → List ℕ
close_old none closed = closed
close_old (some old) closed = closed ++ old ∷ []

-- `HandleAgentWS`, once the connection is upgraded
unfoldable pub handle_agent_ws : String → ℕ → Hub → Hub
handle_agent_ws node c h = record h {
  agents = insert node c h.agents;
  closed = close_old (lookup node h.agents) h.closed;
}

-- The deferred function of `readLoop`.
unfoldable pub end_read_loop : String → ℕ → Hub → Hub
unfolding remove
end_read_loop node c h = record h { agents = remove node h.agents; closed = h.closed ++ c ∷ [] }

abbrev pub write_to : Option ℕ → String → List (ℕ × String) → List (ℕ × String)
write_to none msg written = written
write_to (some c) msg written = written ++ (c, msg) ∷ []

-- `Send`; a write that fails is only logged
unfoldable pub send : String → String → Hub → Hub
send node msg h = record h { written = write_to (lookup node h.agents) msg h.written }

pub data Event : Type 0 where
  connected : String → ℕ → Event
  ended : String → ℕ → Event
  sending : String → String → Event

unfoldable pub handle : Event → Hub → Hub
unfolding handle_agent_ws end_read_loop send
handle (Event.connected node c) h = handle_agent_ws node c h
handle (Event.ended node c) h = end_read_loop node c h
handle (Event.sending node msg) h = send node msg h

unfoldable pub handle_all : List Event → Hub → Hub
unfolding handle
handle_all [] h = h
handle_all (e ∷ events) h = handle_all events (handle e h)
