-- ===== src/Hub/Reconnect.antt =====
-- Which connection of pkg/api/ws.go a message to a node is written to.
use mathlib.Core.List.{append_assoc, append-nil}
use peer_wan.Prelude.{
  ℕ, String, ◌==◌, eq_iff, ==_refl, Option, none, some, List, [], ◌∷◌, ◌++◌, ◌≡◌, refl, sym, ◌∙◌,
  arith, if◌then◌else◌,
}
use peer_wan.Prelude.Dict.{Dict, lookup, insert, lookup-insert}
use peer_wan.Hub.{
  Hub, new_hub, write_to, Event, remove, handle_agent_ws, end_read_loop, send, handle, handle_all,
}

lookup-remove :
    (k j : String) (m : Dict ℕ) → lookup j (remove k m) ≡ (if k == j then none else lookup j m)
unfolding lookup remove
lookup-remove k j [] = ground arith
lookup-remove k j ((i, c) ∷ m) =
    ground (arith, eq_iff i k, eq_iff i j, eq_iff k j, lookup-remove k j m)

-- The newest of the node's connections by the events that happened, the latest first: none where one of
-- its connections has ended since.
abbrev pub newest : String → List Event → Option ℕ
newest k [] = none
newest k (Event.connected node c ∷ past) = if node == k then some c else newest k past
newest k (Event.ended node c ∷ past) = if node == k then none else newest k past
newest k (Event.sending node msg ∷ past) = newest k past

abbrev to_newest : Option ℕ → String → List (ℕ × String) → List (ℕ × String)
to_newest none msg later = later
to_newest (some c) msg later = (c, msg) ∷ later

-- Each message of the events with the newest connection of its node at the time, those without one left out.
abbrev pub delivered : List Event → List Event → List (ℕ × String)
delivered past [] = []
delivered past (Event.sending node msg ∷ events) =
    to_newest (newest node past) msg (delivered (Event.sending node msg ∷ past) events)
delivered past (Event.connected node c ∷ events) = delivered (Event.connected node c ∷ past) events
delivered past (Event.ended node c ∷ events) = delivered (Event.ended node c ∷ past) events

abbrev AgentsAre : List Event → Hub → Type 0
AgentsAre past h = (k : String) → lookup k h.agents ≡ newest k past

AgentsAre-handle :
    (past : List Event) (e : Event) (h : Hub) → AgentsAre past h → AgentsAre (e ∷ past) (handle e h)
unfolding handle handle_agent_ws end_read_loop send
AgentsAre-handle past (Event.connected node c) h a k =
    rw (lookup-insert node k c h.agents) (rw (a k) refl)
AgentsAre-handle past (Event.ended node c) h a k =
    rw (lookup-remove node k h.agents) (rw (a k) refl)
AgentsAre-handle past (Event.sending node msg) h a k = a k

write_to-newest :
    (o : Option ℕ) (msg : String) (written later : List (ℕ × String))
    → write_to o msg written ++ later ≡ written ++ to_newest o msg later
write_to-newest none msg written later = refl
write_to-newest (some c) msg written later = append_assoc written ((c, msg) ∷ []) later

written-handle_all :
    (past events : List Event) (h : Hub)
    → AgentsAre past h
    → (handle_all events h).written ≡ h.written ++ delivered past events
unfolding handle_all handle handle_agent_ws end_read_loop send
written-handle_all past [] h a = sym (append-nil h.written)
written-handle_all past (Event.connected node c ∷ events) h a =
    written-handle_all (Event.connected node c ∷ past) events (handle_agent_ws node c h)
      (AgentsAre-handle past (Event.connected node c) h a)
written-handle_all past (Event.ended node c ∷ events) h a =
    written-handle_all (Event.ended node c ∷ past) events (end_read_loop node c h)
      (AgentsAre-handle past (Event.ended node c) h a)
written-handle_all past (Event.sending node msg ∷ events) h a =
    written-handle_all (Event.sending node msg ∷ past) events (send node msg h)
      (AgentsAre-handle past (Event.sending node msg) h a)
    ∙ (write_to-newest (lookup node h.agents) msg h.written
          (delivered (Event.sending node msg ∷ past) events)
        ∙ rw (a node) refl)

-- From a new hub on, what is written, in order, is each message once, to the newest connection of its
-- node at the time it is sent; where a connection of the node, old or new, has ended since that one was
-- made, or none was made, the message is written nowhere.
pub handle_all-newest :
    (events : List Event) → (handle_all events new_hub).written ≡ delivered [] events
handle_all-newest events = written-handle_all [] events new_hub (λ k. unfold lookup in refl)

-- A node that connects again while its old connection is still read loses its new connection when
-- the reading of the old one ends: a message that is sent to it then is written nowhere.
pub handle_all-stale_end :
    (node msg : String) (old new : ℕ) (h : Hub)
    → (handle_all
        (Event.connected node old
          ∷ Event.connected node new
          ∷ Event.ended node old
          ∷ Event.sending node msg
          ∷ [])
        h).written
      ≡ h.written
unfolding handle_all handle handle_agent_ws end_read_loop send
handle_all-stale_end node msg old new h =
    rw (lookup-remove node node (insert node new (insert node old h.agents)))
      (rw (==_refl node) refl)
