-- ===== src/Tests/Hubs.antt =====
-- The hub of pkg/api/ws.go with a node that connects twice.
use peer_wan.Prelude.{ℕ, String, false, ◌++◌, List, [], ◌∷◌, ◌≡◌}
use peer_wan.Hub.Logs.{LogEvent, handle_logs, fanout_logs}
use peer_wan.Hub.Following.{follows, reaches, new_log_hub, handle_logs-follows}
use peer_wan.Hub.{new_hub, Event, handle_all}
use peer_wan.Hub.Reconnect.{delivered, handle_all-newest, handle_all-stale_end}

abbrev reconnects : List Event
reconnects =
    Event.connected "a" 1
    ∷ Event.connected "b" 2
    ∷ Event.connected "a" 3
    ∷ Event.sending "a" "plan"
    ∷ []

handle_all-newest_example : (handle_all reconnects new_hub).written ≡ delivered [] reconnects
handle_all-newest_example = handle_all-newest reconnects

handle_all-stale_end_example :
    (handle_all
      (Event.connected "a" 1
        ∷ Event.connected "a" 3
        ∷ Event.ended "a" 1
        ∷ Event.sending "a" "plan"
        ∷ [])
      new_hub).written
    ≡ []
handle_all-stale_end_example = handle_all-stale_end "a" "plan" 1 3 new_hub

abbrev log_events : List LogEvent
log_events =
    LogEvent.opened "a" 1
    ∷ LogEvent.opened "a" 2
    ∷ LogEvent.opened "" 3
    ∷ LogEvent.ended "a" 1
    ∷ LogEvent.logged "a" "line"
    ∷ []

handle_logs-follows_example :
    (new : List (ℕ × String)) × ((fanout_logs "a" "next"
        (handle_logs log_events new_log_hub)).written
      ≡ (handle_logs log_events new_log_hub).written ++ new)
    × (reaches 2 "next" new ≡ follows "a" 2 log_events false)
handle_logs-follows_example = handle_logs-follows "a" "next" 2 log_events
