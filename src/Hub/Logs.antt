-- ===== src/Hub/Logs.antt =====
-- pkg/api/ws.go: the pages that follow an agent's log, `logSubs`. A connection goes by a number. The end
-- of a connection, of which its `logSubLoop` or a failed write learns, calls `closeSub`.
use peer_wan.Prelude.{
  ℕ, String, ◌==◌, Bool, false, ◌||◌, Option, none, some, List, [], ◌∷◌, ◌++◌, eqb, is_blank,
  is_empty, if◌then◌else◌,
}
use peer_wan.Prelude.Dict.{Dict, lookup, insert}

-- `closed` lists the connections that were closed, `written` what was written to which.
pub record LogHub : Type 0 where
  pub log_subs : Dict (List ℕ)
  pub closed : List ℕ
  pub written : List (ℕ × String)

abbrev or_nobody : Option (List ℕ) → List ℕ
or_nobody none = []
or_nobody (some cs) = cs

-- `h.logSubs[nodeID]`
unfoldable pub subs_at : String → Dict (List ℕ) → List ℕ
unfolding lookup
subs_at node subs = or_nobody (lookup node subs)

abbrev pub has : List ℕ → ℕ → Bool
has [] c = false
has (x ∷ xs) c = eqb x c || has xs c

-- `m[c] = struct{}{}`
unfoldable pub put : ℕ → List ℕ → List ℕ
put c cs = if has cs c then cs else cs ++ c ∷ []

-- `delete(m, c)`
unfoldable pub take_out : ℕ → List ℕ → List ℕ
take_out c [] = []
take_out c (x ∷ xs) = let rest = take_out c xs in if eqb x c then rest else x ∷ rest

-- `delete(h.logSubs, nodeID)`
unfoldable pub forget : String → Dict (List ℕ) → Dict (List ℕ)
forget node [] = []
forget node ((k, cs) ∷ subs) =
    let rest = forget node subs in if k == node then rest else (k, cs) ∷ rest

-- `HandleUILogs`, once the connection is upgraded, for a request that names a node
unfoldable pub handle_ui_logs : String → ℕ → LogHub → LogHub
unfolding subs_at put
handle_ui_logs node c h =
    if is_blank node
    then h
    else record h { log_subs = insert node (put c (subs_at node h.log_subs)) h.log_subs }

abbrev pub write_each : List ℕ → String → List (ℕ × String)
write_each [] line = []
write_each (c ∷ cs) line = (c, line) ∷ write_each cs line

-- `fanoutLogs`
unfoldable pub fanout_logs : String → String → LogHub → LogHub
unfolding subs_at
fanout_logs node line h = record h {
  written = h.written ++ write_each (subs_at node h.log_subs) line;
}

unfoldable pub without_sub : String → ℕ → Dict (List ℕ) → Option (List ℕ) → Dict (List ℕ)
unfolding forget take_out
without_sub node c subs none = subs
without_sub node c subs (some cs) =
    if is_empty (take_out c cs) then forget node subs else insert node (take_out c cs) subs

-- `closeSub`
unfoldable pub close_sub : String → ℕ → LogHub → LogHub
unfolding without_sub lookup
close_sub node c h = record h {
  log_subs = without_sub node c h.log_subs (lookup node h.log_subs);
  closed = h.closed ++ c ∷ [];
}

pub data LogEvent : Type 0 where
  opened : String → ℕ → LogEvent
  ended : String → ℕ → LogEvent
  logged : String → String → LogEvent

unfoldable pub handle_log : LogEvent → LogHub → LogHub
unfolding handle_ui_logs close_sub fanout_logs
handle_log (LogEvent.opened node c) h = handle_ui_logs node c h
handle_log (LogEvent.ended node c) h = close_sub node c h
handle_log (LogEvent.logged node line) h = fanout_logs node line h

unfoldable pub handle_logs : List LogEvent → LogHub → LogHub
unfolding handle_log
handle_logs [] h = h
handle_logs (e ∷ events) h = handle_logs events (handle_log e h)
