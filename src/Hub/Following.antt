-- ===== src/Hub/Following.antt =====
-- Which pages follow a node's log: `logSubs` of pkg/api/ws.go against the events alone.
use peer_wan.Prelude.{
  ℕ, String, ◌==◌, Bool, true, false, not, ◌&&◌, ◌||◌, Option, none, some, List, [], ◌∷◌, ◌++◌, ◌≡◌,
  refl, sym, arith, ap, ◌∙◌, eqb, eqb_iff, is_blank, is_empty, eq_iff, ==_refl, Bool-cases, inl,
  inr, if◌then◌else◌,
}
use peer_wan.Prelude.Dict.{Dict, lookup, insert, lookup-insert}
use peer_wan.Hub.Logs.{
  LogHub, LogEvent, subs_at, has, put, take_out, forget, without_sub, handle_ui_logs, close_sub,
  write_each, fanout_logs, handle_log, handle_logs,
}

-- Whether the page follows the node after the events, if it did or did not before: the last event of the
-- two decides.
abbrev pub follows : String → ℕ → List LogEvent → Bool → Bool
follows node c [] before = before
follows node c (LogEvent.opened k d ∷ events) before =
    follows node c events (before || (not (is_blank k) && ((k == node) && eqb d c)))
follows node c (LogEvent.ended k d ∷ events) before =
    follows node c events (before && not ((k == node) && eqb d c))
follows node c (LogEvent.logged k line ∷ events) before = follows node c events before

has-append : (cs : List ℕ) (d c : ℕ) → has (cs ++ d ∷ []) c ≡ (has cs c || eqb d c)
has-append [] d c = ground arith
has-append (x ∷ xs) d c = ground (arith, has-append xs d c)

present : (d : ℕ) (cs : List ℕ) (c : ℕ) → has cs d ≡ true → has cs c ≡ (has cs c || eqb d c)
present d cs c t = elim (Bool-cases (eqb d c)) [
  | inl e ↦
      (let same : d ≡ c = (eqb_iff d c).0 e in
        let there : has cs c ≡ true = rw (sym same) t in ground (arith, there))
  | inr n ↦ ground (arith, n)
]

has-put : (d : ℕ) (cs : List ℕ) (c : ℕ) → has (put d cs) c ≡ (has cs c || eqb d c)
unfolding put
has-put d cs c = elim (Bool-cases (has cs d)) [
  | inl t ↦ (let r : has (put d cs) c ≡ (has cs c || eqb d c) = rw t (present d cs c t) in r)
  | inr f ↦ (let r : has (put d cs) c ≡ (has cs c || eqb d c) = rw f (has-append cs d c) in r)
]

has-take_out : (d : ℕ) (cs : List ℕ) (c : ℕ) → has (take_out d cs) c ≡ (has cs c && not (eqb d c))
unfolding take_out
has-take_out d [] c = refl
has-take_out d (x ∷ xs) c = ground (arith, has-take_out d xs c)

lookup-forget :
    (node k : String) (subs : Dict (List ℕ))
    → lookup k (forget node subs) ≡ (if node == k then none else lookup k subs)
unfolding forget lookup
lookup-forget node k [] = ground arith
lookup-forget node k ((j, cs) ∷ subs) =
    ground (arith, lookup-forget node k subs, eq_iff j node, eq_iff j k, eq_iff node k)

nobody : (cs : List ℕ) (c : ℕ) → is_empty cs ≡ true → has cs c ≡ false
nobody [] c h = refl
nobody (x ∷ xs) c h = absurd (ground (arith, h))

open_subs :
    (k node : String) (d c : ℕ) (subs : Dict (List ℕ))
    → has (subs_at node (insert k (put d (subs_at k subs)) subs)) c
      ≡ (has (subs_at node subs) c || ((k == node) && eqb d c))
unfolding subs_at
open_subs k node d c subs = elim (Bool-cases (k == node)) [
  | inl e ↦
      (let same : k ≡ node = (eq_iff k node).0 e in
        let r : has (subs_at node (insert k (put d (subs_at k subs)) subs)) c
            ≡ (has (subs_at node subs) c || ((k == node) && eqb d c)) =
          rw (lookup-insert k node (put d (subs_at k subs)) subs)
            (rw e (rw same (has-put d (subs_at node subs) c))) in
        r)
  | inr n ↦
      (let r : has (subs_at node (insert k (put d (subs_at k subs)) subs)) c
            ≡ (has (subs_at node subs) c || ((k == node) && eqb d c)) =
          rw (lookup-insert k node (put d (subs_at k subs)) subs) (rw n (ground arith)) in
        r)
]

nothing_there :
    (node : String) (c : ℕ) (subs : Dict (List ℕ))
    → lookup node subs ≡ none
    → has (subs_at node subs) c ≡ false
unfolding subs_at
nothing_there node c subs e = rw e refl

those_there :
    (node : String) (c : ℕ) (cs : List ℕ) (subs : Dict (List ℕ))
    → lookup node subs ≡ some cs
    → has (subs_at node subs) c ≡ has cs c
unfolding subs_at
those_there node c cs subs e = rw e refl

other_subs :
    (node : String) (c : ℕ) (a b : Dict (List ℕ))
    → lookup node a ≡ lookup node b
    → has (subs_at node a) c ≡ has (subs_at node b) c
unfolding subs_at
other_subs node c a b e = rw e refl

close_own :
    (node : String) (d c : ℕ) (subs : Dict (List ℕ)) (o : Option (List ℕ))
    → lookup node subs ≡ o
    → has (subs_at node (without_sub node d subs o)) c
      ≡ (has (subs_at node subs) c && not (eqb d c))
unfolding without_sub
close_own node d c subs none e = ground (arith, nothing_there node c subs e)
close_own node d c subs (some cs) e =
    let left : has (take_out d cs) c ≡ (has cs c && not (eqb d c)) = has-take_out d cs c in
    let old : has (subs_at node subs) c ≡ has cs c = those_there node c cs subs e in
    elim (Bool-cases (is_empty (take_out d cs))) [
      | inl t ↦
          (let gone : lookup node (forget node subs) ≡ none =
              rw (lookup-forget node node subs) (rw (==_refl node) refl) in
            let now : has (subs_at node (forget node subs)) c ≡ false =
              nothing_there node c (forget node subs) gone in
            let r : has (subs_at node (without_sub node d subs (some cs))) c
                ≡ (has (subs_at node subs) c && not (eqb d c)) =
              rw t (
                now
                ∙ (sym (nobody (take_out d cs) c t)
                    ∙ (left ∙ ap (λ x. x && not (eqb d c)) (sym old)))) in
            r)
      | inr f ↦
          (let there : lookup node (insert node (take_out d cs) subs) ≡ some (take_out d cs) =
              rw (lookup-insert node node (take_out d cs) subs) (rw (==_refl node) refl) in
            let r : has (subs_at node (without_sub node d subs (some cs))) c
                ≡ (has (subs_at node subs) c && not (eqb d c)) =
              rw f (
                rw old (
                  those_there node c (take_out d cs) (insert node (take_out d cs) subs) there
                  ∙ left)) in
            r)
    ]

close_other :
    (k node : String) (d c : ℕ) (subs : Dict (List ℕ)) (o : Option (List ℕ))
    → (k == node) ≡ false
    → has (subs_at node (without_sub k d subs o)) c ≡ has (subs_at node subs) c
unfolding without_sub
close_other k node d c subs none ne = refl
close_other k node d c subs (some cs) ne = elim (Bool-cases (is_empty (take_out d cs))) [
  | inl t ↦
      (let same : lookup node (forget k subs) ≡ lookup node subs =
          rw (lookup-forget k node subs) (rw ne refl) in
        let r : has (subs_at node (without_sub k d subs (some cs))) c ≡ has (subs_at node subs) c =
          rw t (other_subs node c (forget k subs) subs same) in
        r)
  | inr f ↦
      (let same : lookup node (insert k (take_out d cs) subs) ≡ lookup node subs =
          rw (lookup-insert k node (take_out d cs) subs) (rw ne refl) in
        let r : has (subs_at node (without_sub k d subs (some cs))) c ≡ has (subs_at node subs) c =
          rw f (other_subs node c (insert k (take_out d cs) subs) subs same) in
        r)
]

close_subs :
    (k node : String) (d c : ℕ) (subs : Dict (List ℕ))
    → has (subs_at node (without_sub k d subs (lookup k subs))) c
      ≡ (has (subs_at node subs) c && not ((k == node) && eqb d c))
close_subs k node d c subs = elim (Bool-cases (k == node)) [
  | inl e ↦
      (let same : k ≡ node = (eq_iff k node).0 e in
        let r : has (subs_at node (without_sub k d subs (lookup k subs))) c
            ≡ (has (subs_at node subs) c && not ((k == node) && eqb d c)) =
          rw e (rw same (close_own node d c subs (lookup node subs) refl)) in
        r)
  | inr n ↦ ground (arith, n, close_other k node d c subs (lookup k subs) n)
]

or_false : (b : Bool) → b ≡ (b || false)
or_false b = ground arith

opened_subs :
    (k node : String) (d c : ℕ) (h : LogHub)
    → has (subs_at node (handle_ui_logs k d h).log_subs) c
      ≡ (has (subs_at node h.log_subs) c || (not (is_blank k) && ((k == node) && eqb d c)))
unfolding handle_ui_logs
opened_subs k node d c h = elim (Bool-cases (is_blank k)) [
  | inl b ↦
      (let r : has (subs_at node (handle_ui_logs k d h).log_subs) c
            ≡ (has (subs_at node h.log_subs) c || (not (is_blank k) && ((k == node) && eqb d c))) =
          rw b (or_false (has (subs_at node h.log_subs) c)) in
        r)
  | inr nb ↦
      (let r : has (subs_at node (handle_ui_logs k d h).log_subs) c
            ≡ (has (subs_at node h.log_subs) c || (not (is_blank k) && ((k == node) && eqb d c))) =
          rw nb (open_subs k node d c h.log_subs) in
        r)
]

subs_at-handle_logs :
    (node : String) (c : ℕ) (events : List LogEvent) (h : LogHub)
    → has (subs_at node (handle_logs events h).log_subs) c
      ≡ follows node c events (has (subs_at node h.log_subs) c)
unfolding handle_logs handle_log handle_ui_logs close_sub fanout_logs
subs_at-handle_logs node c [] h = refl
subs_at-handle_logs node c (LogEvent.opened k d ∷ events) h =
    subs_at-handle_logs node c events (handle_ui_logs k d h)
    ∙ ap (follows node c events) (opened_subs k node d c h)
subs_at-handle_logs node c (LogEvent.ended k d ∷ events) h =
    subs_at-handle_logs node c events (close_sub k d h)
    ∙ ap (follows node c events) (close_subs k node d c h.log_subs)
subs_at-handle_logs node c (LogEvent.logged k line ∷ events) h =
    subs_at-handle_logs node c events (fanout_logs k line h)

-- Whether the page is among those that something is written to, all of it being the line.
abbrev pub reaches : ℕ → String → List (ℕ × String) → Bool
reaches c line [] = false
reaches c line ((d, text) ∷ more) = (eqb d c && (text == line)) || reaches c line more

reaches-write_each :
    (cs : List ℕ) (c : ℕ) (line : String) → reaches c line (write_each cs line) ≡ has cs c
reaches-write_each [] c line = refl
reaches-write_each (d ∷ cs) c line = ground (arith, reaches-write_each cs c line, ==_refl line)

abbrev pub new_log_hub : LogHub
new_log_hub = record { log_subs = []; closed = []; written = [] }

-- From a hub without pages on, after any events, a line of a node's log is written, after all that was
-- written before, to those pages that follow the node by the events alone: a page follows from its request
-- on, if that named the node, until its connection ends, and what happens on other connections and at other
-- nodes has no part in it.
pub handle_logs-follows :
    (node line : String) (c : ℕ) (events : List LogEvent)
    → (new : List (ℕ × String)) × ((fanout_logs node line (handle_logs events new_log_hub)).written
        ≡ (handle_logs events new_log_hub).written ++ new)
      × (reaches c line new ≡ follows node c events false)
unfolding fanout_logs
handle_logs-follows node line c events =
    let cs : List ℕ = subs_at node (handle_logs events new_log_hub).log_subs in
    (
      write_each cs line,
      refl,
      reaches-write_each cs c line
          ∙ (subs_at-handle_logs node c events new_log_hub
              ∙ ap (follows node c events) (unfold subs_at lookup in refl)),
    )
