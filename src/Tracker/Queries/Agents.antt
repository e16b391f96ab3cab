-- ===== src/Tracker/Queries/Agents.antt =====
-- `GetAgents`: the session's rows with their unseen flags, in the order of the panes.
use tail_claude_mux.Tracker.Keys.{unseen_key}
use tail_claude_mux.Tracker.State.{rows_of, Tracker, Rows}
use tail_claude_mux.Wire.{AgentEvent}
use mathlib.Core.List.{Perm}
use tail_claude_mux.Base.{
  text_eq, Text, stable_sort-IsSorted, stable_sort-perm, IsSorted, stable_sort, option_eq, nat_eq,
  ◌!=◌, if◌then◌else◌, ltb, arith, ◌∷◌, [], List, some, none, Option, false, true, Bool, ◌≡◌, ◌^◌,
  ◌-◌, ℕ,
}

-- `idxOrMax`: an unknown index counts as the greatest `int`.
unfoldable idx_or_max : Option ℕ → ℕ
idx_or_max none = 2 ^ 63 - 1
idx_or_max (some i) = i

unfoldable pub first_seen : AgentEvent → ℕ
first_seen ev = if ev.first_seen_ts != 0 then ev.first_seen_ts else ev.ts

-- The comparison that `GetAgents` sorts by.
unfoldable pane_less : AgentEvent → AgentEvent → Bool
pane_less a b =
    let wa = idx_or_max a.window_index in
    let wb = idx_or_max b.window_index in
    let pa = idx_or_max a.pane_index in
    let pb = idx_or_max b.pane_index in
    if wa != wb
    then ltb wa wb
    else if pa != pb
    then ltb pa pb
    else ltb (first_seen a) (first_seen b)

-- The copy of a row that is given out.
unfoldable pub stamp : Text → (Text → Bool) → Text → AgentEvent → AgentEvent
stamp s flags key ev = if flags (unseen_key s key) then record ev { unseen = true } else ev

unfoldable stamp_all : Text → (Text → Bool) → Rows → List AgentEvent
unfolding stamp
stamp_all s flags [] = []
stamp_all s flags ((key, ev) ∷ m) = stamp s flags key ev ∷ stamp_all s flags m

unfoldable pub get_agents : Text → Tracker → List AgentEvent
unfolding stamp_all pane_less idx_or_max
get_agents s t = stable_sort pane_less (stamp_all s t.unseen (rows_of t s))

-- `GetEventTimestamps`.
unfoldable get_event_timestamps : Text → Tracker → List ℕ
get_event_timestamps s t = t.event_timestamps s

pane_less-asym : (a b : AgentEvent) → pane_less a b ≡ true → pane_less b a ≡ false
unfolding pane_less
pane_less-asym a b h = ground arith

-- The agents of a session are its rows, each once and stamped with its flag, ordered by window
-- index, pane index and the time first seen, unknown indices last.
get_agents-IsSorted :
    (s : Text) (t : Tracker)
    → IsSorted pane_less (get_agents s t)
      × Perm (get_agents s t) (stamp_all s t.unseen (rows_of t s))
unfolding get_agents
get_agents-IsSorted s t = (
  stable_sort-IsSorted pane_less pane_less-asym (stamp_all s t.unseen (rows_of t s)),
  stable_sort-perm pane_less (stamp_all s t.unseen (rows_of t s)),
)
