-- ===== src/Tracker/Presence/Match.antt =====
-- Step 2 of `ApplyPanePresence`, first part: the row that a scanned pane claims.
use tail_claude_mux.Tracker.Presence.Local.{PanePresence}
use tail_claude_mux.Tracker.Keys.{is_synthetic_key, instance_key}
use tail_claude_mux.Tracker.State.{Rows}
use tail_claude_mux.Wire.{AgentEvent, is_exited}
use tail_claude_mux.Base.{
  text_eq, Text, option_eq, nat_eq, ◌!=◌, ◌==◌, if◌then◌else◌, ◌∷◌, [], some, none, Option, ◌||◌,
  ◌&&◌, Bool,
}

-- The thread key that the scan resolved for the pane, or "".
unfoldable thread_key : PanePresence → Text
thread_key pa = if pa.thread_id != [] then instance_key pa.agent pa.thread_id else []

-- What one row is to a pane.
pub data Candidate : Type 0 where
  skip : Candidate
  by_thread : Candidate
  by_pid : Candidate
  same_pane : Candidate
  no_pid : Candidate

unfoldable classify : PanePresence → (Text → Bool) → Text → AgentEvent → Candidate
unfolding thread_key
classify pa claimed k ev =
    if ev.agent != pa.agent || claimed k || is_exited ev.liveness || is_synthetic_key k
    then skip
    else if k == thread_key pa
    then by_thread
    else if pa.pid != 0 && ev.pid == pa.pid
    then (if thread_key pa != [] && ev.thread_id != [] && ev.thread_id != pa.thread_id
        then skip
        else by_pid)
    else if ev.pid == 0
    then (if ev.pane_id == pa.pane_id then same_pane else no_pid)
    else skip

abbrev pub Entry : Type 0
Entry = Text × AgentEvent

abbrev or_entry : Option Entry → Option Entry → Option Entry
or_entry none e = e
or_entry (some e) _ = some e

-- The loop: it ends at a thread match, and else takes the first pid match, or a fallback.
unfoldable pub best_match :
    PanePresence → (Text → Bool) → Option Entry → Option Entry → Rows → Option Entry
unfolding classify
best_match pa claimed pid fallback [] = or_entry pid fallback
best_match pa claimed pid fallback ((k, ev) ∷ m) = elim (classify pa claimed k ev) [
  | skip ↦ best_match pa claimed pid fallback m
  | by_thread ↦ some (k, ev)
  | by_pid ↦ best_match pa claimed (or_entry pid (some (k, ev))) fallback m
  | same_pane ↦ best_match pa claimed pid (some (k, ev)) m
  | no_pid ↦ best_match pa claimed pid (or_entry fallback (some (k, ev))) m
]
