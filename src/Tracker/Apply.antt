-- ===== src/Tracker/Apply.antt =====
-- `ApplyEvent` of apps/server-go/internal/tracker/tracker.go. The event's row is written through
-- the pointer that the session's map holds, so each change of `stored` is a write to the map too.
-- A loop over the session's rows visits the keys present when it starts, and skips a row that is
-- gone when its turn comes.
pub mod Supersede
pub mod Graduate
pub mod Store
pub mod Event
pub mod End
pub mod Notes
use tail_claude_mux.Tracker.Keys.{
  end_suppress_key, unseen_key, is_synthetic_key, instance_key, recent_end_suppress_ms,
  max_event_timestamps,
}
use tail_claude_mux.Tracker.State.{delete_instance, put_row, row, rows_of, Tracker}
use tail_claude_mux.Wire.{unset, AgentEvent, is_terminal_status, is_waiting, Liveness}
use tail_claude_mux.Base.{
  text_eq, Text, drop, length, update, keys, find, option_eq, nat_eq, ◌!=◌, ◌==◌, if◌then◌else◌,
  ltb, ◌++◌, ◌∷◌, [], List, some, none, Option, ◌||◌, ◌&&◌, not, false, true, Bool, ◌-◌, ◌+◌, ℕ,
}

-- `if dst == "" { dst = src }`, and so for the other zero values.
abbrev or_text : Text → Text → Text
or_text a b = if a == [] then b else a

abbrev or_number : ℕ → ℕ → ℕ
or_number a b = if a == 0 then b else a

abbrev or_index : Option ℕ → Option ℕ → Option ℕ
or_index none b = b
or_index (some i) b = some i

abbrev or_liveness : Liveness → Liveness → Liveness
or_liveness unset b = b
or_liveness a b = a

unfoldable pub adopt_pane : AgentEvent → AgentEvent → AgentEvent
adopt_pane dst src = record dst {
  pane_id = or_text dst.pane_id src.pane_id;
  liveness = or_liveness dst.liveness src.liveness;
  window_index = or_index dst.window_index src.window_index;
  pane_index = or_index dst.pane_index src.pane_index;
  pane_title = or_text dst.pane_title src.pane_title;
}

-- The pane binding that an event without one takes over from the row it replaces.
unfoldable inherit_pane : AgentEvent → AgentEvent → AgentEvent
inherit_pane prev event =
    if prev.pane_id != []
    then record event {
      pane_id = or_text event.pane_id prev.pane_id;
      liveness = or_liveness event.liveness prev.liveness;
      window_index = or_index event.window_index prev.window_index;
      pane_index = or_index event.pane_index prev.pane_index;
    }
    else event

-- What a new event keeps of the row that it replaces.
unfoldable pub inherit : Option AgentEvent → AgentEvent → AgentEvent
unfolding inherit_pane
inherit none event = event
inherit (some prev) event = record (inherit_pane prev event) {
  pid = or_number event.pid prev.pid;
  pane_title = or_text event.pane_title prev.pane_title;
  subagent = or_text event.subagent prev.subagent;
  thread_name = or_text event.thread_name prev.thread_name;
  first_seen_ts = if prev.first_seen_ts != 0 then prev.first_seen_ts else event.first_seen_ts;
}

unfoldable pub stored_event : Option AgentEvent → AgentEvent → AgentEvent
unfolding inherit
stored_event prev event =
    let event' = inherit prev event in
    record event' {
      first_seen_ts = or_number event'.first_seen_ts event'.ts;
      tool_invoked = false;
      thinking_blocks = 0;
    }

-- The loops' state: the tracker, the event's row, and whether another row gave way to it.
pub record Graduation : Type 0 where
  pub tracker : Tracker
  pub stored : AgentEvent
  pub graduated : Bool

-- Rows of the same agent and pid as the event's give way to it.
unfoldable pub supersede_row : Text → Text → Text → Graduation → Graduation
unfolding adopt_pane
supersede_row s key k g = elim (row g.tracker s k) [
  | none ↦ g
  | some ev ↦
      if k == key || ev.agent != g.stored.agent || ev.pid != g.stored.pid
      then g
      else let stored = adopt_pane g.stored ev in
        record {
          tracker = delete_instance s k (put_row s key stored g.tracker);
          stored = stored;
          graduated = true;
        }
]

unfoldable pub supersede_rows : Text → Text → List Text → Graduation → Graduation
unfolding supersede_row
supersede_rows s key [] g = g
supersede_rows s key (k ∷ ks) g = supersede_rows s key ks (supersede_row s key k g)

-- What the scan for a synthetic does at one row: passes on, or ends with the row to be retired.
pub data Pick : Type 0 where
  pass : Pick
  adopt : AgentEvent → Pick
  retire : Pick

unfoldable pub pick_synthetic : Text → Text → AgentEvent → Option AgentEvent → Pick
pick_synthetic key k stored none = pass
pick_synthetic key k stored (some ev) =
    if k == key || ev.agent != stored.agent || not (is_synthetic_key k)
    then pass
    else if ev.pane_id != [] && stored.pane_id == []
    then (if stored.pid != 0 && ev.pid != 0 && ev.pid != stored.pid
        then pass
        else adopt (record (adopt_pane stored ev) { liveness = ev.liveness }))
    else if stored.pane_id != [] && ev.pane_id == stored.pane_id
    then retire
    else pass

-- The scan ends at the first row that it picks; the key of that row, or "".
unfoldable pub graduate_scan : Text → Text → List Text → Tracker → AgentEvent → Tracker × Text
unfolding pick_synthetic adopt_pane
graduate_scan s key [] t stored = (t, [])
graduate_scan s key (k ∷ ks) t stored = elim (pick_synthetic key k stored (row t s k)) [
  | pass ↦ graduate_scan s key ks t stored
  | adopt stored' ↦ (put_row s key stored' t, k)
  | retire ↦ (t, k)
]

unfoldable pub graduate_synthetic : Text → Text → List Text → Tracker → AgentEvent → Tracker
unfolding graduate_scan
graduate_synthetic s key ks t stored =
    let (t', graduate_key) = graduate_scan s key ks t stored in
    if graduate_key != [] then delete_instance s graduate_key t' else t'

-- The newest `max_event_timestamps` timestamps of the session.
unfoldable pub note_timestamp : AgentEvent → Tracker → Tracker
note_timestamp event t =
    let ts = t.event_timestamps event.session ++ event.ts ∷ [] in
    record t {
      event_timestamps = update t.event_timestamps event.session (
          if ltb max_event_timestamps (length ts)
          then drop (length ts - max_event_timestamps) ts
          else ts);
    }

unfoldable pub note_unseen : Bool → Text → AgentEvent → Tracker → Tracker
note_unseen seed key event t =
    let ukey = unseen_key event.session key in
    if is_terminal_status event.status || is_waiting event.status
    then (if seed || not (t.active event.session)
        then record t { unseen = update t.unseen ukey true }
        else t)
    else record t { unseen = update t.unseen ukey false }

-- The pane of a row that ended is kept from a new row until the time runs out.
unfoldable pub suppress_pane : ℕ → AgentEvent → Option AgentEvent → Tracker → Tracker
suppress_pane now event none t = t
suppress_pane now event (some removed) t =
    if removed.pane_id != []
    then record t {
      recently_ended_panes =
          update t.recently_ended_panes (end_suppress_key event.session event.agent removed.pane_id)
            (some (now + recent_end_suppress_ms));
    }
    else t

-- A definitive end removes the row.
unfoldable pub end_event : ℕ → Text → AgentEvent → Tracker → Tracker
end_event now key event t = elim (find event.session t.instances) [
  | none ↦ t
  | some si ↦ delete_instance event.session key (suppress_pane now event (find key si) t)
]

-- The row is stored, and the other rows of its process, if that is known, give way to it.
unfoldable pub supersede : Text → AgentEvent → Tracker → Graduation
unfolding supersede_rows
supersede key event t =
    let s = event.session in
    let stored = stored_event (row t s key) event in
    let t' = put_row s key stored t in
    let g : Graduation = record { tracker = t'; stored = stored; graduated = false } in
    if stored.pid != 0 then supersede_rows s key (keys (rows_of t' s)) g else g

unfoldable pub store_event : Text → AgentEvent → Tracker → Tracker
unfolding graduate_synthetic
store_event key event t =
    let s = event.session in
    let g = supersede key event t in
    if g.graduated
    then g.tracker
    else graduate_synthetic s key (keys (rows_of g.tracker s)) g.tracker g.stored

unfoldable pub apply_event : ℕ → Bool → AgentEvent → Tracker → Tracker
apply_event now seed event t =
    let key = instance_key event.agent event.thread_id in
    if event.ended
    then end_event now key event t
    else note_unseen seed key event (note_timestamp event (store_event key event t))
