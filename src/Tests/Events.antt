-- ===== src/Tests/Events.antt =====
-- Runs of apps/server-go/internal/tracker/tracker.go.
use tail_claude_mux.Tracker.Queries.Best.{
  get_state-greatest, Among, NoMoreUrgent, get_state, best_of, better, status_priority,
}
use tail_claude_mux.Tracker.Apply.End.{apply_event-suppresses, apply_event-ended}
use tail_claude_mux.Tracker.Apply.Event.{
  apply_event-other_rows, apply_event-one_process, apply_event-stored, after_event, Inherits,
  key_of,
}
use tail_claude_mux.Tracker.Passes.Effects.{
  reconcile_stale_running-row, reconciled, is_stale, run_liveness_sweep_once-row, mark_dead,
}
use tail_claude_mux.Tracker.Rows.{Outcome}
use tail_claude_mux.Tracker.Keys.{instance_key}
use tail_claude_mux.Tracker.State.{
  delete_instance, remove_row, put_row, is_pane_end_suppressed, row, rows_of, new, Tracker,
}
use tail_claude_mux.Tracker.Apply.{
  store_event, supersede, note_unseen, note_timestamp, graduate_synthetic, graduate_scan,
  supersede_rows, supersede_row, stored_event, inherit, adopt_pane, apply_event,
}
use tail_claude_mux.Tracker.Loop.{act_on}
use tail_claude_mux.Tracker.Passes.{run_liveness_sweep_once, reconcile_stale_running}
use tail_claude_mux.Wire.{AgentEvent, is_terminal_status, Liveness, Status}
use tail_claude_mux.Base.{
  remove, put, ==→ne, text_beq, codes, Text, find, ◌==◌, if◌then◌else◌, ltb, ◌∷◌, [], some, none,
  ◌&&◌, false, true, refl, ◌≡◌, ◌+◌, nat_eq, text_eq, option_eq,
}
use tail_claude_mux.Tracker.Scan.{ProbeVerdict, ScanState}
use tail_claude_mux.Tracker.Apply.Store.{may_go, new_row}
use tail_claude_mux.Tracker.Apply.Supersede.{same_process}

abbrev work : Text
work = codes "work"

abbrev blank : AgentEvent
blank = record {
  agent = codes "amp";
  session = work;
  status = Status.running;
  ts = 100;
  first_seen_ts = 0;
  thread_id = codes "t1";
  thread_name = [];
  unseen = false;
  pane_id = [];
  window_index = none;
  pane_index = none;
  liveness = Liveness.alive;
  pid = 7;
  tool_description = [];
  tool_verb = [];
  tool_invoked = true;
  thinking_blocks = 2;
  pane_title = [];
  subagent = [];
  ended = false;
}

abbrev old_row : AgentEvent
old_row = record blank { thread_id = codes "t0"; pane_id = codes "%1"; ts = 50 }

-- A row under another key, of the same process.
abbrev crowded : Tracker
crowded = record (new 2) {
  instances =
      (work, (codes "amp:t0", old_row) ∷ (codes "other", record old_row { pid = 9 }) ∷ []) ∷ [];
}

abbrev ending : AgentEvent
ending = record old_row { ended = true }

apply_event-stored_example :
    (ev : AgentEvent) × (row (after_event 200 false blank crowded) work (key_of blank) ≡ some ev)
    × Inherits (row crowded work (key_of blank)) blank ev
apply_event-stored_example = apply_event-stored 200 false blank crowded refl

apply_event-one_process_example :
    same_process (new_row (key_of blank) blank crowded) (record old_row { pid = 9 }) ≡ false
unfolding apply_event row rows_of find text_beq instance_key stored_event inherit adopt_pane
    store_event supersede supersede_rows supersede_row graduate_synthetic graduate_scan put_row
    delete_instance remove_row put remove note_unseen note_timestamp is_terminal_status
apply_event-one_process_example =
    apply_event-one_process 200 false blank crowded (codes "other") (record old_row { pid = 9 })
      refl (==→ne (new_row (key_of blank) blank crowded).pid 0 refl)
      (==→ne (key_of blank) (codes "other") refl) refl

apply_event-other_rows_example :
    Outcome
      (may_go (codes "amp:t0") (new_row (key_of blank) blank crowded))
      (row crowded work (codes "amp:t0"))
      (row (after_event 200 false blank crowded) work (codes "amp:t0"))
unfolding instance_key text_beq
apply_event-other_rows_example =
    apply_event-other_rows 200 false blank crowded (codes "amp:t0") refl
      (==→ne (key_of blank) (codes "amp:t0") refl)

apply_event-ended_example : row (after_event 200 false ending crowded) work (codes "other") ≡ (
    if work == work && key_of ending == codes "other"
    then none
    else row crowded work (codes "other"))
apply_event-ended_example = apply_event-ended 200 false ending crowded refl work (codes "other")

apply_event-suppresses_example :
    (is_pane_end_suppressed 300 work
      (codes "amp")
      (codes "%1")
      (after_event 200 false ending crowded)).1
    ≡ ltb 300 (200 + 5000)
unfolding row rows_of find text_beq instance_key
apply_event-suppresses_example =
    apply_event-suppresses 200 false ending crowded 300 old_row refl refl
      (==→ne old_row.pane_id [] refl)

abbrev asking : AgentEvent
asking = record blank { status = Status.waiting }

get_state-greatest_example :
    Among old_row (rows_of crowded work) × NoMoreUrgent (record old_row { pid = 9 }) old_row
unfolding get_state row rows_of find text_beq best_of better status_priority
get_state-greatest_example =
    get_state-greatest work crowded old_row (codes "other") (record old_row { pid = 9 }) refl refl

reconcile_stale_running-row_example :
    row
      (reconcile_stale_running 9000 1000 (λ _. ProbeVerdict.ended) crowded).tracker
      work
      (codes "other")
    ≡ act_on
        (λ ev. some (if is_stale 9000 1000 ev then reconciled 9000 ProbeVerdict.ended ev else ev))
        (row crowded work (codes "other"))
reconcile_stale_running-row_example =
    reconcile_stale_running-row 9000 1000 (λ _. ProbeVerdict.ended) crowded work (codes "other")

run_liveness_sweep_once-row_example :
    row (run_liveness_sweep_once (λ pid. pid == 7) crowded).tracker work (codes "other")
    ≡ act_on (λ ev. some (mark_dead (λ pid. pid == 7) ev)) (row crowded work (codes "other"))
run_liveness_sweep_once-row_example =
    run_liveness_sweep_once-row (λ pid. pid == 7) crowded work (codes "other")

abbrev dialog : ScanState
dialog = record {
  thread_id = codes "t1";
  thread_name = [];
  verdict = ProbeVerdict.no_signal;
  prompt = record { verdict = ProbeVerdict.no_signal; at_ms = 0 };
  waiting_since_ms = 400;
}
