-- ===== src/Server/Readings.antt =====
-- The readings of a pane scan in apps/server-go/internal/server/watch.go.
use tail_claude_mux.Tracker.Queries.Find.{get_event}
use tail_claude_mux.Tracker.Presence.Local.{PanePresence}
use tail_claude_mux.Tracker.Scan.{waiting_over, ScanState, clears, ProbeVerdict}
use tail_claude_mux.Tracker.State.{Tracker}
use tail_claude_mux.Tracker.Apply.{apply_event}
use tail_claude_mux.Wire.{status_eq, AgentEvent, is_waiting, is_running, Status}
use tail_claude_mux.Base.{
  text_eq, Text, option_eq, nat_eq, ◌==◌, ◌!=◌, if◌then◌else◌, ◌∷◌, [], List, some, none, Option,
  ◌||◌, not, false, true, Bool, ℕ,
}

-- `scanStatus`; none is "".
unfoldable pub scan_status : ProbeVerdict → Option Status
scan_status ProbeVerdict.working = some Status.running
scan_status ProbeVerdict.done = some Status.done
scan_status ProbeVerdict.interrupted = some Status.interrupted
scan_status ProbeVerdict.error = some Status.error
scan_status ProbeVerdict.no_signal = none
scan_status ProbeVerdict.ended = none

abbrev with_verdict : ProbeVerdict → AgentEvent → Option AgentEvent
with_verdict verdict ev = elim (scan_status verdict) [
  | none ↦ none
  | some status ↦ some (record ev { status = status })
]

-- The call that an approval keeps.
abbrev keep_call : AgentEvent → AgentEvent → AgentEvent
keep_call previous ev =
    if is_running ev.status
    then record ev { tool_description = previous.tool_description; tool_verb = previous.tool_verb }
    else ev

abbrev over_waiting : AgentEvent → AgentEvent → ScanState → Option AgentEvent
over_waiting previous ev state =
    if not (clears state.prompt previous.ts)
    then none
    else elim (with_verdict state.prompt.verdict ev) [
      | none ↦ none
      | some ev' ↦ some (keep_call previous ev')
    ]

abbrev over_other : Option AgentEvent → AgentEvent → ScanState → Option AgentEvent
over_other previous ev state =
    let (ev', opened) = waiting_over state previous ev in
    if opened then some ev' else with_verdict state.verdict ev

-- `scanEventOver`; none leaves the row untouched.
unfoldable pub scan_event_over : Option AgentEvent → AgentEvent → ScanState → Option AgentEvent
unfolding clears scan_status waiting_over
scan_event_over none ev state = over_other none ev state
scan_event_over (some previous) ev state =
    if is_waiting previous.status
    then over_waiting previous ev state
    else over_other (some previous) ev state

-- What the server asks of a watcher: `agentStateSource`.
pub record StateSource : Type 0 where
  pub name : Text
  pub scan_state_for_pid : ℕ → Text → ScanState
  pub probe_live_status : ℕ → Text → Text → ProbeVerdict

-- `stateSourceForAgent`.
unfoldable pub state_source_for_agent : Text → List StateSource → Option StateSource
state_source_for_agent agent [] = none
state_source_for_agent agent (source ∷ sources) =
    if source.name == agent then some source else state_source_for_agent agent sources

abbrev pub no_state : ScanState
no_state = record {
  thread_id = [];
  thread_name = [];
  verdict = ProbeVerdict.no_signal;
  prompt = record { verdict = ProbeVerdict.no_signal; at_ms = 0 };
  waiting_since_ms = 0;
}

-- `scanStateForPane`.
unfoldable pub scan_state_for_pane : List StateSource → PanePresence → PanePresence × ScanState
unfolding state_source_for_agent
scan_state_for_pane sources pa =
    if pa.pid == 0 then (pa, no_state) else elim (state_source_for_agent pa.agent sources) [
      | none ↦ (pa, no_state)
      | some source ↦
          let state = source.scan_state_for_pid pa.pid pa.pane_title in
          (record pa { thread_id = state.thread_id; thread_name = state.thread_name }, state)
    ]

-- `probeLivenessFromSources`.
unfoldable pub probe_liveness : List StateSource → AgentEvent → ProbeVerdict
unfolding state_source_for_agent
probe_liveness sources ev =
    if ev.pid == 0 then ProbeVerdict.no_signal else elim (state_source_for_agent ev.agent sources) [
      | none ↦ ProbeVerdict.no_signal
      | some source ↦ source.probe_live_status ev.pid ev.thread_id ev.pane_title
    ]

-- `scanReading`.
pub record ScanReading : Type 0 where
  pub ev : AgentEvent
  pub state : ScanState

-- The fold of the readings in `paneScanLoop`: the tracker, and whether a row's status changed.
unfoldable pub fold_readings : ℕ → List ScanReading → Tracker → Bool → Tracker × Bool
unfolding scan_event_over get_event
fold_readings now [] t moved = (t, moved)
fold_readings now (reading ∷ readings) t moved =
    let previous = get_event reading.ev.session reading.ev.agent reading.ev.thread_id [] t in
    let (t', moved') : Tracker × Bool = elim (scan_event_over previous reading.ev reading.state) [
      | none ↦ (t, moved)
      | some ev ↦ (
        apply_event now false ev t,
        moved || elim previous [ none ↦ true | some p ↦ p.status != ev.status ],
      )
    ] in
    fold_readings now readings t' moved'
