-- ===== src/CodexWatch/Rollouts.antt =====
-- The rollout that a process holds open, and its status, in
-- apps/server-go/internal/codexwatch/codexwatch.go.
use tail_claude_mux.Wire.{status_eq}
use tail_claude_mux.Tracker.Scan.{ScanState, ProbeVerdict}
use tail_claude_mux.Server.Readings.{no_state}
use tail_claude_mux.CodexWatch.State.{lookup_thread_name, wire_status, World, Rollout, RolloutState}
use tail_claude_mux.Wire.{is_terminal_status, Status}
use tail_claude_mux.Base.{
  has_suffix, has_prefix, text_eq, codes, Text, option_eq, nat_eq, ◌==◌, ◌!=◌, if◌then◌else◌, leb,
  ◌∷◌, [], List, some, none, Option, ◌||◌, ◌&&◌, not, false, Bool, ℕ,
}

-- `isRolloutPath`.
unfoldable pub is_rollout_path : World → Text → Bool
is_rollout_path w path = elim (w.relative path) [
  | none ↦ false
  | some rel ↦
      rel != codes ".." && not (has_prefix rel (codes "../")) && has_suffix path (codes ".jsonl")
]

-- `isPrimaryRollout`.
unfoldable pub is_primary_rollout : World → Text → Bool
is_primary_rollout w path = w.source_kind path == some (codes "cli")

-- Whether a path is a rollout of the thread, or of any thread for "".
unfoldable pub is_rollout_of : World → Text → Text → Bool
unfolding is_rollout_path
is_rollout_of w thread_id path =
    let id = w.session_id_of_path path in
    is_rollout_path w path && not (id == [] || (thread_id != [] && id != thread_id))

-- The loop of `rolloutPathForPID`, with the fallback so far.
unfoldable pub pick_rollout : World → Text → List Text → Text → Text
unfolding is_rollout_of is_primary_rollout
pick_rollout w thread_id [] fallback = fallback
pick_rollout w thread_id (path ∷ paths) fallback =
    let skipped = pick_rollout w thread_id paths fallback in
    let next = pick_rollout w thread_id paths (if fallback == [] then path else fallback) in
    if not (is_rollout_of w thread_id path)
    then skipped
    else if is_primary_rollout w path
    then path
    else next

-- `rolloutPathForPID`; "" for none.
unfoldable pub rollout_path_for_pid : World → ℕ → Text → Text
unfolding pick_rollout
rollout_path_for_pid w pid thread_id =
    if leb pid 1 then [] else pick_rollout w thread_id (w.open_files pid) []

-- `rolloutPathForThread`.
unfoldable pub rollout_path_for_thread : Text → List Rollout → Text
rollout_path_for_thread thread_id [] = []
rollout_path_for_thread thread_id (r ∷ rollouts) =
    let rest = rollout_path_for_thread thread_id rollouts in
    if r.session_id == thread_id then r.path else rest

-- `trailingRolloutState`.
unfoldable pub trailing_rollout_state : World → Text → Option RolloutState
trailing_rollout_state w path = if path == [] then none else w.trailing_state path

-- The path of a thread's rollout: from its process, and from the directory where that gives none.
unfoldable pub thread_rollout : World → ℕ → Text → Text
unfolding rollout_path_for_pid rollout_path_for_thread
thread_rollout w pid thread_id =
    let path = rollout_path_for_pid w pid thread_id in
    if path == [] && thread_id != [] then rollout_path_for_thread thread_id w.rollouts else path

-- `trailingStateForThread`.
unfoldable pub trailing_state_for_thread : World → ℕ → Text → RolloutState
unfolding thread_rollout trailing_rollout_state
trailing_state_for_thread w pid thread_id =
    elim (trailing_rollout_state w (thread_rollout w pid thread_id)) [
      | none ↦ w.no_evidence
      | some st ↦ st
    ]

-- `rolloutStatusForPath`.
unfoldable pub rollout_status_for_path : World → Text → Status
unfolding trailing_rollout_state
rollout_status_for_path w path = elim (trailing_rollout_state w path) [
  | none ↦ Status.other []
  | some st ↦ wire_status st.status
]

-- `probeRolloutPath` and `scanRolloutPath`, of the status.
abbrev pub probe_verdict : Status → ProbeVerdict
probe_verdict s =
    if s == Status.running
    then ProbeVerdict.working
    else if is_terminal_status s
    then ProbeVerdict.ended
    else ProbeVerdict.no_signal

abbrev pub scan_verdict : Status → ProbeVerdict
scan_verdict Status.running = ProbeVerdict.working
scan_verdict Status.done = ProbeVerdict.done
scan_verdict Status.interrupted = ProbeVerdict.interrupted
scan_verdict Status.error = ProbeVerdict.error
scan_verdict _ = ProbeVerdict.no_signal

-- `ProbeLiveStatus`.
unfoldable pub probe_live_status : World → ℕ → Text → ProbeVerdict
unfolding thread_rollout rollout_status_for_path is_terminal_status
probe_live_status w pid thread_id =
    probe_verdict (rollout_status_for_path w (thread_rollout w pid thread_id))

-- `sessionInfoForRollout`.
unfoldable pub session_info_for_rollout : World → Text → Text × Text
unfolding lookup_thread_name
session_info_for_rollout w path =
    if path == []
    then ([], [])
    else (w.session_id_of_path path, lookup_thread_name w (w.session_id_of_path path))

-- `SessionInfoForPid`.
unfoldable pub session_info_for_pid : World → ℕ → Text × Text
unfolding rollout_path_for_pid session_info_for_rollout
session_info_for_pid w pid = session_info_for_rollout w (rollout_path_for_pid w pid [])

-- `ScanStateForPid`.
unfoldable pub scan_state_for_pid : World → ℕ → ScanState
unfolding rollout_path_for_pid session_info_for_rollout rollout_status_for_path
scan_state_for_pid w pid =
    let path = rollout_path_for_pid w pid [] in
    let (thread_id, name) = session_info_for_rollout w path in
    if thread_id == [] then no_state else record no_state {
      thread_id = thread_id;
      thread_name = name;
      verdict = scan_verdict (rollout_status_for_path w path);
    }

-- `RolloutForFollowup`: the path and the thread, or none when a rollout cannot be read; the cwd of
-- a rollout is read by `cwd_of`.
unfoldable pub rollout_for_followup :
    (Text → Option Text) → Text → Text → List Rollout → Option (Text × Text)
rollout_for_followup cwd_of cwd tracked [] = some ([], [])
rollout_for_followup cwd_of cwd tracked (r ∷ rollouts) =
    let rest = rollout_for_followup cwd_of cwd tracked rollouts in
    if tracked != []
    then (if r.session_id == tracked then some (r.path, r.session_id) else rest)
    else elim (cwd_of r.path) [
      | none ↦ none
      | some dir ↦ if dir == cwd then some (r.path, r.session_id) else rest
    ]
