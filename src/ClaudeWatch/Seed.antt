-- ===== src/ClaudeWatch/Seed.antt =====
-- The other entry points of the watcher in apps/server-go/internal/ccwatch/ccwatch.go: the seed at
-- a cold start, the liveness probe and the end of a name's lookup.
use tail_claude_mux.Tracker.Scan.{no_signal, ProbeVerdict}
use tail_claude_mux.ClaudeWatch.Registry.{
  resolve_pid_from_sessions, classify_title_status, classify_session_status, dialog_open_since,
  stale_ms,
}
use tail_claude_mux.ClaudeWatch.State.{
  emit, agent_event, EmitKind, drop_thread, keep_thread, World, Adapter, ThreadState,
}
use tail_claude_mux.ClaudeWatch.Thinking.{no_cursor}
use tail_claude_mux.ClaudeWatch.Transcript.{scan_transcript, Entry}
use tail_claude_mux.Wire.{AgentEvent, is_terminal_status, is_idle, Status}
use tail_claude_mux.Base.{
  has_suffix, text_eq, codes, Text, take, length, option_eq, nat_eq, ◌==◌, ◌!=◌, if◌then◌else◌, ltb,
  map, ◌++◌, ◌∷◌, [], List, some, none, Option, ◌||◌, ◌&&◌, not, false, true, Bool, ◌-◌, ◌+◌, ℕ,
}

-- A file of a project directory; what it holds is decoded.
pub record TranscriptFile : Type 0 where
  pub name : Text
  pub mtime : ℕ
  pub entries : List Entry

-- A directory of `ProjectsDir`.
pub record ProjectDir : Type 0 where
  pub encoded : Text
  pub transcripts : List TranscriptFile

-- `strings.ReplaceAll(encoded, "-", "/")`.
abbrev naive_path : Text → Text
naive_path = map (λ c. if c == 45 then 47 else c)

-- `decodeProjectDir`, with the test for an existing directory.
unfoldable pub decode_project_dir : (Text → Bool) → Text → Text
decode_project_dir is_dir encoded =
    if is_dir (naive_path encoded) then naive_path encoded else codes "__encoded__:" ++ encoded

-- `dialogOpenSince` of a thread.
unfoldable pub thread_dialog_since : World → Text → ℕ → ℕ
unfolding dialog_open_since
thread_dialog_since w thread_id pid = if pid == 0 then 0 else elim (w.session_file pid) [
  | none ↦ 0
  | some file ↦ if file.session_id != thread_id then 0 else dialog_open_since (some file)
]

-- The session of a seeded thread: by its pid, and by the directory where that gives none.
unfoldable pub seed_session : World → ℕ → Text → Text
seed_session w pid project_dir =
    let by_pid = if pid != 0 then w.resolve_session_by_pid pid else [] in
    if by_pid == [] then w.resolve_session project_dir else by_pid

pub record Seeding : Type 0 where
  pub adapter : Adapter
  pub emitted : List AgentEvent

abbrev pub is_inactive : Status → Bool
is_inactive s = is_idle s || is_terminal_status s

-- The status and time that a thread is seeded at, none to leave it out.
unfoldable pub seed_status : ℕ → Status → ℕ → Option (Status × ℕ)
unfolding is_terminal_status
seed_status dialog_at latest mtime =
    if dialog_at != 0
    then some (Status.waiting, dialog_at)
    else if is_inactive latest
    then none
    else some (latest, mtime)

abbrev seeded_state : ℕ → Status → Text → Text → ℕ → ThreadState
seeded_state serial status thread_name project_dir pid = record {
  serial = serial;
  status = status;
  thread_name = thread_name;
  project_dir = project_dir;
  name_resolved = true;
  pid = pid;
  last_tool_description = [];
  last_tool_verb = [];
  subagent = [];
  thinking = no_cursor;
  non_tmux_logged = false;
}

-- A thread that is not known yet, from its transcript.
unfoldable pub seed_thread : World → Text → Text → TranscriptFile → Seeding → Seeding
unfolding seed_status seed_session thread_dialog_since
seed_thread w project_dir thread_id file s =
    let (latest, thread_name) = scan_transcript file.entries in
    let pid = resolve_pid_from_sessions w.registry thread_id in
    elim (seed_status (thread_dialog_since w thread_id pid) latest file.mtime) [
      | none ↦ s
      | some (status, ts) ↦
          let session = seed_session w pid project_dir in
          if session == [] then s else record {
            adapter =
                keep_thread thread_id
                  (seeded_state s.adapter.next_serial status thread_name project_dir pid)
                  (record s.adapter { next_serial = s.adapter.next_serial + 1 });
            emitted =
                s.emitted
                ++ (agent_event (codes "claude-code") session status ts thread_id thread_name pid
                    ∷ []);
          }
    ]

-- One file of a directory.
unfoldable pub seed_file : World → Text → TranscriptFile → Seeding → Seeding
unfolding seed_thread
seed_file w project_dir file s =
    if not (has_suffix file.name (codes ".jsonl")) || ltb stale_ms (w.now - file.mtime)
    then s
    else (let thread_id = take (length file.name - 6) file.name in
        elim (s.adapter.threads thread_id) [
          | some st ↦ s
          | none ↦ seed_thread w project_dir thread_id file s
        ])

unfoldable pub seed_files : World → Text → List TranscriptFile → Seeding → Seeding
unfolding seed_file
seed_files w project_dir [] s = s
seed_files w project_dir (file ∷ files) s =
    seed_files w project_dir files (seed_file w project_dir file s)

unfoldable pub seed_dirs : World → (Text → Bool) → List ProjectDir → Seeding → Seeding
unfolding seed_files decode_project_dir
seed_dirs w is_dir [] s = s
seed_dirs w is_dir (dir ∷ dirs) s =
    seed_dirs w is_dir dirs (seed_files w (decode_project_dir is_dir dir.encoded) dir.transcripts s)

-- `Start`: the context is set, and `seedFromJSONL` runs.
unfoldable pub start : World → (Text → Bool) → List ProjectDir → Adapter → Seeding
unfolding seed_dirs
start w is_dir dirs a =
    seed_dirs w is_dir dirs (record { adapter = record a { started = true }; emitted = [] })

abbrev is_no_signal : ProbeVerdict → Bool
is_no_signal no_signal = true
is_no_signal _ = false

abbrev is_ended_verdict : ProbeVerdict → Bool
is_ended_verdict ProbeVerdict.ended = true
is_ended_verdict _ = false

-- The verdict of `ProbeLiveStatus`.
unfoldable pub live_verdict : World → ℕ → Text → Text → ProbeVerdict
live_verdict w pid thread_id pane_title =
    let verdict = classify_session_status (w.session_file pid) thread_id w.now in
    if is_no_signal verdict && pane_title != [] then classify_title_status pane_title else verdict

-- `ProbeLiveStatus`.
unfoldable pub probe_live_status : World → ℕ → Text → Text → Adapter → Adapter × ProbeVerdict
unfolding live_verdict
probe_live_status w pid thread_id pane_title a =
    let verdict = live_verdict w pid thread_id pane_title in
    (if is_ended_verdict verdict then drop_thread thread_id a else a, verdict)

-- The end of `resolveThreadNameAsync`, for the thread's state with a serial number: the thread may
-- have ended, or be another one by now.
unfoldable pub name_resolved : World → Text → ℕ → Text → Adapter → Adapter × Option AgentEvent
unfolding emit
name_resolved w thread_id serial thread_name a = elim (a.threads thread_id) [
  | none ↦ (a, none)
  | some st ↦
      if thread_name == [] || st.serial != serial
      then (a, none)
      else (let st' : ThreadState = record st { thread_name = thread_name } in
          let session = w.resolve_session st'.project_dir in
          if session == []
          then (keep_thread thread_id st' a, none)
          else (let (st'', ev) = emit w thread_id st' session EmitKind.changed in
              (keep_thread thread_id st'' a, some ev)))
]
