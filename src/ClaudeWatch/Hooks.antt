-- ===== src/ClaudeWatch/Hooks.antt =====
-- `HandleHook` of apps/server-go/internal/ccwatch/ccwatch.go, step by step.
use tail_claude_mux.ClaudeWatch.Words.{
  is_claude_command, has_tool_context, is_wait_owned, is_tool_outcome, resolve_status,
}
use tail_claude_mux.Wire.Hook.{HookPayload}
use tail_claude_mux.ClaudeWatch.Verb.{tool_verb}
use tail_claude_mux.ClaudeWatch.Registry.{resolve_pid_from_sessions, session_status_waiting}
use tail_claude_mux.ClaudeWatch.Tools.{tool_description}
use tail_claude_mux.ClaudeWatch.State.{
  emit, EmitKind, drop_thread, keep_thread, World, Adapter, ThreadState,
}
use tail_claude_mux.ClaudeWatch.Thinking.{track_transcript, no_cursor}
use tail_claude_mux.ProcWalk.Walks.{resolve_agent_session_pid}
use tail_claude_mux.ProcWalk.Snapshot.{parse_process_snapshot}
use tail_claude_mux.Wire.{status_eq, AgentEvent, is_waiting, Status}
use tail_claude_mux.Base.{
  text_eq, codes, Text, length, find, option_eq, nat_eq, ◌==◌, ◌!=◌, if◌then◌else◌, [], some, none,
  Option, ◌||◌, ◌&&◌, not, false, true, Bool, ◌+◌, ℕ,
}

-- The state of the payload's thread, and whether it is new.
unfoldable pub thread_of : HookPayload → Adapter → Adapter × ThreadState × Bool
thread_of payload a = elim (a.threads payload.session_id) [
  | some st ↦ (a, st, false)
  | none ↦ (
    record a { next_serial = a.next_serial + 1 },
    record {
      serial = a.next_serial;
      status = Status.idle;
      thread_name = [];
      project_dir = payload.cwd;
      name_resolved = true;
      pid = 0;
      last_tool_description = [];
      last_tool_verb = [];
      subagent = [];
      thinking = no_cursor;
      non_tmux_logged = false;
    },
    true,
  )
]

-- The pid that the hook's process snapshot gives, 0 for none, with the agent's pattern.
unfoldable pub snapshot_pid : (Text → Bool) → HookPayload → ℕ
snapshot_pid matches payload =
    let table = parse_process_snapshot payload.process_snapshot in
    elim (resolve_agent_session_pid (length table + 1) payload.pid matches table) [
      | none ↦ 0
      | some resolved ↦
          if resolved != payload.pid then resolved else elim (find payload.pid table) [
            | none ↦ 0
            | some info ↦ if matches info.command then payload.pid else 0
          ]
    ]

unfoldable pub update_pid : HookPayload → ThreadState → ThreadState
unfolding snapshot_pid
update_pid payload st =
    if payload.pid == 0
      || payload.process_snapshot == []
      || snapshot_pid is_claude_command payload == 0
    then st
    else record st { pid = snapshot_pid is_claude_command payload }

-- The session that an event goes to, "" to drop it.
unfoldable pub route : World → HookPayload → ThreadState → Text
route w payload st =
    if st.pid != 0 then w.resolve_session_by_pid st.pid else w.resolve_session payload.cwd

-- A dropped hook of a known process outside tmux is logged once.
unfoldable pub note_drop : World → Text → ThreadState → ThreadState
note_drop w thread_id st = if st.pid == 0 then st else elim (w.session_file st.pid) [
  | none ↦ st
  | some file ↦
      if file.session_id == thread_id && file.kind != codes "interactive"
      then record st { non_tmux_logged = true }
      else st
]

-- The second half of `refreshFromRegistry`, with a pid.
unfoldable pub refresh_file : World → Text → ThreadState → ThreadState
refresh_file w thread_id st = elim (w.session_file st.pid) [
  | none ↦ record st { subagent = [] }
  | some file ↦
      if file.session_id != thread_id then record st { pid = 0; subagent = [] } else record st {
        subagent = file.agent;
        thread_name = if file.name != [] then file.name else st.thread_name;
      }
]

-- `refreshFromRegistry`.
unfoldable pub refresh_from_registry : World → Text → ThreadState → ThreadState
unfolding refresh_file resolve_pid_from_sessions
refresh_from_registry w thread_id st =
    if st.pid == 0
    then (let resolved = resolve_pid_from_sessions w.registry thread_id in
        if resolved == 0
        then record st { subagent = [] }
        else refresh_file w thread_id (record st { pid = resolved }))
    else refresh_file w thread_id st

-- `dialogOpen`.
unfoldable pub dialog_open : World → Text → ℕ → Bool
dialog_open w thread_id pid = if pid == 0 then false else elim (w.session_file pid) [
  | none ↦ false
  | some file ↦ file.session_id == thread_id && file.status == session_status_waiting
]

-- What a hook leaves: the watcher, the event that it emits, if any, and whether the lookup of the
-- thread's name is started.
pub record Hooked : Type 0 where
  pub adapter : Adapter
  pub emitted : Option AgentEvent
  pub lookup : Bool

-- The description and verb of the call that the thread is at.
unfoldable pub note_tool : World → HookPayload → ThreadState → ThreadState
unfolding tool_description tool_verb
note_tool w payload st =
    if has_tool_context payload.event
    then record st {
      last_tool_description = tool_description payload.tool_name payload.tool_input;
      last_tool_verb = tool_verb w.categorize payload.tool_name payload.tool_input;
    }
    else if is_tool_outcome payload.event
    then st
    else record st { last_tool_description = []; last_tool_verb = [] }

unfoldable pub kind_of : Text → EmitKind
kind_of event = if event == codes "PreToolUse" then EmitKind.invoked else EmitKind.changed

-- Whether the event is swallowed, since it tells nothing new.
unfoldable pub is_repeat : Bool → Text → Status → Status → Bool
is_repeat is_new event status new_status =
    status == new_status
    && not is_new
    && not (has_tool_context event)
    && event != codes "UserPromptSubmit"

-- The thread is kept, and its event is emitted.
unfoldable pub emit_kept :
    World → HookPayload → ThreadState → Text → EmitKind → Bool → Adapter → Hooked
unfolding emit
emit_kept w payload st session kind lookup a =
    let (st', ev) = emit w payload.session_id st session kind in
    record { adapter = keep_thread payload.session_id st' a; emitted = some ev; lookup = lookup }

abbrev pub silent : HookPayload → ThreadState → Bool → Adapter → Hooked
silent payload st lookup a = record {
  adapter = keep_thread payload.session_id st a;
  emitted = none;
  lookup = lookup;
}

-- The hook of a thread whose session is known, its state refreshed.
unfoldable pub routed : World → HookPayload → Status → Text → ThreadState → Bool → Adapter → Hooked
unfolding dialog_open note_tool is_repeat emit_kept kind_of emit
routed w payload new_status session st is_new a =
    if payload.event == codes "SessionEnd"
    then (let (st', ev) =
          emit w payload.session_id
            (record st { status = new_status; last_tool_description = []; last_tool_verb = [] })
            session EmitKind.ended in
        record { adapter = drop_thread payload.session_id a; emitted = some ev; lookup = is_new })
    else if not (is_waiting new_status)
        && is_wait_owned payload.event
        && dialog_open w payload.session_id st.pid
    then silent payload st is_new a
    else if is_repeat is_new payload.event st.status new_status
    then silent payload (note_tool w payload st) is_new a
    else emit_kept w payload (record (note_tool w payload st) { status = new_status }) session
        (kind_of payload.event) is_new a

-- The thread's state when its session is looked for.
unfoldable pub prepared : World → HookPayload → ThreadState → ThreadState
unfolding track_transcript update_pid
prepared w payload st = update_pid payload (record st {
  thinking = track_transcript w.files payload.transcript_path payload.session_id st.thinking;
})

-- `HandleHook`.
unfoldable pub handle_hook : World → HookPayload → Adapter → Hooked
unfolding resolve_status thread_of prepared route note_drop refresh_from_registry routed
handle_hook w payload a =
    let ignored : Hooked = record { adapter = a; emitted = none; lookup = false } in
    if (payload.agent != [] && payload.agent != codes "claude-code") || not a.started
    then ignored
    else elim (resolve_status payload) [
      | none ↦ ignored
      | some new_status ↦
          let (a', found, is_new) = thread_of payload a in
          let st = prepared w payload found in
          let session = route w payload st in
          if session == []
          then silent payload (note_drop w payload.session_id st) is_new a'
          else routed w payload new_status session (refresh_from_registry w payload.session_id st)
              is_new a'
    ]
