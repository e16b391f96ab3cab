-- ===== src/CodexWatch/Hooks.antt =====
-- `HandleHook` of apps/server-go/internal/codexwatch/codexwatch.go, step by step.
use tail_claude_mux.Wire.Hook.{HookPayload}
use tail_claude_mux.ClaudeWatch.Verb.{tool_verb}
use tail_claude_mux.ClaudeWatch.Tools.{tool_description}
use tail_claude_mux.ClaudeWatch.Words.{segment_from, ends_segment, has_tool_context}
use tail_claude_mux.ClaudeWatch.Hooks.{snapshot_pid}
use tail_claude_mux.CodexWatch.Rollouts.{trailing_state_for_thread, rollout_path_for_pid}
use tail_claude_mux.Base.{
  to_lower, is_among, has_prefix, text_eq, codes, Text, drop, option_eq, nat_eq, ◌==◌, ◌!=◌,
  if◌then◌else◌, ◌∷◌, [], some, none, Option, ◌||◌, ◌&&◌, not, false, true, Bool, ◌+◌, ℕ,
}
use tail_claude_mux.Wire.{AgentEvent, Status, status_eq}
use tail_claude_mux.CodexWatch.State.{
  prompt_thread_name, resolve_state_session, verdict_wire, keep_thread, emit, start_lookup, World,
  Adapter, ThreadState, Claim,
}

abbrev is_codex_segment : Text → Bool
is_codex_segment s = has_prefix s (codes "codex") && ends_segment (drop 5 s)

-- `codexCmdRE`.
unfoldable pub is_codex_command : Text → Bool
unfolding segment_from has_prefix
is_codex_command command = segment_from is_codex_segment true (to_lower command)

-- A thread that is seen for the first time, the lookup of its name started.
abbrev pub new_thread : HookPayload → ℕ → ThreadState
new_thread payload serial = record {
  serial = serial;
  status = Status.idle;
  thread_name = [];
  project_dir = payload.cwd;
  name_from_index = false;
  name_lookup_in_flight = true;
  pid = 0;
  routing_pid = 0;
  ownership_checked = false;
  recheck_ownership = false;
  drop_logged = false;
  last_tool_description = [];
  last_tool_verb = [];
}

-- The state of the payload's thread, and whether it is new.
unfoldable pub thread_of : HookPayload → Adapter → Adapter × ThreadState × Bool
thread_of payload a = elim (a.threads payload.session_id) [
  | some st ↦ (a, st, false)
  | none ↦ (record a { next_serial = a.next_serial + 1 }, new_thread payload a.next_serial, true)
]

-- Another process than before sends the hook: its ownership is to be checked.
unfoldable pub update_routing : HookPayload → ThreadState → ThreadState
update_routing payload st =
    if payload.pid == 0 || payload.process_snapshot == []
    then st
    else (let sender = snapshot_pid is_codex_command payload in
        if sender == 0 || sender == st.routing_pid then st else record st {
          routing_pid = sender;
          pid = 0;
          ownership_checked = false;
          drop_logged = false;
        })

abbrev pub starts_turn : Text → Bool
starts_turn = is_among ("SessionStart" ∷ "UserPromptSubmit" ∷ [])

-- The check that the sender holds the thread's rollout open.
unfoldable pub check_ownership : World → HookPayload → ThreadState → ThreadState
unfolding rollout_path_for_pid
check_ownership w payload st =
    if st.routing_pid != 0
      && (not st.ownership_checked || (st.recheck_ownership && starts_turn payload.event))
    then record st {
      ownership_checked = true;
      recheck_ownership = false;
      pid =
          if rollout_path_for_pid w st.routing_pid payload.session_id != []
          then st.routing_pid
          else st.pid;
    }
    else st

unfoldable pub owner_checked : World → HookPayload → ThreadState → ThreadState
unfolding update_routing check_ownership
owner_checked w payload st = check_ownership w payload (update_routing payload st)

-- What a hook leaves: the watcher, the event that it emits, if any, and whether the lookup of the
-- thread's name is started.
pub record Hooked : Type 0 where
  pub adapter : Adapter
  pub emitted : Option AgentEvent
  pub lookup : Bool

-- A Stop looks the thread's name up.
unfoldable pub after_stop : HookPayload → ThreadState → ThreadState × Bool
unfolding start_lookup
after_stop payload st = if payload.event == codes "Stop" then start_lookup st else (st, false)

-- The end of a hook.
unfoldable pub finish : HookPayload → ThreadState → Bool → Option AgentEvent → Adapter → Hooked
unfolding after_stop
finish payload st looked emitted a =
    let (st', starts) = after_stop payload st in
    record {
      adapter = keep_thread payload.session_id st' a;
      emitted = emitted;
      lookup = looked || starts;
    }

-- The hook of a process that does not own the thread.
unfoldable pub disown : HookPayload → ThreadState → Bool → Adapter → Hooked
unfolding finish
disown payload st looked a =
    finish payload
      (record st {
        drop_logged = true;
        recheck_ownership = payload.event == codes "Stop" || st.recheck_ownership;
      })
      looked none a

-- The call that the thread is at.
unfoldable pub note_tool : World → HookPayload → ThreadState → ThreadState
unfolding tool_description tool_verb
note_tool w payload st =
    if has_tool_context payload.event
    then record st {
      last_tool_description = tool_description payload.tool_name payload.tool_input;
      last_tool_verb = tool_verb w.categorize payload.tool_name payload.tool_input;
    }
    else if payload.event != codes "PostToolUse"
    then record st { last_tool_description = []; last_tool_verb = [] }
    else st

-- A thread without a name takes that of its prompt.
unfoldable pub note_prompt : HookPayload → ThreadState → ThreadState
unfolding prompt_thread_name
note_prompt payload st =
    if payload.event == codes "UserPromptSubmit" && not st.name_from_index && st.thread_name == []
    then record st { thread_name = prompt_thread_name payload.prompt }
    else st

-- The hook of a thread whose session is known.
unfoldable pub routed : World → HookPayload → Status → Text → ThreadState → Bool → Adapter → Hooked
unfolding note_tool note_prompt finish emit
routed w payload new_status session st is_new a =
    let noted = note_prompt payload (note_tool w payload st) in
    let told : ThreadState = record noted { status = new_status } in
    let is_call = payload.event == codes "PreToolUse" in
    if st.status == new_status
      && not is_new
      && st.last_tool_description == noted.last_tool_description
      && not is_call
    then finish payload noted is_new none a
    else finish payload told is_new (some (emit w payload.session_id told session is_call)) a

-- The status that a hook claims, against the rollout where the claim needs it.
unfoldable pub claimed_status : World → Claim → ℕ → Text → Status
unfolding trailing_state_for_thread
claimed_status w claim pid thread_id = verdict_wire (
    claim.reconcile
      (if claim.needs_evidence then trailing_state_for_thread w pid thread_id else w.no_evidence))

-- The hook of a thread, once its ownership is checked.
unfoldable pub handle_owned : World → HookPayload → Claim → ThreadState → Bool → Adapter → Hooked
unfolding disown claimed_status resolve_state_session finish routed
handle_owned w payload claim st is_new a =
    if st.routing_pid != 0 && st.pid == 0
    then disown payload st is_new a
    else (let session = resolve_state_session w st payload.cwd in
        if session == []
        then finish payload (record st { drop_logged = true }) is_new none a
        else routed w payload (claimed_status w claim st.pid payload.session_id) session st is_new
            a)

-- `HandleHook`.
unfoldable pub handle_hook : World → HookPayload → Adapter → Hooked
unfolding thread_of owner_checked handle_owned
handle_hook w payload a =
    let unused : Hooked = record { adapter = a; emitted = none; lookup = false } in
    if payload.agent != codes "codex" || not a.started
    then unused
    else elim (w.claim_for payload.event) [
      | none ↦ unused
      | some claim ↦
          let (a', found, is_new) = thread_of payload a in
          handle_owned w payload claim (owner_checked w payload found) is_new a'
    ]
