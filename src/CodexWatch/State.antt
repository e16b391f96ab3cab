-- ===== src/CodexWatch/State.antt =====
-- The state of the Codex watcher in apps/server-go/internal/codexwatch/codexwatch.go, and what it
-- is given. A pointer to a thread's state is its serial number.
use tail_claude_mux.ClaudeWatch.Verb.{ToolCategory}
use tail_claude_mux.ClaudeWatch.State.{agent_event}
use tail_claude_mux.TextUtil.Strip.{sanitize_session_name}
use tail_claude_mux.Wire.{AgentEvent, Status}
use tail_claude_mux.Base.{
  split, trim, is_space, text_eq, codes, Text, update, option_eq, nat_eq, ◌==◌, ◌!=◌, if◌then◌else◌,
  ◌∷◌, [], List, some, none, Option, false, true, Bool, ℕ,
}

pub record ThreadState : Type 0 where
  pub serial : ℕ
  pub status : Status
  pub thread_name : Text
  pub project_dir : Text
  pub name_from_index : Bool
  pub name_lookup_in_flight : Bool
  pub pid : ℕ
  pub routing_pid : ℕ
  pub ownership_checked : Bool
  pub recheck_ownership : Bool
  pub drop_logged : Bool
  pub last_tool_description : Text
  pub last_tool_verb : Text

-- `started` is that a context is set.
pub record Adapter : Type 0 where
  pub threads : Text → Option ThreadState
  pub next_serial : ℕ
  pub started : Bool

-- `New`.
unfoldable pub new_adapter : Adapter
new_adapter = record { threads = λ _. none; next_serial = 0; started = false }

-- `rollout.Status` and `rollout.Verdict` of agent-ouija; the last one is any other value.
pub data RolloutStatus : Type 0 where
  idle running done interrupted error unlisted : RolloutStatus

pub data Verdict : Type 0 where
  idle running waiting done interrupted error unlisted : Verdict

-- `rollout.State`, by what the watcher reads of it.
pub record RolloutState : Type 0 where
  pub status : RolloutStatus
  pub cwd : Text

-- `rollout.Claim`: whether it needs evidence, and its verdict on some.
pub record Claim : Type 0 where
  pub needs_evidence : Bool
  pub reconcile : RolloutState → Verdict

-- A rollout that `discover.DiscoverRollouts` lists.
pub record Rollout : Type 0 where
  pub path : Text
  pub session_id : Text
  pub mod_time : ℕ

-- What one call sees of the world: the clock, the files that a process holds open, the path of a
-- file from the sessions' directory, the context's two ways to a session ("" for none), the names
-- in the session index ("" for none), and the functions of agent-ouija that it uses. `source_kind`
-- and `trailing_state` read a file, and are none when that fails; `no_evidence` is the zero value.
pub record World : Type 0 where
  pub now : ℕ
  pub open_files : ℕ → List Text
  pub relative : Text → Option Text
  pub resolve_session_by_pid : ℕ → Text
  pub resolve_session : Text → Text
  pub index_name : Text → Text
  pub rollouts : List Rollout
  pub session_id_of_path : Text → Text
  pub source_kind : Text → Option Text
  pub trailing_state : Text → Option RolloutState
  pub no_evidence : RolloutState
  pub claim_for : Text → Option Claim
  pub categorize : Text → ToolCategory

-- `a.threads[id] = state`.
abbrev pub keep_thread : Text → ThreadState → Adapter → Adapter
keep_thread id st a = record a { threads = update a.threads id (some st) }

-- `verdictWire`; "" is the empty word.
abbrev pub verdict_wire : Verdict → Status
verdict_wire Verdict.idle = Status.idle
verdict_wire Verdict.running = Status.running
verdict_wire Verdict.waiting = Status.waiting
verdict_wire Verdict.done = Status.done
verdict_wire Verdict.interrupted = Status.interrupted
verdict_wire Verdict.error = Status.error
verdict_wire Verdict.unlisted = Status.other []

-- `wireStatus`.
abbrev pub wire_status : RolloutStatus → Status
wire_status RolloutStatus.idle = Status.idle
wire_status RolloutStatus.running = Status.running
wire_status RolloutStatus.done = Status.done
wire_status RolloutStatus.interrupted = Status.interrupted
wire_status RolloutStatus.error = Status.error
wire_status RolloutStatus.unlisted = Status.other []

-- `emit`: the event, which counts as a call or not.
unfoldable pub emit : World → Text → ThreadState → Text → Bool → AgentEvent
emit w thread_id st session is_call =
    record (agent_event (codes "codex") session st.status w.now thread_id st.thread_name st.pid) {
      tool_description = st.last_tool_description;
      tool_verb = st.last_tool_verb;
      tool_invoked = is_call;
    }

-- `resolveStateSession`.
unfoldable pub resolve_state_session : World → ThreadState → Text → Text
resolve_state_session w st fallback_cwd =
    if st.routing_pid != 0
    then w.resolve_session_by_pid st.routing_pid
    else if st.project_dir != []
    then w.resolve_session st.project_dir
    else w.resolve_session fallback_cwd

-- A text up to its first line end.
abbrev head_line : List Text → Text
head_line [] = []
head_line (line ∷ lines) = line

-- `promptThreadName`.
unfoldable pub prompt_thread_name : Text → Text
unfolding sanitize_session_name split
prompt_thread_name prompt =
    let trimmed = trim is_space prompt in
    if trimmed == []
    then []
    else sanitize_session_name (trim is_space (head_line (split trimmed (codes "\n"))))

-- `resolveThreadNameAsync`: the state after it, and whether a lookup starts.
unfoldable pub start_lookup : ThreadState → ThreadState × Bool
start_lookup st =
    if st.name_lookup_in_flight
    then (st, false)
    else (record st { name_lookup_in_flight = true }, true)

-- `lookupThreadName`.
unfoldable pub lookup_thread_name : World → Text → Text
unfolding sanitize_session_name
lookup_thread_name w thread_id = sanitize_session_name (w.index_name thread_id)

-- The end of that lookup, for the thread's state with a serial number.
unfoldable pub name_found : World → Text → ℕ → Adapter → Adapter × Option AgentEvent
unfolding emit resolve_state_session lookup_thread_name
name_found w thread_id serial a = elim (a.threads thread_id) [
  | none ↦ (a, none)
  | some found ↦
      if found.serial != serial
      then (a, none)
      else (let name = lookup_thread_name w thread_id in
          let st : ThreadState = record found { name_lookup_in_flight = false } in
          if name == []
          then (keep_thread thread_id st a, none)
          else if st.thread_name == name
          then (keep_thread thread_id (record st { name_from_index = true }) a, none)
          else (let named : ThreadState = record st {
            name_from_index = true;
            thread_name = name;
          } in
              let session = resolve_state_session w named named.project_dir in
              (
                keep_thread thread_id named a,
                if session == [] then none else some (emit w thread_id named session false),
              )))
]
