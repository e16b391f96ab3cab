-- ===== src/ClaudeWatch/State.antt =====
-- The state of the Claude Code watcher in apps/server-go/internal/ccwatch/ccwatch.go, and what it
-- is given. A pointer to a thread's state is its serial number: a thread that is forgotten and seen
-- again has another.
use tail_claude_mux.ClaudeWatch.Verb.{ToolCategory}
use tail_claude_mux.ClaudeWatch.Registry.{Live}
use tail_claude_mux.ClaudeWatch.Thinking.{new_thinking_blocks, ThinkingCursor}
use tail_claude_mux.ClaudeWatch.Transcript.{Entry}
use tail_claude_mux.Wire.{AgentEvent, Liveness, Status}
use tail_claude_mux.Base.{
  text_eq, codes, Text, update, option_eq, nat_eq, if◌then◌else◌, [], List, some, none, Option,
  false, true, Bool, ℕ,
}

pub record ThreadState : Type 0 where
  pub serial : ℕ
  pub status : Status
  pub thread_name : Text
  pub project_dir : Text
  pub name_resolved : Bool
  pub pid : ℕ
  pub last_tool_description : Text
  pub last_tool_verb : Text
  pub subagent : Text
  pub thinking : ThinkingCursor
  pub non_tmux_logged : Bool

-- `started` is that a context is set.
pub record Adapter : Type 0 where
  pub threads : Text → Option ThreadState
  pub next_serial : ℕ
  pub started : Bool

-- `New`.
unfoldable pub new_adapter : Adapter
new_adapter = record { threads = λ _. none; next_serial = 0; started = false }

-- What one call sees of the world: the clock, the session files by pid and in the order of the
-- registry, the context's two ways to a session ("" for none), the transcripts, and the two
-- functions of agent-ouija that it uses.
pub record World : Type 0 where
  pub now : ℕ
  pub session_file : ℕ → Option Live
  pub registry : List Live
  pub resolve_session_by_pid : ℕ → Text
  pub resolve_session : Text → Text
  pub files : Text → Option Text
  pub decode : Text → Option Entry
  pub categorize : Text → ToolCategory

-- `a.threads[id] = state` and `delete(a.threads, id)`.
abbrev pub keep_thread : Text → ThreadState → Adapter → Adapter
keep_thread id st a = record a { threads = update a.threads id (some st) }

abbrev pub drop_thread : Text → Adapter → Adapter
drop_thread id a = record a { threads = update a.threads id none }

-- `emitKind`.
pub data EmitKind : Type 0 where
  changed invoked ended : EmitKind

abbrev pub is_ended : EmitKind → Bool
is_ended ended = true
is_ended _ = false

abbrev pub is_invoked : EmitKind → Bool
is_invoked invoked = true
is_invoked _ = false

abbrev pub agent_event : Text → Text → Status → ℕ → Text → Text → ℕ → AgentEvent
agent_event agent session status ts thread_id thread_name pid = record {
  agent = agent;
  session = session;
  status = status;
  ts = ts;
  first_seen_ts = 0;
  thread_id = thread_id;
  thread_name = thread_name;
  unseen = false;
  pane_id = [];
  window_index = none;
  pane_index = none;
  liveness = Liveness.unset;
  pid = pid;
  tool_description = [];
  tool_verb = [];
  tool_invoked = false;
  thinking_blocks = 0;
  pane_title = [];
  subagent = [];
  ended = false;
}

-- The count of `emit`, with the cursor after it.
unfoldable pub count_thinking : World → EmitKind → ThinkingCursor → ThinkingCursor × ℕ
unfolding new_thinking_blocks
count_thinking w kind c = if is_ended kind then (c, 0) else new_thinking_blocks w.files w.decode c

-- `emit`: the state after it, and the event.
unfoldable pub emit : World → Text → ThreadState → Text → EmitKind → ThreadState × AgentEvent
unfolding count_thinking
emit w thread_id st session kind =
    let (cursor, thinking) = count_thinking w kind st.thinking in
    (
      record st { thinking = cursor },
      record (agent_event (codes "claude-code") session st.status w.now thread_id st.thread_name
          st.pid) {
            tool_description = st.last_tool_description;
            tool_verb = st.last_tool_verb;
            tool_invoked = is_invoked kind;
            thinking_blocks = thinking;
            subagent = st.subagent;
            ended = is_ended kind;
          },
    )
