-- ===== src/Server/Waits.antt =====
-- `resolveTrackedEvent` of apps/server-go/internal/server/agentpane.go, and `GET /wait` of wait.go:
-- the two loops that wait for an agent. What a loop sees is the state at its start, and then, each
-- time that it wakes, what woke it and the state by then.
use tail_claude_mux.Tracker.Queries.Agents.{get_agents}
use tail_claude_mux.Tracker.Queries.Best.{get_state}
use tail_claude_mux.Tracker.Queries.Find.{get_event}
use tail_claude_mux.Tracker.State.{Tracker}
use tail_claude_mux.Delegation.Records.{StoreError}
use tail_claude_mux.Delegation.Messages.{Message}
use tail_claude_mux.Wire.{status_eq, AgentEvent, is_terminal_status, is_waiting, Status}
use tail_claude_mux.Base.{
  ◌∷◌, text_eq, codes, Text, length, option_eq, nat_eq, ◌==◌, ◌!=◌, if◌then◌else◌, ltb, [], List,
  some, none, Option, ◌||◌, ◌&&◌, false, true, Bool,
}

-- `agentResolutionError`, by its kind.
pub data ResolutionError : Type 0 where
  agent_missing identifies_different several_agents : ResolutionError
  delegation_missing other_session other_pane other_thread unreadable : ResolutionError

pub data Resolved : Type 0 where
  event : Option AgentEvent → Resolved
  failure : ResolutionError → Resolved

abbrev same_agent : AgentEvent → AgentEvent → Bool
same_agent a b = a.agent == b.agent && a.thread_id == b.thread_id && a.pane_id == b.pane_id

abbrev agree_on : Option AgentEvent → Option AgentEvent → Resolved
agree_on none pane = failure agent_missing
agree_on (some thread) none = failure agent_missing
agree_on (some thread) (some pane) =
    if same_agent thread pane then event (some thread) else failure identifies_different

abbrev present : Option AgentEvent → Resolved
present none = failure agent_missing
present (some ev) = event (some ev)

-- `resolveTrackedEvent`.
unfoldable pub resolve_tracked_event : Text → Text → Text → Tracker → Resolved
unfolding get_event get_state get_agents
resolve_tracked_event session thread_id pane_id t =
    if thread_id != [] && pane_id != []
    then agree_on (get_event session [] thread_id [] t) (get_event session [] [] pane_id t)
    else if thread_id != [] || pane_id != []
    then present (get_event session [] thread_id pane_id t)
    else if ltb 1 (length (get_agents session t))
    then failure several_agents
    else event (get_state session t)

-- The status of a wait: none is "", an agent that is not there.
pub data Look : Type 0 where
  saw : Option Status → Look
  cannot : ResolutionError → Look

abbrev pub status_seen : Option AgentEvent → Option Status
status_seen none = none
status_seen (some ev) = if ev.status == Status.other [] then none else some ev.status

-- `waitStatus`.
unfoldable pub wait_status : Text → Text → Text → Tracker → Look
unfolding resolve_tracked_event
wait_status session thread_id pane_id t = elim (resolve_tracked_event session thread_id pane_id t) [
  | event e ↦ saw (status_seen e)
  | failure e ↦ cannot e
]

-- `StatusGone`, and the status of a message.
abbrev pub gone : Status
gone = Status.other (codes "gone")

-- A response, with the session and the time that it took left out.
pub data WaitReply : Type 0 where
  answered : Status → Bool → WaitReply
  handed : List Message → WaitReply
  refused : ResolutionError → WaitReply
  store_error : StoreError → WaitReply
  hung_up : WaitReply

-- What wakes a loop, with what it looks at next.
pub data Wake (S : Type 0) : Type 0 where
  cancelled : Wake S
  deadline : S → Wake S
  poll : S → Wake S

abbrev pub is_settled : Status → Bool
is_settled s = is_terminal_status s || is_waiting s

abbrev pub or_gone : Option Status → Status
or_gone none = gone
or_gone (some s) = s

-- The answer at a look, if there is one.
unfoldable pub settled : Look → Option WaitReply
unfolding is_terminal_status
settled (cannot e) = some (refused e)
settled (saw none) = some (answered gone false)
settled (saw (some s)) = if is_settled s then some (answered s false) else none

unfoldable pub timed_out : Look → WaitReply
timed_out (cannot e) = refused e
timed_out (saw status) = answered (or_gone status) true

-- The loop of `handleWait`; none while it waits.
unfoldable pub wait_loop : Look → List (Wake Look) → Option WaitReply
unfolding settled timed_out
wait_loop look [] = settled look
wait_loop look (wake ∷ wakes) = elim (settled look) [
  | some reply ↦ some reply
  | none ↦ elim wake [
    | cancelled ↦ some hung_up
    | deadline l ↦ some (timed_out l)
    | poll l ↦ wait_loop l wakes
  ]
]

-- `handleWait` past its parameters: an agent that is not there at first is no session.
unfoldable pub handle_wait : Look → Look → List (Wake Look) → Option WaitReply
unfolding wait_loop
handle_wait (cannot e) look wakes = some (refused e)
handle_wait (saw none) look wakes = some (refused agent_missing)
handle_wait (saw (some s)) look wakes = wait_loop look wakes
