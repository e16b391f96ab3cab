-- ===== src/Server/Handoff.antt =====
-- `GET /wait` for a delegation, in apps/server-go/internal/server/wait.go. What a look at the world
-- finds is its message log, and the delegation's state by then.
use tail_claude_mux.Tracker.State.{Tracker}
use tail_claude_mux.Delegation.Records.{
  ok, failed, not_found, read, Files, Delegation, Result, StoreError,
}
use tail_claude_mux.Delegation.Messages.{Logs}
use tail_claude_mux.Server.Mailbox.{take_undelivered}
use tail_claude_mux.Server.Waits.{
  poll, deadline, cancelled, hung_up, store_error, refused, handed, answered, failure, event,
  unreadable, other_thread, other_pane, other_session, delegation_missing, several_agents,
  identifies_different, agent_missing, or_gone, is_settled, Wake, WaitReply, gone, status_seen,
  resolve_tracked_event, ResolutionError,
}
use tail_claude_mux.Wire.{AgentEvent, is_terminal_status, Status}
use tail_claude_mux.Base.{
  text_eq, Text, is_empty, option_eq, nat_eq, ◌==◌, ◌!=◌, if◌then◌else◌, ◌∷◌, [], List, some, none,
  Option, ◌&&◌, false, true, Bool, ℕ,
}

-- `delegationWaitState`.
pub record DelegationState : Type 0 where
  pub session : Text
  pub status : Option Status
  pub bound : Bool

pub data StateLook : Type 0 where
  state : DelegationState → StateLook
  unresolved : ResolutionError → StateLook

-- The state for an agent that the tracker has, or has not.
abbrev of_event : DelegationState → Option AgentEvent → DelegationState
of_event st ev = record st { status = status_seen ev }

-- A record that no thread is bound to yet, by its pane.
unfoldable by_pane : Text → Delegation → DelegationState → Tracker → StateLook
unfolding resolve_tracked_event
by_pane thread_id r st t = elim (resolve_tracked_event r.session_name [] r.pane_id t) [
  | failure e ↦ elim e [
    | agent_missing ↦ state st
    | identifies_different ↦ unresolved identifies_different
    | several_agents ↦ unresolved several_agents
    | delegation_missing ↦ unresolved delegation_missing
    | other_session ↦ unresolved other_session
    | other_pane ↦ unresolved other_pane
    | other_thread ↦ unresolved other_thread
    | unreadable ↦ unresolved unreadable
  ]
  | event e ↦ elim e [
    | none ↦ state st
    | some ev ↦
        if thread_id != [] && ev.thread_id != thread_id
        then unresolved other_thread
        else state (of_event st (some ev))
  ]
]

-- The status that the agent's files on disk give, where they are found: `populateDiskResult`.
abbrev Disk : Type 0
Disk = Delegation → Result (Option Status)

unfoldable by_disk : Disk → Delegation → DelegationState → StateLook
by_disk disk r st = elim (disk r) [
  | failed e ↦ unresolved unreadable
  | ok found ↦ elim found [ none ↦ state st | some s ↦ state (record st { status = some s }) ]
]

-- A bound record: its thread's row, and its files where there is none.
unfoldable by_thread : Disk → Delegation → DelegationState → Tracker → StateLook
unfolding resolve_tracked_event by_disk
by_thread disk r st t = elim (resolve_tracked_event r.session_name r.thread_id [] t) [
  | event e ↦ elim e [ some ev ↦ state (of_event st (some ev)) | none ↦ by_disk disk r st ]
  | failure e ↦ elim e [
    | agent_missing ↦ by_disk disk r st
    | identifies_different ↦ unresolved identifies_different
    | several_agents ↦ unresolved several_agents
    | delegation_missing ↦ unresolved delegation_missing
    | other_session ↦ unresolved other_session
    | other_pane ↦ unresolved other_pane
    | other_thread ↦ unresolved other_thread
    | unreadable ↦ unresolved unreadable
  ]
]

unfoldable record_state : Disk → Text → Text → Text → Delegation → Tracker → StateLook
unfolding by_pane by_thread
record_state disk session thread_id pane_id r t =
    let st : DelegationState = record {
      session = r.session_name;
      status = none;
      bound = r.thread_id != [];
    } in
    if session != [] && session != r.session_name
    then unresolved other_session
    else if pane_id != [] && pane_id != r.pane_id
    then unresolved other_pane
    else if r.thread_id == []
    then by_pane thread_id r st t
    else if thread_id != [] && thread_id != r.thread_id
    then unresolved other_thread
    else by_thread disk r st t

abbrev is_not_found : StoreError → Bool
is_not_found not_found = true
is_not_found _ = false

-- `resolveDelegationWait`, with the store if there is one.
unfoldable pub resolve_delegation_wait :
    Disk → Text → Text → Text → Text → Option Files → Tracker → StateLook
unfolding record_state read
resolve_delegation_wait disk id session thread_id pane_id none t = unresolved delegation_missing
resolve_delegation_wait disk id session thread_id pane_id (some files) t = elim (read id files) [
  | failed e ↦ unresolved (if is_not_found e then delegation_missing else unreadable)
  | ok r ↦ record_state disk session thread_id pane_id r t
]

-- What one round of the loop sees.
pub record Round : Type 0 where
  pub logs : Logs
  pub look : StateLook

-- The answer of the state, if there is one.
unfoldable pub state_settled : StateLook → Option WaitReply
unfolding is_terminal_status
state_settled (unresolved e) = some (refused e)
state_settled (state st) = elim st.status [
  | none ↦ if st.bound then some (answered gone false) else none
  | some s ↦ if is_settled s then some (answered s false) else none
]

unfoldable pub state_timed_out : StateLook → WaitReply
state_timed_out (unresolved e) = refused e
state_timed_out (state st) = answered (or_gone st.status) true

-- The messages come before the state: what a round answers, with the log that it leaves.
unfoldable pub round_messages : Bool → ℕ → Text → Round → Option WaitReply × Logs
round_messages writable now id round =
    let (result, logs) = take_undelivered writable now id round.logs in
    elim result [
      | failed e ↦ (some (store_error e), logs)
      | ok messages ↦ if is_empty messages then (none, logs) else (some (handed messages), logs)
    ]

unfoldable pub round_reply : Bool → ℕ → Text → Round → Option WaitReply × Logs
unfolding round_messages state_settled
round_reply writable now id round =
    let (reply, logs) = round_messages writable now id round in
    elim reply [ some r ↦ (some r, logs) | none ↦ (state_settled round.look, logs) ]

unfoldable pub round_deadline : Bool → ℕ → Text → Round → Option WaitReply × Logs
unfolding round_messages state_timed_out
round_deadline writable now id round =
    let (reply, logs) = round_messages writable now id round in
    elim reply [ some r ↦ (some r, logs) | none ↦ (some (state_timed_out round.look), logs) ]

-- The loop of `handleDelegationWait`: its answer, none while it waits, and the log at its last look.
unfoldable pub delegation_loop :
    Bool → ℕ → Text → Round → List (Wake Round) → Option WaitReply × Logs
unfolding round_reply round_deadline
delegation_loop writable now id round [] = round_reply writable now id round
delegation_loop writable now id round (wake ∷ wakes) =
    let (reply, logs) = round_reply writable now id round in
    elim reply [
      | some r ↦ (some r, logs)
      | none ↦ elim wake [
        | cancelled ↦ (some hung_up, logs)
        | deadline next ↦ round_deadline writable now id next
        | poll next ↦ delegation_loop writable now id next wakes
      ]
    ]
