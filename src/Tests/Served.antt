-- ===== src/Tests/Served.antt =====
-- Runs of apps/server-go/internal/server.
use tail_claude_mux.Tracker.Presence.Local.{PanePresence}
use tail_claude_mux.Server.Bindings.{
  bind_delegations_from_pane_scan, bind_sessions, bind_presences, bind_presence, bind_delegation,
}
use tail_claude_mux.Delegation.Records.{
  has_unbound, find_unbound_by_pane, find_last, list, bind, bind_record, write,
}
use tail_claude_mux.Delegation.Records.{read}
use tail_claude_mux.Server.Delivery.{taken, sent}
use tail_claude_mux.Server.Answers.{append_delegation_answer-once}
use tail_claude_mux.Server.Delivery.{run_turns-run_queue, undated, run_queue, run_turns, Turn}
use tail_claude_mux.ClaudeWatch.Registry.{Live}
use tail_claude_mux.ClaudeWatch.State.{agent_event}
use tail_claude_mux.Delegation.Uuid.{normalize_agent, valid_uuid, valid_from}
use tail_claude_mux.Delegation.Records.{decode_record, Files, Delegation, ok}
use tail_claude_mux.Delegation.Messages.{
  answer_for, find_answer, undelivered_from_delegate, stamped, validate_message, read_messages,
  Logs, Message,
}
use tail_claude_mux.Server.Mailbox.{
  answered_before, append_delegation_answer, answer_message, Answered, contains_ask,
}
use tail_claude_mux.Server.Waits.{saw, wait_loop, Wake, WaitReply}
use tail_claude_mux.Server.Logs.{
  derive_log_entries, entries_since, short_thread_id_suffix, agent_code,
}
use tail_claude_mux.Server.Prompt.{wait_loop-prompt, polls}
use tail_claude_mux.Server.Sessions.{resolve_session, related_dir}
use tail_claude_mux.Server.Routed.{resolve_session-Longest, Longest, Candidate}
use tail_claude_mux.Wire.{AgentEvent, Status}
use tail_claude_mux.Base.{
  put, List, has_prefix, text_eq, text_beq, codes, Text, find, Map, option_eq, nat_eq, arith, map,
  ◌∷◌, [], some, none, false, true, refl, ◌≡◌, ℕ,
}

abbrev a_row : AgentEvent
a_row =
    record (agent_event (codes "claude-code") (codes "work") Status.running 50 (codes "t1")
      (codes "fix") 12) { tool_description = codes "Running make"; tool_verb = codes "run" }

abbrev a_file : Text → ℕ → Live
a_file status at_ms = record {
  pid = 12;
  session_id = codes "t1";
  name = [];
  status = status;
  status_updated_at = at_ms;
  updated_at = at_ms;
  kind = codes "interactive";
  agent = [];
}

-- The first event of the thread names it.
named : (derive_log_entries a_row (λ id. record { thread = []; status = none })).1 ≡ (
    record {
      message = codes "fix";
      tone = codes "neutral";
      source = codes "cc t1";
      verb = [];
      ts = 0;
    }
    ∷ [])
unfolding derive_log_entries entries_since agent_code short_thread_id_suffix text_beq
named = refl

abbrev dirs : Map Text Text
dirs = (codes "/w", codes "all") ∷ (codes "/w/mux", codes "mux") ∷ (codes "/x", codes "other") ∷ []

resolve_session-Longest_example :
    (n : ℕ) × Candidate
      (codes "/w/mux/cmd")
      dirs
      (resolve_session (λ d. d) (codes "/w/mux/cmd") dirs)
      n
    × Longest (codes "/w/mux/cmd") dirs n
unfolding related_dir text_beq has_prefix find
resolve_session-Longest_example =
    resolve_session-Longest (codes "/w/mux/cmd") (λ d. d) dirs refl refl refl

abbrev report : Text → Message
report id = record {
  id = id;
  ts = 40;
  from = codes "delegate";
  kind = codes "report";
  text = codes "ok";
  reply_to = [];
  delivered_at = none;
}

abbrev a_delegation : Text
a_delegation = codes "01234567-89ab-4def-8123-456789abcdef"

abbrev two_reports : Logs
two_reports = (a_delegation, some (report (codes "a") ∷ report (codes "b") ∷ [])) ∷ []

-- An agent that runs at the deadline too.
wait_loop-prompt_example :
    (wait_loop (saw (some Status.running)) (polls (saw (some Status.idle) ∷ []) []) ≡ none)
    × (wait_loop (saw (some Status.waiting)) [] ≡ some (WaitReply.answered Status.waiting false))
    × (wait_loop
          (saw (some Status.running))
          (polls (saw (some Status.idle) ∷ []) (Wake.poll (saw (some Status.waiting)) ∷ []))
        ≡ some (WaitReply.answered Status.waiting false))
    × (wait_loop
          (saw (some Status.running))
          (polls (saw (some Status.idle) ∷ []) (Wake.deadline (saw (some Status.running)) ∷ []))
        ≡ some (WaitReply.answered Status.running true))
    × (wait_loop
          (saw (some Status.running))
          (polls (saw (some Status.idle) ∷ []) (Wake.cancelled ∷ []))
        ≡ some WaitReply.hung_up)
wait_loop-prompt_example =
    wait_loop-prompt (saw (some Status.running)) (saw (some Status.idle) ∷ [])
      (saw (some Status.waiting)) (saw (some Status.running)) [] refl refl

abbrev its_record : Delegation
its_record = record {
  delegation_id = a_delegation;
  agent = codes "codex";
  cwd = [];
  owner_session = [];
  session_name = codes "work";
  pane_id = codes "%1";
  window_id = [];
  created_at = 10;
  thread_id = [];
  bound_at = none;
}

abbrev its_files : Files
its_files = (a_delegation, some its_record) ∷ []

abbrev question : Message
question = record (report (codes "c")) { kind = codes "ask" }

abbrev some_turns : List Turn
some_turns = taken 60 ∷ sent 65 (codes "c") question ∷ taken 70 ∷ taken 80 ∷ []

run_turns-run_queue_example :
    let (outputs, logs') = run_turns a_delegation its_files some_turns two_reports in
    let (queues, queue) = run_queue some_turns (report (codes "a") ∷ report (codes "b") ∷ []) in
    (map (map undated) outputs ≡ queues) × (undelivered_from_delegate a_delegation logs' ≡ ok queue)
unfolding text_beq read_messages valid_uuid valid_from find read decode_record validate_message
    stamped normalize_agent
run_turns-run_queue_example =
    run_turns-run_queue a_delegation its_files its_record some_turns two_reports
      (report (codes "a") ∷ report (codes "b") ∷ []) refl refl (refl, (refl, (refl, tt)))

abbrev asked_logs : Logs
asked_logs = (a_delegation, some (question ∷ [])) ∷ []

-- A report comes and is handed out before the second answer.
abbrev later_turns : List Turn
later_turns = sent 92 (codes "e") (report (codes "e")) ∷ taken 93 ∷ []

append_delegation_answer-once_example :
    let answer = stamped 90 (codes "d") (answer_message (codes "this") (codes "c")) in
    let (result, logs') =
      append_delegation_answer true 90
        (some (codes "d"))
        a_delegation
        (codes "c")
        (codes "this")
        its_files
        asked_logs in
    let later = (run_turns a_delegation its_files later_turns logs').1 in
    (result ≡ Answered.stored answer)
    × (answer_for a_delegation (codes "c") later ≡ ok (some answer))
    × (append_delegation_answer true 95 none a_delegation (codes "c") (codes "that") its_files later
        ≡ (Answered.refused answered_before, later))
unfolding text_beq read_messages valid_uuid valid_from find read decode_record validate_message
    normalize_agent contains_ask find_answer answer_message
append_delegation_answer-once_example =
    append_delegation_answer-once a_delegation (codes "c") (codes "this") (codes "that") (codes "d")
      90 95 none true (question ∷ []) later_turns asked_logs its_files its_files its_record
      (ground arith) refl refl refl refl refl

-- A scan binds the delegation that waits at the pane.
abbrev a_pane : PanePresence
a_pane = record {
  agent = codes "codex";
  pane_id = codes "%1";
  window_index = none;
  pane_index = none;
  pane_title = [];
  thread_id = codes "t9";
  thread_name = [];
  pid = 12;
}

bound_by_scan :
    (bind_delegations_from_pane_scan true 50
      ((codes "work", a_pane ∷ []) ∷ [])
      (record { files = its_files; bind_log = λ id. false })).files
    ≡ ((a_delegation, some (record its_record { thread_id = codes "t9"; bound_at = some 50 })) ∷ [])
unfolding bind_delegations_from_pane_scan has_unbound bind_sessions bind_presences bind_presence
    find_unbound_by_pane bind_delegation bind bind_record read write list find_last decode_record
    normalize_agent valid_uuid valid_from find put text_beq
bound_by_scan = refl
