-- ===== src/Tests/Codex.antt =====
-- Runs of apps/server-go/internal/codexwatch/codexwatch.go.
use tail_claude_mux.ClaudeWatch.Words.{segment_from}
use tail_claude_mux.ClaudeWatch.Hooks.{snapshot_pid}
use tail_claude_mux.TextUtil.Strip.{sanitize_session_name}
use tail_claude_mux.ProcWalk.Snapshot.{
  parse_process_snapshot, parse_lines, parse_line, atoi, digits_value, take_run,
}
use tail_claude_mux.Wire.Hook.{
  opt_positive_int, opt_plain_object, opt_bounded_string, payload_of, HookPayload,
}
use tail_claude_mux.ClaudeWatch.Verb.{bash}
use tail_claude_mux.ClaudeWatch.State.{agent_event}
use tail_claude_mux.ProcWalk.Walks.{resolve_agent_session_pid, visit_agent, to_parent, walk}
use tail_claude_mux.CodexWatch.Owned.{is_owned}
use tail_claude_mux.CodexWatch.Reported.{handle_hook-owner, Reports}
use tail_claude_mux.CodexWatch.Owners.{looked_up, hooked, started, run-owned, run}
use tail_claude_mux.CodexWatch.Picked.{rollout_path_for_pid-preferred, preferred}
use tail_claude_mux.CodexWatch.Rollouts.{
  rollout_path_for_pid, pick_rollout, is_rollout_of, is_primary_rollout, is_rollout_path,
}
use tail_claude_mux.Wire.{AgentEvent, Status}
use tail_claude_mux.Base.{
  split, split_from, put, find, has_prefix, text_eq, text_beq, codes, keep_if, drop, option_eq,
  nat_eq, ◌==◌, if◌then◌else◌, ◌∷◌, [], some, none, false, true, ◌≢◌, refl, ◌≡◌,
}
use tail_claude_mux.CodexWatch.State.{
  prompt_thread_name, resolve_state_session, emit, Verdict, RolloutStatus, World, Adapter,
  new_adapter,
}
use tail_claude_mux.CodexWatch.Hooks.{
  handle_owned, claimed_status, routed, note_prompt, note_tool, finish, after_stop, owner_checked,
  check_ownership, update_routing, thread_of, is_codex_command, handle_hook,
}

-- Process 12 holds two rollouts of the thread open, a subagent's and the command line's own.
abbrev two_rollouts : World
two_rollouts = record {
  now = 100;
  open_files = λ pid. codes "/s/a.txt" ∷ codes "/s/sub.jsonl" ∷ codes "/s/cli.jsonl" ∷ [];
  relative = λ path. some (drop 3 path);
  resolve_session_by_pid = λ pid. codes "work";
  resolve_session = λ dir. [];
  index_name = λ id. [];
  rollouts = [];
  session_id_of_path = λ path. codes "t1";
  source_kind = λ path. if path == codes "/s/cli.jsonl" then some (codes "cli") else none;
  trailing_state = λ path. none;
  no_evidence = record { status = RolloutStatus.unlisted; cwd = [] };
  claim_for = λ name. some (record { needs_evidence = false; reconcile = λ st. Verdict.running });
  categorize = λ name. bash;
}

rollout_path_for_pid-preferred_example :
    rollout_path_for_pid two_rollouts 12 (codes "t1")
    ≡ preferred
        (is_primary_rollout two_rollouts)
        (keep_if (is_rollout_of two_rollouts (codes "t1")) (two_rollouts.open_files 12))
rollout_path_for_pid-preferred_example = rollout_path_for_pid-preferred two_rollouts 12 (codes "t1")

own_rollout : rollout_path_for_pid two_rollouts 12 (codes "t1") ≡ codes "/s/cli.jsonl"
unfolding rollout_path_for_pid pick_rollout is_rollout_of is_rollout_path is_primary_rollout
    text_beq has_prefix
own_rollout = refl

abbrev turn : HookPayload
turn = record (payload_of (λ _. none) (codes "UserPromptSubmit") (codes "t1") (codes "/w")) {
  agent = codes "codex";
  pid = 12;
  process_snapshot = codes "12 7 codex";
}

run-owned_example :
    is_owned (
      (run
          (started two_rollouts
            ∷ hooked two_rollouts turn
            ∷ looked_up two_rollouts (codes "t1") 0
            ∷ [])
          new_adapter).threads
        (codes "t1"))
    ≡ true
run-owned_example =
    run-owned
      (started two_rollouts ∷ hooked two_rollouts turn ∷ looked_up two_rollouts (codes "t1") 0 ∷ [])
      (codes "t1")

abbrev watcher : Adapter
watcher = record new_adapter { started = true }

abbrev its_event : AgentEvent
its_event = agent_event (codes "codex") (codes "work") Status.running 100 (codes "t1") [] 12

handle_hook-owner_example :
    (its_event.session ≢ []) × Reports turn (handle_hook two_rollouts turn watcher) its_event
unfolding text_beq new_adapter handle_hook thread_of owner_checked update_routing check_ownership
    snapshot_pid is_codex_command segment_from has_prefix resolve_agent_session_pid walk visit_agent
    to_parent parse_process_snapshot parse_lines parse_line take_run atoi digits_value split
    split_from put find rollout_path_for_pid pick_rollout is_rollout_of is_rollout_path
    is_primary_rollout handle_owned resolve_state_session routed claimed_status note_tool
    note_prompt prompt_thread_name finish after_stop emit opt_bounded_string opt_positive_int
    opt_plain_object sanitize_session_name
handle_hook-owner_example = handle_hook-owner two_rollouts turn watcher its_event refl refl
