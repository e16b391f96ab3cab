-- ===== src/Tests/Agents.antt =====
-- Runs of apps/server-go/internal/agentmatch/agentmatch.go and
-- apps/server-go/internal/panescan/panescan.go.
use tail_claude_mux.Tracker.Presence.Local.{PanePresence}
use tail_claude_mux.AgentMatch.CommFound.{comm_matches-StandsAt, StandsAt}
use tail_claude_mux.AgentMatch.Comm.{comm_matches, comm_loop, ends_word, starts_segment, byte_at}
use tail_claude_mux.AgentMatch.Gate.{scan_pane-gate, Listed}
use tail_claude_mux.AgentMatch.Tree.{
  scan_pane, Pane, match_tree, match_below, first_child, pid_matches_agent, ProcessTree,
}
use tail_claude_mux.AgentMatch.Command.{agent_from_command, agent_from_tokens}
use tail_claude_mux.Base.{
  index_text, fields_func, has_prefix, text_beq, codes, ◌==◌, if◌then◌else◌, ◌∷◌, [], some, false,
  true, ◌↔◌, refl, ◌≡◌, ℕ, nat_eq, text_eq, option_eq,
}

comm_matches-StandsAt_example :
    (comm_matches (codes "/opt/claude-lib/claude") (codes "claude") ≡ true)
    ↔ ((i : ℕ) × StandsAt (codes "/opt/claude-lib/claude") (codes "claude") i)
comm_matches-StandsAt_example =
    comm_matches-StandsAt (codes "/opt/claude-lib/claude") (codes "claude")

-- A shell whose child is an agent.
abbrev shell : ProcessTree
shell = record {
  children_of = λ pid. if pid == 10 then 11 ∷ [] else [];
  comm_of = λ pid. if pid == 10 then codes "zsh" else codes "codex";
  cmdline_of = λ pid. [];
}

abbrev pane : Pane
pane = record {
  session = codes "work";
  id = codes "%3";
  pid = 10;
  sidebar = false;
  companion = false;
  window_index = some 0;
  pane_index = some 0;
  title = [];
}

abbrev codex_there : PanePresence
codex_there = record {
  agent = codes "codex";
  pane_id = codes "%3";
  pid = 11;
  window_index = some 0;
  pane_index = some 0;
  pane_title = [];
  thread_id = [];
  thread_name = [];
}

scan_pane-gate_example : Listed shell pane codex_there
unfolding scan_pane match_tree match_below first_child pid_matches_agent comm_matches comm_loop
    index_text has_prefix starts_segment ends_word byte_at agent_from_command agent_from_tokens
    fields_func text_beq
scan_pane-gate_example = scan_pane-gate shell pane codex_there refl
