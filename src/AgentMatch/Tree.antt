-- ===== src/AgentMatch/Tree.antt =====
-- apps/server-go/internal/panescan/panescan.go: which process below a pane is an agent. The process
-- table that `ps` gives is three functions; a pid without an entry has no children and empty texts.
use tail_claude_mux.Tracker.Presence.Local.{PanePresence}
use tail_claude_mux.AgentMatch.Comm.{comm_matches}
use tail_claude_mux.AgentMatch.Command.{agent_from_command, agent_claude_code}
use tail_claude_mux.Base.{
  codes, Text, any, put, find, Map, option_eq, ◌!=◌, ◌==◌, if◌then◌else◌, ◌++◌, ◌∷◌, [], List, some,
  none, Option, ◌||◌, ◌&&◌, Bool, ap, suc, zero, ℕ, nat_eq, text_eq,
}

-- `AgentPattern`.
pub record AgentPattern : Type 0 where
  pub name : Text
  pub patterns : List Text

abbrev pub agent_comm_patterns : List AgentPattern
agent_comm_patterns =
    record { name = codes "amp"; patterns = codes "amp" ∷ [] }
    ∷ record { name = codes "claude-code"; patterns = codes "claude" ∷ [] }
    ∷ record { name = codes "codex"; patterns = codes "codex" ∷ [] }
    ∷ record { name = codes "opencode"; patterns = codes "opencode" ∷ [] }
    ∷ []

pub record ProcessTree : Type 0 where
  pub children_of : ℕ → List ℕ
  pub comm_of : ℕ → Text
  pub cmdline_of : ℕ → Text

-- The levels of children that a walk goes down: depths 0 to `maxTreeDepth`, which is 2.
abbrev pub levels : ℕ
levels = 3

unfoldable pub pid_matches_agent : ProcessTree → AgentPattern → ℕ → Bool
unfolding comm_matches agent_from_command
pid_matches_agent tree ap pid =
    let comm = tree.comm_of pid in
    any (λ pat. comm != [] && comm_matches comm pat) ap.patterns
    || (ap.name == agent_claude_code && agent_from_command comm (tree.cmdline_of pid) == ap.name)

-- The first pid, in the order of the walk; a deeper match of 0 counts as none.
unfoldable pub first_child : (ℕ → Bool) → (ℕ → ℕ) → List ℕ → ℕ
first_child matches deeper [] = 0
first_child matches deeper (child ∷ children) =
    let rest = first_child matches deeper children in
    if matches child then child else if deeper child != 0 then deeper child else rest

unfoldable pub match_below : (ℕ → Bool) → (ℕ → List ℕ) → ℕ → ℕ → ℕ
unfolding first_child
match_below matches children_of zero pid = 0
match_below matches children_of (suc n) pid =
    first_child matches (match_below matches children_of n) (children_of pid)

-- `matchTree` from depth 0.
unfoldable pub match_tree : ProcessTree → AgentPattern → ℕ → ℕ
unfolding pid_matches_agent match_below
match_tree tree ap pid =
    if pid_matches_agent tree ap pid
    then pid
    else match_below (pid_matches_agent tree ap) tree.children_of levels pid

unfoldable pub collect_children : (ℕ → Bool) → (ℕ → List ℕ) → List ℕ → List ℕ
collect_children matches deeper [] = []
collect_children matches deeper (child ∷ children) =
    let rest = deeper child ++ collect_children matches deeper children in
    if matches child then child ∷ rest else rest

-- `collectAgentPids`.
unfoldable pub collect_agent_pids : (ℕ → Bool) → (ℕ → List ℕ) → ℕ → ℕ → List ℕ
unfolding collect_children
collect_agent_pids matches children_of zero pid = []
collect_agent_pids matches children_of (suc n) pid =
    collect_children matches (collect_agent_pids matches children_of n) (children_of pid)

-- What `AgentPidsByPane` has for a pane.
unfoldable pub agent_pids : ProcessTree → AgentPattern → ℕ → List ℕ
unfolding pid_matches_agent collect_agent_pids
agent_pids tree ap pid =
    let below = collect_agent_pids (pid_matches_agent tree ap) tree.children_of levels pid in
    if pid_matches_agent tree ap pid then pid ∷ below else below

unfoldable pub pattern_of : Text → List AgentPattern → Option AgentPattern
pattern_of name [] = none
pattern_of name (ap ∷ aps) =
    let rest = pattern_of name aps in if ap.name == name then some ap else rest

-- `KnownAgent`.
unfoldable known_agent : Text → Bool
known_agent name = any (λ ap. ap.name == name) agent_comm_patterns

-- `tmux.Pane`, with the fields that a scan reads; an index is absent when it is negative.
pub record Pane : Type 0 where
  pub session : Text
  pub id : Text
  pub pid : ℕ
  pub sidebar : Bool
  pub companion : Bool
  pub window_index : Option ℕ
  pub pane_index : Option ℕ
  pub title : Text

abbrev managed : Pane → Bool
managed p = p.sidebar || p.companion

-- `AgentPidsByPane`: no entry at all for an agent that is not known.
unfoldable pub put_pids :
    ProcessTree → AgentPattern → List Pane → Map Text (List ℕ) → Map Text (List ℕ)
unfolding agent_pids
put_pids tree ap [] out = out
put_pids tree ap (p ∷ panes) out = put_pids tree ap panes (put p.id (agent_pids tree ap p.pid) out)

unfoldable pub agent_pids_by_pane : ProcessTree → List Pane → Text → Map Text (List ℕ)
unfolding pattern_of put_pids
agent_pids_by_pane tree panes agent_name = elim (pattern_of agent_name agent_comm_patterns) [
  | none ↦ []
  | some ap ↦ put_pids tree ap panes []
]

-- The first agent that a pane's processes match.
unfoldable pub scan_pane : ProcessTree → Pane → List AgentPattern → Option PanePresence
unfolding match_tree
scan_pane tree p [] = none
scan_pane tree p (ap ∷ aps) =
    let rest = scan_pane tree p aps in
    let agent_pid = match_tree tree ap p.pid in
    if agent_pid == 0
    then rest
    else some (record {
      agent = ap.name;
      pane_id = p.id;
      pid = agent_pid;
      window_index = p.window_index;
      pane_index = p.pane_index;
      pane_title = p.title;
      thread_id = [];
      thread_name = [];
    })

abbrev Scanned : Type 0
Scanned = Map Text (List PanePresence)

unfoldable pub at_session : Text → Scanned → List PanePresence
at_session s scanned = elim (find s scanned) [ none ↦ [] | some pps ↦ pps ]

abbrev stash_session : Text
stash_session = codes "_tcm_stash"

-- `Scan`.
unfoldable pub scan : ProcessTree → List Pane → Scanned → Scanned
unfolding scan_pane at_session
scan tree [] scanned = scanned
scan tree (p ∷ panes) scanned =
    let found =
      if managed p || p.session == stash_session
      then none
      else scan_pane tree p agent_comm_patterns in
    scan tree panes (elim found [
      | none ↦ scanned
      | some pp ↦ put p.session (at_session p.session scanned ++ (pp ∷ [])) scanned
    ])
