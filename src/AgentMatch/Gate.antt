-- ===== src/AgentMatch/Gate.antt =====
-- The scan and the kill gate's listing of apps/server-go/internal/panescan/panescan.go.
use tail_claude_mux.Tracker.Presence.Local.{PanePresence}
use tail_claude_mux.AgentMatch.Tree.{
  scan_pane, agent_pids_by_pane, put_pids, Pane, pattern_of, agent_pids, collect_agent_pids,
  match_tree, match_below, pid_matches_agent, levels, ProcessTree, agent_comm_patterns,
  AgentPattern, collect_children, first_child,
}
use tail_claude_mux.Base.{
  text_beq, any-append, find-put, find, subst, arith, some, ◌∙◌, ap, sym, suc, zero, any, option_eq,
  ==_refl, ◌==◌, Bool-cases, ◌∷◌, [], List, true, Bool, inr, inl, ◌≢◌, refl, ◌≡◌, ℕ, nat_eq,
  text_eq,
}

abbrev has_pid : List ℕ → ℕ → Bool
has_pid pids n = any (λ m. m == n) pids

first_child-collected :
    (matches : ℕ → Bool) (deeper : ℕ → ℕ) (all_deeper : ℕ → List ℕ) (children : List ℕ)
    → ((child : ℕ) → deeper child ≢ 0 → has_pid (all_deeper child) (deeper child) ≡ true)
    → first_child matches deeper children ≢ 0
    → has_pid (collect_children matches all_deeper children) (first_child matches deeper children)
      ≡ true
unfolding first_child collect_children
first_child-collected matches deeper all_deeper [] h g = absurd (g refl)
first_child-collected matches deeper all_deeper (c ∷ cs) h g = elim (Bool-cases (matches c)) [
  | inl m ↦ rw m (rw (==_refl c) refl)
  | inr m ↦ elim (Bool-cases (deeper c == 0)) [
    | inl z ↦
        rw (m, z)
          (let g' : first_child matches deeper cs ≢ 0 = λ q. g (rw (first_child, m, z) q) in
            ground (
              arith,
              any-append (λ k. k == first_child matches deeper cs) (all_deeper c)
                  (collect_children matches all_deeper cs),
              first_child-collected matches deeper all_deeper cs h g',
            ))
    | inr z ↦
        rw (m, z)
          (let n : deeper c ≢ 0 = λ q. absurd (ground (arith, z, q)) in
            ground (
              arith,
              any-append (λ k. k == deeper c) (all_deeper c)
                  (collect_children matches all_deeper cs),
              h c n,
            ))
  ]
]

match_below-collected :
    (matches : ℕ → Bool) (children_of : ℕ → List ℕ) (n pid : ℕ)
    → match_below matches children_of n pid ≢ 0
    → has_pid (collect_agent_pids matches children_of n pid) (match_below matches children_of n pid)
      ≡ true
unfolding match_below collect_agent_pids
match_below-collected matches children_of zero pid g = absurd (g refl)
match_below-collected matches children_of (suc n) pid g =
    first_child-collected matches (match_below matches children_of n)
      (collect_agent_pids matches children_of n) (children_of pid)
      (match_below-collected matches children_of n) g

-- The pid that a scan takes for an agent, when it is not 0, is among those that the kill gate
-- lists for the same pane and agent.
match_tree-collected :
    (tree : ProcessTree) (ap : AgentPattern) (pid : ℕ)
    → match_tree tree ap pid ≢ 0
    → has_pid (agent_pids tree ap pid) (match_tree tree ap pid) ≡ true
unfolding match_tree agent_pids
match_tree-collected tree ap pid g = elim (Bool-cases (pid_matches_agent tree ap pid)) [
  | inl c ↦ rw (match_tree, c) (rw (==_refl pid) refl)
  | inr c ↦
      rw (match_tree, c)
        (match_below-collected (pid_matches_agent tree ap) tree.children_of levels pid
          (λ q. g (rw (match_tree, c) q)))
]

-- Patterns that a lookup by their name finds.
abbrev Known : List AgentPattern → Type 0
Known [] = Unit
Known (ap ∷ aps) = (pattern_of ap.name agent_comm_patterns ≡ some ap) × Known aps

agent_comm_patterns-Known : Known agent_comm_patterns
unfolding pattern_of text_beq
agent_comm_patterns-Known = (refl, (refl, (refl, (refl, tt))))

-- What the kill gate has for the pane under the agent's name.
abbrev pub Listed : ProcessTree → Pane → PanePresence → Type 0
Listed tree p pp =
    (pids : List ℕ) × (find p.id (agent_pids_by_pane tree (p ∷ []) pp.agent) ≡ some pids)
    × (has_pid pids pp.pid ≡ true)

scan_pane-Listed :
    (tree : ProcessTree) (p : Pane) (aps : List AgentPattern) (pp : PanePresence)
    → Known aps
    → scan_pane tree p aps ≡ some pp
    → Listed tree p pp
unfolding scan_pane agent_pids_by_pane put_pids
scan_pane-Listed tree p [] pp k h = absurd (ground arith)
scan_pane-Listed tree p (ap ∷ aps) pp (k, ks) h =
    elim (Bool-cases (match_tree tree ap p.pid == 0)) [
      | inl z ↦ scan_pane-Listed tree p aps pp ks (sym (rw (scan_pane, z) refl) ∙ h)
      | inr z ↦
          let here : PanePresence = record {
            agent = ap.name;
            pane_id = p.id;
            pid = match_tree tree ap p.pid;
            window_index = p.window_index;
            pane_index = p.pane_index;
            pane_title = p.title;
            thread_id = [];
            thread_name = [];
          } in
          let q : some here ≡ some pp = sym (rw (scan_pane, z) refl) ∙ h in
          let e : here ≡ pp = cc in
          let n : match_tree tree ap p.pid ≢ 0 = λ w. absurd (ground (arith, z, w)) in
          subst (Listed tree p) e (
            agent_pids tree ap p.pid,
            rw (agent_pids_by_pane, k)
                (find-put p.id p.id (agent_pids tree ap p.pid) [] ∙ rw (==_refl p.id) refl),
            match_tree-collected tree ap p.pid n,
          )
    ]

-- An agent that a scan reports for a pane is one that the kill gate finds there: its pid is among
-- those that the gate lists for the pane under the agent's name from the same process table.
pub scan_pane-gate :
    (tree : ProcessTree) (p : Pane) (pp : PanePresence)
    → scan_pane tree p agent_comm_patterns ≡ some pp
    → Listed tree p pp
scan_pane-gate tree p pp h =
    scan_pane-Listed tree p agent_comm_patterns pp agent_comm_patterns-Known h
