-- ===== src/Tracker/Presence/Scan.antt =====
-- `ApplyPanePresence`, whole. The clock is read once.
use tail_claude_mux.Tracker.Presence.Bind.{bind_pane}
use tail_claude_mux.Tracker.Presence.Misses.{miss_rows, count_spare}
use tail_claude_mux.Tracker.Presence.Ghosts.{ghost_rows}
use tail_claude_mux.Tracker.Presence.Local.{shared, nil, local_rows, Fold, PanePresence}
use tail_claude_mux.Tracker.State.{Tracker}
use tail_claude_mux.Base.{
  text_eq, Text, keys, find, option_eq, nat_eq, ◌∷◌, [], List, some, none, false, Bool, ℕ,
}

unfoldable pub bind_panes : (ℕ → Bool) → ℕ → Text → List PanePresence → Fold → Fold
bind_panes is_pid_alive now s [] st = st
bind_panes is_pid_alive now s (pa ∷ panes) st =
    bind_panes is_pid_alive now s panes (bind_pane is_pid_alive now s pa st)

-- The local variables at the start; a nil `si` has no rows to count or to miss.
unfoldable pub begin_fold : Text → List PanePresence → Tracker → Fold
begin_fold s panes t = record {
  tracker = t;
  local = elim (find s t.instances) [ none ↦ nil | some m ↦ shared ];
  spare_panes = elim (find s t.instances) [ none ↦ λ _. 0 | some m ↦ count_spare m panes ];
  claimed = λ _. false;
  changed = false;
}

unfoldable pub apply_pane_presence :
    (ℕ → Bool) → ℕ → Text → List PanePresence → Tracker → Tracker × Bool
apply_pane_presence is_pid_alive now s panes t =
    let st0 = begin_fold s panes t in
    let st1 = miss_rows panes s (keys (local_rows s st0)) st0 in
    let st2 = bind_panes is_pid_alive now s panes st1 in
    let st3 = ghost_rows s (keys (local_rows s st2)) st2 in (st3.tracker, st3.changed)
