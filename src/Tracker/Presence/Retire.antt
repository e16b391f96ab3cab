-- ===== src/Tracker/Presence/Retire.antt =====
-- `retireSupersededPidRows` and `retireDisplacedPaneRows` of
-- apps/server-go/internal/tracker/tracker.go. Both range over `t.instances[session]`.
use tail_claude_mux.Tracker.State.{delete_instance, clear_miss_state, put_row, rows_of, Tracker}
use tail_claude_mux.Tracker.Loop.{for_rows}
use tail_claude_mux.Tracker.Passes.{Pass}
use tail_claude_mux.Wire.{AgentEvent, is_alive, Liveness}
use tail_claude_mux.Base.{
  text_eq, Text, keys, option_eq, nat_eq, ◌!=◌, ◌==◌, if◌then◌else◌, [], ◌||◌, ◌&&◌, not, false,
  true, Bool, ℕ,
}

unfoldable pub retire_pid_row : Text → Text → ℕ → Text → Text → AgentEvent → Pass → Pass
retire_pid_row agent keep_key pid s k ev p =
    if k == keep_key || ev.agent != agent || ev.pid != pid
    then p
    else record { tracker = delete_instance s k p.tracker; changed = true }

unfoldable pub retire_superseded_pid_rows : Text → Text → Text → ℕ → Tracker → Pass
retire_superseded_pid_rows s agent keep_key pid t =
    if pid == 0
    then record { tracker = t; changed = false }
    else for_rows (λ p. p.tracker) (retire_pid_row agent keep_key pid) s (keys (rows_of t s))
        (record { tracker = t; changed = false })

unfoldable pub retire_pane_row :
    (ℕ → Bool) → Text → Text → Text → ℕ → Text → Text → AgentEvent → Pass → Pass
retire_pane_row is_pid_alive agent keep_key pane_id pid s k ev p =
    if k == keep_key
      || ev.agent != agent
      || ev.pane_id != pane_id
      || not (is_alive ev.liveness)
      || ev.pid == pid
    then p
    else if ev.pid != 0 && is_pid_alive ev.pid
    then p
    else record {
      tracker =
          clear_miss_state s k
            (put_row s k (record ev { liveness = Liveness.exited; pane_id = [] }) p.tracker);
      changed = true;
    }

unfoldable pub retire_displaced_pane_rows :
    (ℕ → Bool) → Text → Text → Text → Text → ℕ → Tracker → Pass
retire_displaced_pane_rows is_pid_alive s agent keep_key pane_id pid t =
    if pane_id == []
    then record { tracker = t; changed = false }
    else for_rows (λ p. p.tracker) (retire_pane_row is_pid_alive agent keep_key pane_id pid) s
        (keys (rows_of t s)) (record { tracker = t; changed = false })
