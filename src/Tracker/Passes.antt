-- ===== src/Tracker/Passes.antt =====
-- The prune, reconcile and liveness passes of apps/server-go/internal/tracker/tracker.go. `now` is
-- the clock's reading at the start of the pass, `is_pid_alive` the probe of a pid, and `probe` the
-- watcher's verdict on a row. An age `now - ts` is 0 for a time in the future, which passes the
-- same tests as the source's negative age, since the limits are not negative.
pub mod Effects
use tail_claude_mux.Tracker.Scan.{ended, working, ProbeVerdict}
use tail_claude_mux.Tracker.Keys.{alive_prune_ceiling_ms}
use tail_claude_mux.Tracker.State.{delete_instance, put_row, Tracker}
use tail_claude_mux.Tracker.Loop.{for_instances}
use tail_claude_mux.Wire.{
  exited, interrupted, error, done, AgentEvent, is_exited, is_alive, is_terminal_status, is_running,
  Liveness, Status,
}
use tail_claude_mux.Base.{
  text_eq, Text, option_eq, nat_eq, ◌==◌, if◌then◌else◌, leb, ◌||◌, ◌&&◌, not, false, true, Bool,
  ◌-◌, ℕ,
}

-- The loop's state where the pass reports whether it changed anything.
pub record Pass : Type 0 where
  pub tracker : Tracker
  pub changed : Bool

unfoldable pub prune_stuck_row : ℕ → ℕ → Text → Text → AgentEvent → Tracker → Tracker
prune_stuck_row now timeout_ms s k ev t =
    if not (is_running ev.status)
    then t
    else if leb (now - ev.ts) timeout_ms
    then t
    else if is_alive ev.liveness && leb (now - ev.ts) alive_prune_ceiling_ms
    then t
    else delete_instance s k t

unfoldable pub prune_stuck : ℕ → ℕ → Tracker → Tracker
prune_stuck now timeout_ms = for_instances (λ t. t) (prune_stuck_row now timeout_ms)

unfoldable pub prune_terminal_row : Text → Text → AgentEvent → Tracker → Tracker
prune_terminal_row s k ev t =
    if not (is_exited ev.liveness) || is_running ev.status then t else delete_instance s k t

unfoldable pub prune_terminal : Tracker → Tracker
prune_terminal = for_instances (λ t. t) prune_terminal_row

-- The `switch` on the probe's verdict.
unfoldable pub reconcile_as : ProbeVerdict → ℕ → Text → Text → AgentEvent → Pass → Pass
reconcile_as ProbeVerdict.ended now s k ev p = record {
  tracker = put_row s k (record ev { status = Status.done; ts = now }) p.tracker;
  changed = true;
}
reconcile_as ProbeVerdict.working now s k ev p = record p {
  tracker = put_row s k (record ev { ts = now }) p.tracker;
}
reconcile_as _ now s k ev p = p

unfoldable pub reconcile_row :
    ℕ → ℕ → (AgentEvent → ProbeVerdict) → Text → Text → AgentEvent → Pass → Pass
reconcile_row now stale_ms probe s k ev p =
    if not (is_running ev.status) || not (is_alive ev.liveness) || ev.pid == 0
    then p
    else if leb (now - ev.ts) stale_ms
    then p
    else reconcile_as (probe ev) now s k ev p

-- `ReconcileStaleRunning`.
unfoldable pub reconcile_stale_running : ℕ → ℕ → (AgentEvent → ProbeVerdict) → Tracker → Pass
reconcile_stale_running now stale_ms probe t =
    for_instances (λ p. p.tracker) (reconcile_row now stale_ms probe)
      (record { tracker = t; changed = false })

unfoldable pub sweep_row : (ℕ → Bool) → Text → Text → AgentEvent → Pass → Pass
sweep_row is_pid_alive s k ev p =
    if ev.pid == 0 || is_exited ev.liveness || is_terminal_status ev.status
    then p
    else if not (is_pid_alive ev.pid)
    then record {
      tracker = put_row s k (record ev { liveness = Liveness.exited }) p.tracker;
      changed = true;
    }
    else p

-- `RunLivenessSweepOnce`.
unfoldable pub run_liveness_sweep_once : (ℕ → Bool) → Tracker → Pass
run_liveness_sweep_once is_pid_alive t =
    for_instances (λ p. p.tracker) (sweep_row is_pid_alive)
      (record { tracker = t; changed = false })
