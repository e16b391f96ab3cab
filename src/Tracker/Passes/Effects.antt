-- ===== src/Tracker/Passes/Effects.antt =====
-- What each pass does to every row, and what its report says.
use tail_claude_mux.Tracker.Scan.{ProbeVerdict}
use tail_claude_mux.Tracker.Rows.{row-put_row, row-same, row-delete_instance}
use tail_claude_mux.Tracker.State.{put_row, delete_instance, row, Tracker}
use tail_claude_mux.Tracker.Loop.Quiet.{quiet-for_instances}
use tail_claude_mux.Tracker.Loop.{row-for_instances, act_on}
use tail_claude_mux.Wire.{
  is_exited, is_terminal_status, Liveness, Status, AgentEvent, is_alive, is_running,
}
use tail_claude_mux.Base.{
  refl, ◌!=◌, arith, false, true, ◌∙◌, ap, text_eq, Text, option_eq, nat_eq, ◌==◌, Bool-cases,
  if◌then◌else◌, ltb, some, none, ◌||◌, ◌&&◌, not, Bool, inr, inl, ◌≡◌, ◌-◌, ℕ,
}
use tail_claude_mux.Tracker.Passes.{
  reconcile_row, reconcile_as, run_liveness_sweep_once, sweep_row, reconcile_stale_running,
  prune_terminal, prune_terminal_row, Pass,
}

-- A body that deletes its own row when a test holds.
delete_if :
    (b : Bool) (s k : Text) (ev : AgentEvent) (t : Tracker) (s' k' : Text)
    → row t s k ≡ some ev
    → row (if b then delete_instance s k t else t) s' k'
      ≡ (if s == s' && k == k' then (if b then none else some ev) else row t s' k')
delete_if true s k ev t s' k' e = row-delete_instance s k t s' k'
delete_if false s k ev t s' k' e = elim (Bool-cases (s == s' && k == k')) [
  | inl h ↦ rw (h, row-same t s k s' k' h) e
  | inr h ↦ rw h
]

drop_if_idem :
    (p : AgentEvent → Bool) (ev : AgentEvent)
    → act_on (λ e. if p e then none else some e) (if p ev then none else some ev)
      ≡ (if p ev then none else some ev)
drop_if_idem p ev = elim (Bool-cases (p ev)) [ inl h ↦ rw h | inr h ↦ rw (h, h) ]

abbrev pub is_stuck : ℕ → ℕ → AgentEvent → Bool
is_stuck now timeout_ms ev =
    is_running ev.status
    && (ltb timeout_ms (now - ev.ts) && (not (is_alive ev.liveness) || ltb 1800000 (now - ev.ts)))

abbrev is_terminal_row : AgentEvent → Bool
is_terminal_row ev = is_exited ev.liveness && not (is_running ev.status)

prune_terminal_row-if :
    (s k : Text) (ev : AgentEvent) (t : Tracker)
    → prune_terminal_row s k ev t ≡ (if is_terminal_row ev then delete_instance s k t else t)
unfolding prune_terminal_row
prune_terminal_row-if s k ev t = ground arith

-- `PruneTerminal` removes exactly the rows that are exited and not running.
prune_terminal-row :
    (t : Tracker) (s k : Text)
    → row (prune_terminal t) s k
      ≡ act_on (λ ev. if is_terminal_row ev then none else some ev) (row t s k)
unfolding prune_terminal
prune_terminal-row t s k =
    row-for_instances (λ u. u) prune_terminal_row
      (λ ev. if is_terminal_row ev then none else some ev)
      (λ s k ev t s' k' e.
        ap (λ u. row u s' k') (prune_terminal_row-if s k ev t)
        ∙ delete_if (is_terminal_row ev) s k ev t s' k' e)
      (drop_if_idem is_terminal_row) t s k

-- A body that rewrites its own row when a test holds.
put_if :
    (b : Bool) (s k : Text) (ev ev' : AgentEvent) (t : Tracker) (s' k' : Text)
    → row t s k ≡ some ev
    → row (if b then put_row s k ev' t else t) s' k'
      ≡ (if s == s' && k == k' then some (if b then ev' else ev) else row t s' k')
put_if true s k ev ev' t s' k' e = row-put_row s k ev' t s' k'
put_if false s k ev ev' t s' k' e = elim (Bool-cases (s == s' && k == k')) [
  | inl h ↦ rw (h, row-same t s k s' k' h) e
  | inr h ↦ rw h
]

-- The rows that the liveness sweep marks.
abbrev is_dead : (ℕ → Bool) → AgentEvent → Bool
is_dead is_pid_alive ev =
    ev.pid != 0
    && (not (is_exited ev.liveness)
        && (not (is_terminal_status ev.status) && not (is_pid_alive ev.pid)))

abbrev pub mark_dead : (ℕ → Bool) → AgentEvent → AgentEvent
mark_dead is_pid_alive ev =
    if is_dead is_pid_alive ev then record ev { liveness = Liveness.exited } else ev

sweep_row-if :
    (is_pid_alive : ℕ → Bool) (s k : Text) (ev : AgentEvent) (p : Pass)
    → (sweep_row is_pid_alive s k ev p).tracker ≡ (
        if is_dead is_pid_alive ev
        then put_row s k (record ev { liveness = Liveness.exited }) p.tracker
        else p.tracker)
unfolding sweep_row
sweep_row-if is_pid_alive s k ev p = ground arith

-- The sweep marks exactly the rows with a pid that is dead, not yet exited, in no terminal status.
pub run_liveness_sweep_once-row :
    (is_pid_alive : ℕ → Bool) (t : Tracker) (s k : Text)
    → row (run_liveness_sweep_once is_pid_alive t).tracker s k
      ≡ act_on (λ ev. some (mark_dead is_pid_alive ev)) (row t s k)
unfolding run_liveness_sweep_once
run_liveness_sweep_once-row is_pid_alive t s k =
    row-for_instances (λ p. p.tracker) (sweep_row is_pid_alive)
      (λ ev. some (mark_dead is_pid_alive ev))
      (λ s k ev p s' k' e.
        ap (λ u. row u s' k') (sweep_row-if is_pid_alive s k ev p)
        ∙ put_if (is_dead is_pid_alive ev) s k ev (record ev { liveness = Liveness.exited })
            p.tracker s' k' e)
      (λ ev. ground arith) (record { tracker = t; changed = false }) s k

-- A sweep that reports no change has made none.
run_liveness_sweep_once-quiet :
    (is_pid_alive : ℕ → Bool) (t : Tracker)
    → (run_liveness_sweep_once is_pid_alive t).changed ≡ false
    → (run_liveness_sweep_once is_pid_alive t).tracker ≡ t
unfolding run_liveness_sweep_once sweep_row
run_liveness_sweep_once-quiet is_pid_alive t h =
    ap (λ p. p.tracker)
      (quiet-for_instances (λ p. p.tracker) (λ p. p.changed) (sweep_row is_pid_alive)
        (λ s k ev p c. ground arith) (record { tracker = t; changed = false }) h)

abbrev pub is_stale : ℕ → ℕ → AgentEvent → Bool
is_stale now stale_ms ev =
    is_running ev.status && (is_alive ev.liveness && (ev.pid != 0 && ltb stale_ms (now - ev.ts)))

-- What the verdict on a stale row makes of it.
abbrev pub reconciled : ℕ → ProbeVerdict → AgentEvent → AgentEvent
reconciled now ProbeVerdict.ended ev = record ev { status = Status.done; ts = now }
reconciled now ProbeVerdict.working ev = record ev { ts = now }
reconciled now _ ev = ev

row-reconcile_as :
    (v : ProbeVerdict) (now : ℕ) (s k : Text) (ev : AgentEvent) (p : Pass) (s' k' : Text)
    → row p.tracker s k ≡ some ev
    → row (reconcile_as v now s k ev p).tracker s' k'
      ≡ (if s == s' && k == k' then some (reconciled now v ev) else row p.tracker s' k')
unfolding reconcile_as
row-reconcile_as ProbeVerdict.ended now s k ev p s' k' e =
    row-put_row s k (record ev { status = Status.done; ts = now }) p.tracker s' k'
row-reconcile_as ProbeVerdict.working now s k ev p s' k' e =
    row-put_row s k (record ev { ts = now }) p.tracker s' k'
row-reconcile_as _ now s k ev p s' k' e = put_if false s k ev ev p.tracker s' k' e

row-reconcile_row :
    (now stale_ms : ℕ) (probe : AgentEvent → ProbeVerdict) (s k : Text) (ev : AgentEvent) (p : Pass)
    (s' k' : Text)
    → row p.tracker s k ≡ some ev
    → row (reconcile_row now stale_ms probe s k ev p).tracker s' k' ≡ (
        if s == s' && k == k'
        then some (if is_stale now stale_ms ev then reconciled now (probe ev) ev else ev)
        else row p.tracker s' k')
unfolding reconcile_row
row-reconcile_row now stale_ms probe s k ev p s' k' e = ground (
  arith,
  row-reconcile_as (probe ev) now s k ev p s' k' e,
  put_if false s k ev ev p.tracker s' k' e,
)

reconciled_idem :
    (now stale_ms : ℕ) (v : ProbeVerdict) (probe : AgentEvent → ProbeVerdict) (ev : AgentEvent)
    → probe ev ≡ v
    → (let ev' = reconciled now v ev in
        if is_stale now stale_ms ev' then reconciled now (probe ev') ev' else ev')
      ≡ reconciled now v ev
reconciled_idem now stale_ms ProbeVerdict.ended probe ev h = ground arith
reconciled_idem now stale_ms ProbeVerdict.working probe ev h = ground arith
reconciled_idem now stale_ms _ probe ev h = rw h (ground arith)

-- Exactly the stale rows are reconciled, each by its own verdict: "ended" makes it done, "working"
-- restarts its clock, and any other leaves it.
pub reconcile_stale_running-row :
    (now stale_ms : ℕ) (probe : AgentEvent → ProbeVerdict) (t : Tracker) (s k : Text)
    → row (reconcile_stale_running now stale_ms probe t).tracker s k
      ≡ act_on
          (λ ev. some (if is_stale now stale_ms ev then reconciled now (probe ev) ev else ev))
          (row t s k)
unfolding reconcile_stale_running
reconcile_stale_running-row now stale_ms probe t s k =
    row-for_instances (λ p. p.tracker) (reconcile_row now stale_ms probe)
      (λ ev. some (if is_stale now stale_ms ev then reconciled now (probe ev) ev else ev))
      (row-reconcile_row now stale_ms probe)
      (λ ev. elim (Bool-cases (is_stale now stale_ms ev)) [
        | inl h ↦ rw h (ap some (reconciled_idem now stale_ms (probe ev) probe ev refl))
        | inr h ↦ rw (h, h)
      ])
      (record { tracker = t; changed = false }) s k
