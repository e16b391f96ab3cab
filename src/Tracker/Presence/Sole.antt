-- ===== src/Tracker/Presence/Sole.antt =====
-- The sweep of `ApplyPanePresence` for the rows of one process.
use tail_claude_mux.Tracker.Presence.Retire.{retire_superseded_pid_rows, retire_pid_row}
use tail_claude_mux.Tracker.Rows.{row-delete_instance}
use tail_claude_mux.Tracker.State.{row, Tracker}
use tail_claude_mux.Tracker.Loop.{act_on}
use tail_claude_mux.Tracker.Loop.Keyed.{row-for_keys}
use tail_claude_mux.Tracker.Passes.{Pass}
use tail_claude_mux.Wire.{AgentEvent}
use tail_claude_mux.Base.{
  Text, ne→==, ==→eq, ==_refl, ◌==◌, ◌!=◌, Bool-cases, if◌then◌else◌, arith, some, none, Option,
  ◌||◌, ◌&&◌, false, true, Bool, inr, inl, ◌≢◌, ◌∙◌, ap, sym, refl, ◌≡◌, ℕ, nat_eq, text_eq,
  option_eq,
}

abbrev same_pid : Text → ℕ → AgentEvent → Bool
same_pid agent pid ev = ev.agent == agent && ev.pid == pid

abbrev pub drop_pid : Text → ℕ → AgentEvent → Option AgentEvent
drop_pid agent pid ev = if same_pid agent pid ev then none else some ev

row-retire_pid_row :
    (agent keep : Text) (pid : ℕ) (s k' k : Text) (ev : AgentEvent) (p : Pass)
    → (k' == keep) ≡ false
    → row p.tracker s k ≡ some ev
    → row (retire_pid_row agent keep pid s k ev p).tracker s k'
      ≡ (if k == k' then drop_pid agent pid ev else row p.tracker s k')
unfolding retire_pid_row
row-retire_pid_row agent keep pid s k' k ev p h e = elim (Bool-cases (k == k')) [
  | inl q ↦
      let f = ==→eq k k' q in
      let g : (k == keep) ≡ false = ap (λ x. x == keep) f ∙ h in
      elim (Bool-cases (same_pid agent pid ev)) [
        | inl c ↦
            let a : (ev.agent == agent) ≡ true = ground arith in
            let b : (ev.pid == pid) ≡ true = ground arith in
            rw (retire_pid_row, q, c, g, a, b)
              (row-delete_instance s k p.tracker s k' ∙ rw (==_refl s, q) refl)
        | inr c ↦
            let n : (ev.agent != agent || ev.pid != pid) ≡ true = ground arith in
            rw (retire_pid_row, q, c, g, n) (ap (row p.tracker s) (sym f) ∙ e)
      ]
  | inr q ↦ elim (Bool-cases (k == keep || ev.agent != agent || ev.pid != pid)) [
    | inl c ↦ rw (retire_pid_row, q, c) refl
    | inr c ↦
        rw (retire_pid_row, q, c) (row-delete_instance s k p.tracker s k' ∙ rw (==_refl s, q) refl)
  ]
]

drop_pid_idem :
    (agent : Text) (pid : ℕ) (ev : AgentEvent)
    → act_on (drop_pid agent pid) (drop_pid agent pid ev) ≡ drop_pid agent pid ev
drop_pid_idem agent pid ev = elim (Bool-cases (same_pid agent pid ev)) [
  | inl h ↦ rw h refl
  | inr h ↦ rw (h, h) refl
]

-- The sweep for a process, its pid not 0, leaves no row but the kept one with that agent and pid in
-- the session, and each other row of other agents or pids as it was.
retire_superseded_pid_rows-sole :
    (s agent keep : Text) (pid : ℕ) (t : Tracker) (k : Text)
    → pid ≢ 0
    → k ≢ keep
    → row (retire_superseded_pid_rows s agent keep pid t).tracker s k
      ≡ act_on (drop_pid agent pid) (row t s k)
unfolding retire_superseded_pid_rows
retire_superseded_pid_rows-sole s agent keep pid t k h g =
    rw (retire_superseded_pid_rows, ne→== pid 0 h)
      (row-for_keys (λ p. p.tracker) (retire_pid_row agent keep pid) (drop_pid agent pid) s k
        (λ j ev p e. row-retire_pid_row agent keep pid s k j ev p (ne→== k keep g) e)
        (drop_pid_idem agent pid) (record { tracker = t; changed = false }))
