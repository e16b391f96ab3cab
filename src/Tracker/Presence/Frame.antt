-- ===== src/Tracker/Presence/Frame.antt =====
-- What `ApplyPanePresence` leaves alone.
use tail_claude_mux.Tracker.Presence.Bind.{retire_others}
use tail_claude_mux.Tracker.Presence.Retire.{
  retire_displaced_pane_rows, retire_pane_row, retire_superseded_pid_rows, retire_pid_row,
}
use tail_claude_mux.Tracker.Rows.{row-delete_instance, row-put_row}
use tail_claude_mux.Tracker.State.{
  delete_instance, clear_miss_state, put_row, row, rows_of, Tracker,
}
use tail_claude_mux.Tracker.Loop.{for_rows_keeps}
use tail_claude_mux.Tracker.Passes.{Pass}
use tail_claude_mux.Wire.{is_alive, AgentEvent}
use tail_claude_mux.Tracker.Presence.Local.{Fold, PanePresence}
use tail_claude_mux.Base.{
  [], not, Bool, text_beq_iff, Text, keys, ◌==◌, ◌!=◌, Bool-cases, arith, ◌||◌, ◌&&◌, false, inr,
  inl, ◌∙◌, refl, ◌≡◌, ℕ, nat_eq, text_eq, option_eq,
}

pub row-clear_miss_state :
    (s k : Text) (t : Tracker) (s' k' : Text) → row (clear_miss_state s k t) s' k' ≡ row t s' k'
unfolding row rows_of clear_miss_state
row-clear_miss_state s k t s' k' = refl

-- A write, or a deletion, at another place.
pub put_elsewhere :
    (s k : Text) (ev : AgentEvent) (t : Tracker) (s' k' : Text)
    → (s == s' && k == k') ≡ false
    → row (put_row s k ev t) s' k' ≡ row t s' k'
put_elsewhere s k ev t s' k' h = row-put_row s k ev t s' k' ∙ rw h refl

pub delete_elsewhere :
    (s k : Text) (t : Tracker) (s' k' : Text)
    → (s == s' && k == k') ≡ false
    → row (delete_instance s k t) s' k' ≡ row t s' k'
delete_elsewhere s k t s' k' h = row-delete_instance s k t s' k' ∙ rw h refl

pid_row_keeps :
    (agent keep : Text) (pid : ℕ) (s k : Text) (ev : AgentEvent) (p : Pass) (s' k' : Text)
    → (s == s' && keep != k') ≡ false
    → row (retire_pid_row agent keep pid s k ev p).tracker s' k' ≡ row p.tracker s' k'
unfolding retire_pid_row
pid_row_keeps agent keep pid s k ev p s' k' h =
    elim (Bool-cases (k == keep || ev.agent != agent || ev.pid != pid)) [
      | inl c ↦ rw (retire_pid_row, c) refl
      | inr c ↦
          rw (retire_pid_row, c)
            (delete_elsewhere s k p.tracker s' k'
              (ground (arith, h, c, text_beq_iff k keep, text_beq_iff k k', text_beq_iff keep k')))
    ]

pane_row_keeps :
    (is_pid_alive : ℕ → Bool) (agent keep pane_id : Text) (pid : ℕ) (s k : Text) (ev : AgentEvent)
    (p : Pass) (s' k' : Text)
    → (s == s' && keep != k') ≡ false
    → row (retire_pane_row is_pid_alive agent keep pane_id pid s k ev p).tracker s' k'
      ≡ row p.tracker s' k'
unfolding retire_pane_row
pane_row_keeps is_pid_alive agent keep pane_id pid s k ev p s' k' h =
    elim (Bool-cases (
      k == keep
      || ev.agent != agent
      || ev.pane_id != pane_id
      || not (is_alive ev.liveness)
      || ev.pid == pid)) [
        | inl c ↦ rw (retire_pane_row, c) refl
        | inr c ↦ elim (Bool-cases (ev.pid != 0 && is_pid_alive ev.pid)) [
          | inl d ↦ rw (retire_pane_row, c, d) refl
          | inr d ↦
              rw (retire_pane_row, c, d)
                (row-clear_miss_state s k _ s' k'
                  ∙ put_elsewhere s k _ p.tracker s' k' (
                      ground (
                        arith,
                        h,
                        c,
                        text_beq_iff k keep,
                        text_beq_iff k k',
                        text_beq_iff keep k',
                      )))
        ]
      ]

-- The sweeps leave the row that they keep, and those of other sessions.
superseded_keeps :
    (s agent keep : Text) (pid : ℕ) (t : Tracker) (s' k' : Text)
    → (s == s' && keep != k') ≡ false
    → row (retire_superseded_pid_rows s agent keep pid t).tracker s' k' ≡ row t s' k'
unfolding retire_superseded_pid_rows
superseded_keeps s agent keep pid t s' k' h = elim (Bool-cases (pid == 0)) [
  | inl z ↦ rw (retire_superseded_pid_rows, z) refl
  | inr z ↦
      rw (retire_superseded_pid_rows, z)
        (for_rows_keeps (λ p. p.tracker) (retire_pid_row agent keep pid)
          (λ p. row p.tracker s' k' ≡ row t s' k') s
          (λ k ev p g. pid_row_keeps agent keep pid s k ev p s' k' h ∙ g) (keys (rows_of t s))
          (record { tracker = t; changed = false }) refl)
]

displaced_keeps :
    (is_pid_alive : ℕ → Bool) (s agent keep pane_id : Text) (pid : ℕ) (t : Tracker) (s' k' : Text)
    → (s == s' && keep != k') ≡ false
    → row (retire_displaced_pane_rows is_pid_alive s agent keep pane_id pid t).tracker s' k'
      ≡ row t s' k'
unfolding retire_displaced_pane_rows
displaced_keeps is_pid_alive s agent keep pane_id pid t s' k' h =
    elim (Bool-cases (pane_id == [])) [
      | inl z ↦ rw (retire_displaced_pane_rows, z) refl
      | inr z ↦
          rw (retire_displaced_pane_rows, z)
            (for_rows_keeps (λ p. p.tracker) (retire_pane_row is_pid_alive agent keep pane_id pid)
              (λ p. row p.tracker s' k' ≡ row t s' k') s
              (λ k ev p g. pane_row_keeps is_pid_alive agent keep pane_id pid s k ev p s' k' h ∙ g)
              (keys (rows_of t s)) (record { tracker = t; changed = false }) refl)
    ]

pub others_keep :
    (is_pid_alive : ℕ → Bool) (s : Text) (pa : PanePresence) (keep : Text) (st : Fold)
    (s' k' : Text)
    → (s == s' && keep != k') ≡ false
    → row (retire_others is_pid_alive s pa keep st).tracker s' k' ≡ row st.tracker s' k'
unfolding retire_others
others_keep is_pid_alive s pa keep st s' k' h =
    displaced_keeps is_pid_alive s pa.agent keep pa.pane_id pa.pid
      (retire_superseded_pid_rows s pa.agent keep pa.pid st.tracker).tracker s' k' h
    ∙ superseded_keeps s pa.agent keep pa.pid st.tracker s' k' h
