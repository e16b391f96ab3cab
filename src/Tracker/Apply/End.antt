-- ===== src/Tracker/Apply/End.antt =====
-- A definitive end in `ApplyEvent`.
use tail_claude_mux.Tracker.Keys.{end_suppress_key, recent_end_suppress_ms}
use tail_claude_mux.Tracker.Rows.{row-delete_instance}
use tail_claude_mux.Tracker.State.{
  delete_instance, Rows, is_pane_end_suppressed, row, rows_of, Tracker,
}
use tail_claude_mux.Wire.{AgentEvent}
use tail_claude_mux.Base.{
  ne→==, ==_refl, text_eq, text_beq_iff, Text, find, option_eq, nat_eq, ◌==◌, Option-cases,
  if◌then◌else◌, ltb, arith, [], some, none, Option, ◌&&◌, true, Bool, inr, inl, ◌≢◌, ◌∙◌, ap, refl,
  ◌≡◌, ◌+◌, ℕ,
}
use tail_claude_mux.Tracker.Apply.{
  apply_event, store_event, end_event, suppress_pane, note_timestamp, note_unseen,
}
use tail_claude_mux.Tracker.Apply.Event.{key_of, after_event}

row-suppress_pane :
    (now : ℕ) (event : AgentEvent) (o : Option AgentEvent) (t : Tracker) (s k : Text)
    → row (suppress_pane now event o t) s k ≡ row t s k
unfolding row rows_of suppress_pane
row-suppress_pane now event none t s k = refl
row-suppress_pane now event (some ev) t s k = ground arith

row-no_session : (t : Tracker) (s k : Text) → find s t.instances ≡ none → row t s k ≡ none
unfolding row rows_of find
row-no_session t s k h = rw (h, rows_of)

row-some :
    (t : Tracker) (s k : Text) (ev : AgentEvent)
    → row t s k ≡ some ev
    → (si : Rows) × (find s t.instances ≡ some si) × (find k si ≡ some ev)
unfolding row rows_of
row-some t s k ev h = elim (Option-cases (find s t.instances)) [
  | inl e ↦ absurd (ground (arith, h, row-no_session t s k e))
  | inr (si, e) ↦ (si, e, rw (e, rows_of) at h)
]

suppression-end_event :
    (now : ℕ) (key : Text) (event : AgentEvent) (t : Tracker) (ev : AgentEvent)
    → row t event.session key ≡ some ev
    → ev.pane_id ≢ []
    → (end_event now key event t).recently_ended_panes
        (end_suppress_key event.session event.agent ev.pane_id)
      ≡ some (now + recent_end_suppress_ms)
unfolding end_event suppress_pane delete_instance
suppression-end_event now key event t ev h bound =
    let (si, at_session, at_key) = row-some t event.session key ev h in
    rw (at_session, end_event, at_key, suppress_pane, ne→== ev.pane_id [] bound)
      (rw (==_refl (end_suppress_key event.session event.agent ev.pane_id)) refl)

module _ (now : ℕ) (seed : Bool) (event : AgentEvent) (t : Tracker) where
  apply_event-end :
      event.ended ≡ true → after_event now seed event t ≡ end_event now (key_of event) event t
  unfolding apply_event
  apply_event-end ended =
      ap
        (λ b.
          if b
          then end_event now (key_of event) event t
          else note_unseen seed (key_of event) event
              (note_timestamp event (store_event (key_of event) event t)))
        ended

  row-end_event :
      (key s k : Text)
      → row (end_event now key event t) s k
        ≡ (if event.session == s && key == k then none else row t s k)
  unfolding end_event
  row-end_event key s k = elim (Option-cases (find event.session t.instances)) [
    | inl e ↦
        rw (e, end_event)
          (ground (arith, text_beq_iff event.session s, row-no_session t event.session k e))
    | inr (si, e) ↦ rw (
      e,
      end_event,
      row-delete_instance event.session key (suppress_pane now event (find key si) t) s k,
      row-suppress_pane now event (find key si) t s k,
    )
  ]

  -- A definitive end removes the event's row and no other.
  pub apply_event-ended :
      event.ended ≡ true
      → (s k : Text)
      → row (after_event now seed event t) s k
        ≡ (if event.session == s && key_of event == k then none else row t s k)
  apply_event-ended ended s k =
      ap (λ t'. row t' s k) (apply_event-end ended) ∙ row-end_event (key_of event) s k

  -- After a definitive end of a row bound to a pane, the pane counts as suppressed for 5000 ms, and
  -- not from then on.
  pub apply_event-suppresses :
      (now' : ℕ) (ev : AgentEvent)
      → event.ended ≡ true
      → row t event.session (key_of event) ≡ some ev
      → ev.pane_id ≢ []
      → (is_pane_end_suppressed now' event.session event.agent ev.pane_id
          (after_event now seed event t)).1
        ≡ ltb now' (now + 5000)
  unfolding is_pane_end_suppressed
  apply_event-suppresses now' ev ended e bound =
      let e' = suppression-end_event now (key_of event) event t ev e bound in
      rw (apply_event-end ended, e', is_pane_end_suppressed) (ground arith)
