-- ===== src/Tracker/Apply/Event.antt =====
-- `ApplyEvent`, whole: the event's row, the session's other rows, the other sessions, a definitive
-- end, and the sparkline timestamps.
use tail_claude_mux.Tracker.Rows.{Outcome}
use tail_claude_mux.Tracker.Apply.Store.{
  store_event-one_process, store_event-Outcome, store_event-session, may_go, store_event-stored,
  new_row,
}
use tail_claude_mux.Tracker.Apply.Supersede.{SameTurn, same_process}
use tail_claude_mux.Tracker.Keys.{instance_key}
use tail_claude_mux.Tracker.State.{row, rows_of, Tracker}
use tail_claude_mux.Wire.{AgentEvent}
use tail_claude_mux.Base.{
  ◌!=◌, ◌==◌, text_eq, option_eq, ne→==, nat_eq, none, Option, not, sym, if◌then◌else◌, some, ◌≢◌,
  ◌∙◌, ap, Text, arith, false, Bool, ◌≡◌, ℕ,
}
use tail_claude_mux.Tracker.Apply.{
  end_event, stored_event, apply_event, store_event, note_timestamp, note_unseen,
}

abbrev pub key_of : AgentEvent → Text
key_of event = instance_key event.agent event.thread_id

abbrev pid_of : Option AgentEvent → ℕ
pid_of none = 0
pid_of (some ev) = ev.pid

abbrev first_seen_of : Option AgentEvent → ℕ
first_seen_of none = 0
first_seen_of (some ev) = ev.first_seen_ts

-- What the new row has from the event and from the row before it.
pub record Inherits (prev : Option AgentEvent) (event ev : AgentEvent) : Type 0 where
  pub agent : ev.agent ≡ event.agent
  pub session : ev.session ≡ event.session
  pub status : ev.status ≡ event.status
  pub ts : ev.ts ≡ event.ts
  pub tool_invoked : ev.tool_invoked ≡ false
  pub thinking_blocks : ev.thinking_blocks ≡ 0
  pub pid : ev.pid ≡ (if event.pid == 0 then pid_of prev else event.pid)
  pub first_seen : ev.first_seen_ts ≡ (
      if first_seen_of prev != 0
      then first_seen_of prev
      else if event.first_seen_ts != 0
      then event.first_seen_ts
      else event.ts)

stored_event-Inherits :
    (prev : Option AgentEvent) (event ev : AgentEvent)
    → SameTurn ev (stored_event prev event)
    → Inherits prev event ev
unfolding stored_event
stored_event-Inherits none event ev same = record {
  agent = same.agent;
  session = same.session;
  status = same.status;
  ts = same.ts;
  tool_invoked = same.tool_invoked;
  thinking_blocks = same.thinking_blocks;
  pid = ground (arith, same.pid);
  first_seen = ground (arith, same.first_seen_ts);
}
stored_event-Inherits (some q) event ev same = record {
  agent = ground (arith, same.agent);
  session = ground (arith, same.session);
  status = ground (arith, same.status);
  ts = ground (arith, same.ts);
  tool_invoked = same.tool_invoked;
  thinking_blocks = same.thinking_blocks;
  pid = ground (arith, same.pid);
  first_seen = ground (arith, same.first_seen_ts);
}

module _ (now : ℕ) (seed : Bool) (event : AgentEvent) (t : Tracker) where
  abbrev pub after_event : Tracker
  after_event = apply_event now seed event t

  pub apply_event-live :
      event.ended ≡ false
      → after_event
        ≡ note_unseen seed
            (key_of event)
            event
            (note_timestamp event (store_event (key_of event) event t))
  unfolding apply_event
  apply_event-live live =
      ap
        (λ b.
          if b
          then end_event now (key_of event) event t
          else note_unseen seed (key_of event) event
              (note_timestamp event (store_event (key_of event) event t)))
        live

  -- The later steps leave the rows alone.
  row-notes :
      (t' : Tracker) (s k : Text)
      → row (note_unseen seed (key_of event) event (note_timestamp event t')) s k ≡ row t' s k
  unfolding row rows_of note_unseen note_timestamp
  row-notes t' s k = ground arith

  row-apply_event :
      event.ended ≡ false
      → (s k : Text) → row after_event s k ≡ row (store_event (key_of event) event t) s k
  row-apply_event live s k =
      ap (λ t'. row t' s k) (apply_event-live live)
      ∙ row-notes (store_event (key_of event) event t) s k

  -- An event that is no end is stored under its key, with its status, time, agent and session and
  -- the edge fields cleared. It keeps the pid of the row before it if it has none, and that row's
  -- time first seen if that is set; else it has its own, or its own time.
  pub apply_event-stored :
      event.ended ≡ false
      → (ev : AgentEvent) × (row after_event event.session (key_of event) ≡ some ev)
        × Inherits (row t event.session (key_of event)) event ev
  apply_event-stored live =
      let (ev, e, same) = store_event-stored (key_of event) event t in
      (
        ev,
        row-apply_event live event.session (key_of event) ∙ e,
        stored_event-Inherits (row t event.session (key_of event)) event ev same,
      )

  -- After an event with a known pid, its own or the one that its row had, no other row of the
  -- session has its agent and that pid.
  pub apply_event-one_process :
      (k : Text) (ev : AgentEvent)
      → event.ended ≡ false
      → (new_row (key_of event) event t).pid ≢ 0
      → key_of event ≢ k
      → row after_event event.session k ≡ some ev
      → same_process (new_row (key_of event) event t) ev ≡ false
  apply_event-one_process k ev live known_pid apart e =
      store_event-one_process (key_of event) event t k ev (ne→== (key_of event) k apart)
        (ap not (ne→== (new_row (key_of event) event t).pid 0 known_pid))
        (sym (row-apply_event live event.session k) ∙ e)

  -- An event that is no end leaves the rows of the other sessions alone.
  apply_event-other_sessions :
      (s k : Text) → event.ended ≡ false → event.session ≢ s → row after_event s k ≡ row t s k
  apply_event-other_sessions s k live apart =
      row-apply_event live s k
      ∙ store_event-session (key_of event) event t s k (ne→== event.session s apart)

  -- Of its session's other rows it removes only rows of its agent, which hold its pid or are
  -- synthetic, and it changes none.
  pub apply_event-other_rows :
      (k : Text)
      → event.ended ≡ false
      → key_of event ≢ k
      → Outcome
          (may_go k (new_row (key_of event) event t))
          (row t event.session k)
          (row after_event event.session k)
  apply_event-other_rows k live apart =
      rw (row-apply_event live event.session k)
        (store_event-Outcome (key_of event) event t k (ne→== (key_of event) k apart))
