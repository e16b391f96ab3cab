-- ===== src/Tracker/Apply/Store.antt =====
-- What `ApplyEvent` stores, and what becomes of the session's other rows.
use tail_claude_mux.Tracker.Apply.Graduate.{
  graduate_synthetic-Outcome, graduate_synthetic-session, graduate_synthetic-stored,
}
use tail_claude_mux.Tracker.Rows.{
  Outcome-some, gone, kept, Outcome-trans, Outcome-weaken, Outcome, row-put_row,
}
use tail_claude_mux.Tracker.Apply.Supersede.{
  SameTurn-trans, supersede_rows-row, supersede_rows-stored, supersede_rows-SameTurn, SameTurn-refl,
  drop_row, same_process, SameTurn,
}
use tail_claude_mux.Tracker.Keys.{is_synthetic_key}
use tail_claude_mux.Tracker.State.{put_row, rows_of, row, Tracker}
use tail_claude_mux.Wire.{AgentEvent}
use tail_claude_mux.Base.{
  ==→eq, arith, none, Option, true, ◌∙◌, ap, refl, any, find_visited, keys, ==_refl, is_some, sym,
  text_eq, Text, option_eq, nat_eq, ◌!=◌, ◌==◌, Bool-cases, if◌then◌else◌, some, ◌||◌, ◌&&◌, false,
  Bool, inr, inl, ◌≡◌,
}
use tail_claude_mux.Tracker.Apply.{Graduation, supersede, store_event, stored_event}

-- The rows of the event's agent that may go: those of its process, and the synthetic ones.
abbrev pub may_go : Text → AgentEvent → AgentEvent → Bool
may_go k stored ev =
    ev.agent == stored.agent && (stored.pid != 0 && ev.pid == stored.pid || is_synthetic_key k)

-- To drop a row that is not there changes nothing.
visited_only :
    (here seen : Bool) (p : AgentEvent → Bool) (o : Option AgentEvent)
    → (here ≡ true → seen ≡ is_some o)
    → (if here && seen then drop_row p o else o) ≡ (if here && true then drop_row p o else o)
visited_only true seen p none h = ground arith
visited_only true seen p (some ev) h = rw (h refl)
visited_only false seen p o h = refl

drop_row-some :
    (p : AgentEvent → Bool) (o : Option AgentEvent) (ev : AgentEvent)
    → drop_row p o ≡ some ev
    → p ev ≡ false
drop_row-some p none ev h = cc
drop_row-some p (some a) ev h = elim (Bool-cases (p a)) [
  | inl m ↦ absurd (ground arith)
  | inr m ↦ ground arith
]

if_drop-Outcome :
    (b : Bool) (p q : AgentEvent → Bool) (o : Option AgentEvent)
    → (b ≡ true → (ev : AgentEvent) → p ev ≡ true → q ev ≡ true)
    → Outcome q o (if b then drop_row p o else o)
if_drop-Outcome false p q o h = kept refl
if_drop-Outcome true p q none h = kept refl
if_drop-Outcome true p q (some ev) h = elim (Bool-cases (p ev)) [
  | inl m ↦ gone ev refl (h refl ev m) (rw m)
  | inr m ↦ kept (rw m)
]

module _ (key : Text) (event : AgentEvent) (t : Tracker) where
  abbrev pub new_row : AgentEvent
  new_row = stored_event (row t event.session key) event

  abbrev written : Tracker
  written = put_row event.session key new_row t

  abbrev begun : Graduation
  begun = record { tracker = written; stored = new_row; graduated = false }

  written-stored : row written event.session key ≡ some new_row
  written-stored = rw (
    row-put_row event.session key new_row t event.session key,
    ==_refl event.session,
    ==_refl key,
  )

  -- The loop visits the keys of the rows that are there.
  written-visited :
      (k' : Text)
      → any (λ k. k == k') (keys (rows_of written event.session))
        ≡ is_some (row written event.session k')
  unfolding row
  written-visited k' = sym (find_visited k' (rows_of written event.session))

  supersede-stored :
      (row (supersede key event t).tracker event.session key ≡ some (supersede key event t).stored)
      × SameTurn (supersede key event t).stored new_row
  unfolding supersede
  supersede-stored = elim (Bool-cases (new_row.pid != 0)) [
    | inl known_pid ↦
        rw (known_pid, supersede)
          (
            supersede_rows-stored event.session key (keys (rows_of written event.session)) begun
                written-stored,
            supersede_rows-SameTurn event.session key (keys (rows_of written event.session)) begun,
          )
    | inr no_pid ↦ rw (no_pid, supersede) (written-stored, SameTurn-refl new_row)
  ]

  -- What the first loop leaves at another key.
  supersede-row :
      (s' k' : Text)
      → (event.session == s' && key == k') ≡ false
      → row (supersede key event t).tracker s' k' ≡ (
          if event.session == s' && new_row.pid != 0
          then drop_row (same_process new_row) (row t s' k')
          else row t s' k')
  unfolding supersede
  supersede-row s' k' h =
      let other : row written s' k' ≡ row t s' k' =
        rw (row-put_row event.session key new_row t s' k', h) in
      elim (Bool-cases (new_row.pid != 0)) [
        | inl known_pid ↦
            rw
              (
                known_pid,
                supersede,
                supersede_rows-row event.session key (keys (rows_of written event.session)) begun s'
                    k' h,
                written-visited k',
                other,
              )
              (visited_only (event.session == s') (is_some (row written event.session k'))
                (same_process new_row) (row t s' k')
                (λ here.
                  ap (λ x. is_some (row written x k')) (==→eq event.session s' here)
                  ∙ ap is_some other))
        | inr no_pid ↦ rw (no_pid, supersede, other) (ground arith)
      ]

  pub store_event-stored :
      (ev : AgentEvent) × (row (store_event key event t) event.session key ≡ some ev)
      × SameTurn ev new_row
  unfolding store_event
  store_event-stored =
      let g = supersede key event t in
      let (at_key, same) = supersede-stored in
      elim (Bool-cases g.graduated) [
        | inl yes' ↦ rw (yes', store_event) (g.stored, at_key, same)
        | inr no' ↦
            let (ev, e, same') =
              graduate_synthetic-stored event.session key (keys (rows_of g.tracker event.session))
                g.tracker g.stored at_key in
            rw (no', store_event) (ev, e, SameTurn-trans same' same)
      ]

  pub store_event-session :
      (s' k' : Text)
      → (event.session == s') ≡ false
      → row (store_event key event t) s' k' ≡ row t s' k'
  unfolding store_event
  store_event-session s' k' h =
      let g = supersede key event t in
      let first : row g.tracker s' k' ≡ row t s' k' =
        rw (supersede-row s' k' (ground (arith, h)), h) refl in
      elim (Bool-cases g.graduated) [
        | inl yes' ↦ rw (yes', store_event) first
        | inr no' ↦
            rw (no', store_event)
              (graduate_synthetic-session event.session key (keys (rows_of g.tracker event.session))
                  g.tracker g.stored s' k' h
                ∙ first)
      ]

  first-Outcome :
      (k' : Text)
      → (key == k') ≡ false
      → Outcome
          (may_go k' new_row)
          (row t event.session k')
          (row (supersede key event t).tracker event.session k')
  first-Outcome k' h = rw (supersede-row event.session k' (ground (arith, h))) (
      if_drop-Outcome (event.session == event.session && new_row.pid != 0) (same_process new_row)
        (may_go k' new_row) (row t event.session k') (λ known_pid ev m. ground arith))

  second-Outcome :
      (k' : Text)
      → (key == k') ≡ false
      → Outcome
          (may_go k' new_row)
          (row (supersede key event t).tracker event.session k')
          (row (store_event key event t) event.session k')
  unfolding store_event
  second-Outcome k' h =
      let g = supersede key event t in
      let same = supersede-stored.1 in
      elim (Bool-cases g.graduated) [
        | inl yes' ↦ rw (yes', store_event) (kept refl)
        | inr no' ↦
            rw (no', store_event)
              (Outcome-weaken (λ ev m. ground (arith, m, same.agent))
                (graduate_synthetic-Outcome event.session key
                  (keys (rows_of g.tracker event.session)) g.tracker g.stored k' h))
      ]

  -- Another row of the session stays as it was, or goes for its process or as a synthetic one.
  pub store_event-Outcome :
      (k' : Text)
      → (key == k') ≡ false
      → Outcome
          (may_go k' new_row)
          (row t event.session k')
          (row (store_event key event t) event.session k')
  store_event-Outcome k' h = Outcome-trans (first-Outcome k' h) (second-Outcome k' h)

  -- No other row is left that holds the event's pid.
  pub store_event-one_process :
      (k' : Text) (ev : AgentEvent)
      → (key == k') ≡ false
      → (new_row.pid != 0) ≡ true
      → row (store_event key event t) event.session k' ≡ some ev
      → same_process new_row ev ≡ false
  store_event-one_process k' ev h known_pid e =
      let first = supersede-row event.session k' (ground (arith, h)) in
      drop_row-some (same_process new_row) (row t event.session k') ev (
        rw (==_refl event.session, known_pid) at (sym first ∙ Outcome-some (second-Outcome k' h) e))
