-- ===== src/Tracker/Apply/Notes.antt =====
-- What `ApplyEvent` does beside the rows: the sparkline timestamps and the unseen flag.
use tail_claude_mux.Tracker.Apply.Graduate.{graduate_scan-picked, scan_step}
use tail_claude_mux.Tracker.Keys.{max_event_timestamps, unseen_key-injective, unseen_key}
use tail_claude_mux.Tracker.State.{rows_of, delete_instance, put_row, row, Tracker}
use tail_claude_mux.Wire.{is_terminal_status, is_waiting, AgentEvent}
use tail_claude_mux.Base.{
  take-append-drop, length-drop, take, drop, keys, ltb, ◌-◌, length, ◌!=◌, Bool-cases,
  if◌then◌else◌, ◌++◌, ◌||◌, not, Bool, min, text_eq, text_beq_iff, Text, option_eq, nat_eq, ◌==◌,
  Option-cases, arith, ◌∷◌, [], List, false, inr, inl, ◌∙◌, refl, ◌≡◌, ℕ,
}
use tail_claude_mux.Tracker.Apply.{
  stored_event, adopt_pane, Graduation, store_event, supersede, supersede_row, supersede_rows,
  graduate_scan, graduate_synthetic, note_timestamp, note_unseen,
}
use tail_claude_mux.Tracker.Apply.Event.{key_of, after_event, apply_event-live}

-- Two trackers differ at most in the rows, the miss counts and other rows' flags.
record SameNotes (s key : Text) (t' t : Tracker) : Type 0 where
  event_timestamps : t'.event_timestamps ≡ t.event_timestamps
  active : t'.active ≡ t.active
  flag : t'.unseen (unseen_key s key) ≡ t.unseen (unseen_key s key)

SameNotes-refl : (s key : Text) (t : Tracker) → SameNotes s key t t
SameNotes-refl s key t = record { event_timestamps = refl; active = refl; flag = refl }

SameNotes-trans :
    {s key : Text} {t u v : Tracker}
    → SameNotes s key t u
    → SameNotes s key u v
    → SameNotes s key t v
SameNotes-trans h k = record {
  event_timestamps = h.event_timestamps ∙ k.event_timestamps;
  active = h.active ∙ k.active;
  flag = h.flag ∙ k.flag;
}

put_row-SameNotes :
    (s key : Text) (ev : AgentEvent) (t : Tracker) → SameNotes s key (put_row s key ev t) t
unfolding put_row
put_row-SameNotes s key ev t = record { event_timestamps = refl; active = refl; flag = refl }

delete_instance-SameNotes :
    (s key k : Text) (t : Tracker) → (k == key) ≡ false → SameNotes s key (delete_instance s k t) t
unfolding delete_instance
delete_instance-SameNotes s key k t h = record {
  event_timestamps = refl;
  active = refl;
  flag = ground (
    arith,
    text_beq_iff (unseen_key s k) (unseen_key s key),
    text_beq_iff k key,
    unseen_key-injective s k key,
  );
}

module _ (s key : Text) where
  supersede_row-SameNotes :
      (k : Text) (g : Graduation) → SameNotes s key (supersede_row s key k g).tracker g.tracker
  unfolding supersede_row
  supersede_row-SameNotes k g = elim (Option-cases (row g.tracker s k)) [
    | inl e ↦ rw (e, supersede_row) (SameNotes-refl s key g.tracker)
    | inr (ev, e) ↦
        let stored = adopt_pane g.stored ev in
        elim (Bool-cases (k == key || ev.agent != g.stored.agent || ev.pid != g.stored.pid)) [
          | inl h ↦ rw (e, supersede_row, h) (SameNotes-refl s key g.tracker)
          | inr h ↦
              rw (e, supersede_row, h)
                (SameNotes-trans
                  (delete_instance-SameNotes s key k (put_row s key stored g.tracker)
                    (ground arith))
                  (put_row-SameNotes s key stored g.tracker))
        ]
  ]

  supersede_rows-SameNotes :
      (ks : List Text) (g : Graduation)
      → SameNotes s key (supersede_rows s key ks g).tracker g.tracker
  unfolding supersede_rows
  supersede_rows-SameNotes [] g = SameNotes-refl s key g.tracker
  supersede_rows-SameNotes (k ∷ ks) g =
      SameNotes-trans (supersede_rows-SameNotes ks (supersede_row s key k g))
        (supersede_row-SameNotes k g)

  graduate_scan-SameNotes :
      (ks : List Text) (t : Tracker) (stored : AgentEvent)
      → SameNotes s key (graduate_scan s key ks t stored).0 t
  unfolding graduate_scan
  graduate_scan-SameNotes [] t stored = SameNotes-refl s key t
  graduate_scan-SameNotes (k ∷ ks) t stored =
      scan_step s key (λ r. SameNotes s key r.0 t) k ks t stored
        (graduate_scan-SameNotes ks t stored) (λ stored' _. put_row-SameNotes s key stored' t)
        (λ _. SameNotes-refl s key t)

  graduate_synthetic-SameNotes :
      (ks : List Text) (t : Tracker) (stored : AgentEvent)
      → SameNotes s key (graduate_synthetic s key ks t stored) t
  unfolding graduate_synthetic
  graduate_synthetic-SameNotes ks t stored =
      let (t', k) = graduate_scan s key ks t stored in
      elim (Bool-cases (k != [])) [
        | inl h ↦ rw h (
            SameNotes-trans
              (delete_instance-SameNotes s key k t'
                (ground (arith, text_beq_iff k [], graduate_scan-picked s key ks t stored)))
              (graduate_scan-SameNotes ks t stored))
        | inr h ↦ rw h (graduate_scan-SameNotes ks t stored)
      ]

supersede-SameNotes :
    (key : Text) (event : AgentEvent) (t : Tracker)
    → SameNotes event.session key (supersede key event t).tracker t
unfolding supersede
supersede-SameNotes key event t =
    let stored = stored_event (row t event.session key) event in
    let t' = put_row event.session key stored t in
    let put_same = put_row-SameNotes event.session key stored t in
    elim (Bool-cases (stored.pid != 0)) [
      | inl h ↦
          rw (h, supersede)
            (SameNotes-trans
              (supersede_rows-SameNotes event.session key (keys (rows_of t' event.session))
                (record { tracker = t'; stored = stored; graduated = false }))
              put_same)
      | inr h ↦ rw (h, supersede) put_same
    ]

store_event-SameNotes :
    (key : Text) (event : AgentEvent) (t : Tracker)
    → SameNotes event.session key (store_event key event t) t
unfolding store_event
store_event-SameNotes key event t =
    let g = supersede key event t in
    let first = supersede-SameNotes key event t in
    elim (Bool-cases g.graduated) [
      | inl h ↦ rw (h, store_event) first
      | inr h ↦
          rw (h, store_event)
            (SameNotes-trans
              (graduate_synthetic-SameNotes event.session key
                (keys (rows_of g.tracker event.session)) g.tracker g.stored)
              first)
    ]

-- The newest entries of a list, and what went before them.
newest :
    (n : ℕ) (xs : List ℕ)
    → let kept = if ltb n (length xs) then drop (length xs - n) xs else xs in
      (length kept ≡ min n (length xs)) × ((dropped : List ℕ) × (dropped ++ kept ≡ xs))
newest n xs = elim (Bool-cases (ltb n (length xs))) [
  | inl h ↦ rw h (
    ground (arith, length-drop (length xs - n) xs),
    (take (length xs - n) xs, take-append-drop (length xs - n) xs),
  )
  | inr h ↦ rw h (ground arith, ([], refl))
]

timestamps-notes :
    (seed : Bool) (key : Text) (event : AgentEvent) (t : Tracker)
    → (note_unseen seed key event (note_timestamp event t)).event_timestamps event.session ≡ (
        let ts = t.event_timestamps event.session ++ event.ts ∷ [] in
        if ltb max_event_timestamps (length ts)
        then drop (length ts - max_event_timestamps) ts
        else ts)
unfolding note_unseen note_timestamp
timestamps-notes seed key event t = ground (arith, text_beq_iff event.session event.session)

flag-note_unseen :
    (seed : Bool) (key : Text) (event : AgentEvent) (t : Tracker)
    → (note_unseen seed key event t).unseen (unseen_key event.session key) ≡ (
        if is_terminal_status event.status || is_waiting event.status
        then seed || not (t.active event.session) || t.unseen (unseen_key event.session key)
        else false)
unfolding note_unseen
flag-note_unseen seed key event t =
    ground (arith, text_beq_iff (unseen_key event.session key) (unseen_key event.session key))

module _ (now : ℕ) (seed : Bool) (event : AgentEvent) (t : Tracker) where
  -- An event that is no end appends its time to the session's timestamps and keeps the newest 30:
  -- what is kept is an end piece of the longer list, and the whole of it while 30 suffice.
  apply_event-timestamps :
      event.ended ≡ false
      → let before = t.event_timestamps event.session ++ event.ts ∷ [] in
        let after = (after_event now seed event t).event_timestamps event.session in
        (length after ≡ min 30 (length before)) × ((dropped : List ℕ) × (dropped ++ after ≡ before))
  apply_event-timestamps live =
      let before = t.event_timestamps event.session ++ event.ts ∷ [] in
      let t' = store_event (key_of event) event t in
      rw
        (
          apply_event-live now seed event t live,
          timestamps-notes seed (key_of event) event t',
          (store_event-SameNotes (key_of event) event t).event_timestamps,
        )
        (newest max_event_timestamps before)

  -- A finished or waiting event marks its row unseen if it is a seed or its session is not active,
  -- and leaves the mark as it was if not; any other event clears it.
  apply_event-unseen :
      event.ended ≡ false
      → let ukey = unseen_key event.session (key_of event) in
        (after_event now seed event t).unseen ukey ≡ (
          if is_terminal_status event.status || is_waiting event.status
          then seed || not (t.active event.session) || t.unseen ukey
          else false)
  unfolding note_timestamp
  apply_event-unseen live =
      let t' = store_event (key_of event) event t in
      let same = store_event-SameNotes (key_of event) event t in
      rw (
        apply_event-live now seed event t live,
        flag-note_unseen seed (key_of event) event (note_timestamp event t'),
        same.active,
        same.flag,
      )
