-- ===== src/Tracker/Presence/Bound.antt =====
-- What the second step of `ApplyPanePresence` gives a scanned pane.
use tail_claude_mux.Tracker.Keys.{instance_key, synthetic_key}
use tail_claude_mux.Tracker.Presence.Bind.{
  bind_pane, bind_to, mint_row, mint_at, minted_row, claim_row, clear_miss, stamp_row,
  retire_others, mint_thread, mint_key, ensure_map,
}
use tail_claude_mux.Tracker.Presence.Frame.{others_keep, row-clear_miss_state}
use tail_claude_mux.Tracker.State.{is_pane_end_suppressed, row, Rows, Tracker}
use tail_claude_mux.Wire.{AgentEvent, is_alive, Liveness, Status}
use tail_claude_mux.Tracker.Presence.Local.{shared, put_local, local_rows, Fold, PanePresence}
use tail_claude_mux.Tracker.Presence.Match.{Entry, best_match}
use tail_claude_mux.Base.{
  Option-cases, Bool-cases, ◌⊎◌, ◌≢◌, ◌!=◌, ◌==◌, ◌||◌, [], find, ==→eq, ==→ne, if◌then◌else◌, not,
  inr, inl, ap, subst, Text, update, ==_refl, some, none, Option, false, true, Bool, ◌∙◌, refl, ◌≡◌,
  ℕ, nat_eq, text_eq, option_eq,
}
use tail_claude_mux.Tracker.Presence.Attached.{
  is_attached, row-put_local, ensure_at-shared, ensure_at-ended, ensure_at-claimed, suppressed-same,
  suppressed-instances, rows_at-same,
}

-- The row is alive at the pane, with the pane's place and title.
abbrev pub StandsAt : PanePresence → AgentEvent → Type 0
StandsAt pa ev =
    (ev.pane_id ≡ pa.pane_id)
    × (ev.liveness ≡ Liveness.alive)
    × (ev.window_index ≡ pa.window_index)
    × (ev.pane_index ≡ pa.pane_index)
    × (ev.pane_title ≡ pa.pane_title)

-- The row continues an earlier one.
abbrev pub Continues : AgentEvent → AgentEvent → Type 0
Continues old ev =
    (ev.agent ≡ old.agent)
    × (ev.thread_id ≡ old.thread_id)
    × (ev.status ≡ old.status)
    × (ev.ts ≡ old.ts)
    × (ev.unseen ≡ old.unseen)

-- The row under a key of the pane: a new one, or the one that had the key.
abbrev pub MadeFrom : ℕ → PanePresence → Text → Option AgentEvent → AgentEvent → Type 0
MadeFrom now pa thread_id none ev =
    (ev.agent ≡ pa.agent)
    × (ev.thread_id ≡ thread_id)
    × (ev.status ≡ Status.idle)
    × (ev.ts ≡ now)
    × (ev.unseen ≡ false)
MadeFrom now pa thread_id (some old) ev = Continues old ev

-- The key that a pane makes a row under: by its thread, if it has one, or by the pane.
abbrev pub KeyOf : PanePresence → Text → Text → Type 0
KeyOf pa thread_id key =
    ((thread_id ≢ []) × (thread_id ≡ pa.thread_id) × (key ≡ instance_key pa.agent pa.thread_id))
    ⊎ ((thread_id ≡ []) × (key ≡ synthetic_key pa.agent pa.pane_id))

-- Where the pane's row comes from: it was the best match of the pane and keeps its key and process,
-- or it has the pane's process, under a key of the pane.
abbrev pub ComesFrom : ℕ → PanePresence → Rows → Option Entry → Text → AgentEvent → Type 0
ComesFrom now pa m (some (k, old)) key ev = (key ≡ k) × (ev.pid ≡ old.pid) × Continues old ev
ComesFrom now pa m none key ev =
    (thread_id : Text) × KeyOf pa thread_id key
    × (ev.pid ≡ pa.pid)
    × MadeFrom now pa thread_id (find key m) ev

-- A row of the session stands at the pane, and comes from its match or its key.
abbrev pub HasRow : ℕ → Text → PanePresence → Rows → Option Entry → Tracker → Type 0
HasRow now s pa m best t =
    (key : Text) × (ev : AgentEvent) × (row t s key ≡ some ev)
    × StandsAt pa ev
    × ComesFrom now pa m best key ev

module _ (is_pid_alive : ℕ → Bool) (now : ℕ) (s : Text) (pa : PanePresence) where
  -- A row that was written is still there after the sweeps that keep its key.
  written_kept :
      (key : Text) (ev : AgentEvent) (st : Fold)
      → st.local ≡ shared
      → row
          (retire_others is_pid_alive s pa key (clear_miss s key (put_local s key ev st))).tracker
          s
          key
        ≡ some ev
  unfolding clear_miss
  written_kept key ev st h =
      others_keep is_pid_alive s pa key (clear_miss s key (put_local s key ev st)) s key
        (rw (==_refl s, ==_refl key) refl)
      ∙ (row-clear_miss_state s key (put_local s key ev st).tracker s key
          ∙ row-put_local s key ev st h)

  claim_row-HasRow :
      (e : Entry) (m : Rows) (st : Fold)
      → st.local ≡ shared
      → HasRow now s pa m (some e) (claim_row is_pid_alive s pa e st).tracker
  unfolding claim_row stamp_row
  claim_row-HasRow (key, ev) m st h = (
    key,
    stamp_row pa pa.thread_name ev,
    written_kept key (stamp_row pa pa.thread_name ev)
        (record st { claimed = update st.claimed key true }) h,
    (refl, refl, refl, refl, refl),
    (refl, refl, (refl, refl, refl, refl, refl)),
  )

  -- The row that is written under the key.
  abbrev mint_of : Text → Text → Option AgentEvent → AgentEvent
  mint_of thread_id thread_name none = minted_row now s pa thread_id thread_name
  mint_of thread_id thread_name (some ev) = record (stamp_row pa thread_name ev) { pid = pa.pid }

  mint_at-row :
      (key thread_id thread_name : Text) (o : Option AgentEvent) (st : Fold)
      → st.local ≡ shared
      → row
          (retire_others is_pid_alive s pa key
            (mint_at now s pa key thread_id thread_name o st)).tracker
          s
          key
        ≡ some (mint_of thread_id thread_name o)
  unfolding mint_at clear_miss
  mint_at-row key thread_id thread_name none st h =
      others_keep is_pid_alive s pa key (mint_at now s pa key thread_id thread_name none st) s key
        (rw (==_refl s, ==_refl key) refl)
      ∙ row-put_local s key (minted_row now s pa thread_id thread_name) st h
  mint_at-row key thread_id thread_name (some ev) st h =
      others_keep is_pid_alive s pa key (mint_at now s pa key thread_id thread_name (some ev) st) s
        key (rw (==_refl s, ==_refl key) refl)
      ∙ (row-clear_miss_state s key
            (put_local s key (record (stamp_row pa thread_name ev) { pid = pa.pid }) st).tracker s
            key
          ∙ row-put_local s key (record (stamp_row pa thread_name ev) { pid = pa.pid }) st h)

  mint_of-StandsAt :
      (thread_id thread_name : Text) (o : Option AgentEvent)
      → StandsAt pa (mint_of thread_id thread_name o)
  unfolding stamp_row minted_row
  mint_of-StandsAt thread_id thread_name none = (refl, refl, refl, refl, refl)
  mint_of-StandsAt thread_id thread_name (some ev) = (refl, refl, refl, refl, refl)

  mint_of-pid :
      (thread_id thread_name : Text) (o : Option AgentEvent)
      → (mint_of thread_id thread_name o).pid ≡ pa.pid
  unfolding minted_row
  mint_of-pid thread_id thread_name none = refl
  mint_of-pid thread_id thread_name (some ev) = refl

  mint_of-MadeFrom :
      (thread_id thread_name : Text) (o : Option AgentEvent)
      → MadeFrom now pa thread_id o (mint_of thread_id thread_name o)
  unfolding stamp_row minted_row
  mint_of-MadeFrom thread_id thread_name none = (refl, refl, refl, refl, refl)
  mint_of-MadeFrom thread_id thread_name (some ev) = (refl, refl, refl, refl, refl)

  -- The thread that a row is made for is the pane's, or none.
  mint_thread-cases : (m : Rows) → (mint_thread pa m ≡ []) ⊎ (mint_thread pa m ≡ pa.thread_id)
  unfolding mint_thread
  mint_thread-cases m = elim (Bool-cases (pa.thread_id != [])) [
    | inr e ↦ inl (rw (mint_thread, e) refl)
    | inl e ↦ elim (Option-cases (find (instance_key pa.agent pa.thread_id) m)) [
      | inl f ↦ inr (rw (mint_thread, e, f) refl)
      | inr (held, f) ↦
          elim (Bool-cases (held.pid == 0 || held.pid == pa.pid || not (is_alive held.liveness))) [
            | inl g ↦ inr (rw (mint_thread, e, f, g) refl)
            | inr g ↦ inl (rw (mint_thread, e, f, g) refl)
          ]
    ]
  ]

  mint_key-KeyOf :
      (thread_id : Text)
      → (thread_id ≡ []) ⊎ (thread_id ≡ pa.thread_id)
      → KeyOf pa thread_id (mint_key pa thread_id)
  unfolding mint_key
  mint_key-KeyOf thread_id c = elim (Bool-cases (thread_id == [])) [
    | inl e ↦ inr (==→eq thread_id [] e, rw (mint_key, e) refl)
    | inr e ↦ elim c [
      | inl z ↦ absurd (==→ne thread_id [] e z)
      | inr q ↦ inl (==→ne thread_id [] e, q, rw (mint_key, e) (ap (instance_key pa.agent) q))
    ]
  ]

  mint_row-HasRow :
      (st : Fold)
      → st.local ≡ shared
      → HasRow now s pa (local_rows s st) none (mint_row is_pid_alive now s pa st).tracker
  unfolding mint_row
  mint_row-HasRow st h =
      let m = local_rows s st in
      let thread_id = mint_thread pa m in
      let thread_name = if thread_id != [] then pa.thread_name else [] in
      let key = mint_key pa thread_id in
      let o = find key m in
      (
        key,
        mint_of thread_id thread_name o,
        mint_at-row key thread_id thread_name o st h,
        mint_of-StandsAt thread_id thread_name o,
        (
          thread_id,
          mint_key-KeyOf thread_id (mint_thread-cases m),
          mint_of-pid thread_id thread_name o,
          mint_of-MadeFrom thread_id thread_name o,
        ),
      )

  bind_to-HasRow :
      (o : Option Entry) (st : Fold)
      → st.local ≡ shared
      → (is_pane_end_suppressed now s pa.agent pa.pane_id st.tracker).1 ≡ false
      → HasRow now s pa (local_rows s st) o (bind_to is_pid_alive now s pa o st).tracker
  unfolding bind_to local_rows
  bind_to-HasRow (some e) st h g = claim_row-HasRow e (local_rows s st) st h
  bind_to-HasRow none st h g =
      let t = (is_pane_end_suppressed now s pa.agent pa.pane_id st.tracker).0 in
      let st' = record st { tracker = t } in
      let same : local_rows s st' ≡ local_rows s st =
        rows_at-same s st.local t st.tracker
          (suppressed-instances now s pa.agent pa.pane_id st.tracker) in
      rw g (
        subst (λ m. HasRow now s pa m none (mint_row is_pid_alive now s pa st').tracker) same
          (mint_row-HasRow st' h))

  -- A scanned pane that is not suppressed gets a row that is alive at it, with its window, index and
  -- title, as long as the local map is nil or the tracker's. If a row is the pane's best match, it is
  -- that one, under its key and with its process. Otherwise it has the pane's process and stands
  -- under a key by the pane's agent and its thread, or by the agent and the pane: the row that had
  -- this key, or an idle new one of that agent and thread, from now.
  pub bind_pane-HasRow :
      (st : Fold)
      → is_attached st.local ≡ true
      → (is_pane_end_suppressed now s pa.agent pa.pane_id st.tracker).1 ≡ false
      → let m = local_rows s (ensure_map s st) in
        HasRow now s pa m
          (best_match pa st.claimed none none m)
          (bind_pane is_pid_alive now s pa st).tracker
  unfolding bind_pane ensure_map
  bind_pane-HasRow st h g =
      let st' = ensure_map s st in
      let m = local_rows s st' in
      subst
        (λ c.
          HasRow now s pa m (best_match pa c none none m)
            (bind_pane is_pid_alive now s pa st).tracker)
        (ensure_at-claimed s st.local st)
        (bind_to-HasRow (best_match pa st'.claimed none none m) st'
          (ensure_at-shared s st.local st refl h)
          (suppressed-same now s pa.agent pa.pane_id st'.tracker st.tracker
              (ensure_at-ended s st.local st)
            ∙ g))
