-- ===== src/Tracker/Presence/Loss.antt =====
-- `ApplyPanePresence` of apps/server-go/internal/tracker/tracker.go when its first step removes the
-- session's last row.
use tail_claude_mux.Tracker.Presence.Lost.{
  missed-Lost, row-absent, displaced-absent, superseded-absent, raise-Lost, clear_miss-Lost,
  put_local-Lost, Lost,
}
use tail_claude_mux.Tracker.Presence.Scan.{begin_fold, apply_pane_presence, bind_panes}
use tail_claude_mux.Tracker.Presence.Misses.{miss_rows, is_active}
use tail_claude_mux.Tracker.Presence.Ghosts.{ghost_rows, is_ghost}
use tail_claude_mux.Tracker.Presence.Match.{Entry}
use tail_claude_mux.Tracker.Keys.{unseen_key, is_synthetic_key, end_suppress_key}
use tail_claude_mux.Tracker.Presence.Bind.{
  bind_to, ensure_at, bind_pane, mint_row, mint_at, minted_row, claim_row, stamp_row, differs,
  ensure_map, retire_others,
}
use tail_claude_mux.Tracker.Presence.Local.{local_rows, Fold, PanePresence}
use tail_claude_mux.Tracker.State.{row, is_pane_end_suppressed, Tracker}
use tail_claude_mux.Wire.{Liveness, AgentEvent}
use tail_claude_mux.Base.{
  keys, any, ◌==◌, Bool-cases, leb, ◌∷◌, List, false, ◌≢◌, ap, ◌≤◌, ◌+◌, update, ◌!=◌, Option-cases,
  some, Option, ◌||◌, true, inr, inl, text_eq, Text, find, option_eq, nat_eq, [], none, Bool, ◌≡◌,
  ℕ,
}

module _ (is_pid_alive : ℕ → Bool) (now : ℕ) (s : Text) where
  retire_others-Lost :
      (pa : PanePresence) (key : Text) (st : Fold)
      → Lost s st
      → Lost s (retire_others is_pid_alive s pa key st)
  unfolding retire_others
  retire_others-Lost pa key st h = record {
    absent =
        rw
          (
            superseded-absent s pa.agent key pa.pid st.tracker h.absent,
            displaced-absent is_pid_alive s pa.agent key pa.pane_id pa.pid st.tracker h.absent,
          )
          h.absent;
    orphaned = h.orphaned;
  }

  claim_row-Lost :
      (pa : PanePresence) (e : Entry) (st : Fold)
      → Lost s st
      → Lost s (claim_row is_pid_alive s pa e st)
  unfolding claim_row
  claim_row-Lost pa (key, ev) st h =
      let st' = record st { claimed = update st.claimed key true } in
      let h' : Lost s st' = record { absent = h.absent; orphaned = h.orphaned } in
      raise-Lost s (differs pa pa.thread_name ev) _ (
        retire_others-Lost pa key _
          (clear_miss-Lost s key _ (put_local-Lost s key (stamp_row pa pa.thread_name ev) st' h')))

  mint_at-Lost :
      (pa : PanePresence) (key thread_id thread_name : Text) (o : Option AgentEvent) (st : Fold)
      → Lost s st
      → Lost s (mint_at now s pa key thread_id thread_name o st)
  unfolding mint_at
  mint_at-Lost pa key thread_id thread_name none st h =
      raise-Lost s true _ (put_local-Lost s key (minted_row now s pa thread_id thread_name) st h)
  mint_at-Lost pa key thread_id thread_name (some ev) st h =
      raise-Lost s (differs pa thread_name ev || ev.pid != pa.pid) _ (
        clear_miss-Lost s key _
          (put_local-Lost s key (record (stamp_row pa thread_name ev) { pid = pa.pid }) st h))

  mint_row-Lost :
      (pa : PanePresence) (st : Fold) → Lost s st → Lost s (mint_row is_pid_alive now s pa st)
  unfolding mint_row
  mint_row-Lost pa st h = retire_others-Lost pa _ _ (mint_at-Lost pa _ _ _ _ st h)

  suppressed-instances :
      (agent pane_id : Text) (t : Tracker)
      → (is_pane_end_suppressed now s agent pane_id t).0.instances ≡ t.instances
  unfolding is_pane_end_suppressed
  suppressed-instances agent pane_id t =
      elim (Option-cases (t.recently_ended_panes (end_suppress_key s agent pane_id))) [
        | inl e ↦ rw (e, is_pane_end_suppressed)
        | inr (exp, e) ↦ elim (Bool-cases (leb exp now)) [
          | inl c ↦ rw (e, is_pane_end_suppressed, c)
          | inr c ↦ rw (e, is_pane_end_suppressed, c)
        ]
      ]

  ensure_map-Lost : (st : Fold) → Lost s st → ensure_map s st ≡ st
  unfolding ensure_map
  ensure_map-Lost st h = let (m, e) = h.orphaned in ap (λ x. ensure_at x s st) e

  bind_to-Lost :
      (pa : PanePresence) (o : Option Entry) (st : Fold)
      → Lost s st
      → Lost s (bind_to is_pid_alive now s pa o st)
  unfolding bind_to
  bind_to-Lost pa (some e) st h = claim_row-Lost pa e st h
  bind_to-Lost pa none st h =
      let (t, suppressed) = is_pane_end_suppressed now s pa.agent pa.pane_id st.tracker in
      let h' : Lost s (record st { tracker = t }) = record {
        absent = rw (suppressed-instances pa.agent pa.pane_id st.tracker) h.absent;
        orphaned = h.orphaned;
      } in
      elim (Bool-cases suppressed) [
        | inl c ↦ rw c h'
        | inr c ↦ rw c (mint_row-Lost pa (record st { tracker = t }) h')
      ]

  bind_pane-Lost :
      (pa : PanePresence) (st : Fold) → Lost s st → Lost s (bind_pane is_pid_alive now s pa st)
  unfolding bind_pane
  bind_pane-Lost pa st h = bind_to-Lost pa _ (ensure_map s st) (rw (ensure_map-Lost st h) h)

  bind_panes-Lost :
      (panes : List PanePresence) (st : Fold)
      → Lost s st
      → Lost s (bind_panes is_pid_alive now s panes st)
  unfolding bind_panes
  bind_panes-Lost [] st h = h
  bind_panes-Lost (pa ∷ panes) st h = bind_panes-Lost panes _ (bind_pane-Lost pa st h)

  ghost_rows-Lost : (ks : List Text) (st : Fold) → Lost s st → Lost s (ghost_rows s ks st)
  unfolding ghost_rows
  ghost_rows-Lost [] st h = h
  ghost_rows-Lost (key ∷ ks) st h =
      ghost_rows-Lost ks _ (elim (Option-cases (find key (local_rows s st))) [
        | inl e ↦ rw e h
        | inr (ev, e) ↦ rw e (elim (Bool-cases (is_ghost st.claimed key ev)) [
          | inl c ↦ rw c (
              raise-Lost s true _
                (put_local-Lost s key (record ev { liveness = Liveness.exited }) st h))
          | inr c ↦ rw c h
        ])
      ])

  -- When the session's only row is an alive synthetic one whose pane is missing for the last time
  -- that the threshold allows, and no scanned pane is of its agent, the scan leaves the session
  -- with no row at all, whatever panes were scanned.
  pub apply_pane_presence-loses_rows :
      (panes : List PanePresence) (t : Tracker) (key : Text) (ev : AgentEvent) (k : Text)
      → find s t.instances ≡ some ((key, ev) ∷ [])
      → is_synthetic_key key ≡ true
      → ev.liveness ≡ Liveness.alive
      → ev.pane_id ≢ []
      → is_active panes ev.pane_id ≡ false
      → any (λ pa. pa.agent == ev.agent) panes ≡ false
      → t.miss_threshold ≤ t.pane_misses (unseen_key s key) + 1
      → row (apply_pane_presence is_pid_alive now s panes t).0 s k ≡ none
  unfolding apply_pane_presence
  apply_pane_presence-loses_rows panes t key ev k at_session synthetic live bound missing none_spare
        last =
      let st1 =
        miss_rows panes s (keys (local_rows s (begin_fold s panes t))) (begin_fold s panes t) in
      let lost : Lost s st1 =
        missed-Lost s panes t key ev at_session synthetic live bound missing none_spare last in
      let st2 = bind_panes is_pid_alive now s panes st1 in
      let end_lost =
        ghost_rows-Lost (keys (local_rows s st2)) st2 (bind_panes-Lost panes st1 lost) in
      row-absent s k _ end_lost.absent
