-- ===== src/Tracker/Presence/Others.antt =====
-- `ApplyPanePresence` and the rows of the other sessions.
use tail_claude_mux.Tracker.Presence.Scan.{apply_pane_presence, begin_fold, bind_panes}
use tail_claude_mux.Tracker.Presence.Bind.{
  bind_pane, bind_to, mint_row, mint_at, minted_row, claim_row, clear_miss, stamp_row,
  retire_others, ensure_map, ensure_at,
}
use tail_claude_mux.Tracker.Presence.Misses.{miss_rows, miss_row, miss, is_active}
use tail_claude_mux.Tracker.Presence.Ghosts.{ghost_rows, is_ghost}
use tail_claude_mux.Tracker.Presence.Frame.{
  others_keep, delete_elsewhere, put_elsewhere, row-clear_miss_state,
}
use tail_claude_mux.Tracker.Keys.{unseen_key, is_synthetic_key}
use tail_claude_mux.Tracker.State.{Rows, is_pane_end_suppressed, row, rows_of, Tracker}
use tail_claude_mux.Wire.{AgentEvent, is_alive, Liveness}
use tail_claude_mux.Tracker.Presence.Local.{
  orphan, shared, nil, delete_local, put_local, local_rows, Handle, PanePresence, Fold,
}
use tail_claude_mux.Tracker.Presence.Match.{Entry}
use tail_claude_mux.Base.{
  ap, put, Text, update, find-put, keys, find, ne→==, ◌==◌, Option-cases, Bool-cases, ltb, arith,
  ◌∷◌, [], List, some, none, Option, ◌||◌, ◌&&◌, not, false, true, Bool, inr, inl, ◌≢◌, ◌∙◌, refl,
  ◌≡◌, ◌+◌, ℕ, nat_eq, text_eq, option_eq,
}

module _ (s s' k' : Text) (apart : (s == s') ≡ false) where
  -- The place that is watched, in a state.
  abbrev there : Fold → Option AgentEvent
  there st = row st.tracker s' k'

  elsewhere : (k : Text) → (s == s' && k == k') ≡ false
  elsewhere k = rw apart refl

  put_local-there :
      (key : Text) (ev : AgentEvent) (st : Fold) → there (put_local s key ev st) ≡ there st
  unfolding put_local
  put_local-there key ev st = go st.local refl
    where
      go : (h : Handle) → st.local ≡ h → there (put_local s key ev st) ≡ there st
      go nil e = rw (put_local, e) refl
      go shared e = rw (put_local, e) (put_elsewhere s key ev st.tracker s' k' (elsewhere key))
      go (orphan m) e = rw (put_local, e) refl

  clear_miss-there : (key : Text) (st : Fold) → there (clear_miss s key st) ≡ there st
  unfolding clear_miss
  clear_miss-there key st = row-clear_miss_state s key st.tracker s' k'

  delete_local-there : (key : Text) (st : Fold) → there (delete_local s key st) ≡ there st
  unfolding delete_local
  delete_local-there key st = delete_elsewhere s key st.tracker s' k' (elsewhere key)

  misses-there :
      (t : Tracker) (f : Text → ℕ) → row (record t { pane_misses = f }) s' k' ≡ row t s' k'
  unfolding row rows_of
  misses-there t f = refl

  miss-there : (key : Text) (ev : AgentEvent) (st : Fold) → there (miss s key ev st) ≡ there st
  unfolding miss
  miss-there key ev st =
      elim (Bool-cases
        (ltb (st.tracker.pane_misses (unseen_key s key) + 1) st.tracker.miss_threshold)) [
          | inl c ↦ rw (miss, c) (misses-there st.tracker _)
          | inr c ↦ elim (Bool-cases (is_synthetic_key key)) [
            | inl d ↦ rw (miss, c, d) (delete_local-there key _ ∙ misses-there st.tracker _)
            | inr d ↦ rw (miss, c, d) (put_local-there key _ _ ∙ misses-there st.tracker _)
          ]
        ]

  miss_row-there :
      (panes : List PanePresence) (key : Text) (ev : AgentEvent) (st : Fold)
      → there (miss_row panes s key ev st) ≡ there st
  unfolding miss_row
  miss_row-there panes key ev st =
      elim (Bool-cases
        (not (is_alive ev.liveness) || ev.pane_id == [] || is_active panes ev.pane_id)) [
          | inl c ↦ rw (miss_row, c) refl
          | inr c ↦ elim (Bool-cases (ltb 0 (st.spare_panes ev.agent))) [
            | inl d ↦ rw (miss_row, c, d) (row-clear_miss_state s key st.tracker s' k')
            | inr d ↦ rw (miss_row, c, d) (miss-there key ev st)
          ]
        ]

  miss_rows-there :
      (panes : List PanePresence) (ks : List Text) (st : Fold)
      → there (miss_rows panes s ks st) ≡ there st
  unfolding miss_rows
  miss_rows-there panes [] st = refl
  miss_rows-there panes (key ∷ ks) st = elim (Option-cases (find key (local_rows s st))) [
    | inl e ↦ rw (miss_rows, e) (miss_rows-there panes ks st)
    | inr (ev, e) ↦
        rw (miss_rows, e)
          (miss_rows-there panes ks (miss_row panes s key ev st) ∙ miss_row-there panes key ev st)
  ]

  ensure_at-there : (h : Handle) (st : Fold) → there (ensure_at h s st) ≡ there st
  unfolding ensure_at row rows_of
  ensure_at-there nil st =
      let p : find s' (put s [] st.tracker.instances) ≡ find s' st.tracker.instances =
        find-put s s' [] st.tracker.instances ∙ rw apart refl in
      ap (λ (o : Option Rows). find k' (elim o [ none ↦ [] | some m ↦ m ])) p
  ensure_at-there shared st = refl
  ensure_at-there (orphan m) st = refl

  module _ (is_pid_alive : ℕ → Bool) (now : ℕ) where
    retire-there :
        (pa : PanePresence) (key : Text) (st : Fold)
        → there (retire_others is_pid_alive s pa key st) ≡ there st
    retire-there pa key st = others_keep is_pid_alive s pa key st s' k' (rw apart refl)

    claim_row-there :
        (pa : PanePresence) (e : Entry) (st : Fold)
        → there (claim_row is_pid_alive s pa e st) ≡ there st
    unfolding claim_row
    claim_row-there pa (key, ev) st =
        retire-there pa key _
        ∙ (clear_miss-there key _
            ∙ put_local-there key (stamp_row pa pa.thread_name ev)
                (record st { claimed = update st.claimed key true }))

    mint_at-there :
        (pa : PanePresence) (key thread_id thread_name : Text) (o : Option AgentEvent) (st : Fold)
        → there (mint_at now s pa key thread_id thread_name o st) ≡ there st
    unfolding mint_at
    mint_at-there pa key thread_id thread_name none st =
        put_local-there key (minted_row now s pa thread_id thread_name) st
    mint_at-there pa key thread_id thread_name (some ev) st =
        clear_miss-there key _
        ∙ put_local-there key (record (stamp_row pa thread_name ev) { pid = pa.pid }) st

    mint_row-there :
        (pa : PanePresence) (st : Fold) → there (mint_row is_pid_alive now s pa st) ≡ there st
    unfolding mint_row
    mint_row-there pa st = retire-there pa _ _ ∙ mint_at-there pa _ _ _ _ st

    suppressed-there :
        (agent pane_id : Text) (t : Tracker)
        → row (is_pane_end_suppressed now s agent pane_id t).0 s' k' ≡ row t s' k'
    unfolding is_pane_end_suppressed row rows_of
    suppressed-there agent pane_id t = ground arith

    bind_to-there :
        (pa : PanePresence) (o : Option Entry) (st : Fold)
        → there (bind_to is_pid_alive now s pa o st) ≡ there st
    unfolding bind_to
    bind_to-there pa (some e) st = claim_row-there pa e st
    bind_to-there pa none st =
        let (t, suppressed) = is_pane_end_suppressed now s pa.agent pa.pane_id st.tracker in
        let first = suppressed-there pa.agent pa.pane_id st.tracker in
        elim (Bool-cases suppressed) [
          | inl c ↦ rw (bind_to, c) first
          | inr c ↦ rw (bind_to, c) (mint_row-there pa (record st { tracker = t }) ∙ first)
        ]

    bind_panes-there :
        (panes : List PanePresence) (st : Fold)
        → there (bind_panes is_pid_alive now s panes st) ≡ there st
    unfolding bind_panes bind_pane ensure_map
    bind_panes-there [] st = refl
    bind_panes-there (pa ∷ panes) st =
        bind_panes-there panes (bind_pane is_pid_alive now s pa st)
        ∙ (bind_to-there pa _ (ensure_map s st) ∙ ensure_at-there st.local st)

    ghost_rows-there : (ks : List Text) (st : Fold) → there (ghost_rows s ks st) ≡ there st
    unfolding ghost_rows
    ghost_rows-there [] st = refl
    ghost_rows-there (key ∷ ks) st = elim (Option-cases (find key (local_rows s st))) [
      | inl e ↦ rw (ghost_rows, e) (ghost_rows-there ks st)
      | inr (ev, e) ↦ elim (Bool-cases (is_ghost st.claimed key ev)) [
        | inl c ↦
            rw (ghost_rows, e, c)
              (ghost_rows-there ks _
                ∙ put_local-there key (record ev { liveness = Liveness.exited }) st)
        | inr c ↦ rw (ghost_rows, e, c) (ghost_rows-there ks st)
      ]
    ]

    scan-there :
        (panes : List PanePresence) (t : Tracker)
        → row (apply_pane_presence is_pid_alive now s panes t).0 s' k' ≡ row t s' k'
    unfolding apply_pane_presence begin_fold
    scan-there panes t =
        let st0 = begin_fold s panes t in
        let st1 = miss_rows panes s (keys (local_rows s st0)) st0 in
        let st2 = bind_panes is_pid_alive now s panes st1 in
        ghost_rows-there (keys (local_rows s st2)) st2
        ∙ (bind_panes-there panes st1 ∙ miss_rows-there panes (keys (local_rows s st0)) st0)

-- A scan of one session's panes leaves every row of the other sessions as it was.
pub apply_pane_presence-other_sessions :
    (is_pid_alive : ℕ → Bool) (now : ℕ) (s : Text) (panes : List PanePresence) (t : Tracker)
    (s' k : Text)
    → s ≢ s'
    → row (apply_pane_presence is_pid_alive now s panes t).0 s' k ≡ row t s' k
apply_pane_presence-other_sessions is_pid_alive now s panes t s' k apart =
    scan-there s s' k (ne→== s s' apart) is_pid_alive now panes t
