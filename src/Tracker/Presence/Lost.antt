-- ===== src/Tracker/Presence/Lost.antt =====
-- The first step of `ApplyPanePresence`, when it removes the session's last row.
use tail_claude_mux.Tracker.Presence.Scan.{begin_fold}
use tail_claude_mux.Tracker.Presence.Misses.{miss_row, miss, miss_rows, count_spare, is_active}
use tail_claude_mux.Tracker.Keys.{unseen_key, is_synthetic_key}
use tail_claude_mux.Tracker.Presence.Bind.{clear_miss}
use tail_claude_mux.Tracker.Presence.Retire.{retire_displaced_pane_rows, retire_superseded_pid_rows}
use tail_claude_mux.Tracker.Presence.Local.{
  shared, delete_local, handle_after, rows_at, local_rows, orphan, raise, put_local, Fold,
  PanePresence,
}
use tail_claude_mux.Tracker.State.{
  delete_instance, remove_row, row, clear_miss_state, rows_of, Tracker, Rows,
}
use tail_claude_mux.Tracker.Loop.{for_rows}
use tail_claude_mux.Wire.{Liveness, AgentEvent}
use tail_claude_mux.Base.{
  subst, sym, ne→==, ltb, find-remove, ◌∙◌, keys, remove, ==_refl, any, ◌==◌, ◌∷◌, List, false, ◌≢◌,
  ap, ◌≤◌, ◌+◌, arith, some, true, text_eq, Text, put, find, option_eq, nat_eq, [], none, Bool,
  refl, ◌≡◌, ℕ,
}

-- The tracker holds no map for the session, and the local map is not one of its own.
pub record Lost (s : Text) (st : Fold) : Type 0 where
  pub absent : find s st.tracker.instances ≡ none
  pub orphaned : (m : Rows) × (st.local ≡ orphan m)

rows_of-absent : (s : Text) (t : Tracker) → find s t.instances ≡ none → rows_of t s ≡ []
unfolding rows_of
rows_of-absent s t h = rw (h, rows_of)

pub put_local-Lost :
    (s key : Text) (ev : AgentEvent) (st : Fold) → Lost s st → Lost s (put_local s key ev st)
unfolding put_local
put_local-Lost s key ev st h =
    let (m, e) = h.orphaned in
    rw (e, put_local) (record { absent = h.absent; orphaned = (put key ev m, refl) })

pub clear_miss-Lost : (s key : Text) (st : Fold) → Lost s st → Lost s (clear_miss s key st)
unfolding clear_miss clear_miss_state
clear_miss-Lost s key st h = record { absent = h.absent; orphaned = h.orphaned }

pub raise-Lost : (s : Text) (b : Bool) (st : Fold) → Lost s st → Lost s (raise b st)
raise-Lost s b st h = record { absent = h.absent; orphaned = h.orphaned }

pub superseded-absent :
    (s agent key : Text) (pid : ℕ) (t : Tracker)
    → find s t.instances ≡ none
    → (retire_superseded_pid_rows s agent key pid t).tracker ≡ t
unfolding retire_superseded_pid_rows for_rows
superseded-absent s agent key pid t h = rw (rows_of-absent s t h) (ground arith)

pub displaced-absent :
    (is_pid_alive : ℕ → Bool) (s agent key pane_id : Text) (pid : ℕ) (t : Tracker)
    → find s t.instances ≡ none
    → (retire_displaced_pane_rows is_pid_alive s agent key pane_id pid t).tracker ≡ t
unfolding retire_displaced_pane_rows for_rows
displaced-absent is_pid_alive s agent key pane_id pid t h = rw (rows_of-absent s t h) (ground arith)

pub row-absent : (s k : Text) (t : Tracker) → find s t.instances ≡ none → row t s k ≡ none
unfolding row find
row-absent s k t h = rw (rows_of-absent s t h)

last_row-gone :
    (s key : Text) (ev : AgentEvent) (t : Tracker)
    → find s t.instances ≡ some ((key, ev) ∷ [])
    → find s (delete_instance s key t).instances ≡ none
unfolding delete_instance remove
last_row-gone s key ev t h =
    rw (h, remove_row, ==_refl key) (find-remove s s t.instances ∙ rw (==_refl s))

no_spare :
    (m : Rows) (panes : List PanePresence) (agent : Text)
    → any (λ pa. pa.agent == agent) panes ≡ false
    → count_spare m panes agent ≡ 0
unfolding count_spare
no_spare m [] agent h = refl
no_spare m (pa ∷ panes) agent h = ground (arith, no_spare m panes agent)

delete_local-Lost :
    (s key : Text) (ev : AgentEvent) (st : Fold)
    → find s st.tracker.instances ≡ some ((key, ev) ∷ [])
    → st.local ≡ shared
    → Lost s (delete_local s key st)
unfolding delete_local handle_after
delete_local-Lost s key ev st h e =
    let g = last_row-gone s key ev st.tracker h in
    record { absent = g; orphaned = ([], rw (e, g, handle_after)) }

miss-Lost :
    (s key : Text) (ev : AgentEvent) (st : Fold)
    → find s st.tracker.instances ≡ some ((key, ev) ∷ [])
    → st.local ≡ shared
    → is_synthetic_key key ≡ true
    → ltb (st.tracker.pane_misses (unseen_key s key) + 1) st.tracker.miss_threshold ≡ false
    → Lost s (miss s key ev st)
unfolding miss
miss-Lost s key ev st h e synthetic last =
    rw (last, synthetic) (raise-Lost s true _ (delete_local-Lost s key ev _ h e))

miss_row-Lost :
    (panes : List PanePresence) (s key : Text) (ev : AgentEvent) (st : Fold)
    → Lost s (miss s key ev st)
    → ev.liveness ≡ Liveness.alive
    → (ev.pane_id == []) ≡ false
    → is_active panes ev.pane_id ≡ false
    → st.spare_panes ev.agent ≡ 0
    → Lost s (miss_row panes s key ev st)
unfolding miss_row
miss_row-Lost panes s key ev st h live bound missing none_spare =
    rw (live, bound, missing, none_spare) h

-- The first state, when the tracker holds a map for the session.
abbrev opened : List PanePresence → Rows → Tracker → Fold
opened panes m t = record {
  tracker = t;
  local = shared;
  spare_panes = count_spare m panes;
  claimed = λ _. false;
  changed = false;
}

begin_fold-opened :
    (s : Text) (panes : List PanePresence) (t : Tracker) (m : Rows)
    → find s t.instances ≡ some m
    → begin_fold s panes t ≡ opened panes m t
unfolding begin_fold
begin_fold-opened s panes t m h = rw h refl

local_rows-opened :
    (s : Text) (panes : List PanePresence) (t : Tracker) (m : Rows)
    → find s t.instances ≡ some m
    → local_rows s (opened panes m t) ≡ m
unfolding local_rows rows_at rows_of find
local_rows-opened s panes t m h = rw h refl

find-single : (key : Text) (ev : AgentEvent) → find key ((key, ev) ∷ []) ≡ some ev
unfolding find
find-single key ev = rw (==_refl key) refl

miss_rows-single :
    (s : Text) (panes : List PanePresence) (key : Text) (ev : AgentEvent) (st : Fold)
    → find key (local_rows s st) ≡ some ev
    → miss_rows panes s (key ∷ []) st ≡ miss_row panes s key ev st
unfolding miss_rows
miss_rows-single s panes key ev st h = rw (miss_rows, h) refl

-- The state at the end of the first step.
pub missed-Lost :
    (s : Text) (panes : List PanePresence) (t : Tracker) (key : Text) (ev : AgentEvent)
    → find s t.instances ≡ some ((key, ev) ∷ [])
    → is_synthetic_key key ≡ true
    → ev.liveness ≡ Liveness.alive
    → ev.pane_id ≢ []
    → is_active panes ev.pane_id ≡ false
    → any (λ pa. pa.agent == ev.agent) panes ≡ false
    → t.miss_threshold ≤ t.pane_misses (unseen_key s key) + 1
    → Lost s (miss_rows panes s (keys (local_rows s (begin_fold s panes t))) (begin_fold s panes t))
missed-Lost s panes t key ev at_session synthetic live bound missing none_spare last =
    let m = (key, ev) ∷ [] in
    let st = opened panes m t in
    let missed =
      miss_row-Lost panes s key ev st
        (miss-Lost s key ev st at_session refl synthetic (ground arith)) live
        (ne→== ev.pane_id [] bound) missing (no_spare m panes ev.agent none_spare) in
    let rows = local_rows-opened s panes t m at_session in
    let found = ap (find key) rows ∙ find-single key ev in
    let stepped = miss_rows-single s panes key ev st found in
    let single : Lost s (miss_rows panes s (keys m) st) = subst (Lost s) (sym stepped) missed in
    let from_rows = subst (λ x. Lost s (miss_rows panes s (keys x) st)) (sym rows) single in
    subst (λ x. Lost s (miss_rows panes s (keys (local_rows s x)) x))
      (sym (begin_fold-opened s panes t m at_session)) from_rows
