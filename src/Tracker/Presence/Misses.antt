-- ===== src/Tracker/Presence/Misses.antt =====
-- Step 1 of `ApplyPanePresence`: rows whose pane is not in the scan.
use tail_claude_mux.Tracker.Presence.Local.{
  raise, delete_local, put_local, local_rows, Fold, PanePresence,
}
use tail_claude_mux.Tracker.Keys.{unseen_key, is_synthetic_key}
use tail_claude_mux.Tracker.State.{clear_miss_state, Rows}
use tail_claude_mux.Wire.{AgentEvent, is_alive, Liveness}
use tail_claude_mux.Base.{
  text_eq, Text, any, update, find, option_eq, nat_eq, ◌!=◌, ◌==◌, if◌then◌else◌, ltb, ◌∷◌, [],
  List, some, none, ◌||◌, ◌&&◌, not, true, Bool, ◌-◌, ◌+◌, ℕ,
}

-- `activePaneIDs[paneID]`.
abbrev pub is_active : List PanePresence → Text → Bool
is_active panes pane_id = any (λ pa. pa.pane_id == pane_id) panes

-- `bound[paneID]`: an alive row of the session holds the pane.
unfoldable is_bound : Rows → Text → Bool
is_bound m pane_id =
    any (λ e. is_alive e.1.liveness && (e.1.pane_id != [] && e.1.pane_id == pane_id)) m

-- `sparePanes`: how many incoming panes of each agent no alive row holds.
unfoldable pub count_spare : Rows → List PanePresence → Text → ℕ
unfolding is_bound
count_spare m [] agent = 0
count_spare m (pa ∷ panes) agent =
    let rest = count_spare m panes agent in
    if not (is_bound m pa.pane_id) && pa.agent == agent then rest + 1 else rest

-- A row whose pane is missing once more.
unfoldable pub miss : Text → Text → AgentEvent → Fold → Fold
miss s key ev st =
    let t = st.tracker in
    let ukey = unseen_key s key in
    let misses = t.pane_misses ukey + 1 in
    if ltb misses t.miss_threshold
    then record st { tracker = record t { pane_misses = update t.pane_misses ukey misses } }
    else let st' = record st { tracker = record t { pane_misses = update t.pane_misses ukey 0 } } in
      raise true (
        if is_synthetic_key key
        then delete_local s key st'
        else put_local s key (record ev { liveness = Liveness.exited; pane_id = [] }) st')

unfoldable pub miss_row : List PanePresence → Text → Text → AgentEvent → Fold → Fold
unfolding miss
miss_row panes s key ev st =
    if not (is_alive ev.liveness) || ev.pane_id == [] || is_active panes ev.pane_id
    then st
    else if ltb 0 (st.spare_panes ev.agent)
    then record st {
      tracker = clear_miss_state s key st.tracker;
      spare_panes = update st.spare_panes ev.agent (st.spare_panes ev.agent - 1);
    }
    else miss s key ev st

unfoldable pub miss_rows : List PanePresence → Text → List Text → Fold → Fold
unfolding miss_row
miss_rows panes s [] st = st
miss_rows panes s (key ∷ ks) st =
    miss_rows panes s ks
      (elim (find key (local_rows s st)) [ none ↦ st | some ev ↦ miss_row panes s key ev st ])
