-- ===== src/Tracker/Presence/Ghosts.antt =====
-- Step 3 of `ApplyPanePresence`: seed entries that no pane claimed.
use tail_claude_mux.Tracker.Presence.Local.{raise, put_local, local_rows, Fold}
use tail_claude_mux.Tracker.Keys.{is_synthetic_key}
use tail_claude_mux.Wire.{AgentEvent, is_unset, is_terminal_status, is_waiting, is_idle, Liveness}
use tail_claude_mux.Base.{
  text_eq, Text, find, option_eq, nat_eq, if◌then◌else◌, ◌∷◌, [], List, some, none, ◌||◌, ◌&&◌, not,
  true, Bool,
}

unfoldable pub is_ghost : (Text → Bool) → Text → AgentEvent → Bool
is_ghost claimed key ev =
    not (claimed key || is_synthetic_key key || not (is_unset ev.liveness))
    && (is_terminal_status ev.status || is_idle ev.status || is_waiting ev.status)

unfoldable ghost_row : Text → Text → AgentEvent → Fold → Fold
unfolding is_ghost
ghost_row s key ev st =
    if is_ghost st.claimed key ev
    then raise true (put_local s key (record ev { liveness = Liveness.exited }) st)
    else st

unfoldable pub ghost_rows : Text → List Text → Fold → Fold
unfolding ghost_row
ghost_rows s [] st = st
ghost_rows s (key ∷ ks) st =
    ghost_rows s ks
      (elim (find key (local_rows s st)) [ none ↦ st | some ev ↦ ghost_row s key ev st ])
