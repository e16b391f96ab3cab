-- ===== src/Tracker/Presence/Local.antt =====
-- The local variables of `ApplyPanePresence`. `si` is read from `t.instances` once: it is nil, or
-- the map that the tracker holds, or, after the tracker dropped that map, a map of its own that
-- the tracker does not see.
use tail_claude_mux.Tracker.State.{delete_instance, put_row, rows_of, Tracker, Rows}
use tail_claude_mux.Wire.{AgentEvent}
use tail_claude_mux.Base.{
  text_eq, Text, put, find, option_eq, nat_eq, [], none, Option, ◌||◌, Bool, ℕ,
}

-- `PanePresence`.
pub record PanePresence : Type 0 where
  pub agent : Text
  pub pane_id : Text
  pub pid : ℕ
  pub window_index : Option ℕ
  pub pane_index : Option ℕ
  pub pane_title : Text
  pub thread_id : Text
  pub thread_name : Text

pub data Handle : Type 0 where
  nil : Handle
  shared : Handle
  orphan : Rows → Handle

pub record Fold : Type 0 where
  pub tracker : Tracker
  pub local : Handle
  pub spare_panes : Text → ℕ
  pub claimed : Text → Bool
  pub changed : Bool

unfoldable pub rows_at : Handle → Text → Tracker → Rows
rows_at nil s t = []
rows_at shared s t = rows_of t s
rows_at (orphan m) s t = m

-- What `range si` goes over.
unfoldable pub local_rows : Text → Fold → Rows
unfolding rows_at
local_rows s st = rows_at st.local s st.tracker

-- `si[key] = &ev`, or a write through the pointer that `si` holds.
unfoldable pub put_local : Text → Text → AgentEvent → Fold → Fold
put_local s key ev st = elim st.local [
  | nil ↦ st
  | shared ↦ record st { tracker = put_row s key ev st.tracker }
  | orphan m ↦ record st { local = orphan (put key ev m) }
]

-- `t.deleteInstance(session, key)` while `si` is held: when it drops the session's map, `si` keeps
-- the emptied map.
unfoldable pub handle_after : Handle → Option Rows → Handle
handle_after shared none = orphan []
handle_after h _ = h

unfoldable pub delete_local : Text → Text → Fold → Fold
unfolding handle_after
delete_local s key st =
    let t = delete_instance s key st.tracker in
    record st { tracker = t; local = handle_after st.local (find s t.instances) }

abbrev pub raise : Bool → Fold → Fold
raise b st = record st { changed = st.changed || b }
