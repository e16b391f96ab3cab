-- ===== src/Tracker/State.antt =====
-- The `Tracker` struct of apps/server-go/internal/tracker/tracker.go and the helpers that every
-- operation goes through. `instances` is the map that the operations range over; the others are
-- only read and written at a key, and are functions here, an absent entry being the zero value.
-- The clock and the pid probe are arguments of the operations that read them.
use tail_claude_mux.Base.{
  ℕ, Bool, true, false, Option, none, some, List, [], Text, Map, find, put, remove, text_eq,
  if◌then◌else◌, leb, is_empty, update,
}
use tail_claude_mux.Wire.{AgentEvent}
use tail_claude_mux.Tracker.Keys.{unseen_key, end_suppress_key}

abbrev pub Rows : Type 0
Rows = Map Text AgentEvent

pub record Tracker : Type 0 where
  pub instances : Map Text Rows
  pub event_timestamps : Text → List ℕ
  pub unseen : Text → Bool
  pub active : Text → Bool
  pub pane_misses : Text → ℕ
  pub recently_ended_panes : Text → Option ℕ
  pub miss_threshold : ℕ

-- `New`, with the options' miss threshold.
unfoldable pub new : ℕ → Tracker
new miss_threshold = record {
  instances = [];
  event_timestamps = λ _. [];
  unseen = λ _. false;
  active = λ _. false;
  pane_misses = λ _. 0;
  recently_ended_panes = λ _. none;
  miss_threshold = miss_threshold;
}

-- `t.instances[session]`, with nil as the empty map where it is only read.
unfoldable pub rows_of : Tracker → Text → Rows
rows_of t s = elim (find s t.instances) [ none ↦ [] | some m ↦ m ]

-- `t.instances[session][key]`.
unfoldable pub row : Tracker → Text → Text → Option AgentEvent
unfolding rows_of
row t s k = find k (rows_of t s)

-- `t.instances[session][key] = &ev`, the session's map made if there is none; also a write through
-- the pointer that is stored there.
unfoldable pub put_row : Text → Text → AgentEvent → Tracker → Tracker
unfolding rows_of
put_row s k ev t = record t { instances = put s (put k ev (rows_of t s)) t.instances }

-- `delete(si, key)`, and the session's map with it when nothing is left.
unfoldable pub remove_row : Text → Text → Map Text Rows → Map Text Rows
remove_row s k m = elim (find s m) [
  | none ↦ m
  | some si ↦ let si' = remove k si in if is_empty si' then remove s m else put s si' m
]

unfoldable pub clear_miss_state : Text → Text → Tracker → Tracker
unfolding unseen_key
clear_miss_state s k t = record t { pane_misses = update t.pane_misses (unseen_key s k) 0 }

unfoldable pub delete_instance : Text → Text → Tracker → Tracker
unfolding remove_row clear_miss_state unseen_key
delete_instance s k t = clear_miss_state s k (record t {
  instances = remove_row s k t.instances;
  unseen = update t.unseen (unseen_key s k) false;
})

-- `isPaneEndSuppressed`: an expired entry is dropped.
unfoldable pub is_pane_end_suppressed : ℕ → Text → Text → Text → Tracker → Tracker × Bool
unfolding end_suppress_key
is_pane_end_suppressed now s agent pane_id t =
    let k = end_suppress_key s agent pane_id in
    elim (t.recently_ended_panes k) [
      | none ↦ (t, false)
      | some exp ↦
          if leb exp now
          then (record t { recently_ended_panes = update t.recently_ended_panes k none }, false)
          else (t, true)
    ]
