-- ===== src/Tests/Panes.antt =====
-- Scans of apps/server-go/internal/tracker/tracker.go.
use tail_claude_mux.Tracker.Presence.Others.{apply_pane_presence-other_sessions}
use tail_claude_mux.Tracker.Presence.Bind.{bind_pane, ensure_map}
use tail_claude_mux.Tracker.Presence.Match.{best_match}
use tail_claude_mux.Tracker.Presence.Bound.{bind_pane-HasRow, HasRow}
use tail_claude_mux.Tracker.Presence.Scan.{apply_pane_presence}
use tail_claude_mux.Tracker.Presence.Loss.{apply_pane_presence-loses_rows}
use tail_claude_mux.Tracker.Presence.Local.{local_rows, Fold, Handle, PanePresence}
use tail_claude_mux.Tracker.Keys.{is_synthetic_key}
use tail_claude_mux.Tracker.State.{is_pane_end_suppressed, row, new, Tracker}
use tail_claude_mux.Wire.{AgentEvent, Liveness, Status}
use tail_claude_mux.Base.{
  contains_text, has_prefix, text_beq, codes, Text, find, ==→ne, arith, ◌∷◌, [], some, none, false,
  true, refl, ◌≡◌, nat_eq, text_eq, option_eq,
}

abbrev work : Text
work = codes "work"

abbrev lone_row : AgentEvent
lone_row = record {
  agent = codes "amp";
  session = work;
  status = Status.idle;
  ts = 100;
  first_seen_ts = 0;
  thread_id = [];
  thread_name = [];
  unseen = false;
  pane_id = codes "%1";
  window_index = none;
  pane_index = none;
  liveness = Liveness.alive;
  pid = 7;
  tool_description = [];
  tool_verb = [];
  tool_invoked = false;
  thinking_blocks = 0;
  pane_title = [];
  subagent = [];
  ended = false;
}

-- The pane is missing for the second time.
abbrev lone : Tracker
lone = record (new 2) {
  instances = (work, (codes "amp:pane:%1", lone_row) ∷ []) ∷ [];
  pane_misses = λ _. 1;
}

-- The pane of an agent that has just started.
abbrev started : PanePresence
started = record {
  agent = codes "codex";
  pane_id = codes "%2";
  pid = 8;
  window_index = some 0;
  pane_index = some 1;
  pane_title = [];
  thread_id = [];
  thread_name = [];
}

apply_pane_presence-loses_rows_example :
    row
      (apply_pane_presence (λ _. true) 500 work (started ∷ []) lone).0
      work
      (codes "codex:pane:%2")
    ≡ none
unfolding find text_beq is_synthetic_key contains_text has_prefix new
apply_pane_presence-loses_rows_example =
    apply_pane_presence-loses_rows (λ _. true) 500 work (started ∷ []) lone (codes "amp:pane:%1")
      lone_row (codes "codex:pane:%2") refl refl refl (==→ne lone_row.pane_id [] refl) refl refl
      (omega arith)

abbrev elsewhere : Tracker
elsewhere = record lone { instances = (codes "home", (codes "amp:pane:%1", lone_row) ∷ []) ∷ [] }

apply_pane_presence-other_sessions_example :
    row
      (apply_pane_presence (λ _. true) 500 work (started ∷ []) elsewhere).0
      (codes "home")
      (codes "amp:pane:%1")
    ≡ row elsewhere (codes "home") (codes "amp:pane:%1")
unfolding text_beq
apply_pane_presence-other_sessions_example =
    apply_pane_presence-other_sessions (λ _. true) 500 work (started ∷ []) elsewhere (codes "home")
      (codes "amp:pane:%1") (==→ne work (codes "home") refl)

abbrev first_state : Fold
first_state = record {
  tracker = lone;
  local = Handle.shared;
  spare_panes = λ _. 0;
  claimed = λ _. false;
  changed = false;
}

bind_pane-HasRow_example :
    let m = local_rows work (ensure_map work first_state) in
    HasRow 500 work started m
      (best_match started first_state.claimed none none m)
      (bind_pane (λ _. true) 500 work started first_state).tracker
unfolding is_pane_end_suppressed new
bind_pane-HasRow_example = bind_pane-HasRow (λ _. true) 500 work started first_state refl refl

-- The process has a row by its thread, and its row by the pane is swept.
