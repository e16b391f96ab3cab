-- ===== src/Tracker/Presence/Bind.antt =====
-- Step 2 of `ApplyPanePresence`: a scanned pane stamps the row that it claims, or mints one.
use tail_claude_mux.Tracker.Presence.Retire.{retire_displaced_pane_rows, retire_superseded_pid_rows}
use tail_claude_mux.Tracker.Presence.Local.{
  Handle, shared, nil, raise, put_local, local_rows, Fold, PanePresence,
}
use tail_claude_mux.Tracker.Presence.Match.{best_match, Entry}
use tail_claude_mux.Tracker.Keys.{synthetic_key, instance_key}
use tail_claude_mux.Tracker.State.{is_pane_end_suppressed, clear_miss_state, Rows}
use tail_claude_mux.Wire.{AgentEvent, is_alive, Liveness, Status}
use tail_claude_mux.Base.{
  text_eq, Text, update, put, find, option_eq, nat_eq, ◌!=◌, ◌==◌, if◌then◌else◌, [], some, none,
  Option, ◌||◌, ◌&&◌, not, false, true, Bool, ℕ,
}

-- `if si == nil { … }`.
unfoldable pub ensure_at : Handle → Text → Fold → Fold
ensure_at nil s st = record st {
  tracker = record (st.tracker) { instances = put s [] st.tracker.instances };
  local = shared;
}
ensure_at _ s st = st

unfoldable pub ensure_map : Text → Fold → Fold
unfolding ensure_at
ensure_map s st = ensure_at st.local s st

-- Both sweeps, for the row that the pane now has.
unfoldable pub retire_others : (ℕ → Bool) → Text → PanePresence → Text → Fold → Fold
retire_others is_pid_alive s pa key st =
    let p = retire_superseded_pid_rows s pa.agent key pa.pid st.tracker in
    let q = retire_displaced_pane_rows is_pid_alive s pa.agent key pa.pane_id pa.pid p.tracker in
    record st { tracker = q.tracker; changed = st.changed || p.changed || q.changed }

unfoldable pub differs : PanePresence → Text → AgentEvent → Bool
differs pa thread_name ev =
    ev.pane_id != pa.pane_id
    || not (is_alive ev.liveness)
    || ev.window_index != pa.window_index
    || ev.pane_index != pa.pane_index
    || (thread_name != [] && ev.thread_name != thread_name)

unfoldable pub stamp_row : PanePresence → Text → AgentEvent → AgentEvent
stamp_row pa thread_name ev = record ev {
  pane_id = pa.pane_id;
  liveness = Liveness.alive;
  window_index = pa.window_index;
  pane_index = pa.pane_index;
  pane_title = pa.pane_title;
  thread_name = if thread_name != [] then thread_name else ev.thread_name;
}

unfoldable pub clear_miss : Text → Text → Fold → Fold
clear_miss s key st = record st { tracker = clear_miss_state s key st.tracker }

unfoldable pub claim_row : (ℕ → Bool) → Text → PanePresence → Entry → Fold → Fold
claim_row is_pid_alive s pa (key, ev) st =
    let claimed = record st { claimed = update st.claimed key true } in
    raise (differs pa pa.thread_name ev) (
      retire_others is_pid_alive s pa key
        (clear_miss s key (put_local s key (stamp_row pa pa.thread_name ev) claimed)))

-- The thread id to mint under: not one that a live row of another process holds.
unfoldable pub mint_thread : PanePresence → Rows → Text
mint_thread pa m =
    if pa.thread_id != []
    then elim (find (instance_key pa.agent pa.thread_id) m) [
      | none ↦ pa.thread_id
      | some held ↦
          if held.pid == 0 || held.pid == pa.pid || not (is_alive held.liveness)
          then pa.thread_id
          else []
    ]
    else []

unfoldable pub minted_row : ℕ → Text → PanePresence → Text → Text → AgentEvent
minted_row now s pa thread_id thread_name = record {
  agent = pa.agent;
  session = s;
  status = Status.idle;
  ts = now;
  first_seen_ts = 0;
  thread_id = thread_id;
  thread_name = thread_name;
  unseen = false;
  pane_id = pa.pane_id;
  window_index = pa.window_index;
  pane_index = pa.pane_index;
  liveness = Liveness.alive;
  pid = pa.pid;
  tool_description = [];
  tool_verb = [];
  tool_invoked = false;
  thinking_blocks = 0;
  pane_title = pa.pane_title;
  subagent = [];
  ended = false;
}

-- A new row, or a stamp on the one that holds the key.
unfoldable pub mint_at :
    ℕ → Text → PanePresence → Text → Text → Text → Option AgentEvent → Fold → Fold
mint_at now s pa key thread_id thread_name none st =
    raise true (put_local s key (minted_row now s pa thread_id thread_name) st)
mint_at now s pa key thread_id thread_name (some ev) st =
    raise (differs pa thread_name ev || ev.pid != pa.pid) (
      clear_miss s key (put_local s key (record (stamp_row pa thread_name ev) { pid = pa.pid }) st))

unfoldable pub mint_key : PanePresence → Text → Text
mint_key pa thread_id =
    if thread_id != [] then instance_key pa.agent thread_id else synthetic_key pa.agent pa.pane_id

unfoldable pub mint_row : (ℕ → Bool) → ℕ → Text → PanePresence → Fold → Fold
mint_row is_pid_alive now s pa st =
    let m = local_rows s st in
    let thread_id = mint_thread pa m in
    let thread_name = if thread_id != [] then pa.thread_name else [] in
    let key = mint_key pa thread_id in
    retire_others is_pid_alive s pa key (mint_at now s pa key thread_id thread_name (find key m) st)

-- The pane's row: the one that it claims, or a new one unless the pane is suppressed.
unfoldable pub bind_to : (ℕ → Bool) → ℕ → Text → PanePresence → Option Entry → Fold → Fold
bind_to is_pid_alive now s pa (some e) st = claim_row is_pid_alive s pa e st
bind_to is_pid_alive now s pa none st =
    let (t, suppressed) = is_pane_end_suppressed now s pa.agent pa.pane_id st.tracker in
    let st' = record st { tracker = t } in
    if suppressed then st' else mint_row is_pid_alive now s pa st'

-- One scanned pane.
unfoldable pub bind_pane : (ℕ → Bool) → ℕ → Text → PanePresence → Fold → Fold
unfolding bind_to
bind_pane is_pid_alive now s pa st0 =
    let st = ensure_map s st0 in
    bind_to is_pid_alive now s pa (best_match pa st.claimed none none (local_rows s st)) st
