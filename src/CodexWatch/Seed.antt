-- ===== src/CodexWatch/Seed.antt =====
-- The cold start of apps/server-go/internal/codexwatch/codexwatch.go.
use tail_claude_mux.ClaudeWatch.State.{agent_event}
use tail_claude_mux.CodexWatch.Rollouts.{trailing_rollout_state}
use tail_claude_mux.Base.{
  text_eq, codes, Text, option_eq, nat_eq, ◌==◌, ◌!=◌, if◌then◌else◌, ltb, ◌++◌, ◌∷◌, [], List,
  some, none, ◌||◌, false, true, Bool, ◌*◌, ◌-◌, ◌+◌, ℕ,
}
use tail_claude_mux.Wire.{AgentEvent, is_terminal_status, is_idle, Status, status_eq}
use tail_claude_mux.CodexWatch.State.{
  lookup_thread_name, wire_status, Rollout, RolloutState, keep_thread, World, Adapter, ThreadState,
}

abbrev pub stale_ms : ℕ
stale_ms = 5 * 60 * 1000

pub record Seeding : Type 0 where
  pub adapter : Adapter
  pub emitted : List AgentEvent

abbrev pub is_inactive : Status → Bool
is_inactive s = is_idle s || is_terminal_status s

abbrev pub seeded_thread : ℕ → Status → Text → Text → ThreadState
seeded_thread serial status name project_dir = record {
  serial = serial;
  status = status;
  thread_name = name;
  project_dir = project_dir;
  name_from_index = name != [];
  name_lookup_in_flight = false;
  pid = 0;
  routing_pid = 0;
  ownership_checked = false;
  recheck_ownership = false;
  drop_logged = false;
  last_tool_description = [];
  last_tool_verb = [];
}

-- A rollout that is read, of a thread that is not known yet.
unfoldable pub seed_thread : World → Rollout → RolloutState → Seeding → Seeding
unfolding is_terminal_status lookup_thread_name
seed_thread w r found s =
    let status = wire_status found.status in
    let session = w.resolve_session found.cwd in
    if is_inactive status || found.cwd == [] || session == []
    then s
    else (let name = lookup_thread_name w r.session_id in
        record {
          adapter =
              keep_thread r.session_id (seeded_thread s.adapter.next_serial status name found.cwd)
                (record s.adapter { next_serial = s.adapter.next_serial + 1 });
          emitted =
              s.emitted
              ++ (agent_event (codes "codex") session status r.mod_time r.session_id name 0 ∷ []);
        })

unfoldable pub seed_rollout : World → Rollout → Seeding → Seeding
unfolding seed_thread trailing_rollout_state
seed_rollout w r s =
    if ltb stale_ms (w.now - r.mod_time) then s else elim (s.adapter.threads r.session_id) [
      | some st ↦ s
      | none ↦ elim (trailing_rollout_state w r.path) [
        | none ↦ s
        | some found ↦ seed_thread w r found s
      ]
    ]

unfoldable pub seed_rollouts : World → List Rollout → Seeding → Seeding
unfolding seed_rollout
seed_rollouts w [] s = s
seed_rollouts w (r ∷ rollouts) s = seed_rollouts w rollouts (seed_rollout w r s)

-- `Start`, with `seedFromJSONL`.
unfoldable pub start : World → Adapter → Seeding
unfolding seed_rollouts
start w a =
    seed_rollouts w w.rollouts (record { adapter = record a { started = true }; emitted = [] })
