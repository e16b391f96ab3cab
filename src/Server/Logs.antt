-- ===== src/Server/Logs.antt =====
-- The activity log that apps/server-go/internal/server/watch.go derives from events.
use tail_claude_mux.Tracker.State.{Tracker}
use tail_claude_mux.Tracker.Apply.{apply_event}
use tail_claude_mux.Metadata.Store.{append_log, Store}
use tail_claude_mux.Wire.{status_eq, MetadataLogEntry, AgentEvent, Status}
use tail_claude_mux.Base.{
  eq→!=, Bool-cases, arith, inr, inl, ◌∙◌, ap, refl, trim, is_space, text_eq, codes, Text, take,
  drop, length, update, option_eq, ==_refl, nat_eq, ◌==◌, ◌!=◌, if◌then◌else◌, ◌++◌, ◌∷◌, [], List,
  some, Option, ◌&&◌, not, false, true, Bool, ◌≡◌, ◌-◌, suc, zero, ℕ,
}

-- `lastSeen`.
pub record LastSeen : Type 0 where
  pub thread : Text
  pub status : Option Status

-- What `emitLocked` changes.
pub record EmitState : Type 0 where
  pub last_seen : Text → LastSeen
  pub watchers_seeded : Bool
  pub metadata : Store
  pub tracker : Tracker
  pub broadcast_pending : Bool

-- `agentCode`.
unfoldable pub agent_code : Text → Text
agent_code agent =
    if agent == codes "claude-code"
    then codes "cc"
    else if agent == codes "codex"
    then codes "cd"
    else if agent == codes "amp"
    then codes "ap"
    else take 2 agent

-- `shortThreadIDSuffix`.
unfoldable pub short_thread_id_suffix : Text → Text
short_thread_id_suffix id = drop (length id - 4) id

abbrev log_entry : Text → Text → Text → Text → MetadataLogEntry
log_entry source message tone verb = record {
  message = message;
  tone = tone;
  source = source;
  verb = verb;
  ts = 0;
}

abbrev when : Bool → MetadataLogEntry → List MetadataLogEntry
when b e = if b then e ∷ [] else []

abbrev repeat : ℕ → MetadataLogEntry → List MetadataLogEntry
repeat zero e = []
repeat (suc n) e = e ∷ repeat n e

abbrev status_entry : Text → Status → List MetadataLogEntry
status_entry source Status.error = log_entry source (codes "errored") (codes "error") [] ∷ []
status_entry source Status.waiting =
    log_entry source (codes "awaiting input") (codes "info") [] ∷ []
status_entry source Status.interrupted =
    log_entry source (codes "interrupted") (codes "warn") [] ∷ []
status_entry source Status.idle = []
status_entry source Status.running = []
status_entry source Status.done = []
status_entry source (Status.other t) = []

-- The entries of `deriveLogEntriesLocked`, against what was last seen of the thread.
unfoldable pub entries_since : LastSeen → AgentEvent → List MetadataLogEntry
unfolding agent_code short_thread_id_suffix
entries_since last ev =
    let source =
      trim is_space (agent_code ev.agent ++ (codes " " ++ short_thread_id_suffix ev.thread_id)) in
    when (ev.thread_name != [] && ev.thread_name != last.thread)
      (log_entry source ev.thread_name (codes "neutral") [])
    ++ (repeat ev.thinking_blocks
          (log_entry source (codes "Thinking") (codes "info") (codes "thinking"))
        ++ (when (ev.tool_invoked && ev.tool_description != [])
              (log_entry source ev.tool_description (codes "info") ev.tool_verb)
            ++ (if some ev.status != last.status then status_entry source ev.status else [])))

-- `deriveLogEntriesLocked`.
unfoldable pub derive_log_entries :
    AgentEvent → (Text → LastSeen) → (Text → LastSeen) × List MetadataLogEntry
unfolding entries_since
derive_log_entries ev seen = if ev.thread_id == [] then (seen, []) else (
  update seen ev.thread_id (record { thread = ev.thread_name; status = some ev.status }),
  entries_since (seen ev.thread_id) ev,
)

unfoldable pub append_all : ℕ → Text → List MetadataLogEntry → Store → Store
append_all now session [] s = s
append_all now session (e ∷ es) s = append_all now session es (append_log now session e s)

-- `emitLocked`; the broadcast is scheduled, once until it runs.
unfoldable pub emit_locked : ℕ → AgentEvent → EmitState → EmitState
unfolding derive_log_entries append_all
emit_locked now ev s =
    let (seen, entries) = derive_log_entries ev s.last_seen in
    record {
      last_seen = seen;
      watchers_seeded = s.watchers_seeded;
      metadata =
          if s.watchers_seeded then append_all now ev.session entries s.metadata else s.metadata;
      tracker = apply_event now (not s.watchers_seeded) ev s.tracker;
      broadcast_pending = true;
    }

entries_since-none :
    (last : LastSeen) (ev : AgentEvent)
    → (ev.thread_name != last.thread) ≡ false
    → (some ev.status != last.status) ≡ false
    → ev.tool_invoked ≡ false
    → ev.thinking_blocks ≡ 0
    → entries_since last ev ≡ []
unfolding entries_since
entries_since-none last ev n s i k =
    let named : (ev.thread_name != [] && ev.thread_name != last.thread) ≡ false = ground arith in
    let called : (ev.tool_invoked && ev.tool_description != []) ≡ false = ground arith in
    rw (entries_since, named, called, s, k) refl

-- What an event leaves of its thread tells the next one with the same name and status nothing.
derive_log_entries-again :
    (ev ev' : AgentEvent) (seen : Text → LastSeen)
    → ev'.thread_id ≡ ev.thread_id
    → ev'.thread_name ≡ ev.thread_name
    → ev'.status ≡ ev.status
    → ev'.tool_invoked ≡ false
    → ev'.thinking_blocks ≡ 0
    → (derive_log_entries ev' (derive_log_entries ev seen).0).1 ≡ []
unfolding derive_log_entries
derive_log_entries-again ev ev' seen t n s i k = elim (Bool-cases (ev.thread_id == [])) [
  | inl e ↦ let e' : (ev'.thread_id == []) ≡ true = rw t e in rw (derive_log_entries, e') refl
  | inr e ↦
      let e' : (ev'.thread_id == []) ≡ false = rw t e in
      let last : LastSeen = record { thread = ev.thread_name; status = some ev.status } in
      let seen' = (derive_log_entries ev seen).0 in
      let now_seen : seen' ev'.thread_id ≡ last =
        rw (derive_log_entries, e, t, ==_refl ev.thread_id) refl in
      let name_same = eq→!= ev'.thread_name ev.thread_name n in
      let status_same = eq→!= (some ev'.status) (some ev.status) (ap some s) in
      rw (derive_log_entries, e')
        (ap (λ l. entries_since l ev') now_seen
          ∙ entries_since-none last ev' name_same status_same i k)
]
