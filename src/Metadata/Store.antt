-- ===== src/Metadata/Store.antt =====
-- `Store` of apps/server-go/internal/metadata/metadata.go: a pointer that the map holds is written
-- through by `put` at its key. The clock of a call is its argument `now`.
use tail_claude_mux.Base.{
  option_eq, nat_eq, max, ℕ, if◌then◌else◌, ltb, leb, Bool, not, ◌&&◌, Option, none, some, List, [],
  ◌∷◌, ◌++◌, Text, text_eq, is_some, length, take, drop, is_empty, Map, find, put, ◌-◌,
}
use tail_claude_mux.Wire.{MetadataStatus, MetadataProgress, MetadataLogEntry, SessionMetadata}

abbrev pub max_logs : ℕ
max_logs = 1200

abbrev pub max_message_length : ℕ
max_message_length = 500

abbrev pub max_label_length : ℕ
max_label_length = 100

abbrev pub max_source_length : ℕ
max_source_length = 50

-- On runes; `…` is the rune 8230. The caps passed are positive.
unfoldable pub truncate : Text → ℕ → Text
truncate s max = if leb (length s) max then s else take (max - 1) s ++ (8230 ∷ [])

abbrev pub Store : Type 0
Store = Map Text SessionMetadata

unfoldable pub new_store : Store
new_store = []

abbrev pub empty_metadata : SessionMetadata
empty_metadata = record { status = none; progress = none; logs = [] }

-- `getOrCreate`: the metadata, and the write of an empty one is subsumed by the write after it.
unfoldable pub get_or_create : Text → Store → SessionMetadata
get_or_create session s = elim (find session s) [ none ↦ empty_metadata | some meta ↦ meta ]

unfoldable pub get : Text → Store → Option SessionMetadata
get session s = elim (find session s) [
  | none ↦ none
  | some meta ↦
      if not (is_some meta.status) && (not (is_some meta.progress) && is_empty meta.logs)
      then none
      else some meta
]

unfoldable pub set_status : ℕ → Text → Option MetadataStatus → Store → Store
unfolding truncate get_or_create
set_status now session none s = elim (find session s) [
  | none ↦ s
  | some meta ↦ put session (record meta { status = none }) s
]
set_status now session (some status) s =
    put session
      (record (get_or_create session s) {
        status =
            some (record {
              text = truncate status.text max_label_length;
              tone = status.tone;
              ts = now;
            });
      })
      s

unfoldable pub set_progress : ℕ → Text → Option MetadataProgress → Store → Store
unfolding truncate get_or_create
set_progress now session none s = elim (find session s) [
  | none ↦ s
  | some meta ↦ put session (record meta { progress = none }) s
]
set_progress now session (some p) s =
    put session
      (record (get_or_create session s) {
        progress = some (record p { label = truncate p.label max_label_length; ts = now });
      })
      s

-- The entry as it is stored.
unfoldable pub cap_entry : ℕ → MetadataLogEntry → MetadataLogEntry
unfolding truncate
cap_entry now entry = record entry {
  message = truncate entry.message max_message_length;
  source = truncate entry.source max_source_length;
  ts = now;
}

-- The log with one more entry, cut to the newest.
unfoldable pub push_log : MetadataLogEntry → List MetadataLogEntry → List MetadataLogEntry
push_log entry logs =
    let longer = logs ++ (entry ∷ []) in
    if ltb max_logs (length longer) then drop (length longer - max_logs) longer else longer

unfoldable pub append_log : ℕ → Text → MetadataLogEntry → Store → Store
unfolding cap_entry push_log get_or_create
append_log now session entry s =
    let meta = get_or_create session s in
    put session (record meta { logs = push_log (cap_entry now entry) meta.logs }) s

unfoldable pub clear_logs : Text → Store → Store
clear_logs session s = elim (find session s) [
  | none ↦ s
  | some meta ↦ put session (record meta { logs = [] }) s
]

unfoldable pub prune_sessions : (Text → Bool) → Store → Store
prune_sessions valid [] = []
prune_sessions valid ((name, meta) ∷ s) =
    let rest = prune_sessions valid s in if valid name then (name, meta) ∷ rest else rest
