-- ===== src/Delegation/Records.antt =====
-- `Store` of apps/server-go/internal/delegation/store.go. A directory's files are a map from a
-- delegation's id; what a file decodes to is its content. A write that fails leaves the directory
-- as it was, since the new file only takes its place by a rename; the flag of a call says whether
-- the write goes through. The directory itself is taken to be readable.
use tail_claude_mux.Base.{
  text_less, Text, stable_sort, insert_sorted, any, remove, put, find, Map, option_eq, ◌!=◌, ◌==◌,
  if◌then◌else◌, ltb, ◌∷◌, [], List, some, none, Option, ◌||◌, ◌&&◌, not, false, true, Bool, ◌-◌,
  ◌+◌, ℕ, nat_eq, text_eq,
}
use tail_claude_mux.Delegation.Uuid.{valid_uuid, normalize_agent}

pub data StoreError : Type 0 where
  not_found agent_mismatch malformed not_uuid already_bound empty_thread : StoreError
  write_failed remove_failed no_random : StoreError
  empty_text long_text reply_not_allowed empty_reply bad_combination : StoreError

pub data Result (A : Type 0) : Type 0 where
  failed : StoreError → Result A
  ok : A → Result A

-- `Record`.
pub record Delegation : Type 0 where
  pub delegation_id : Text
  pub agent : Text
  pub cwd : Text
  pub owner_session : Text
  pub session_name : Text
  pub pane_id : Text
  pub window_id : Text
  pub created_at : ℕ
  pub thread_id : Text
  pub bound_at : Option ℕ

pub record CreateParams : Type 0 where
  pub agent : Text
  pub cwd : Text
  pub owner_session : Text
  pub session_name : Text
  pub pane_id : Text
  pub window_id : Text

-- What a file decodes to, or none when it is no record. Its name is its key, without `.json`.
abbrev pub Files : Type 0
Files = Map Text (Option Delegation)

unfoldable pub decode_record : Text → Option Delegation → Result Delegation
decode_record id none = failed malformed
decode_record id (some r) = if r.delegation_id == id then ok r else failed malformed

unfoldable pub read : Text → Files → Result Delegation
unfolding valid_uuid decode_record
read id files =
    if not (valid_uuid id)
    then failed not_found
    else elim (find id files) [ none ↦ failed not_found | some raw ↦ decode_record id raw ]

-- A call's result and the directory after it.
abbrev pub Step : Type 0 → Type 0
Step A = Result A × Files

unfoldable pub write : Bool → Delegation → Files → Step Delegation
write writable r files =
    if writable then (ok r, put r.delegation_id (some r) files) else (failed write_failed, files)

unfoldable pub create_with_id : Bool → ℕ → Text → CreateParams → Files → Step Delegation
unfolding write valid_uuid normalize_agent
create_with_id writable now id params files =
    if not (valid_uuid id)
    then (failed not_uuid, files)
    else write writable
        (record {
          delegation_id = id;
          agent = normalize_agent params.agent;
          cwd = params.cwd;
          owner_session = params.owner_session;
          session_name = params.session_name;
          pane_id = params.pane_id;
          window_id = params.window_id;
          created_at = now;
          thread_id = [];
          bound_at = none;
        })
        files

-- `Create`, with the id that `NewID` gives, if it gives one.
unfoldable create : Bool → ℕ → Option Text → CreateParams → Files → Step Delegation
unfolding create_with_id
create writable now none params files = (failed no_random, files)
create writable now (some id) params files = create_with_id writable now id params files

unfoldable pub bind_record : Bool → ℕ → Text → Text → Delegation → Files → Step Delegation
unfolding write normalize_agent
bind_record writable now agent thread_id r files =
    let r' = record r { agent = normalize_agent r.agent } in
    if r'.agent != normalize_agent agent
    then (failed agent_mismatch, files)
    else if r'.thread_id != []
    then (if r'.thread_id == thread_id then (ok r', files) else (failed already_bound, files))
    else if thread_id == []
    then (failed empty_thread, files)
    else write writable (record r' { thread_id = thread_id; bound_at = some now }) files

-- `Bind`.
unfoldable pub bind : Bool → ℕ → Text → Text → Text → Files → Step Delegation
unfolding read bind_record
bind writable now id agent thread_id files = elim (read id files) [
  | failed e ↦ (failed e, files)
  | ok r ↦ bind_record writable now agent thread_id r files
]

-- By time of creation, then by id.
unfoldable record_less : Delegation → Delegation → Bool
record_less a b =
    ltb a.created_at b.created_at
    || (a.created_at == b.created_at && text_less a.delegation_id b.delegation_id)

-- The files that are named by an id and decode to its record; others are passed over.
unfoldable pub decoded : Files → List Delegation
unfolding decode_record valid_uuid
decoded [] = []
decoded ((id, raw) ∷ files) =
    let rest = decoded files in
    if not (valid_uuid id)
    then rest
    else elim (decode_record id raw) [ failed e ↦ rest | ok r ↦ r ∷ rest ]

unfoldable pub list : Files → List Delegation
unfolding decoded stable_sort insert_sorted record_less
list files = stable_sort record_less (decoded files)

-- The last entry that a test takes.
unfoldable pub find_last : (Delegation → Bool) → List Delegation → Option Delegation
find_last p [] = none
find_last p (r ∷ rs) = elim (find_last p rs) [
  | some s ↦ some s
  | none ↦ if p r then some r else none
]

abbrev pub is_unbound_in : Text → Text → Delegation → Bool
is_unbound_in session_name pane_id r =
    r.session_name == session_name && (r.pane_id == pane_id && r.thread_id == [])

unfoldable pub find_unbound_by_pane : Text → Text → Files → Result Delegation
unfolding find_last list
find_unbound_by_pane session_name pane_id files =
    elim (find_last (is_unbound_in session_name pane_id) (list files)) [
      | none ↦ failed not_found
      | some r ↦ ok r
    ]

unfoldable pub has_unbound : Files → Bool
unfolding list
has_unbound files = any (λ r. r.thread_id == []) (list files)

-- What a sweep did: how many it removed, its error, and the directory.
pub record Sweep : Type 0 where
  pub removed : ℕ
  pub failure : Option StoreError
  pub files : Files

unfoldable pub sweep_records : (Text → Bool) → ℕ → List Delegation → ℕ → Files → Sweep
sweep_records removable cutoff [] n files = record { removed = n; failure = none; files = files }
sweep_records removable cutoff (r ∷ rs) n files = elim (not (ltb r.created_at cutoff)) [
  | true ↦ sweep_records removable cutoff rs n files
  | false ↦ elim (removable r.delegation_id) [
    | false ↦ record { removed = n; failure = some remove_failed; files = files }
    | true ↦ sweep_records removable cutoff rs (n + 1) (remove r.delegation_id files)
  ]
]

-- `Sweep`. No record is older than the epoch, so that a cutoff below it removes none.
unfoldable pub sweep : (Text → Bool) → ℕ → ℕ → Files → Sweep
unfolding list sweep_records
sweep removable now max_age files = sweep_records removable (now - max_age) (list files) 0 files
