-- ===== src/Metadata/Runs.antt =====
-- Calls of the store of apps/server-go/internal/metadata/metadata.go, one and in sequence.
use tail_claude_mux.Wire.{MetadataLogEntry, MetadataProgress, MetadataStatus}
use tail_claude_mux.Base.{
  sym, text_eq, Text, drop, length, find-put, find, option_eq, ==→eq, nat_eq, ◌==◌, Bool-cases,
  if◌then◌else◌, ltb, arith, ◌++◌, ◌∷◌, [], List, some, none, Option, Bool, inr, inl, ◌∙◌, ap, refl,
  ◌≡◌, ◌-◌, ℕ,
}
use tail_claude_mux.Metadata.Store.{
  prune_sessions, clear_logs, append_log, push_log, cap_entry, set_progress, set_status,
  get_or_create, Store, max_logs, get,
}

-- A call that changes the store, at a time.
pub data Call : Type 0 where
  on_status : ℕ → Text → Option MetadataStatus → Call
  on_progress : ℕ → Text → Option MetadataProgress → Call
  on_log : ℕ → Text → MetadataLogEntry → Call
  on_clear : Text → Call
  on_prune : (Text → Bool) → Call

unfoldable pub step : Call → Store → Store
unfolding set_status set_progress append_log clear_logs prune_sessions
step (on_status now session status) s = set_status now session status s
step (on_progress now session p) s = set_progress now session p s
step (on_log now session entry) s = append_log now session entry s
step (on_clear session) s = clear_logs session s
step (on_prune valid) s = prune_sessions valid s

unfoldable pub run : List Call → Store → Store
unfolding step
run [] s = s
run (c ∷ cs) s = run cs (step c s)

find-prune_sessions :
    (valid : Text → Bool) (session : Text) (s : Store)
    → find session (prune_sessions valid s) ≡ (if valid session then find session s else none)
unfolding find prune_sessions
find-prune_sessions valid session [] = ground arith
find-prune_sessions valid session ((name, meta) ∷ s) = elim (Bool-cases (name == session)) [
  | inl h ↦ ground (arith, h, ap valid (==→eq name session h), find-prune_sessions valid session s)
  | inr h ↦ ground (arith, h, find-prune_sessions valid session s)
]

push_log-drop :
    (e : MetadataLogEntry) (logs : List MetadataLogEntry)
    → let longer = logs ++ (e ∷ []) in push_log e logs ≡ drop (length longer - max_logs) longer
unfolding push_log
push_log-drop e logs =
    let longer = logs ++ (e ∷ []) in
    elim (Bool-cases (ltb max_logs (length longer))) [
      | inl c ↦ rw (push_log, c) refl
      | inr c ↦
          let z : length longer - max_logs ≡ 0 = ground arith in
          rw (push_log, c) (sym (ap (λ n. drop n longer) z))
    ]

-- An append stores the capped entry last, keeps the entries before it in order, the oldest dropped
-- when there are more than 1200, and leaves the status, the progress and every other session as
-- they were.
append_log-newest :
    (now : ℕ) (session : Text) (entry : MetadataLogEntry) (s : Store) (name : Text)
    → let meta = get_or_create session s in
      let longer = meta.logs ++ (cap_entry now entry ∷ []) in
      find name (append_log now session entry s) ≡ (
        if session == name
        then some (record meta { logs = drop (length longer - max_logs) longer })
        else find name s)
unfolding append_log
append_log-newest now session entry s name =
    let meta = get_or_create session s in
    find-put session name _ s
    ∙ ap (λ l. if session == name then some (record meta { logs = l }) else find name s)
        (push_log-drop (cap_entry now entry) meta.logs)

-- A prune keeps the metadata of the valid sessions and no other.
prune_sessions-valid :
    (valid : Text → Bool) (session : Text) (s : Store)
    → get session (prune_sessions valid s) ≡ (if valid session then get session s else none)
unfolding get
prune_sessions-valid valid session s = elim (Bool-cases (valid session)) [
  | inl h ↦ rw (get, find-prune_sessions valid session s, h) refl
  | inr h ↦ rw (get, find-prune_sessions valid session s, h) refl
]
