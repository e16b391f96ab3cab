-- ===== src/Metadata/Caps.antt =====
-- The caps of apps/server-go/internal/metadata/metadata.go.
use tail_claude_mux.Metadata.Store.{
  push_log, get_or_create, empty_metadata, Store, truncate, max_source_length, max_label_length,
  max_message_length, max_logs,
}
use tail_claude_mux.Wire.{SessionMetadata, MetadataLogEntry, MetadataProgress, MetadataStatus}
use tail_claude_mux.Base.{
  subst, text_eq, Text, length-take, length-drop, length-append, take, drop, length, find-put, put,
  find, option_eq, nat_eq, ◌==◌, Option-cases, Bool-cases, leb, ltb, arith, ◌++◌, ◌∷◌, [], List,
  some, none, Option, inr, inl, ◌∙◌, sym, refl, ◌≡◌, max, ◌≤◌, ◌-◌, suc, zero, ℕ,
}

pub length-truncate : (s : Text) (max : ℕ) → 1 ≤ max → length (truncate s max) ≤ max
unfolding truncate
length-truncate s max h = elim (Bool-cases (leb (length s) max)) [
  | inl e ↦ rw e (ground arith)
  | inr e ↦
      rw e (omega (arith, length-append (take (max - 1) s) (8230 ∷ []), length-take (max - 1) s))
]

-- Every text and every log within its cap.
abbrev CappedStatus : Option MetadataStatus → Type 0
CappedStatus none = Unit
CappedStatus (some st) = length st.text ≤ max_label_length

abbrev CappedProgress : Option MetadataProgress → Type 0
CappedProgress none = Unit
CappedProgress (some p) = length p.label ≤ max_label_length

abbrev CappedEntry : MetadataLogEntry → Type 0
CappedEntry e = (length e.message ≤ max_message_length) × (length e.source ≤ max_source_length)

abbrev CappedEntries : List MetadataLogEntry → Type 0
CappedEntries [] = Unit
CappedEntries (e ∷ es) = CappedEntry e × CappedEntries es

pub record Capped (meta : SessionMetadata) : Type 0 where
  pub capped_status : CappedStatus meta.status
  pub capped_progress : CappedProgress meta.progress
  pub capped_entries : CappedEntries meta.logs
  pub capped_logs : length meta.logs ≤ max_logs

abbrev pub AllCapped : Store → Type 0
AllCapped s = (name : Text) (meta : SessionMetadata) → find name s ≡ some meta → Capped meta

append-CappedEntries :
    (es : List MetadataLogEntry) (e : MetadataLogEntry)
    → CappedEntries es
    → CappedEntry e
    → CappedEntries (es ++ (e ∷ []))
append-CappedEntries [] e h g = (g, tt)
append-CappedEntries (d ∷ es) e h g = (h.0, append-CappedEntries es e h.1 g)

drop-CappedEntries :
    (n : ℕ) (es : List MetadataLogEntry) → CappedEntries es → CappedEntries (drop n es)
drop-CappedEntries zero es h = h
drop-CappedEntries (suc n) [] h = h
drop-CappedEntries (suc n) (e ∷ es) h = drop-CappedEntries n es h.1

pub push_log-capped :
    (e : MetadataLogEntry) (logs : List MetadataLogEntry)
    → CappedEntries logs
    → CappedEntry e
    → CappedEntries (push_log e logs) × (length (push_log e logs) ≤ max_logs)
unfolding push_log
push_log-capped e logs h g =
    let longer = logs ++ (e ∷ []) in
    let capped = append-CappedEntries logs e h g in
    elim (Bool-cases (ltb max_logs (length longer))) [
      | inl c ↦ rw c (
        drop-CappedEntries (length longer - max_logs) longer capped,
        omega (arith, length-drop (length longer - max_logs) longer),
      )
      | inr c ↦ rw c (capped, ground arith)
    ]

empty-Capped : Capped empty_metadata
empty-Capped = record {
  capped_status = tt;
  capped_progress = tt;
  capped_entries = tt;
  capped_logs = ground arith;
}

pub get_or_create-Capped :
    (session : Text) (s : Store) → AllCapped s → Capped (get_or_create session s)
unfolding get_or_create
get_or_create-Capped session s h = elim (Option-cases (find session s)) [
  | inl e ↦ rw (get_or_create, e) empty-Capped
  | inr (meta, e) ↦ rw (get_or_create, e) (h session meta e)
]

pub put-AllCapped :
    (session : Text) (meta : SessionMetadata) (s : Store)
    → AllCapped s
    → Capped meta
    → AllCapped (put session meta s)
put-AllCapped session meta s h g name found e = elim (Bool-cases (session == name)) [
  | inl q ↦
      let p : some meta ≡ some found = sym (find-put session name meta s ∙ rw q refl) ∙ e in
      let r : meta ≡ found = cc in subst Capped r g
  | inr q ↦ h name found (sym (find-put session name meta s ∙ rw q refl) ∙ e)
]
