-- ===== src/Wire/Ingress.antt =====
-- What `ParseHookPayload` of apps/server-go/wire/hook.go lets through.
use tail_claude_mux.Wire.Hook.{
  payload_of, object, str, number, boolean, array, null, parse_fields, opt_positive_int,
  opt_plain_object, opt_bounded_string, required_string, bounded, decode_string, members_map,
  HookPayload, max_process_snapshot_len, max_tool_input_keys, max_string_len, max_session_name_len,
  max_notification_type_len, max_tool_name_len, max_agent_len, max_delegation_id_len,
  max_session_id_len, max_event_len, Json,
}
use tail_claude_mux.Base.{
  false, text_beq, codes, Text, length, Option-cases, Bool-cases, if◌then◌else◌, leb, subst, arith,
  ◌∷◌, [], some, none, Option, ◌||◌, true, inr, inl, ◌⊎◌, refl, ◌≡◌, ltb, suc, ◌+◌, ◌<◌, ◌≤◌, ◌^◌,
  ℕ,
}

-- A text that is not empty, within a bound.
abbrev Within : ℕ → Text → Type 0
Within max_len s = (0 < length s) × (length s ≤ max_len)

bounded-Within : (s : Text) (max_len : ℕ) → bounded s max_len ≡ true → Within max_len s
unfolding bounded text_beq
bounded-Within [] max_len h = absurd (ground arith)
bounded-Within (c ∷ s) max_len h = (omega arith, ground arith)

bounded_text : (s : Text) (max_len : ℕ) → length (if bounded s max_len then s else []) ≤ max_len
bounded_text s max_len = elim (Bool-cases (bounded s max_len)) [
  | inl b ↦ rw b (bounded-Within s max_len b).1
  | inr b ↦ rw b (omega arith)
]

required_string-Within :
    (v : Option Json) (max_len : ℕ) (s : Text)
    → required_string v max_len ≡ some s
    → Within max_len s
unfolding required_string
required_string-Within none max_len s h = absurd (ground arith)
required_string-Within (some v) max_len s h = elim (Option-cases (decode_string v)) [
  | inl e ↦ let q : none ≡ some s = rw (required_string, e) at h in absurd (ground arith)
  | inr (r, e) ↦ elim (Bool-cases (bounded r max_len)) [
    | inl b ↦
        let q : some r ≡ some s = rw (required_string, e, b) at h in
        let f : r ≡ s = cc in subst (Within max_len) f (bounded-Within r max_len b)
    | inr b ↦ let q : none ≡ some s = rw (required_string, e, b) at h in absurd (ground arith)
  ]
]

opt_bounded_string-le :
    (v : Option Json) (max_len : ℕ) → length (opt_bounded_string v max_len) ≤ max_len
unfolding opt_bounded_string
opt_bounded_string-le none max_len = omega arith
opt_bounded_string-le (some v) max_len = elim (Option-cases (decode_string v)) [
  | inl e ↦ rw (opt_bounded_string, e) (omega arith)
  | inr (r, e) ↦ rw (opt_bounded_string, e) (bounded_text r max_len)
]

opt_plain_object-le :
    (v : Option Json) (max_keys : ℕ) → length (opt_plain_object v max_keys) ≤ max_keys
unfolding opt_plain_object
opt_plain_object-le none max_keys = omega arith
opt_plain_object-le (some null) max_keys = omega arith
opt_plain_object-le (some array) max_keys = omega arith
opt_plain_object-le (some (boolean b)) max_keys = omega arith
opt_plain_object-le (some (number n)) max_keys = omega arith
opt_plain_object-le (some (str s)) max_keys = omega arith
opt_plain_object-le (some (object m)) max_keys =
    elim (Bool-cases (leb (length (members_map m [])) max_keys)) [
      | inl b ↦ rw b (ground arith)
      | inr b ↦ rw b (omega arith)
    ]

-- No pid, or one that can be an agent's.
abbrev IsPid : ℕ → Type 0
IsPid n = (n ≡ 0) ⊎ ((1 < n) × (n < 2 ^ 63))

opt_positive_int-IsPid : (v : Option Json) → IsPid (opt_positive_int v)
unfolding opt_positive_int
opt_positive_int-IsPid none = inl refl
opt_positive_int-IsPid (some null) = inl refl
opt_positive_int-IsPid (some array) = inl refl
opt_positive_int-IsPid (some (boolean b)) = inl refl
opt_positive_int-IsPid (some (str s)) = inl refl
opt_positive_int-IsPid (some (object m)) = inl refl
opt_positive_int-IsPid (some (number none)) = inl refl
opt_positive_int-IsPid (some (number (some n))) = elim (Bool-cases (leb n 1 || leb (2 ^ 63) n)) [
  | inl b ↦ inl (rw b refl)
  | inr b ↦ rw b (inr (ground arith, ground arith))
]

-- What a handler may rely on in a payload.
pub record IsBounded (p : HookPayload) : Type 0 where
  pub event_within : Within max_event_len p.event
  pub session_id_within : Within max_session_id_len p.session_id
  pub cwd_within : Within max_string_len p.cwd
  pub delegation_id_le : length p.delegation_id ≤ max_delegation_id_len
  pub agent_le : length p.agent ≤ max_agent_len
  pub tool_name_le : length p.tool_name ≤ max_tool_name_len
  pub prompt_le : length p.prompt ≤ max_string_len
  pub tool_input_le : length p.tool_input ≤ max_tool_input_keys
  pub notification_type_le : length p.notification_type ≤ max_notification_type_len
  pub session_name_le : length p.session_name ≤ max_session_name_len
  pub error_message_le : length p.error_message ≤ max_string_len
  pub process_snapshot_le : length p.process_snapshot ≤ max_process_snapshot_len
  pub transcript_path_le : length p.transcript_path ≤ max_string_len
  pub pid_valid : IsPid p.pid

payload_of-IsBounded :
    (raw : Text → Option Json) (event session_id cwd : Text)
    → Within max_event_len event
    → Within max_session_id_len session_id
    → Within max_string_len cwd
    → IsBounded (payload_of raw event session_id cwd)
payload_of-IsBounded raw event session_id cwd e s c = record {
  event_within = e;
  session_id_within = s;
  cwd_within = c;
  delegation_id_le = opt_bounded_string-le (raw (codes "delegation_id")) max_delegation_id_len;
  agent_le = opt_bounded_string-le (raw (codes "agent")) max_agent_len;
  tool_name_le = opt_bounded_string-le (raw (codes "tool_name")) max_tool_name_len;
  prompt_le = opt_bounded_string-le (raw (codes "prompt")) max_string_len;
  tool_input_le = opt_plain_object-le (raw (codes "tool_input")) max_tool_input_keys;
  notification_type_le =
      opt_bounded_string-le (raw (codes "notification_type")) max_notification_type_len;
  session_name_le = opt_bounded_string-le (raw (codes "session_name")) max_session_name_len;
  error_message_le = opt_bounded_string-le (raw (codes "error_message")) max_string_len;
  process_snapshot_le =
      opt_bounded_string-le (raw (codes "process_snapshot")) max_process_snapshot_len;
  transcript_path_le = opt_bounded_string-le (raw (codes "transcript_path")) max_string_len;
  pid_valid = opt_positive_int-IsPid (raw (codes "pid"));
}

-- The fields that a payload must have, if all are well-formed.
abbrev all_of : Option Text → Option Text → Option Text → Option (Text × Text × Text)
all_of none s c = none
all_of (some e) none c = none
all_of (some e) (some s) none = none
all_of (some e) (some s) (some c) = some (e, s, c)

-- What a required field says, when it is a string of at least one byte and of at most as many as it
-- may have.
abbrev field_within : ℕ → Text → Option Text
field_within max_len [] = none
field_within max_len (c ∷ s) = if ltb max_len (1 + length s) then none else some (c ∷ s)

abbrev pub field_text : ℕ → Option Json → Option Text
field_text max_len none = none
field_text max_len (some (str s)) = field_within max_len s
field_text max_len (some null) = none
field_text max_len (some array) = none
field_text max_len (some (boolean b)) = none
field_text max_len (some (number n)) = none
field_text max_len (some (object m)) = none

required_string-str :
    (s : Text) (max_len : ℕ) → required_string (some (str s)) max_len ≡ field_within max_len s
unfolding required_string decode_string bounded text_beq
required_string-str [] max_len = refl
required_string-str (c ∷ s) max_len = elim (Bool-cases (leb (suc (length s)) max_len)) [
  | inl e ↦ let g : ltb max_len (1 + length s) ≡ false = ground arith in rw (e, g) refl
  | inr e ↦ let g : ltb max_len (1 + length s) ≡ true = ground arith in rw (e, g) refl
]

required_string-field_text :
    (v : Option Json) (max_len : ℕ) → required_string v max_len ≡ field_text max_len v
unfolding required_string decode_string bounded text_beq
required_string-field_text none max_len = refl
required_string-field_text (some (str s)) max_len = required_string-str s max_len
required_string-field_text (some null) max_len = refl
required_string-field_text (some array) max_len = refl
required_string-field_text (some (boolean b)) max_len = refl
required_string-field_text (some (number n)) max_len = refl
required_string-field_text (some (object m)) max_len = refl

abbrev pub required : (Text → Option Json) → Option (Text × Text × Text)
required raw =
    all_of (field_text 128 (raw (codes "event"))) (field_text 256 (raw (codes "session_id")))
      (field_text 65536 (raw (codes "cwd")))

-- What the outcome of a validation says of the three required fields.
abbrev pub Accepts : Option (Text × Text × Text) → Option HookPayload → Type 0
Accepts none p = p ≡ none
Accepts (some (event, session_id, cwd)) p =
    (q : HookPayload) × (p ≡ some q)
    × (q.event ≡ event)
    × (q.session_id ≡ session_id)
    × (q.cwd ≡ cwd)
    × IsBounded q

accepts :
    (raw : Text → Option Json) (e s c : Option Text)
    → required_string (raw (codes "event")) max_event_len ≡ e
    → required_string (raw (codes "session_id")) max_session_id_len ≡ s
    → required_string (raw (codes "cwd")) max_string_len ≡ c
    → Accepts (all_of e s c) (parse_fields raw)
unfolding parse_fields
accepts raw none s c p q r = rw (p, parse_fields) refl
accepts raw (some e) none c p q r = rw (p, q, parse_fields) refl
accepts raw (some e) (some s) none p q r = rw (p, q, r, parse_fields) refl
accepts raw (some e) (some s) (some c) p q r = (
  payload_of raw e s c,
  rw (p, q, r, parse_fields) refl,
  refl,
  refl,
  refl,
  payload_of-IsBounded raw e s c (required_string-Within (raw (codes "event")) max_event_len e p)
      (required_string-Within (raw (codes "session_id")) max_session_id_len s q)
      (required_string-Within (raw (codes "cwd")) max_string_len c r),
)

-- A body is accepted exactly when the event, the session id and the working directory are strings
-- that are not empty, of at most 128, 256 and 65536 bytes; no other field can have it rejected. An
-- accepted payload has these three as they are, and every field with a bound is within it: a pid, if
-- there is one, is above 1 and below 2 ^ 63.
pub parse_fields-Accepts : (raw : Text → Option Json) → Accepts (required raw) (parse_fields raw)
parse_fields-Accepts raw =
    accepts raw (field_text 128 (raw (codes "event"))) (field_text 256 (raw (codes "session_id")))
      (field_text 65536 (raw (codes "cwd")))
      (required_string-field_text (raw (codes "event")) max_event_len)
      (required_string-field_text (raw (codes "session_id")) max_session_id_len)
      (required_string-field_text (raw (codes "cwd")) max_string_len)
