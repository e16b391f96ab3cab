-- ===== src/Wire/Hook.antt =====
-- apps/server-go/wire/hook.go: the payload of a hook and its validation, on a body that is decoded.
-- A JSON value keeps what the validation can tell apart; a number is the value of the float64 that
-- it decodes to, where that is whole and not negative.
use tail_claude_mux.Base.{
  is_among, text_eq, codes, Text, length, put, find, Map, option_eq, nat_eq, ◌==◌, if◌then◌else◌,
  leb, ◌∷◌, [], some, none, Option, ◌||◌, ◌&&◌, not, false, Bool, ◌^◌, ◌*◌, ℕ,
}

mutual
  pub data Json : Type 0 where
    null array : Json
    boolean : Bool → Json
    number : Option ℕ → Json
    str : Text → Json
    object : Members → Json

  pub data Members : Type 0 where
    end : Members
    member : Text → Json → Members → Members

abbrev pub max_event_len : ℕ
max_event_len = 128

abbrev pub max_session_id_len : ℕ
max_session_id_len = 256

abbrev pub max_delegation_id_len : ℕ
max_delegation_id_len = 128

abbrev pub max_agent_len : ℕ
max_agent_len = 64

abbrev pub max_tool_name_len : ℕ
max_tool_name_len = 128

abbrev pub max_notification_type_len : ℕ
max_notification_type_len = 64

abbrev pub max_session_name_len : ℕ
max_session_name_len = 256

abbrev pub max_string_len : ℕ
max_string_len = 64 * 1024

abbrev pub max_tool_input_keys : ℕ
max_tool_input_keys = 256

abbrev pub max_process_snapshot_len : ℕ
max_process_snapshot_len = 256 * 1024

abbrev pub is_valid_stop_reason : Text → Bool
is_valid_stop_reason = is_among ("stop" ∷ "length" ∷ "toolUse" ∷ "error" ∷ "aborted" ∷ [])

abbrev pub is_valid_shutdown_reason : Text → Bool
is_valid_shutdown_reason = is_among ("quit" ∷ "reload" ∷ "new" ∷ "resume" ∷ "fork" ∷ [])

-- `HookPayload`. A tool input that is nil is the empty map, which its readers do not tell apart.
pub record HookPayload : Type 0 where
  pub event : Text
  pub session_id : Text
  pub cwd : Text
  pub delegation_id : Text
  pub agent : Text
  pub tool_name : Text
  pub prompt : Text
  pub tool_input : Map Text Json
  pub notification_type : Text
  pub session_name : Text
  pub tool_is_error : Option Bool
  pub stop_reason : Text
  pub error_message : Text
  pub shutdown_reason : Text
  pub pid : ℕ
  pub process_snapshot : Text
  pub transcript_path : Text

-- A decoded object as a map: of equal keys the last one counts.
unfoldable pub members_map : Members → Map Text Json → Map Text Json
members_map end m = m
members_map (member k v rest) m = members_map rest (put k v m)

-- `json.Unmarshal` into a string: null leaves it empty.
unfoldable pub decode_string : Json → Option Text
decode_string (str s) = some s
decode_string null = some []
decode_string array = none
decode_string (boolean b) = none
decode_string (number n) = none
decode_string (object m) = none

unfoldable pub bounded : Text → ℕ → Bool
bounded s max_len = not (s == []) && leb (length s) max_len

unfoldable pub required_string : Option Json → ℕ → Option Text
unfolding decode_string bounded
required_string none max_len = none
required_string (some v) max_len = elim (decode_string v) [
  | none ↦ none
  | some s ↦ if bounded s max_len then some s else none
]

unfoldable pub opt_bounded_string : Option Json → ℕ → Text
unfolding decode_string bounded
opt_bounded_string none max_len = []
opt_bounded_string (some v) max_len = elim (decode_string v) [
  | none ↦ []
  | some s ↦ if bounded s max_len then s else []
]

unfoldable pub opt_plain_object : Option Json → ℕ → Map Text Json
unfolding members_map
opt_plain_object none max_keys = []
opt_plain_object (some (object m)) max_keys =
    let input = members_map m [] in if leb (length input) max_keys then input else []
opt_plain_object (some null) max_keys = []
opt_plain_object (some array) max_keys = []
opt_plain_object (some (boolean b)) max_keys = []
opt_plain_object (some (number n)) max_keys = []
opt_plain_object (some (str s)) max_keys = []

-- `json.Unmarshal` into a bool: null leaves it false.
unfoldable pub opt_bool : Option Json → Option Bool
opt_bool none = none
opt_bool (some (boolean b)) = some b
opt_bool (some null) = some false
opt_bool (some array) = none
opt_bool (some (number n)) = none
opt_bool (some (str s)) = none
opt_bool (some (object m)) = none

unfoldable pub opt_enum_string : Option Json → (Text → Bool) → Text
unfolding decode_string
opt_enum_string none allowed = []
opt_enum_string (some v) allowed = elim (decode_string v) [
  | none ↦ []
  | some s ↦ if allowed s then s else []
]

-- A number that is no int converts to none that equals it.
unfoldable pub opt_positive_int : Option Json → ℕ
opt_positive_int none = 0
opt_positive_int (some (number none)) = 0
opt_positive_int (some (number (some n))) = if leb n 1 || leb (2 ^ 63) n then 0 else n
opt_positive_int (some null) = 0
opt_positive_int (some array) = 0
opt_positive_int (some (boolean b)) = 0
opt_positive_int (some (str s)) = 0
opt_positive_int (some (object m)) = 0

abbrev pub payload_of : (Text → Option Json) → Text → Text → Text → HookPayload
payload_of raw event session_id cwd = record {
  event = event;
  session_id = session_id;
  cwd = cwd;
  delegation_id = opt_bounded_string (raw (codes "delegation_id")) max_delegation_id_len;
  agent = opt_bounded_string (raw (codes "agent")) max_agent_len;
  tool_name = opt_bounded_string (raw (codes "tool_name")) max_tool_name_len;
  prompt = opt_bounded_string (raw (codes "prompt")) max_string_len;
  tool_input = opt_plain_object (raw (codes "tool_input")) max_tool_input_keys;
  notification_type =
      opt_bounded_string (raw (codes "notification_type")) max_notification_type_len;
  session_name = opt_bounded_string (raw (codes "session_name")) max_session_name_len;
  tool_is_error = opt_bool (raw (codes "tool_is_error"));
  stop_reason = opt_enum_string (raw (codes "stop_reason")) is_valid_stop_reason;
  error_message = opt_bounded_string (raw (codes "error_message")) max_string_len;
  shutdown_reason = opt_enum_string (raw (codes "shutdown_reason")) is_valid_shutdown_reason;
  pid = opt_positive_int (raw (codes "pid"));
  process_snapshot = opt_bounded_string (raw (codes "process_snapshot")) max_process_snapshot_len;
  transcript_path = opt_bounded_string (raw (codes "transcript_path")) max_string_len;
}

-- `ParseHookPayload`, on the fields of the body.
unfoldable pub parse_fields : (Text → Option Json) → Option HookPayload
parse_fields raw = elim (required_string (raw (codes "event")) max_event_len) [
  | none ↦ none
  | some event ↦ elim (required_string (raw (codes "session_id")) max_session_id_len) [
    | none ↦ none
    | some session_id ↦ elim (required_string (raw (codes "cwd")) max_string_len) [
      | none ↦ none
      | some cwd ↦ some (payload_of raw event session_id cwd)
    ]
  ]
]

-- `ParseHookPayload`; none for a body that is not JSON.
unfoldable pub parse_hook_payload : Option Json → Option HookPayload
unfolding members_map parse_fields
parse_hook_payload none = none
parse_hook_payload (some (object m)) = parse_fields (λ k. find k (members_map m []))
parse_hook_payload (some null) = parse_fields (λ _. none)
parse_hook_payload (some array) = none
parse_hook_payload (some (boolean b)) = none
parse_hook_payload (some (number n)) = none
parse_hook_payload (some (str s)) = none
