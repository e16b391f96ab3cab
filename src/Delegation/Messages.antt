-- ===== src/Delegation/Messages.antt =====
-- apps/server-go/internal/delegation/messages.go. A message log is a file of one message per line:
-- what its lines decode to, or none when one does not decode.
use Prim.Native.String.{String}
use tail_claude_mux.Delegation.Records.{
  bad_combination, empty_reply, reply_not_allowed, long_text, empty_text, no_random, write_failed,
  malformed, not_found, Result, ok, failed, StoreError, Files, read,
}
use tail_claude_mux.Delegation.Uuid.{valid_uuid}
use tail_claude_mux.Base.{
  codes, Text, any, keep_if, length, put, find, Map, option_eq, ◌!=◌, ◌==◌, if◌then◌else◌, ltb,
  ◌++◌, ◌∷◌, [], List, some, none, Option, ◌||◌, ◌&&◌, not, false, true, Bool, ℕ, nat_eq, text_eq,
}

abbrev max_message_text_len : ℕ
max_message_text_len = 65536

-- `Message`. The words of `from` and `kind` are texts.
pub record Message : Type 0 where
  pub id : Text
  pub ts : ℕ
  pub from : Text
  pub kind : Text
  pub text : Text
  pub reply_to : Text
  pub delivered_at : Option ℕ

abbrev pub Logs : Type 0
Logs = Map Text (Option (List Message))

abbrev pub is_from : String → Message → Bool
is_from who msg = msg.from == codes who

abbrev is_kind : String → Message → Bool
is_kind what msg = msg.kind == codes what

-- None when the message is valid.
unfoldable pub validate_message : Message → Option StoreError
validate_message msg =
    if msg.text == []
    then some empty_text
    else if ltb max_message_text_len (length msg.text)
    then some long_text
    else if is_from "delegate" msg && (is_kind "note" msg || is_kind "ask" msg)
    then (if msg.reply_to != [] then some reply_not_allowed else none)
    else if is_from "orchestrator" msg && is_kind "answer" msg
    then (if msg.reply_to == [] then some empty_reply else none)
    else some bad_combination

unfoldable pub read_messages : Text → Logs → Result (List Message)
unfolding valid_uuid
read_messages id logs = if not (valid_uuid id) then failed not_found else elim (find id logs) [
  | none ↦ ok []
  | some raw ↦ elim raw [ none ↦ failed malformed | some messages ↦ ok messages ]
]

unfoldable pub write_messages : Bool → Text → List Message → Logs → Option StoreError × Logs
write_messages writable id messages logs =
    if writable then (none, put id (some messages) logs) else (some write_failed, logs)

-- The message as it is stored.
unfoldable pub stamped : ℕ → Text → Message → Message
stamped now new_id msg = record msg { id = new_id; ts = now; delivered_at = none }

unfoldable pub push_message : Bool → Text → Message → Logs → Result Message × Logs
unfolding read_messages write_messages
push_message writable id msg logs = elim (read_messages id logs) [
  | failed e ↦ (failed e, logs)
  | ok messages ↦
      let (failure, logs') = write_messages writable id (messages ++ (msg ∷ [])) logs in
      elim failure [ some e ↦ (failed e, logs') | none ↦ (ok msg, logs') ]
]

-- `AppendMessage`, with the id that is minted, if one is.
unfoldable pub append_message :
    Bool → ℕ → Option Text → Text → Message → Files → Logs → Result Message × Logs
unfolding read validate_message stamped push_message
append_message writable now minted id msg files logs = elim (read id files) [
  | failed e ↦ (failed e, logs)
  | ok r ↦ elim (validate_message msg) [
    | some e ↦ (failed e, logs)
    | none ↦ elim minted [
      | none ↦ (failed no_random, logs)
      | some new_id ↦ push_message writable id (stamped now new_id msg) logs
    ]
  ]
]

abbrev pub is_undelivered : Message → Bool
is_undelivered msg = is_from "delegate" msg && msg.delivered_at == none

unfoldable pub undelivered_from_delegate : Text → Logs → Result (List Message)
unfolding read_messages
undelivered_from_delegate id logs = elim (read_messages id logs) [
  | failed e ↦ failed e
  | ok messages ↦ ok (keep_if is_undelivered messages)
]

abbrev pub is_wanted : List Text → Message → Bool
is_wanted ids msg = any (λ i. i == msg.id) ids

-- A message after the marking, and whether it was marked.
unfoldable pub mark : ℕ → List Text → Message → Message × Bool
mark now ids msg =
    if not (is_wanted ids msg) || not (is_from "delegate" msg) || msg.delivered_at != none
    then (msg, false)
    else (record msg { delivered_at = some now }, true)

unfoldable pub mark_all : ℕ → List Text → List Message → List Message × Bool
unfolding mark
mark_all now ids [] = ([], false)
mark_all now ids (msg ∷ messages) =
    let (msg', marked) = mark now ids msg in
    let (messages', changed) = mark_all now ids messages in (msg' ∷ messages', marked || changed)

-- `MarkDelivered`.
unfoldable pub mark_delivered : Bool → ℕ → Text → List Text → Logs → Option StoreError × Logs
unfolding read_messages mark_all write_messages
mark_delivered writable now id ids logs = elim (read_messages id logs) [
  | failed e ↦ (some e, logs)
  | ok messages ↦
      let (messages', changed) = mark_all now ids messages in
      if not changed then (none, logs) else write_messages writable id messages' logs
]

abbrev pub is_answer : Message → Bool
is_answer msg = is_from "orchestrator" msg && is_kind "answer" msg

unfoldable pub find_answer : Text → List Message → Option Message
find_answer ask_id [] = none
find_answer ask_id (msg ∷ messages) =
    let rest = find_answer ask_id messages in
    if is_answer msg && msg.reply_to == ask_id then some msg else rest

-- `AnswerFor`: the message and the flag are an option.
unfoldable pub answer_for : Text → Text → Logs → Result (Option Message)
unfolding read_messages find_answer
answer_for id ask_id logs = elim (read_messages id logs) [
  | failed e ↦ failed e
  | ok messages ↦ ok (find_answer ask_id messages)
]

abbrev pub is_answered : List Message → Text → Bool
is_answered messages ask_id = any (λ m. is_answer m && m.reply_to == ask_id) messages

abbrev pub is_ask : Message → Bool
is_ask msg = is_from "delegate" msg && is_kind "ask" msg

unfoldable pub unanswered_asks : Text → Logs → Result (List Message)
unfolding read_messages
unanswered_asks id logs = elim (read_messages id logs) [
  | failed e ↦ failed e
  | ok messages ↦ ok (keep_if (λ m. is_ask m && not (is_answered messages m.id)) messages)
]
