-- ===== src/Server/Mailbox.antt =====
-- The messages of a delegation in apps/server-go/internal/server: `takeUndeliveredDelegateMessages`
-- of wait.go, and the answers of delegationmessage.go. The locks make each call one step.
use tail_claude_mux.Delegation.Records.{read, ok, failed, Files, Result, StoreError}
use tail_claude_mux.Delegation.Messages.{
  answer_for, mark_delivered, is_wanted, undelivered_from_delegate, append_message, read_messages,
  Logs, Message,
}
use tail_claude_mux.Base.{
  text_eq, codes, Text, any, keep_if, is_empty, option_eq, nat_eq, ◌==◌, if◌then◌else◌, ltb, map,
  [], List, some, none, Option, ◌&&◌, not, Bool, ◌-◌, ◌+◌, ℕ,
}

-- `takeUndeliveredDelegateMessages`.
unfoldable pub take_undelivered : Bool → ℕ → Text → Logs → Result (List Message) × Logs
take_undelivered writable now id logs = elim (undelivered_from_delegate id logs) [
  | failed e ↦ (failed e, logs)
  | ok messages ↦
      if is_empty messages
      then (ok messages, logs)
      else (let ids = map (λ (m : Message). m.id) messages in
          let (failure, logs') = mark_delivered writable now id ids logs in
          elim failure [
            | some e ↦ (failed e, logs')
            | none ↦ elim (read_messages id logs') [
              | failed e ↦ (failed e, logs')
              | ok all_messages ↦ (ok (keep_if (is_wanted ids) all_messages), logs')
            ]
          ])
]

-- `containsAsk`.
unfoldable pub contains_ask : Text → List Message → Bool
contains_ask ask_id messages =
    any (λ m. m.id == ask_id && m.from == codes "delegate" && m.kind == codes "ask") messages

-- An answer's failure: the code and what it says.
pub data AnswerFailure : Type 0 where
  reply_missing unknown_ask answered_before no_id no_store : AnswerFailure
  store : StoreError → AnswerFailure
  invalid : StoreError → AnswerFailure

pub data Answered : Type 0 where
  stored : Message → Answered
  refused : AnswerFailure → Answered

unfoldable pub answer_message : Text → Text → Message
answer_message text ask_id = record {
  id = [];
  ts = 0;
  from = codes "orchestrator";
  kind = codes "answer";
  text = text;
  reply_to = ask_id;
  delivered_at = none;
}

-- The answer, once the ask is known to be open.
unfoldable pub store_answer :
    Bool → ℕ → Option Text → Text → Text → Text → Files → Logs → Answered × Logs
unfolding append_message answer_message
store_answer writable now minted id ask_id text files logs =
    let (result, logs') =
      append_message writable now minted id (answer_message text ask_id) files logs in
    elim result [ failed e ↦ (refused (invalid e), logs') | ok msg ↦ (stored msg, logs') ]

-- `appendDelegationAnswer`.
unfoldable pub append_delegation_answer :
    Bool → ℕ → Option Text → Text → Text → Text → Files → Logs → Answered × Logs
unfolding read_messages answer_for contains_ask store_answer
append_delegation_answer writable now minted id ask_id text files logs =
    if ask_id == [] then (refused reply_missing, logs) else elim (read_messages id logs) [
      | failed e ↦ (refused (store e), logs)
      | ok messages ↦
          if not (contains_ask ask_id messages)
          then (refused unknown_ask, logs)
          else elim (answer_for id ask_id logs) [
            | failed e ↦ (refused (store e), logs)
            | ok found ↦ elim found [
              | some answer ↦ (refused answered_before, logs)
              | none ↦ store_answer writable now minted id ask_id text files logs
            ]
          ]
    ]

-- `handleDelegationMessage` past the decoding of its body, with the store if there is one.
unfoldable pub handle_delegation_message :
    Bool → ℕ → Option Text → Text → Message → Option Files → Logs → Answered × Logs
unfolding append_delegation_answer append_message
handle_delegation_message writable now minted id msg store_files logs =
    if id == [] then (refused no_id, logs) else elim store_files [
      | none ↦ (refused no_store, logs)
      | some files ↦ elim (read id files) [
        | failed e ↦ (refused (store e), logs)
        | ok r ↦
            if msg.from == codes "orchestrator" && msg.kind == codes "answer"
            then append_delegation_answer writable now minted id msg.reply_to msg.text files logs
            else (let (result, logs') = append_message writable now minted id msg files logs in
                elim result [
                  | failed e ↦ (refused (invalid e), logs')
                  | ok sent ↦ (stored sent, logs')
                ])
      ]
    ]

-- `registerAnswerWaiter`, its second half, and `hasAnswerWaiter`: how many wait for each answer.
abbrev pub Waiters : Type 0
Waiters = Text × Text → ℕ

unfoldable pub register_answer_waiter : Text → Text → Waiters → Waiters
register_answer_waiter id ask_id waiters (d, a) =
    if id == d && ask_id == a then waiters (d, a) + 1 else waiters (d, a)

unfoldable pub unregister_answer_waiter : Text → Text → Waiters → Waiters
unregister_answer_waiter id ask_id waiters (d, a) =
    if id == d && ask_id == a then waiters (d, a) - 1 else waiters (d, a)

unfoldable pub has_answer_waiter : Text → Text → Waiters → Bool
has_answer_waiter id ask_id waiters = ltb 0 (waiters (id, ask_id))
