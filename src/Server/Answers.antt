-- ===== src/Server/Answers.antt =====
-- An ask has one answer, by `appendDelegationAnswer` of
-- apps/server-go/internal/server/delegationmessage.go.
use tail_claude_mux.Delegation.Records.{Result, ok, read, Files, Delegation}
use tail_claude_mux.Delegation.Messages.{
  answer_for, find_answer, is_answer, stamped, read_messages, validate_message, Logs, Message,
}
use tail_claude_mux.Delegation.Delivered.{
  append_message-written, read_messages-valid, read_messages-put,
}
use tail_claude_mux.Server.Mailbox.{
  answered_before, append_delegation_answer, store_answer, answer_message, Answered, contains_ask,
}
use tail_claude_mux.Server.Delivery.{run_turns, Turn}
use tail_claude_mux.Base.{
  ap, text_eq, text_beq, Text, put, option_eq, ne→==, ==_refl, nat_eq, ◌==◌, Bool-cases, arith,
  ◌++◌, ◌∷◌, [], List, some, none, Option, ◌&&◌, true, Bool, inr, inl, ◌≢◌, refl, ◌≡◌, ℕ,
}
use tail_claude_mux.Server.Kept.{any-append, run_turns-HasAnswer, HasAnswer}

-- The first answer to an ask, when it comes last in the log.
find_answer-last :
    (ask_id : Text) (xs : List Message) (answer : Message)
    → find_answer ask_id xs ≡ none
    → (is_answer answer && answer.reply_to == ask_id) ≡ true
    → find_answer ask_id (xs ++ (answer ∷ [])) ≡ some answer
unfolding find_answer
find_answer-last ask_id [] answer h e = rw e refl
find_answer-last ask_id (x ∷ xs) answer h e =
    elim (Bool-cases (is_answer x && x.reply_to == ask_id)) [
      | inl f ↦ let q : some x ≡ none = rw f at h in absurd (ground arith)
      | inr f ↦ rw f (find_answer-last ask_id xs answer (rw f at h) e)
    ]

module _ (id ask_id text : Text) (messages : List Message) (logs : Logs) (named : ask_id ≢ [])
    (logged : read_messages id logs ≡ ok messages)
    (asked : contains_ask ask_id messages ≡ true) where
  answer_for-found :
      (o : Option Message) → find_answer ask_id messages ≡ o → answer_for id ask_id logs ≡ ok o
  unfolding answer_for
  answer_for-found o found = rw (answer_for, logged) (ap ok found)

  -- A further answer, to an ask that has one.
  answered-refused :
      (writable : Bool) (now : ℕ) (minted : Option Text) (files : Files) (answer : Message)
      → find_answer ask_id messages ≡ some answer
      → append_delegation_answer writable now minted id ask_id text files logs
        ≡ (Answered.refused answered_before, logs)
  unfolding append_delegation_answer answer_for
  answered-refused writable now minted files answer found =
      rw
        (
          append_delegation_answer,
          ne→== ask_id [] named,
          logged,
          asked,
          answer_for-found (some answer) found,
        )
        refl

  -- The first one.
  open-stored :
      (now : ℕ) (new_id : Text) (files : Files) (r : Delegation)
      → read id files ≡ ok r
      → validate_message (answer_message text ask_id) ≡ none
      → find_answer ask_id messages ≡ none
      → let answer = stamped now new_id (answer_message text ask_id) in
        append_delegation_answer true now (some new_id) id ask_id text files logs
        ≡ (Answered.stored answer, put id (some (messages ++ (answer ∷ []))) logs)
  unfolding append_delegation_answer answer_for store_answer
  open-stored now new_id files r known valid found =
      let msg = answer_message text ask_id in
      let written =
        append_message-written now new_id id msg r files logs messages known logged valid in
      rw
        (
          append_delegation_answer,
          ne→== ask_id [] named,
          logged,
          asked,
          answer_for-found none found,
          store_answer,
          written,
        )
        (ap (λ (p : Result Message × Logs). (Answered.stored (stamped now new_id msg), p.1))
          written)

-- The first valid answer to an ask of a delegate is stored. Whatever messages are then appended to the
-- log, other answers too, and whatever is handed out from it, in any order, `AnswerFor` finds that
-- first answer; and another answer to the ask, with whatever text, is refused and changes no log.
pub append_delegation_answer-once :
    (id ask_id text text' new_id : Text) (now now' : ℕ) (minted : Option Text) (writable : Bool)
    (messages : List Message) (turns : List Turn) (logs : Logs) (files files' : Files)
    (r : Delegation)
    → ask_id ≢ []
    → read id files ≡ ok r
    → read_messages id logs ≡ ok messages
    → contains_ask ask_id messages ≡ true
    → find_answer ask_id messages ≡ none
    → validate_message (answer_message text ask_id) ≡ none
    → let answer = stamped now new_id (answer_message text ask_id) in
      let (result, logs') =
        append_delegation_answer true now (some new_id) id ask_id text files logs in
      let later = (run_turns id files turns logs').1 in
      (result ≡ Answered.stored answer)
      × (answer_for id ask_id later ≡ ok (some answer))
      × (append_delegation_answer writable now' minted id ask_id text' files' later
          ≡ (Answered.refused answered_before, later))
unfolding answer_for contains_ask stamped answer_message text_beq
append_delegation_answer-once id ask_id text text' new_id now now' minted writable messages turns
      logs files files' r named known logged asked found valid =
    let answer = stamped now new_id (answer_message text ask_id) in
    let messages' = messages ++ (answer ∷ []) in
    let written = put id (some messages') logs in
    let logged' =
      read_messages-put id messages' logs (read_messages-valid id messages logs logged) in
    let fits : (is_answer answer && answer.reply_to == ask_id) ≡ true = ==_refl ask_id in
    let has : HasAnswer id ask_id answer written = (
      messages',
      logged',
      any-append _ messages (answer ∷ []) asked,
      find_answer-last ask_id messages answer found fits,
    ) in
    let (there, logged'', asked'', found'') =
      run_turns-HasAnswer id ask_id answer r files turns written known has in
    rw
      (open-stored id ask_id text messages logs named logged asked now new_id files r known valid
        found)
      (
        refl,
        rw (answer_for, logged'', found'') refl,
        answered-refused id ask_id text' there (run_turns id files turns written).1 named logged''
            asked'' writable now' minted files' answer found'',
      )
