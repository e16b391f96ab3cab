-- ===== src/Delegation/Answered.antt =====
-- `AnswerFor` and `UnansweredAsks` of apps/server-go/internal/delegation/messages.go.
use tail_claude_mux.Delegation.Records.{failed, ok, Result}
use tail_claude_mux.Delegation.Messages.{
  unanswered_asks, is_ask, is_answered, answer_for, find_answer, is_answer, push_message,
  write_messages, read_messages, is_from, Logs, Message,
}
use mathlib.Core.Path.{fun_ext}
use tail_claude_mux.Delegation.Delivered.{keep_if-append, read_messages-put, read_messages-valid}
use tail_claude_mux.Base.{
  text_beq, codes, Text, any-append, keep_if, option_eq, ==→eq, ◌==◌, is_some, Bool-cases,
  append-nil, arith, ◌++◌, ◌∷◌, [], List, Option, ◌||◌, ◌&&◌, not, false, true, Bool, inr, inl, ◌∙◌,
  ap, sym, refl, ◌≡◌, nat_eq, text_eq,
}

find_answer-is_answered :
    (ask_id : Text) (messages : List Message)
    → is_some (find_answer ask_id messages) ≡ is_answered messages ask_id
unfolding find_answer
find_answer-is_answered ask_id [] = refl
find_answer-is_answered ask_id (m ∷ messages) =
    ground (arith, find_answer-is_answered ask_id messages)

-- A lookup that went through and found nothing.
abbrev has_no_answer : Result (Option Message) → Bool
has_no_answer (failed e) = false
has_no_answer (ok o) = not (is_some o)

-- The unanswered asks are the delegate's asks, in the log's order, for whose id the lookup of an
-- answer finds none.
unanswered_asks-answer_for :
    (id : Text) (logs : Logs) (messages : List Message)
    → read_messages id logs ≡ ok messages
    → unanswered_asks id logs
      ≡ ok (keep_if (λ m. is_ask m && has_no_answer (answer_for id m.id logs)) messages)
unfolding unanswered_asks answer_for
unanswered_asks-answer_for id logs messages h =
    rw (h, unanswered_asks)
      (ap (λ f. ok (keep_if f messages))
        (fun_ext (λ m. rw (answer_for, h) (ground (arith, find_answer-is_answered m.id messages)))))

is_answered-append :
    (messages : List Message) (answer : Message) (ask_id : Text)
    → is_answered (messages ++ (answer ∷ [])) ask_id
      ≡ (is_answered messages ask_id || (is_answer answer && answer.reply_to == ask_id))
is_answered-append messages answer ask_id =
    ground (arith, any-append (λ m. is_answer m && m.reply_to == ask_id) messages (answer ∷ []))

keep_if-keep_if :
    (p q : Message → Bool) (xs : List Message)
    → keep_if (λ x. p x && q x) xs ≡ keep_if q (keep_if p xs)
keep_if-keep_if p q [] = refl
keep_if-keep_if p q (x ∷ xs) = elim (Bool-cases (p x)) [
  | inl c ↦ rw (c, keep_if-keep_if p q xs) refl
  | inr c ↦ rw (c, keep_if-keep_if p q xs) refl
]

answer-is_ask : (m : Message) → is_answer m ≡ true → is_ask m ≡ false
unfolding text_beq
answer-is_ask m h = elim (Bool-cases (is_from "delegate" m)) [
  | inr c ↦ ground arith
  | inl c ↦
      let e = ==→eq m.from (codes "delegate") c in
      let g : is_from "orchestrator" m ≡ true = ground arith in
      let f = ==→eq m.from (codes "orchestrator") g in
      let q : codes "delegate" ≡ codes "orchestrator" = sym e ∙ f in
      let z : (codes "delegate" == codes "orchestrator") ≡ true =
        (text_eq.same_iff (codes "delegate") (codes "orchestrator")).1 q in
      absurd (ground arith)
]

-- Once an answer is written, the unanswered asks are the earlier ones but for those with the id
-- that it replies to.
pub push_message-answers :
    (id : Text) (answer : Message) (logs : Logs) (messages : List Message)
    → read_messages id logs ≡ ok messages
    → is_answer answer ≡ true
    → unanswered_asks id (push_message true id answer logs).1
      ≡ ok (
          keep_if
            (λ m. not (answer.reply_to == m.id))
            (keep_if (λ m. is_ask m && not (is_answered messages m.id)) messages))
unfolding unanswered_asks push_message write_messages
push_message-answers id answer logs messages h a =
    let longer = messages ++ (answer ∷ []) in
    let old = λ (m : Message). is_ask m && not (is_answered messages m.id) in
    let new = λ (m : Message). is_ask m && not (is_answered longer m.id) in
    let fresh = λ (m : Message). not (answer.reply_to == m.id) in
    let back = read_messages-put id longer logs (read_messages-valid id messages logs h) in
    let same : new ≡ (λ m. old m && fresh m) =
      fun_ext (λ m. ground (arith, is_answered-append messages answer m.id)) in
    let dropped : keep_if new (answer ∷ []) ≡ [] =
      (let d = answer-is_ask answer a in ground arith) in
    rw (push_message, h, write_messages, unanswered_asks, back)
      (ap ok (
        keep_if-append new messages (answer ∷ [])
        ∙ ap (λ l. keep_if new messages ++ l) dropped
        ∙ append-nil (keep_if new messages)
        ∙ ap (λ f. keep_if f messages) same
        ∙ keep_if-keep_if old fresh messages))
