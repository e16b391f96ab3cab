-- ===== src/Server/Kept.antt =====
-- An answer stays in the log of its ask, whatever happens to the log of
-- apps/server-go/internal/delegation/messages.go afterwards.
-- apps/server-go/internal/server/delegationmessage.go.
use tail_claude_mux.Delegation.Records.{ok, read, Files, Delegation}
use tail_claude_mux.Delegation.Messages.{
  append_message, mark_all, mark, is_wanted, is_from, mark_delivered, undelivered_from_delegate,
  is_undelivered, find_answer, is_answer, stamped, read_messages, Logs, Message,
}
use tail_claude_mux.Server.Mailbox.{take_undelivered, contains_ask}
use tail_claude_mux.Server.Delivery.{
  append_message-invalid, append_message-valid, is_valid, run_turns, sent, taken, Turn,
}
use tail_claude_mux.Server.Taken.{mark_delivered-read}
use tail_claude_mux.Base.{
  false, ==→eq, codes, ◌!=◌, ◌||◌, not, Option-cases, keep_if, map, is_empty, ◌∙◌, text_eq,
  text_beq, Text, any, option_eq, nat_eq, ◌==◌, Bool-cases, arith, ◌++◌, ◌∷◌, [], List, some, none,
  ◌&&◌, true, Bool, inr, inl, refl, ◌≡◌, ℕ,
}

pub any-append :
    (p : Message → Bool) (xs ys : List Message) → any p xs ≡ true → any p (xs ++ ys) ≡ true
any-append p [] ys h = absurd (ground arith)
any-append p (x ∷ xs) ys h = elim (Bool-cases (p x)) [
  | inl e ↦ rw e refl
  | inr e ↦ rw e (any-append p xs ys (rw e at h))
]

-- The first answer stays the first one when messages come after it.
find_answer-append :
    (ask_id : Text) (xs ys : List Message) (answer : Message)
    → find_answer ask_id xs ≡ some answer
    → find_answer ask_id (xs ++ ys) ≡ some answer
unfolding find_answer
find_answer-append ask_id [] ys answer h = absurd (ground arith)
find_answer-append ask_id (x ∷ xs) ys answer h =
    elim (Bool-cases (is_answer x && x.reply_to == ask_id)) [
      | inl f ↦ rw f (rw f at h)
      | inr f ↦ rw f (find_answer-append ask_id xs ys answer (rw f at h))
    ]

delegate-is_answer : (msg : Message) → is_from "delegate" msg ≡ true → is_answer msg ≡ false
unfolding text_beq
delegate-is_answer msg h =
    let e : msg.from ≡ codes "delegate" = ==→eq msg.from (codes "delegate") h in rw e refl

-- A marking changes no answer.
mark_all-find_answer :
    (now : ℕ) (ids : List Text) (ask_id : Text) (xs : List Message)
    → find_answer ask_id (mark_all now ids xs).0 ≡ find_answer ask_id xs
unfolding mark_all mark find_answer
mark_all-find_answer now ids ask_id [] = refl
mark_all-find_answer now ids ask_id (x ∷ xs) =
    elim (Bool-cases
      (not (is_wanted ids x) || not (is_from "delegate" x) || x.delivered_at != none)) [
        | inl e ↦ rw (e, mark_all-find_answer now ids ask_id xs) refl
        | inr e ↦
            let d : is_from "delegate" x ≡ true = ground arith in
            rw (e, delegate-is_answer x d, mark_all-find_answer now ids ask_id xs) refl
      ]

mark_all-contains_ask :
    (now : ℕ) (ids : List Text) (ask_id : Text) (xs : List Message)
    → contains_ask ask_id (mark_all now ids xs).0 ≡ contains_ask ask_id xs
unfolding mark_all mark contains_ask
mark_all-contains_ask now ids ask_id [] = refl
mark_all-contains_ask now ids ask_id (x ∷ xs) =
    elim (Bool-cases
      (not (is_wanted ids x) || not (is_from "delegate" x) || x.delivered_at != none)) [
        | inl e ↦ rw (e, mark_all-contains_ask now ids ask_id xs) refl
        | inr e ↦ rw (e, mark_all-contains_ask now ids ask_id xs) refl
      ]

-- The log has the ask, and this as its first answer.
abbrev pub HasAnswer : Text → Text → Message → Logs → Type 0
HasAnswer id ask_id answer logs =
    (messages : List Message) × (read_messages id logs ≡ ok messages)
    × (contains_ask ask_id messages ≡ true)
    × (find_answer ask_id messages ≡ some answer)

module _ (id ask_id : Text) (answer : Message) where
  mark_delivered-HasAnswer :
      (now : ℕ) (ids : List Text) (logs : Logs)
      → HasAnswer id ask_id answer logs
      → HasAnswer id ask_id answer (mark_delivered true now id ids logs).1
  mark_delivered-HasAnswer now ids logs (messages, logged, asked, found) = (
    (mark_all now ids messages).0,
    mark_delivered-read now id ids logs messages logged,
    mark_all-contains_ask now ids ask_id messages ∙ asked,
    mark_all-find_answer now ids ask_id messages ∙ found,
  )

  take_undelivered-HasAnswer :
      (now : ℕ) (logs : Logs)
      → HasAnswer id ask_id answer logs
      → HasAnswer id ask_id answer (take_undelivered true now id logs).1
  unfolding take_undelivered undelivered_from_delegate
  take_undelivered-HasAnswer now logs (messages, logged, asked, found) =
      let waiting = keep_if is_undelivered messages in
      let ids = map (λ (m : Message). m.id) waiting in
      let kept = mark_delivered-HasAnswer now ids logs (messages, logged, asked, found) in
      elim (Bool-cases (is_empty waiting)) [
        | inl e ↦ rw (take_undelivered, logged, e) (messages, logged, asked, found)
        | inr e ↦ elim (Option-cases (mark_delivered true now id ids logs).0) [
          | inr (f, q) ↦ rw (take_undelivered, logged, e, q) kept
          | inl q ↦ rw (take_undelivered, logged, e, q, kept.1) kept
        ]
      ]

  append_message-HasAnswer :
      (now : ℕ) (new_id : Text) (msg : Message) (r : Delegation) (files : Files) (logs : Logs)
      → read id files ≡ ok r
      → HasAnswer id ask_id answer logs
      → HasAnswer id ask_id answer (append_message true now (some new_id) id msg files logs).1
  unfolding contains_ask
  append_message-HasAnswer now new_id msg r files logs known (messages, logged, asked, found) =
      elim (Bool-cases (is_valid msg)) [
        | inl v ↦ (
          messages ++ (stamped now new_id msg ∷ []),
          append_message-valid now new_id id msg r files logs messages known logged v,
          any-append _ messages (stamped now new_id msg ∷ []) asked,
          find_answer-append ask_id messages (stamped now new_id msg ∷ []) answer found,
        )
        | inr v ↦
            rw (append_message-invalid now new_id id msg r files logs messages known logged v)
              (messages, logged, asked, found)
      ]

  pub run_turns-HasAnswer :
      (r : Delegation) (files : Files) (turns : List Turn) (logs : Logs)
      → read id files ≡ ok r
      → HasAnswer id ask_id answer logs
      → HasAnswer id ask_id answer (run_turns id files turns logs).1
  unfolding run_turns
  run_turns-HasAnswer r files [] logs known a = a
  run_turns-HasAnswer r files (sent now new_id msg ∷ turns) logs known a =
      run_turns-HasAnswer r files turns _ known
        (append_message-HasAnswer now new_id msg r files logs known a)
  run_turns-HasAnswer r files (taken now ∷ turns) logs known a =
      run_turns-HasAnswer r files turns _ known (take_undelivered-HasAnswer now logs a)
