-- ===== src/Server/Delivery.antt =====
-- The messages of a delegation over time, against a queue: `AppendMessage` of
-- apps/server-go/internal/delegation/messages.go and `takeUndeliveredDelegateMessages` of
-- apps/server-go/internal/server/wait.go, in any order that the server's lock lets them run in.
use tail_claude_mux.Delegation.Delivered.{
  append_message-written, stamped-undelivered, keep_if-append, read_messages-valid,
  read_messages-put,
}
use mathlib.Core.List.{append_assoc}
use tail_claude_mux.Delegation.Records.{read, Delegation, ok, failed, Files, Result}
use tail_claude_mux.Delegation.Messages.{
  undelivered_from_delegate, read_messages, mark_all, mark, is_wanted, is_undelivered,
  append_message, stamped, validate_message, is_from, Logs, Message,
}
use tail_claude_mux.Server.Mailbox.{take_undelivered}
use tail_claude_mux.Server.Taken.{waiting_ids, take_undelivered-read, Distinct, delivered}
use tail_claude_mux.Base.{
  subst, Option-cases, ◌∙◌, text_eq, all, option_eq, nat_eq, ◌==◌, ◌!=◌, ◌||◌, not, false, Bool,
  is_some, Text, keep_if, ==→eq, Bool-cases, if◌then◌else◌, arith, map, ◌++◌, ◌∷◌, [], List, some,
  none, true, inr, inl, ap, sym, refl, ◌≡◌, ℕ,
}

-- What happens to the mailbox: a message that is given an id, or a wait that looks at it.
pub data Turn : Type 0 where
  sent : ℕ → Text → Message → Turn
  taken : ℕ → Turn

abbrev handed : Result (List Message) → List Message
handed (ok messages) = messages
handed (failed e) = []

-- What the waits hand out, each of them, and the logs at the end.
unfoldable pub run_turns : Text → Files → List Turn → Logs → List (List Message) × Logs
unfolding append_message take_undelivered
run_turns id files [] logs = ([], logs)
run_turns id files (sent now new_id msg ∷ turns) logs =
    run_turns id files turns (append_message true now (some new_id) id msg files logs).1
run_turns id files (taken now ∷ turns) logs =
    let (result, logs') = take_undelivered true now id logs in
    let (outputs, logs'') = run_turns id files turns logs' in (handed result ∷ outputs, logs'')

abbrev pub is_valid : Message → Bool
is_valid msg = not (is_some (validate_message msg))

-- The messages that a run stores.
abbrev pub stored_by : List Turn → List Message
stored_by [] = []
stored_by (sent now new_id msg ∷ turns) =
    let rest = stored_by turns in if is_valid msg then stamped now new_id msg ∷ rest else rest
stored_by (taken now ∷ turns) = stored_by turns

-- The queue: a delegate's message goes in at its end, a wait takes all of it.
unfoldable pub run_queue : List Turn → List Message → List (List Message) × List Message
run_queue [] queue = ([], queue)
run_queue (sent now new_id msg ∷ turns) queue = run_queue turns (
    if is_valid msg
    then queue ++ (if is_from "delegate" msg then stamped now new_id msg ∷ [] else [])
    else queue)
run_queue (taken now ∷ turns) queue =
    let (outputs, queue') = run_queue turns [] in (queue ∷ outputs, queue')

-- A message without the time of its delivery.
abbrev pub undated : Message → Message
undated m = record m { delivered_at = none }

undated-delivered :
    (now : ℕ) (xs : List Message)
    → map undated (map (delivered now) (keep_if is_undelivered xs)) ≡ keep_if is_undelivered xs
undated-delivered now [] = refl
undated-delivered now (x ∷ xs) = elim (Bool-cases (is_undelivered x)) [
  | inr u ↦ rw u (undated-delivered now xs)
  | inl u ↦
      let n : x.delivered_at ≡ none = ==→eq x.delivered_at none (ground arith) in
      let q : undated (delivered now x) ≡ x = ap (λ d. record x { delivered_at = d }) (sym n) in
      rw (u, q) (ap (λ l. x ∷ l) (undated-delivered now xs))
]

mark-id : (now : ℕ) (ids : List Text) (msg : Message) → (mark now ids msg).0.id ≡ msg.id
unfolding mark
mark-id now ids msg =
    elim (Bool-cases
      (not (is_wanted ids msg) || not (is_from "delegate" msg) || msg.delivered_at != none)) [
        | inl e ↦ rw (mark, e) refl
        | inr e ↦ rw (mark, e) refl
      ]

-- Marking keeps the ids.
mark_all-other :
    (now : ℕ) (ids : List Text) (i : Text) (xs ys : List Message)
    → all (λ m. m.id != i) (xs ++ ys) ≡ true
    → all (λ m. m.id != i) ((mark_all now ids xs).0 ++ ys) ≡ true
unfolding mark_all
mark_all-other now ids i [] ys h = h
mark_all-other now ids i (x ∷ xs) ys h =
    let ih = mark_all-other now ids i xs ys (ground arith) in
    let apart : (x.id == i) ≡ false = ground arith in rw (mark-id now ids x, apart) ih

mark_all-Distinct :
    (now : ℕ) (ids : List Text) (xs ys : List Message)
    → Distinct (xs ++ ys)
    → Distinct ((mark_all now ids xs).0 ++ ys)
unfolding mark_all
mark_all-Distinct now ids [] ys d = d
mark_all-Distinct now ids (x ∷ xs) ys (fresh, d) =
    rw (mark-id now ids x)
      (mark_all-other now ids x.id xs ys fresh, mark_all-Distinct now ids xs ys d)

all-left :
    (x : Message) (xs ys : List Message)
    → all (λ m. m.id != x.id) (xs ++ ys) ≡ true
    → all (λ m. m.id != x.id) xs ≡ true
all-left x [] ys h = refl
all-left x (y ∷ xs) ys h = let ih = all-left x xs ys (ground arith) in ground (arith, ih)

Distinct-left : (xs ys : List Message) → Distinct (xs ++ ys) → Distinct xs
Distinct-left [] ys d = tt
Distinct-left (x ∷ xs) ys (fresh, d) = (all-left x xs ys fresh, Distinct-left xs ys d)

-- The log of a message that is sent: it is stored when it is valid.
module _ (now : ℕ) (new_id id : Text) (msg : Message) (r : Delegation) (files : Files) (logs : Logs)
    (messages : List Message) (known : read id files ≡ ok r)
    (logged : read_messages id logs ≡ ok messages) where
  pub append_message-invalid :
      is_valid msg ≡ false → (append_message true now (some new_id) id msg files logs).1 ≡ logs
  unfolding append_message
  append_message-invalid v = elim (Option-cases (validate_message msg)) [
    | inl e ↦ absurd (ground (arith, e, v))
    | inr (e, q) ↦ rw (append_message, known, q) refl
  ]

  pub append_message-valid :
      is_valid msg ≡ true
      → read_messages id (append_message true now (some new_id) id msg files logs).1
        ≡ ok (messages ++ (stamped now new_id msg ∷ []))
  append_message-valid v = elim (Option-cases (validate_message msg)) [
    | inr (e, q) ↦ absurd (ground (arith, q, v))
    | inl e ↦
        rw (append_message-written now new_id id msg r files logs messages known logged e)
          (read_messages-put id _ logs (read_messages-valid id messages logs logged))
  ]

queued :
    (now : ℕ) (new_id : Text) (msg : Message) (messages : List Message)
    → keep_if is_undelivered (messages ++ (stamped now new_id msg ∷ []))
      ≡ keep_if is_undelivered messages
        ++ (if is_from "delegate" msg then stamped now new_id msg ∷ [] else [])
queued now new_id msg messages =
    keep_if-append is_undelivered messages (stamped now new_id msg ∷ [])
    ∙ ap (λ l. keep_if is_undelivered messages ++ l) (stamped-undelivered now new_id msg)

-- A run of a delegation's mailbox against a queue of the delegate's messages: each wait hands out
-- the queue as it is, but for the time of the delivery, and what is undelivered in the end is what
-- the queue holds. Every write succeeds, and the ids of the messages differ.
pub run_turns-run_queue :
    (id : Text) (files : Files) (r : Delegation) (turns : List Turn) (logs : Logs)
    (messages : List Message)
    → read id files ≡ ok r
    → read_messages id logs ≡ ok messages
    → Distinct (messages ++ stored_by turns)
    → let (outputs, logs') = run_turns id files turns logs in
      let (queues, queue) = run_queue turns (keep_if is_undelivered messages) in
      (map (map undated) outputs ≡ queues) × (undelivered_from_delegate id logs' ≡ ok queue)
unfolding run_turns run_queue undelivered_from_delegate
run_turns-run_queue id files r [] logs messages known logged d =
    (refl, rw (undelivered_from_delegate, logged) refl)
run_turns-run_queue id files r (sent now new_id msg ∷ turns) logs messages known logged d =
    elim (Bool-cases (is_valid msg)) [
      | inl v ↦
          let d' : Distinct (messages ++ (stamped now new_id msg ∷ stored_by turns)) = rw v at d in
          let ih =
            run_turns-run_queue id files r turns _ (messages ++ (stamped now new_id msg ∷ [])) known
              (append_message-valid now new_id id msg r files logs messages known logged v)
              (subst Distinct
                (sym (append_assoc messages (stamped now new_id msg ∷ []) (stored_by turns))) d') in
          rw (run_turns, run_queue, v, sym (queued now new_id msg messages)) ih
      | inr v ↦
          let d' : Distinct (messages ++ stored_by turns) = rw v at d in
          rw
            (
              run_turns,
              run_queue,
              append_message-invalid now new_id id msg r files logs messages known logged v,
              v,
            )
            (run_turns-run_queue id files r turns logs messages known logged d')
    ]
run_turns-run_queue id files r (taken now ∷ turns) logs messages known logged d =
    let (result, after, read_after, none_left, marking) =
      take_undelivered-read now id logs messages logged
        (Distinct-left messages (stored_by turns) d) in
    let d' : Distinct (after ++ stored_by turns) = elim marking [
      | inl e ↦ subst (λ l. Distinct (l ++ stored_by turns)) (sym e) d
      | inr e ↦
          subst (λ l. Distinct (l ++ stored_by turns)) (sym e)
            (mark_all-Distinct now (waiting_ids messages) messages (stored_by turns) d)
    ] in
    let ih = run_turns-run_queue id files r turns _ after known read_after d' in
    let ih' = rw none_left at ih in
    rw (run_turns, run_queue, result, undated-delivered now messages)
      (ap (λ l. keep_if is_undelivered messages ∷ l) ih'.0, ih'.1)
