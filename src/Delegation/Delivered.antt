-- ===== src/Delegation/Delivered.antt =====
-- `AppendMessage` and `MarkDelivered` of apps/server-go/internal/delegation/messages.go.
use tail_claude_mux.Delegation.Uuid.{valid_uuid}
use tail_claude_mux.Delegation.Records.{failed, ok, not_found, read, Files, Delegation}
use tail_claude_mux.Delegation.Messages.{
  is_from, mark_delivered, mark_all, mark, is_wanted, undelivered_from_delegate, is_undelivered,
  append_message, push_message, stamped, write_messages, read_messages, validate_message, Logs,
  Message,
}
use tail_claude_mux.Base.{
  text_beq, ◌==◌, if◌then◌else◌, ◌&&◌, Bool, Text, keep_if, find-put, put, find, ==_refl,
  Bool-cases, arith, ◌++◌, ◌∷◌, [], List, some, none, not, false, true, inr, inl, ◌∙◌, ap, sym,
  refl, ◌≡◌, ℕ, nat_eq, text_eq, option_eq,
}

pub read_messages-put :
    (id : Text) (messages : List Message) (logs : Logs)
    → valid_uuid id ≡ true
    → read_messages id (put id (some messages) logs) ≡ ok messages
unfolding read_messages
read_messages-put id messages logs h =
    let f : find id (put id (some messages) logs) ≡ some (some messages) =
      find-put id id (some messages) logs ∙ rw (==_refl id) refl in
    rw (read_messages, h, f) refl

pub read_messages-valid :
    (id : Text) (messages : List Message) (logs : Logs)
    → read_messages id logs ≡ ok messages
    → valid_uuid id ≡ true
unfolding read_messages
read_messages-valid id messages logs h = elim (Bool-cases (valid_uuid id)) [
  | inl c ↦ c
  | inr c ↦
      let e : failed not_found ≡ ok messages = sym (rw (read_messages, c) refl) ∙ h in
      absurd (ground arith)
]

pub keep_if-append :
    (p : Message → Bool) (xs ys : List Message)
    → keep_if p (xs ++ ys) ≡ keep_if p xs ++ keep_if p ys
keep_if-append p [] ys = refl
keep_if-append p (x ∷ xs) ys = elim (Bool-cases (p x)) [
  | inl c ↦ rw c (ap (λ l. x ∷ l) (keep_if-append p xs ys))
  | inr c ↦ rw c (keep_if-append p xs ys)
]

pub stamped-undelivered :
    (now : ℕ) (new_id : Text) (msg : Message)
    → keep_if is_undelivered (stamped now new_id msg ∷ [])
      ≡ (if is_from "delegate" msg then stamped now new_id msg ∷ [] else [])
unfolding stamped
stamped-undelivered now new_id msg = ground arith

pub append_message-written :
    (now : ℕ) (new_id id : Text) (msg : Message) (r : Delegation) (files : Files) (logs : Logs)
    (messages : List Message)
    → read id files ≡ ok r
    → read_messages id logs ≡ ok messages
    → validate_message msg ≡ none
    → append_message true now (some new_id) id msg files logs ≡ (
      ok (stamped now new_id msg),
      put id (some (messages ++ (stamped now new_id msg ∷ []))) logs,
    )
unfolding append_message push_message write_messages
append_message-written now new_id id msg r files logs messages h g v =
    rw (append_message, h, v, push_message, g, write_messages) refl

-- A valid message to a delegation that exists is returned and stored last in its log, with the
-- minted id, the time of the call and no delivery, whatever those of the given message were; the
-- undelivered messages are then the earlier ones and, when a delegate sent it, this one.
append_message-stored :
    (now : ℕ) (new_id id : Text) (msg : Message) (r : Delegation) (files : Files) (logs : Logs)
    (messages : List Message)
    → read id files ≡ ok r
    → read_messages id logs ≡ ok messages
    → validate_message msg ≡ none
    → let after = append_message true now (some new_id) id msg files logs in
      let sent = stamped now new_id msg in
      (after.0 ≡ ok sent)
      × (read_messages id after.1 ≡ ok (messages ++ (sent ∷ [])))
      × (undelivered_from_delegate id after.1
          ≡ ok (
              keep_if is_undelivered messages
              ++ (if is_from "delegate" msg then sent ∷ [] else [])))
unfolding undelivered_from_delegate text_beq
append_message-stored now new_id id msg r files logs messages h g v =
    let sent = stamped now new_id msg in
    let back =
      read_messages-put id (messages ++ (sent ∷ [])) logs
        (read_messages-valid id messages logs g) in
    rw (append_message-written now new_id id msg r files logs messages h g v) (
      refl,
      back,
      rw (undelivered_from_delegate, back)
          (ap ok (
            keep_if-append is_undelivered messages (sent ∷ [])
            ∙ ap (λ l. keep_if is_undelivered messages ++ l) (stamped-undelivered now new_id msg))),
    )

-- The result and the state of a marking of one message.
pub mark-marked :
    (now : ℕ) (ids : List Text) (msg : Message)
    → is_wanted ids msg ≡ true
    → is_undelivered msg ≡ true
    → mark now ids msg ≡ (record msg { delivered_at = some now }, true)
unfolding mark
mark-marked now ids msg h g =
    let d : is_from "delegate" msg ≡ true = ground arith in
    let n : (msg.delivered_at == none) ≡ true = ground arith in rw (mark, h, d, n) refl

pub mark-other :
    (now : ℕ) (ids : List Text) (msg : Message)
    → (is_wanted ids msg && is_undelivered msg) ≡ false
    → mark now ids msg ≡ (msg, false)
unfolding mark
mark-other now ids msg h = elim (Bool-cases (is_wanted ids msg)) [
  | inr w ↦ rw (mark, w) refl
  | inl w ↦ elim (Bool-cases (is_from "delegate" msg)) [
    | inr d ↦ rw (mark, w, d) refl
    | inl d ↦ let n : (msg.delivered_at == none) ≡ false = ground arith in rw (mark, w, d, n) refl
  ]
]

pub mark_all-undelivered :
    (now : ℕ) (ids : List Text) (messages : List Message)
    → keep_if is_undelivered (mark_all now ids messages).0
      ≡ keep_if (λ m. not (is_wanted ids m)) (keep_if is_undelivered messages)
unfolding mark_all
mark_all-undelivered now ids [] = refl
mark_all-undelivered now ids (msg ∷ messages) = elim (Bool-cases (is_undelivered msg)) [
  | inl u ↦ elim (Bool-cases (is_wanted ids msg)) [
    | inl w ↦
        let f : is_undelivered (record msg { delivered_at = some now }) ≡ false = ground arith in
        rw (mark-marked now ids msg w u, u, w, f) (mark_all-undelivered now ids messages)
    | inr w ↦
        let e : (is_wanted ids msg && is_undelivered msg) ≡ false = ground arith in
        rw (mark-other now ids msg e, u, w)
          (ap (λ l. msg ∷ l) (mark_all-undelivered now ids messages))
  ]
  | inr u ↦
      let e : (is_wanted ids msg && is_undelivered msg) ≡ false = ground arith in
      rw (mark-other now ids msg e, u) (mark_all-undelivered now ids messages)
]

pub mark_all-unchanged :
    (now : ℕ) (ids : List Text) (messages : List Message)
    → (mark_all now ids messages).1 ≡ false
    → (mark_all now ids messages).0 ≡ messages
unfolding mark_all
mark_all-unchanged now ids [] h = refl
mark_all-unchanged now ids (msg ∷ messages) h =
    elim (Bool-cases (is_wanted ids msg && is_undelivered msg)) [
      | inr e ↦
          let q : (mark_all now ids messages).1 ≡ false =
            sym (rw (mark_all, mark-other now ids msg e) refl) ∙ h in
          rw (mark-other now ids msg e) (ap (λ l. msg ∷ l) (mark_all-unchanged now ids messages q))
      | inl e ↦
          let q : true ≡ false =
            sym (rw (mark_all, mark-marked now ids msg (ground arith) (ground arith)) refl) ∙ h in
          absurd (ground arith)
    ]

-- After a marking that is written, the undelivered messages are those that were undelivered and
-- whose ids were not given.
pub mark_delivered-undelivered :
    (now : ℕ) (id : Text) (ids : List Text) (logs : Logs) (messages : List Message)
    → read_messages id logs ≡ ok messages
    → ((mark_delivered true now id ids logs).0 ≡ none)
      × (undelivered_from_delegate id (mark_delivered true now id ids logs).1
          ≡ ok (keep_if (λ m. not (is_wanted ids m)) (keep_if is_undelivered messages)))
unfolding mark_delivered undelivered_from_delegate write_messages
mark_delivered-undelivered now id ids logs messages h =
    elim (Bool-cases (mark_all now ids messages).1) [
      | inl c ↦
          rw
            (
              mark_delivered,
              h,
              c,
              write_messages,
              undelivered_from_delegate,
              read_messages-put id (mark_all now ids messages).0 logs
                  (read_messages-valid id messages logs h),
            )
            (refl, ap ok (mark_all-undelivered now ids messages))
      | inr c ↦
          rw (mark_delivered, h, c, undelivered_from_delegate, h)
            (
              refl,
              ap ok (
                  ap (keep_if is_undelivered) (sym (mark_all-unchanged now ids messages c))
                  ∙ mark_all-undelivered now ids messages),
            )
    ]
