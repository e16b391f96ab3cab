-- ===== src/Server/Taken.antt =====
-- Each message of a delegate is handed out once, by apps/server-go/internal/server/wait.go.
use tail_claude_mux.Delegation.Records.{ok}
use tail_claude_mux.Delegation.Delivered.{
  mark_all-undelivered, mark_delivered-undelivered, mark_all-unchanged, mark-other, mark-marked,
  read_messages-valid, read_messages-put,
}
use tail_claude_mux.Server.Mailbox.{take_undelivered}
use tail_claude_mux.Delegation.Messages.{
  mark_delivered, undelivered_from_delegate, write_messages, read_messages, Logs, mark_all, mark,
  is_wanted, is_undelivered, Message,
}
use tail_claude_mux.Base.{
  is_empty, none, not, Bool, ◌⊎◌, ap, ==→ne, ne→==, ==_refl, some, sym, ℕ, text_eq, Text, all,
  keep_if, option_eq, nat_eq, ◌==◌, ◌!=◌, Bool-cases, arith, map, ◌∷◌, [], List, ◌||◌, ◌&&◌, false,
  true, inr, inl, ◌∙◌, refl, ◌≡◌,
}

-- The ids of a log differ.
abbrev pub Distinct : List Message → Type 0
Distinct [] = Unit {0}
Distinct (x ∷ xs) = (all (λ m. m.id != x.id) xs ≡ true) × Distinct xs

abbrev pub waiting_ids : List Message → List Text
waiting_ids xs = map (λ (m : Message). m.id) (keep_if is_undelivered xs)

-- The wanted messages are the undelivered ones.
abbrev Agree : List Text → List Message → Type 0
Agree ids [] = Unit {0}
Agree ids (m ∷ ms) = (is_wanted ids m ≡ is_undelivered m) × Agree ids ms

flip_ne : (a b : Text) → (a == b) ≡ false → (b == a) ≡ false
flip_ne a b h = ne→== b a (λ q. ==→ne a b h (sym q))

-- Each of the messages is named.
abbrev Wanted : List Text → List Message → Type 0
Wanted ids [] = Unit {0}
Wanted ids (m ∷ us) = (is_wanted ids m ≡ true) × Wanted ids us

List-cases :
    (xs : List Message) → (xs ≡ []) ⊎ ((m : Message) × (rest : List Message) × (xs ≡ m ∷ rest))
List-cases [] = inl refl
List-cases (m ∷ rest) = inr (m, rest, refl)

waiting_ids-cons :
    (x m : Message) (xs : List Message)
    → is_wanted (waiting_ids (x ∷ xs)) m
      ≡ ((is_undelivered x && x.id == m.id) || is_wanted (waiting_ids xs) m)
waiting_ids-cons x m xs = elim (Bool-cases (is_undelivered x)) [
  | inl e ↦ rw e refl
  | inr e ↦ rw e refl
]

not_wanted :
    (x : Message) (xs : List Message)
    → all (λ m. m.id != x.id) xs ≡ true
    → is_wanted (waiting_ids xs) x ≡ false
not_wanted x [] h = refl
not_wanted x (y ∷ xs) h =
    let ih = not_wanted x xs (ground arith) in
    let apart : (y.id == x.id) ≡ false = ground arith in
    waiting_ids-cons y x xs ∙ rw (apart, ih) (ground arith)

Agree-cons :
    (x : Message) (xs ys : List Message)
    → all (λ m. m.id != x.id) ys ≡ true
    → Agree (waiting_ids xs) ys
    → Agree (waiting_ids (x ∷ xs)) ys
Agree-cons x xs [] h a = tt
Agree-cons x xs (y ∷ ys) h (e, a) =
    let apart : (x.id == y.id) ≡ false = flip_ne y.id x.id (ground arith) in
    (waiting_ids-cons x y xs ∙ rw (apart, e) (ground arith), Agree-cons x xs ys (ground arith) a)

Distinct-Agree : (xs : List Message) → Distinct xs → Agree (waiting_ids xs) xs
Distinct-Agree [] d = tt
Distinct-Agree (x ∷ xs) (fresh, d) = (
  waiting_ids-cons x x xs ∙ rw (==_refl x.id, not_wanted x xs fresh) (ground arith),
  Agree-cons x xs xs fresh (Distinct-Agree xs d),
)

-- The message as it is handed out.
abbrev pub delivered : ℕ → Message → Message
delivered now m = record m { delivered_at = some now }

-- Marking what is wanted, where that is what is undelivered.
marked :
    (now : ℕ) (ids : List Text) (xs : List Message)
    → Agree ids xs
    → keep_if (is_wanted ids) (mark_all now ids xs).0
      ≡ map (delivered now) (keep_if is_undelivered xs)
unfolding mark_all mark
marked now ids [] a = refl
marked now ids (x ∷ xs) (e, a) = elim (Bool-cases (is_undelivered x)) [
  | inl u ↦
      let w : is_wanted ids x ≡ true = e ∙ u in
      let w' : is_wanted ids (delivered now x) ≡ true = w in
      rw (mark-marked now ids x w u, w', u) (ap (λ l. delivered now x ∷ l) (marked now ids xs a))
  | inr u ↦
      let w : is_wanted ids x ≡ false = e ∙ u in
      let other_one : (is_wanted ids x && is_undelivered x) ≡ false = ground arith in
      rw (mark-other now ids x other_one, w, u) (marked now ids xs a)
]

-- The log after a marking that is written.
pub mark_delivered-read :
    (now : ℕ) (id : Text) (ids : List Text) (logs : Logs) (messages : List Message)
    → read_messages id logs ≡ ok messages
    → read_messages id (mark_delivered true now id ids logs).1 ≡ ok (mark_all now ids messages).0
unfolding mark_delivered write_messages
mark_delivered-read now id ids logs messages h = elim (Bool-cases (mark_all now ids messages).1) [
  | inl c ↦
      rw (mark_delivered, h, c, write_messages)
        (read_messages-put id (mark_all now ids messages).0 logs
          (read_messages-valid id messages logs h))
  | inr c ↦ rw (mark_delivered, h, c) (h ∙ ap ok (sym (mark_all-unchanged now ids messages c)))
]

-- What the ids of a list name among that list's own messages.
all-Wanted :
    (ids : List Text) (us : List Message)
    → Wanted ids us
    → keep_if (λ m. not (is_wanted ids m)) us ≡ []
all-Wanted ids [] h = refl
all-Wanted ids (m ∷ us) (w, h) = rw w (all-Wanted ids us h)

Agree-Wanted :
    (ids : List Text) (xs : List Message) → Agree ids xs → Wanted ids (keep_if is_undelivered xs)
Agree-Wanted ids [] a = tt
Agree-Wanted ids (x ∷ xs) (e, a) = elim (Bool-cases (is_undelivered x)) [
  | inl u ↦ rw u (e ∙ u, Agree-Wanted ids xs a)
  | inr u ↦ rw u (Agree-Wanted ids xs a)
]

nothing_to_take :
    (writable : Bool) (now : ℕ) (id : Text) (logs : Logs)
    → undelivered_from_delegate id logs ≡ ok []
    → take_undelivered writable now id logs ≡ (ok [], logs)
unfolding take_undelivered
nothing_to_take writable now id logs h = rw (take_undelivered, h) refl

take_step :
    (writable : Bool) (now : ℕ) (id : Text) (logs : Logs) (us messages : List Message)
    → undelivered_from_delegate id logs ≡ ok us
    → is_empty us ≡ false
    → let ids = map (λ (m : Message). m.id) us in
      (mark_delivered writable now id ids logs).0 ≡ none
      → read_messages id (mark_delivered writable now id ids logs).1 ≡ ok messages
      → take_undelivered writable now id logs
        ≡ (ok (keep_if (is_wanted ids) messages), (mark_delivered writable now id ids logs).1)
unfolding take_undelivered
take_step writable now id logs us messages h e f r = rw (take_undelivered, h, e, f, r) refl

-- A taking that can write, from a log whose ids differ: what it returns, and the log after it, which
-- is as it was or marked.
pub take_undelivered-read :
    (now : ℕ) (id : Text) (logs : Logs) (messages : List Message)
    → read_messages id logs ≡ ok messages
    → Distinct messages
    → let (result, logs') = take_undelivered true now id logs in
      (result ≡ ok (map (delivered now) (keep_if is_undelivered messages)))
      × (after : List Message) × (read_messages id logs' ≡ ok after)
      × (keep_if is_undelivered after ≡ [])
      × ((after ≡ messages) ⊎ (after ≡ (mark_all now (waiting_ids messages) messages).0))
unfolding undelivered_from_delegate
take_undelivered-read now id logs messages h d =
    let us = keep_if is_undelivered messages in
    let ids = waiting_ids messages in
    let agree = Distinct-Agree messages d in
    let found : undelivered_from_delegate id logs ≡ ok us =
      rw (undelivered_from_delegate, h) refl in
    elim (List-cases us) [
      | inl e ↦
          rw (nothing_to_take true now id logs (found ∙ ap ok e), e)
            (refl, messages, h, e, inl refl)
      | inr (m, rest, e) ↦
          let after = mark_delivered-undelivered now id ids logs messages h in
          let read_after = mark_delivered-read now id ids logs messages h in
          let none_left =
            mark_all-undelivered now ids messages
            ∙ all-Wanted ids us (Agree-Wanted ids messages agree) in
          rw
            (take_step true now id logs us (mark_all now ids messages).0 found (ap is_empty e)
              after.0 read_after)
            (ap ok (marked now ids messages agree), _, read_after, none_left, inr refl)
    ]

-- A waiting call that can write takes the delegate's undelivered messages, all of them, in order
-- and stamped with its time, and the next one finds none; the log's ids differ.
take_undelivered-once :
    (now now' : ℕ) (id : Text) (logs : Logs) (messages : List Message)
    → read_messages id logs ≡ ok messages
    → Distinct messages
    → let (result, logs') = take_undelivered true now id logs in
      (result ≡ ok (map (delivered now) (keep_if is_undelivered messages)))
      × (take_undelivered true now' id logs' ≡ (ok [], logs'))
unfolding undelivered_from_delegate
take_undelivered-once now now' id logs messages h d =
    let (result, after, read_after, none_left, _) =
      take_undelivered-read now id logs messages h d in
    let logs' = (take_undelivered true now id logs).1 in
    let found : undelivered_from_delegate id logs' ≡ ok [] =
      rw (undelivered_from_delegate, read_after) (ap ok none_left) in
    (result, nothing_to_take true now' id logs' found)
