-- ===== src/Tracker/Queries/Best.antt =====
-- `GetState`: the session's row that matters most.
use tail_claude_mux.Tracker.State.{row, new, rows_of, Tracker, Rows}
use tail_claude_mux.Wire.{
  other, interrupted, waiting, error, done, running, idle, AgentEvent, Status,
}
use tail_claude_mux.Base.{
  Bool-cases, inr, inl, ◌↔◌, ◌∙◌, sym, text_eq, Text, find, option_eq, nat_eq, ◌==◌, if◌then◌else◌,
  ltb, arith, ◌∷◌, [], some, none, Option, ◌||◌, ◌&&◌, ◌⊎◌, refl, ◌≡◌, ◌<◌, ◌≤◌, ℕ,
}

-- `statusPriority`; a word that is not in the table has priority 0.
unfoldable pub status_priority : Status → ℕ
status_priority running = 5
status_priority error = 4
status_priority interrupted = 3
status_priority waiting = 2
status_priority done = 1
status_priority idle = 0
status_priority (other w) = 0

-- One round of the loop: the best row so far, against the next.
unfoldable pub better : Option AgentEvent → AgentEvent → AgentEvent
better none ev = ev
better (some best) ev =
    let p = status_priority ev.status in
    let best_priority = status_priority best.status in
    if ltb best_priority p
    then ev
    else if p == best_priority
    then (if ltb best.ts ev.ts || ev.ts == best.ts && ltb best.first_seen_ts ev.first_seen_ts
        then ev
        else best)
    else best

unfoldable pub best_of : Option AgentEvent → Rows → Option AgentEvent
unfolding better
best_of best [] = best
best_of best ((k, ev) ∷ m) = best_of (some (better best ev)) m

unfoldable pub get_state : Text → Tracker → Option AgentEvent
unfolding best_of rows_of
get_state s t = best_of none (rows_of t s)

-- A row is no more urgent than another: by priority, then by time, then by the time first seen.
pub record NoMoreUrgent (a b : AgentEvent) : Type 0 where
  pub priority : status_priority a.status ≤ status_priority b.status
  pub time :
      (status_priority a.status < status_priority b.status)
      ⊎ ((a.ts < b.ts) ⊎ ((a.ts ≡ b.ts) × (a.first_seen_ts ≤ b.first_seen_ts)))

better-left : (best ev : AgentEvent) → NoMoreUrgent best (better (some best) ev)
unfolding better
better-left best ev = ground arith

better-right : (o : Option AgentEvent) (ev : AgentEvent) → NoMoreUrgent ev (better o ev)
unfolding better
better-right none ev = ground arith
better-right (some best) ev = ground arith

NoMoreUrgent-trans : {a b c : AgentEvent} → NoMoreUrgent a b → NoMoreUrgent b c → NoMoreUrgent a c
NoMoreUrgent-trans h k = ground arith

best_of-some :
    (best : AgentEvent) (m : Rows)
    → (b : AgentEvent) × (best_of (some best) m ≡ some b) × NoMoreUrgent best b
unfolding best_of
best_of-some best [] = (best, refl, ground arith)
best_of-some best ((k, ev) ∷ m) =
    let (b, e, h) = best_of-some (better (some best) ev) m in
    (b, e, NoMoreUrgent-trans (better-left best ev) h)

best_of-bound :
    (o : Option AgentEvent) (m : Rows) (k : Text) (ev b : AgentEvent)
    → find k m ≡ some ev
    → best_of o m ≡ some b
    → NoMoreUrgent ev b
unfolding best_of find
best_of-bound o [] k ev b f e = cc
best_of-bound o ((j, x) ∷ m) k ev b f e = elim (Bool-cases (j == k)) [
  | inl h ↦
      let (b', e', bound) = best_of-some (better o x) m in
      let same : x ≡ ev = ground (arith, f, h) in
      let top : b' ≡ b = ground (arith, e, e') in ground (arith, better-right o x, bound, same, top)
  | inr h ↦ best_of-bound (some (better o x)) m k ev b (ground (arith, f, h)) e
]

-- A row stands among a session's rows.
abbrev pub Among : AgentEvent → Rows → Type 0
Among b [] = ⊥
Among b ((k, ev) ∷ m) = (ev ≡ b) ⊎ Among b m

better-one_of :
    (best ev : AgentEvent) → (better (some best) ev ≡ best) ⊎ (better (some best) ev ≡ ev)
unfolding better
better-one_of best ev = ground arith

best_of-Among :
    (best : AgentEvent) (m : Rows) (b : AgentEvent)
    → best_of (some best) m ≡ some b
    → (best ≡ b) ⊎ Among b m
unfolding best_of
best_of-Among best [] b e = inl (ground (arith, e))
best_of-Among best ((k, ev) ∷ m) b e = elim (best_of-Among (better (some best) ev) m b e) [
  | inl same ↦ elim (better-one_of best ev) [
    | inl old ↦ inl (sym old ∙ same)
    | inr new ↦ inr (inl (sym new ∙ same))
  ]
  | inr later ↦ inr (inr later)
]

get_state-Among :
    (s : Text) (t : Tracker) (b : AgentEvent) → get_state s t ≡ some b → Among b (rows_of t s)
unfolding get_state
get_state-Among s t b e = go (rows_of t s) e
  where
    go : (m : Rows) → best_of none m ≡ some b → Among b m
    go [] h = absurd (cc)
    go ((k, ev) ∷ m) h = best_of-Among ev m b h

-- The state of a session is one of its rows, and no row of the session is more urgent: it has the
-- greatest status priority, then the greatest time, then the greatest time first seen.
pub get_state-greatest :
    (s : Text) (t : Tracker) (b : AgentEvent) (k : Text) (ev : AgentEvent)
    → get_state s t ≡ some b
    → row t s k ≡ some ev
    → Among b (rows_of t s) × NoMoreUrgent ev b
unfolding get_state row
get_state-greatest s t b k ev e f =
    (get_state-Among s t b e, best_of-bound none (rows_of t s) k ev b f e)

-- A session has a state exactly when it has a row.
get_state-none_iff : (s : Text) (t : Tracker) → (get_state s t ≡ none) ↔ (rows_of t s ≡ [])
unfolding get_state
get_state-none_iff s t = go (rows_of t s)
  where
    go : (m : Rows) → (best_of none m ≡ none) ↔ (m ≡ [])
    go [] = (λ _. refl, λ _. refl)
    go ((k, ev) ∷ m) =
        let (b, e, _) = best_of-some ev m in (λ h. absurd (ground (arith, e, h)), λ h. absurd (cc))
