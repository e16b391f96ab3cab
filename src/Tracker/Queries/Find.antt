-- ===== src/Tracker/Queries/Find.antt =====
-- `GetEvent` and `Dismiss`: a row by its identifiers, where "" and pid 0 stand for any.
use tail_claude_mux.Tracker.Rows.{row-delete_instance}
use tail_claude_mux.Tracker.Keys.{synthetic_key, instance_key}
use tail_claude_mux.Tracker.State.{delete_instance, row, rows_of, Tracker, Rows}
use tail_claude_mux.Wire.{AgentEvent}
use tail_claude_mux.Base.{
  Option-cases, ◌⊎◌, text_eq, text_beq_iff, Text, find, option_eq, nat_eq, ◌!=◌, ◌==◌, Bool-cases,
  if◌then◌else◌, arith, ◌∷◌, [], some, none, Option, ◌||◌, ◌&&◌, false, true, Bool, inr, inl, ◌≡◌,
  ℕ,
}

-- The keyed fast path of `GetEvent`.
unfoldable keyed_hit : Rows → Text → Text → Text → Option AgentEvent
keyed_hit si agent thread_id pane_id =
    if thread_id != []
    then (if agent != [] then find (instance_key agent thread_id) si else none)
    else if pane_id != []
    then (if agent != [] then find (synthetic_key agent pane_id) si else none)
    else none

-- The test of the fallback scan.
unfoldable matches_ids : Text → Text → Text → AgentEvent → Bool
matches_ids agent thread_id pane_id ev =
    (agent == [] || ev.agent == agent)
    && (thread_id != [] && ev.thread_id == thread_id
        || thread_id == [] && (pane_id != [] && ev.pane_id == pane_id))

unfoldable first_match : (AgentEvent → Bool) → Rows → Option AgentEvent
first_match p [] = none
first_match p ((k, ev) ∷ m) = if p ev then some ev else first_match p m

unfoldable pub get_event : Text → Text → Text → Text → Tracker → Option AgentEvent
unfolding keyed_hit first_match matches_ids
get_event s agent thread_id pane_id t =
    let si = rows_of t s in
    elim (keyed_hit si agent thread_id pane_id) [
      | some hit ↦ some hit
      | none ↦ first_match (matches_ids agent thread_id pane_id) si
    ]

unfoldable pub dismissible : Text → Text → Text → ℕ → AgentEvent → Bool
dismissible agent thread_id pane_id pid ev =
    ev.agent == agent
    && ((thread_id == [] || ev.thread_id == thread_id)
        && ((pane_id == [] || ev.pane_id == pane_id) && (pid == 0 || ev.pid == pid)))

-- The key of the first row that passes the test.
unfoldable pub first_key : (AgentEvent → Bool) → Rows → Option Text
first_key p [] = none
first_key p ((k, ev) ∷ m) = if p ev then some k else first_key p m

unfoldable pub dismiss : Text → Text → Text → Text → ℕ → Tracker → Tracker × Bool
dismiss s agent thread_id pane_id pid t =
    elim (first_key (dismissible agent thread_id pane_id pid) (rows_of t s)) [
      | none ↦ (t, false)
      | some key ↦ (delete_instance s key t, true)
    ]

-- The keys of the session's map are distinct, as a Go map's are.
abbrev Distinct : Rows → Type 0
Distinct [] = Unit
Distinct ((k, ev) ∷ m) = (find k m ≡ none) × Distinct m

first_key-some :
    (p : AgentEvent → Bool) (m : Rows) (k : Text)
    → Distinct m
    → first_key p m ≡ some k
    → (ev : AgentEvent) × (find k m ≡ some ev) × (p ev ≡ true)
unfolding first_key find
first_key-some p [] k d h = absurd (cc)
first_key-some p ((j, x) ∷ m) k d h = elim (Bool-cases (p x)) [
  | inl e ↦ (x, ground (arith, h, e, text_beq_iff j k), e)
  | inr e ↦
      let (ev, f, g) = first_key-some p m k d.1 (ground (arith, h, e)) in
      (ev, ground (arith, f, d.0, text_beq_iff j k), g)
]

first_key-none :
    (p : AgentEvent → Bool) (m : Rows) (k : Text) (ev : AgentEvent)
    → first_key p m ≡ none
    → find k m ≡ some ev
    → p ev ≡ false
unfolding first_key find
first_key-none p [] k ev h f = absurd (cc)
first_key-none p ((j, x) ∷ m) k ev h f = elim (Bool-cases (j == k)) [
  | inl e ↦ ground (arith, h, f, e)
  | inr e ↦ first_key-none p m k ev (ground (arith, h)) (ground (arith, f, e))
]

-- A dismissal that reports success has removed one row, which meets all the identifiers given, and
-- left all others.
dismiss-removed :
    (s agent thread_id pane_id : Text) (pid : ℕ) (t : Tracker)
    → Distinct (rows_of t s)
    → (dismiss s agent thread_id pane_id pid t).1 ≡ true
    → (key : Text) × (ev : AgentEvent) × (row t s key ≡ some ev)
      × (dismissible agent thread_id pane_id pid ev ≡ true)
      × ((s' k' : Text)
          → row (dismiss s agent thread_id pane_id pid t).0 s' k'
            ≡ (if s == s' && key == k' then none else row t s' k'))
unfolding dismiss
dismiss-removed s agent thread_id pane_id pid t d h =
    let p = dismissible agent thread_id pane_id pid in
    elim (Option-cases (first_key p (rows_of t s))) [
      | inl e ↦ absurd (ground (arith, h, e))
      | inr (key, e) ↦
          let (ev, f, g) = first_key-some p (rows_of t s) key d e in
          (
            key,
            ev,
            unfold row in f,
            g,
            λ s' k'. rw (e, dismiss) (row-delete_instance s key t s' k'),
          )
    ]

-- A dismissal that reports failure changes nothing, and no row of the session meets the identifiers.
dismiss-none :
    (s agent thread_id pane_id : Text) (pid : ℕ) (t : Tracker) (k : Text) (ev : AgentEvent)
    → (dismiss s agent thread_id pane_id pid t).1 ≡ false
    → row t s k ≡ some ev
    → ((dismiss s agent thread_id pane_id pid t).0 ≡ t)
      × (dismissible agent thread_id pane_id pid ev ≡ false)
unfolding dismiss
dismiss-none s agent thread_id pane_id pid t k ev h f =
    let p = dismissible agent thread_id pane_id pid in
    elim (Option-cases (first_key p (rows_of t s))) [
      | inl e ↦ (rw (e, dismiss), first_key-none p (rows_of t s) k ev e (unfold row in f))
      | inr (key, e) ↦ absurd (ground (arith, h, e))
    ]

first_match-some :
    (p : AgentEvent → Bool) (m : Rows) (k : Text) (ev : AgentEvent)
    → find k m ≡ some ev
    → p ev ≡ true
    → (hit : AgentEvent) × (first_match p m ≡ some hit) × (p hit ≡ true)
unfolding first_match find
first_match-some p [] k ev f h = absurd (cc)
first_match-some p ((j, x) ∷ m) k ev f h = elim (Bool-cases (p x)) [
  | inl e ↦ (x, rw e, e)
  | inr e ↦
      let (hit, found, good) = first_match-some p m k ev (ground (arith, f, h, e)) h in
      (hit, rw e found, good)
]

-- A lookup by identifiers that some row of the session meets gives a row, whatever that row's key:
-- the one that is stored under the key of the identifiers, or else one that meets them.
get_event-found :
    (s agent thread_id pane_id : Text) (t : Tracker) (k : Text) (ev : AgentEvent)
    → row t s k ≡ some ev
    → matches_ids agent thread_id pane_id ev ≡ true
    → (hit : AgentEvent) × (get_event s agent thread_id pane_id t ≡ some hit)
      × ((keyed_hit (rows_of t s) agent thread_id pane_id ≡ some hit)
          ⊎ (matches_ids agent thread_id pane_id hit ≡ true))
unfolding get_event row
get_event-found s agent thread_id pane_id t k ev f h =
    elim (Option-cases (keyed_hit (rows_of t s) agent thread_id pane_id)) [
      | inl e ↦
          let (hit, found, good) =
            first_match-some (matches_ids agent thread_id pane_id) (rows_of t s) k ev f h in
          (hit, rw (e, get_event) found, inr good)
      | inr (hit, e) ↦ (hit, rw (e, get_event), inl e)
    ]
