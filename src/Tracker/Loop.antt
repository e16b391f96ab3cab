-- ===== src/Tracker/Loop.antt =====
-- The loops of apps/server-go/internal/tracker/tracker.go over all instances: for each session, for
-- each key that its map has when the loop over it starts, with the row that the key holds by then.
-- `S` is the loop's state, and `view` the tracker in it.
pub mod Keyed
pub mod Quiet
use tail_claude_mux.Tracker.Rows.{session-visited, row-visited, row-same}
use tail_claude_mux.Tracker.State.{row, rows_of, Tracker}
use tail_claude_mux.Wire.{AgentEvent}
use tail_claude_mux.Base.{
  Bool-cases, ◌∙◌, ==→eq, is_some, false, true, ap, sym, text_eq, Text, any, keys, option_eq,
  nat_eq, ◌==◌, Option-cases, if◌then◌else◌, arith, ◌∷◌, [], List, some, none, Option, ◌||◌, ◌&&◌,
  Bool, inr, inl, refl, ◌≡◌,
}

-- The row after a pass that acts on each row by itself; `none` is its deletion.
abbrev pub act_on : (AgentEvent → Option AgentEvent) → Option AgentEvent → Option AgentEvent
act_on act none = none
act_on act (some ev) = act ev

pub act_regroup :
    (act : AgentEvent → Option AgentEvent) (here hit rest : Bool) (o : Option AgentEvent)
    → act_on act (act_on act o) ≡ act_on act o
    → (if here && rest
        then act_on act (if here && hit then act_on act o else o)
        else if here && hit
        then act_on act o
        else o)
      ≡ (if here && (hit || rest) then act_on act o else o)
act_regroup act here hit rest o idem = ground arith

pub if_same : {A : Type 0} (b : Bool) (x y : A) → (b ≡ true → x ≡ y) → (if b then x else y) ≡ y
if_same true x y h = h refl
if_same false x y h = refl

pub if_then :
    {A : Type 0} (b : Bool) (x x' y : A)
    → (b ≡ true → x ≡ x')
    → (if b then x else y) ≡ (if b then x' else y)
if_then true x x' y h = h refl
if_then false x x' y h = refl

module _ {S : Type 0} (view : S → Tracker) (body : Text → Text → AgentEvent → S → S) where
  unfoldable pub visit : Text → Text → S → S
  visit s k st = elim (row (view st) s k) [ none ↦ st | some ev ↦ body s k ev st ]

  unfoldable pub for_rows : Text → List Text → S → S
  unfolding visit
  for_rows s [] st = st
  for_rows s (k ∷ ks) st = for_rows s ks (visit s k st)

  unfoldable pub for_sessions : List Text → S → S
  unfolding for_rows
  for_sessions [] st = st
  for_sessions (s ∷ ss) st = for_sessions ss (for_rows s (keys (rows_of (view st) s)) st)

  unfoldable pub for_instances : S → S
  unfolding for_sessions
  for_instances st = for_sessions (keys (view st).instances) st

  -- What the body keeps, the loop over a session's rows keeps.
  pub for_rows_keeps :
      (P : S → Type 0) (s : Text)
      → ((k : Text) (ev : AgentEvent) (st : S) → P st → P (body s k ev st))
      → (ks : List Text) (st : S) → P st
      → P (for_rows s ks st)
  unfolding for_rows
  for_rows_keeps P s step [] st h = h
  for_rows_keeps P s step (k ∷ ks) st h = for_rows_keeps P s step ks (visit s k st) (visit_keeps k)
    where
      visit_keeps : (k : Text) → P (visit s k st)
      visit_keeps k = elim (Option-cases (row (view st) s k)) [
        | inl e ↦ rw (visit, e) h
        | inr (ev, e) ↦ rw (visit, e) (step k ev st h)
      ]

-- A body that acts on its own row, by `act`, makes a pass that acts on every row by `act`.
module _ {S : Type 0} (view : S → Tracker) (body : Text → Text → AgentEvent → S → S)
    (act : AgentEvent → Option AgentEvent)
    (local : (s k : Text) (ev : AgentEvent) (st : S) (s' k' : Text)
      → row (view st) s k ≡ some ev
      → row (view (body s k ev st)) s' k'
        ≡ (if s == s' && k == k' then act ev else row (view st) s' k'))
    (idem : (ev : AgentEvent) → act_on act (act ev) ≡ act ev) where
  idem_on : (o : Option AgentEvent) → act_on act (act_on act o) ≡ act_on act o
  idem_on none = refl
  idem_on (some ev) = idem ev

  row-visit :
      (s k : Text) (st : S) (s' k' : Text)
      → row (view (visit view body s k st)) s' k'
        ≡ (if s == s' && k == k' then act_on act (row (view st) s' k') else row (view st) s' k')
  unfolding visit
  row-visit s k st s' k' = elim (Option-cases (row (view st) s k)) [
    | inl e ↦
        rw (e, visit)
          (sym (
            if_same (s == s' && k == k') (act_on act (row (view st) s' k')) (row (view st) s' k')
              (λ h. rw (row-same (view st) s k s' k' h, e))))
    | inr (ev, e) ↦
        rw (e, visit, local s k ev st s' k' e)
          (if_then (s == s' && k == k') (act ev) (act_on act (row (view st) s' k'))
            (row (view st) s' k') (λ h. rw (row-same (view st) s k s' k' h, e)))
  ]

  row-for_rows :
      (s : Text) (ks : List Text) (st : S) (s' k' : Text)
      → row (view (for_rows view body s ks st)) s' k' ≡ (
          if s == s' && any (λ k. k == k') ks
          then act_on act (row (view st) s' k')
          else row (view st) s' k')
  unfolding for_rows
  row-for_rows s [] st s' k' = ground arith
  row-for_rows s (k ∷ ks) st s' k' =
      rw (row-for_rows s ks (visit view body s k st) s' k', row-visit s k st s' k')
        (act_regroup act (s == s') (k == k') (any (λ j. j == k') ks) (row (view st) s' k')
          (idem_on (row (view st) s' k')))

  row-for_session :
      (s : Text) (st : S) (s' k' : Text)
      → row (view (for_rows view body s (keys (rows_of (view st) s)) st)) s' k'
        ≡ (if s == s' then act_on act (row (view st) s' k') else row (view st) s' k')
  row-for_session s st s' k' =
      rw (row-for_rows s (keys (rows_of (view st) s)) st s' k', row-visited (view st) s k')
        (present (s == s') (row (view st) s k') (row (view st) s' k')
          (λ h. ap (λ x. row (view st) x k') (==→eq s s' h)))
    where
      present :
          (b : Bool) (o o' : Option AgentEvent)
          → (b ≡ true → o ≡ o')
          → (if b && is_some o then act_on act o' else o') ≡ (if b then act_on act o' else o')
      present false o o' h = refl
      present true o none h = rw (h refl)
      present true o (some ev) h = rw (h refl)

  row-for_sessions :
      (ss : List Text) (st : S) (s' k' : Text)
      → row (view (for_sessions view body ss st)) s' k'
        ≡ (if any (λ s. s == s') ss then act_on act (row (view st) s' k') else row (view st) s' k')
  unfolding for_sessions
  row-for_sessions [] st s' k' = refl
  row-for_sessions (s ∷ ss) st s' k' =
      rw
        (
          row-for_sessions ss (for_rows view body s (keys (rows_of (view st) s)) st) s' k',
          row-for_session s st s' k',
        )
        (act_regroup act true (s == s') (any (λ j. j == s') ss) (row (view st) s' k')
          (idem_on (row (view st) s' k')))

  pub row-for_instances :
      (st : S) (s k : Text)
      → row (view (for_instances view body st)) s k ≡ act_on act (row (view st) s k)
  unfolding for_instances
  row-for_instances st s k =
      rw (row-for_sessions (keys (view st).instances) st s k)
        (elim (Bool-cases (any (λ j. j == s) (keys (view st).instances))) [
          | inl h ↦ rw h
          | inr h ↦ rw (h, session-visited (view st) s k h)
        ])
