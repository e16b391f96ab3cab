-- ===== src/Tracker/Rows.antt =====
-- What the row helpers of the tracker read after one another's writes.
use tail_claude_mux.Base.{
  any, find_visited, keys, is_some, false, ◌∙◌, sym, option_eq, nat_eq, Option, Bool, inr, inl,
  Option-cases, ◌≡◌, refl, true, ◌&&◌, none, some, [], ◌∷◌, Text, Map, find, put, remove, find-put,
  find-remove, ◌==◌, text_eq, text_beq_iff, if◌then◌else◌, is_empty, arith,
}
use tail_claude_mux.Wire.{AgentEvent}
use tail_claude_mux.Tracker.State.{
  Rows, Tracker, rows_of, row, put_row, remove_row, delete_instance,
}

-- The session's rows in a map of sessions.
rows_in : Map Text Rows → Text → Rows
rows_in m s = elim (find s m) [ none ↦ [] | some r ↦ r ]

-- The session's map as the other reads see it, after a write of the whole map.
rows_of-put :
    (s : Text) (r : Rows) (t : Tracker) (s' : Text)
    → rows_of (record t { instances = put s r t.instances }) s'
      ≡ (if s == s' then r else rows_of t s')
unfolding rows_of
rows_of-put s r t s' = ground (arith, find-put s s' r t.instances)

pub row-put_row :
    (s k : Text) (ev : AgentEvent) (t : Tracker) (s' k' : Text)
    → row (put_row s k ev t) s' k' ≡ (if s == s' && k == k' then some ev else row t s' k')
unfolding row put_row
row-put_row s k ev t s' k' = ground (
  arith,
  text_beq_iff s s',
  rows_of-put s (put k ev (rows_of t s)) t s',
  find-put k k' ev (rows_of t s),
)

find-nil : (k : Text) → find {V = AgentEvent} k [] ≡ none
unfolding find
find-nil k = refl

is_empty-find : (k : Text) (m : Rows) → is_empty m ≡ true → find k m ≡ none
unfolding find
is_empty-find k [] h = refl
is_empty-find k (x ∷ m) h = cc

find-remove_row :
    (s k : Text) (m : Map Text Rows) (s' k' : Text)
    → find k' (rows_in (remove_row s k m) s')
      ≡ (if s == s' && k == k' then none else find k' (rows_in m s'))
unfolding remove_row rows_in
find-remove_row s k m s' k' = elim (Option-cases (find s m)) [
  | inl e ↦ ground (arith, e, text_beq_iff s s', find-nil k')
  | inr (si, e) ↦ ground (
    arith,
    e,
    text_beq_iff s s',
    find-put s s' (remove k si) m,
    find-remove s s' m,
    find-remove k k' si,
    is_empty-find k' (remove k si),
    find-nil k',
  )
]

pub row-delete_instance :
    (s k : Text) (t : Tracker) (s' k' : Text)
    → row (delete_instance s k t) s' k' ≡ (if s == s' && k == k' then none else row t s' k')
unfolding row delete_instance rows_of rows_in
row-delete_instance s k t s' k' = find-remove_row s k t.instances s' k'

-- What a pass does to a row: it leaves it, or it removes one that meets the test.
pub data Outcome (p : AgentEvent → Bool) (before after : Option AgentEvent) : Type 0 where
  kept : after ≡ before → Outcome p before after
  gone : (ev : AgentEvent) → before ≡ some ev → p ev ≡ true → after ≡ none → Outcome p before after

pub Outcome-weaken :
    {p q : AgentEvent → Bool} {a b : Option AgentEvent}
    → ((ev : AgentEvent) → p ev ≡ true → q ev ≡ true)
    → Outcome p a b
    → Outcome q a b
Outcome-weaken imp (kept e) = kept e
Outcome-weaken imp (gone ev e m n) = gone ev e (imp ev m) n

pub Outcome-trans :
    {p : AgentEvent → Bool} {a b c : Option AgentEvent}
    → Outcome p a b
    → Outcome p b c
    → Outcome p a c
Outcome-trans (kept e) (kept e') = kept (e' ∙ e)
Outcome-trans (kept e) (gone ev f m n) = gone ev (sym e ∙ f) m n
Outcome-trans (gone ev e m n) (kept e') = gone ev e m (e' ∙ n)
Outcome-trans (gone ev e m n) (gone ev' e' m' n') = gone ev e m n'

-- A row that is there afterwards was there before.
pub Outcome-some :
    {p : AgentEvent → Bool} {a b : Option AgentEvent} {ev : AgentEvent}
    → Outcome p a b
    → b ≡ some ev
    → a ≡ some ev
Outcome-some (kept e) h = sym e ∙ h
Outcome-some (gone ev' e m n) h = absurd (ground (arith, n, h))

pub row-same :
    (t : Tracker) (s k s' k' : Text) → (s == s' && k == k') ≡ true → row t s' k' ≡ row t s k
row-same t s k s' k' h = ground (arith, text_beq_iff s s', text_beq_iff k k')

-- A loop over a session's keys visits the rows that are there, and no other.
pub row-visited :
    (t : Tracker) (s k : Text) → any (λ j. j == k) (keys (rows_of t s)) ≡ is_some (row t s k)
unfolding row
row-visited t s k = sym (find_visited k (rows_of t s))

pub session-visited :
    (t : Tracker) (s k : Text) → any (λ j. j == s) (keys t.instances) ≡ false → row t s k ≡ none
unfolding row rows_of find
session-visited t s k h = elim (Option-cases (find s t.instances)) [
  | inl e ↦ rw (e, rows_of)
  | inr (si, e) ↦ absurd (ground (arith, e, h, find_visited s t.instances))
]
