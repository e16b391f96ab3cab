-- ===== src/Tracker/Loop/Keyed.antt =====
-- The loop of apps/server-go/internal/tracker/tracker.go over one session's rows, as one key sees it.
use tail_claude_mux.Tracker.Loop.{visit, for_rows, act_on, act_regroup, if_same, if_then}
use tail_claude_mux.Tracker.Rows.{row-visited}
use tail_claude_mux.Tracker.State.{row, rows_of, Tracker}
use tail_claude_mux.Wire.{AgentEvent}
use tail_claude_mux.Base.{
  ==→eq, is_some, true, ap, sym, text_eq, Text, any, keys, option_eq, nat_eq, ◌==◌, Option-cases,
  if◌then◌else◌, ◌∷◌, [], List, some, none, Option, inr, inl, refl, ◌≡◌,
}

-- A body that acts by `act` on the row under one key, in a loop over that row's session.
module _ {S : Type 0} (view : S → Tracker) (body : Text → Text → AgentEvent → S → S)
    (act : AgentEvent → Option AgentEvent) (s k' : Text)
    (local : (k : Text) (ev : AgentEvent) (st : S)
      → row (view st) s k ≡ some ev
      → row (view (body s k ev st)) s k' ≡ (if k == k' then act ev else row (view st) s k'))
    (idem : (ev : AgentEvent) → act_on act (act ev) ≡ act ev) where
  row-visit_at :
      (k : Text) (st : S)
      → row (view (visit view body s k st)) s k'
        ≡ (if k == k' then act_on act (row (view st) s k') else row (view st) s k')
  unfolding visit
  row-visit_at k st = elim (Option-cases (row (view st) s k)) [
    | inl e ↦
        rw (e, visit)
          (sym (
            if_same (k == k') (act_on act (row (view st) s k')) (row (view st) s k')
              (λ h. rw (ap (λ x. row (view st) s x) (sym (==→eq k k' h)), e))))
    | inr (ev, e) ↦
        rw (e, visit, local k ev st e)
          (if_then (k == k') (act ev) (act_on act (row (view st) s k')) (row (view st) s k')
            (λ h. rw (ap (λ x. row (view st) s x) (sym (==→eq k k' h)), e)))
  ]

  row-for_rows_at :
      (ks : List Text) (st : S)
      → row (view (for_rows view body s ks st)) s k'
        ≡ (if any (λ k. k == k') ks then act_on act (row (view st) s k') else row (view st) s k')
  unfolding for_rows
  row-for_rows_at [] st = refl
  row-for_rows_at (k ∷ ks) st =
      rw (row-for_rows_at ks (visit view body s k st), row-visit_at k st)
        (act_regroup act true (k == k') (any (λ j. j == k') ks) (row (view st) s k')
          (idem_at (row (view st) s k')))
    where
      idem_at : (o : Option AgentEvent) → act_on act (act_on act o) ≡ act_on act o
      idem_at none = refl
      idem_at (some ev) = idem ev

  pub row-for_keys :
      (st : S)
      → row (view (for_rows view body s (keys (rows_of (view st) s)) st)) s k'
        ≡ act_on act (row (view st) s k')
  row-for_keys st =
      rw (row-for_rows_at (keys (rows_of (view st) s)) st, row-visited (view st) s k')
        (present (row (view st) s k'))
    where
      present : (o : Option AgentEvent) → (if is_some o then act_on act o else o) ≡ act_on act o
      present none = refl
      present (some ev) = refl
