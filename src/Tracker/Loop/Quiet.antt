-- ===== src/Tracker/Loop/Quiet.antt =====
-- Loops of apps/server-go/internal/tracker/tracker.go whose pass reports no change.
use tail_claude_mux.Tracker.Loop.{visit, for_rows, for_sessions, for_instances}
use tail_claude_mux.Tracker.State.{row, rows_of, Tracker}
use tail_claude_mux.Wire.{AgentEvent}
use tail_claude_mux.Base.{
  ◌∙◌, false, ap, sym, text_eq, Text, keys, option_eq, nat_eq, Option-cases, ◌∷◌, [], List, Bool,
  inr, inl, refl, ◌≡◌,
}

-- A pass with a flag that is still down at the end has done nothing.
module _ {S : Type 0} (view : S → Tracker) (changed : S → Bool)
    (body : Text → Text → AgentEvent → S → S)
    (quiet : (s k : Text) (ev : AgentEvent) (st : S)
      → changed (body s k ev st) ≡ false
      → body s k ev st ≡ st) where
  quiet-visit :
      (s k : Text) (st : S) → changed (visit view body s k st) ≡ false → visit view body s k st ≡ st
  unfolding visit
  quiet-visit s k st h = elim (Option-cases (row (view st) s k)) [
    | inl e ↦ rw (e, visit)
    | inr (ev, e) ↦ rw (e, visit) (quiet s k ev st (rw (e, visit) at h))
  ]

  quiet-for_rows :
      (s : Text) (ks : List Text) (st : S)
      → changed (for_rows view body s ks st) ≡ false
      → for_rows view body s ks st ≡ st
  unfolding for_rows
  quiet-for_rows s [] st h = refl
  quiet-for_rows s (k ∷ ks) st h =
      let e = quiet-for_rows s ks (visit view body s k st) h in
      e ∙ quiet-visit s k st (sym (ap changed e) ∙ h)

  quiet-for_sessions :
      (ss : List Text) (st : S)
      → changed (for_sessions view body ss st) ≡ false
      → for_sessions view body ss st ≡ st
  unfolding for_sessions
  quiet-for_sessions [] st h = refl
  quiet-for_sessions (s ∷ ss) st h =
      let ks = keys (rows_of (view st) s) in
      let e = quiet-for_sessions ss (for_rows view body s ks st) h in
      e ∙ quiet-for_rows s ks st (sym (ap changed e) ∙ h)

  pub quiet-for_instances :
      (st : S) → changed (for_instances view body st) ≡ false → for_instances view body st ≡ st
  unfolding for_instances
  quiet-for_instances st h = quiet-for_sessions (keys (view st).instances) st h
