-- ===== src/CodexWatch/Picked.antt =====
-- The rollout that `rolloutPathForPID` of apps/server-go/internal/codexwatch/codexwatch.go picks.
use tail_claude_mux.CodexWatch.Rollouts.{
  rollout_path_for_pid, pick_rollout, is_rollout_of, is_primary_rollout, is_rollout_path,
}
use tail_claude_mux.Base.{
  ==→eq, Option-cases, arith, text_eq, text_beq, Text, any, keep_if, option_eq, nat_eq, ◌==◌,
  Bool-cases, if◌then◌else◌, leb, ◌∷◌, [], List, false, true, Bool, inr, inl, refl, ◌≡◌, ℕ,
}
use tail_claude_mux.CodexWatch.State.{World}

-- The first path with a property, "" for none.
abbrev pub first_path : (Text → Bool) → List Text → Text
first_path p [] = []
first_path p (path ∷ paths) = let rest = first_path p paths in if p path then path else rest

-- The first primary one of some paths, or the first one.
abbrev pub preferred : (Text → Bool) → List Text → Text
preferred is_primary paths =
    if any is_primary paths then first_path is_primary paths else first_path (λ _. true) paths

abbrev or_first : Text → List Text → Text
or_first fallback own = if fallback == [] then first_path (λ _. true) own else fallback

-- A rollout's path is not empty.
rollout_path-named :
    (w : World) (thread_id path : Text)
    → is_rollout_of w thread_id path ≡ true
    → (path == []) ≡ false
unfolding is_rollout_of is_rollout_path text_beq
rollout_path-named w thread_id [] h = elim (Option-cases (w.relative [])) [
  | inl e ↦
      let q : false ≡ true = rw (is_rollout_of, is_rollout_path, e) at h in absurd (ground arith)
  | inr (rel, e) ↦ let q = rw (is_rollout_of, is_rollout_path, e) at h in absurd (ground (arith, q))
]
rollout_path-named w thread_id (c ∷ path) h = refl

pick_rollout-preferred :
    (w : World) (thread_id : Text) (paths : List Text) (fallback : Text)
    → let own = keep_if (is_rollout_of w thread_id) paths in
      pick_rollout w thread_id paths fallback ≡ (
        if any (is_primary_rollout w) own
        then first_path (is_primary_rollout w) own
        else or_first fallback own)
unfolding pick_rollout
pick_rollout-preferred w thread_id [] fallback = elim (Bool-cases (fallback == [])) [
  | inl e ↦ rw e (==→eq fallback [] e)
  | inr e ↦ rw e refl
]
pick_rollout-preferred w thread_id (path ∷ paths) fallback =
    elim (Bool-cases (is_rollout_of w thread_id path)) [
      | inr e ↦ rw (pick_rollout, e) (pick_rollout-preferred w thread_id paths fallback)
      | inl e ↦ elim (Bool-cases (is_primary_rollout w path)) [
        | inl f ↦ rw (pick_rollout, e, f) refl
        | inr f ↦
            let named = rollout_path-named w thread_id path e in
            elim (Bool-cases (fallback == [])) [
              | inl g ↦
                  let ih = pick_rollout-preferred w thread_id paths path in
                  let ih' = rw named at ih in rw (pick_rollout, e, f, g) ih'
              | inr g ↦
                  let ih = pick_rollout-preferred w thread_id paths fallback in
                  let ih' = rw g at ih in rw (pick_rollout, e, f, g) ih'
            ]
      ]
    ]

-- Of the files that a process holds open, the rollout of a thread is the first of the command line's
-- own, and the first one at all if none of them is: the loop with its fallback picks what the two
-- passes over the thread's rollouts would.
pub rollout_path_for_pid-preferred :
    (w : World) (pid : ℕ) (thread_id : Text)
    → rollout_path_for_pid w pid thread_id ≡ (
        if leb pid 1
        then []
        else preferred
            (is_primary_rollout w)
            (keep_if (is_rollout_of w thread_id) (w.open_files pid)))
unfolding rollout_path_for_pid text_beq
rollout_path_for_pid-preferred w pid thread_id = elim (Bool-cases (leb pid 1)) [
  | inl e ↦ rw (rollout_path_for_pid, e) refl
  | inr e ↦ rw (rollout_path_for_pid, e) (pick_rollout-preferred w thread_id (w.open_files pid) [])
]
