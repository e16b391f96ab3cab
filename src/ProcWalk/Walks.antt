-- ===== src/ProcWalk/Walks.antt =====
-- `ResolveAgentSessionPid` and `ResolveSessionByPid` of apps/server-go/internal/procwalk/procwalk.go.
-- The loop takes a round of fuel for each process that it looks at; `none` means that the fuel ran
-- out, which ProcWalk/Total.antt excludes.

-- Where a walk ends, of the two that share the loop's shape: a result, or the next process.
use tail_claude_mux.SessionOrder.State.{target}
use tail_claude_mux.ProcWalk.Snapshot.{Snapshot, ProcInfo}
use tail_claude_mux.Base.{
  inr, inl, ◌⊎◌, refl, ◌≡◌, text_eq, Text, any, find, option_eq, nat_eq, ◌==◌, if◌then◌else◌, leb,
  ◌∷◌, [], List, some, none, Option, ◌||◌, false, true, Bool, suc, zero, ℕ,
}

pub data Next (R : Type 0) : Type 0 where
  stop : R → Next R
  go : ℕ → Next R

pub Next-cases :
    {R : Type 0} (v : Next R) → ((r : R) × (v ≡ Next.stop r)) ⊎ ((p : ℕ) × (v ≡ Next.go p))
Next-cases (stop r) = inl (r, refl)
Next-cases (go p) = inr (p, refl)

module _ {R : Type 0} (visit : ℕ → Next R) (fallback : R) where
  -- `for current > 1 && !seen[current]`.
  unfoldable pub walk : ℕ → List ℕ → ℕ → Option R
  walk zero seen current = none
  walk (suc fuel) seen current = elim (leb current 1 || any (λ p. p == current) seen) [
    | true ↦ some fallback
    | false ↦ elim (visit current) [
      | stop r ↦ some r
      | go parent ↦ walk fuel (current ∷ seen) parent
    ]
  ]

-- The step to the parent, which both loops end with.
unfoldable pub to_parent : {R : Type 0} → R → ProcInfo → ℕ → Next R
to_parent fallback info current =
    if info.ppid == current || leb info.ppid 1 then Next.stop fallback else Next.go info.ppid

unfoldable pub visit_agent : (Text → Bool) → Snapshot → ℕ → ℕ → Next ℕ
unfolding to_parent
visit_agent matches snapshot reported current = elim (find current snapshot) [
  | none ↦ Next.stop reported
  | some info ↦ if matches info.command then Next.stop current else to_parent reported info current
]

-- `ResolveAgentSessionPid`.
unfoldable pub resolve_agent_session_pid : ℕ → ℕ → (Text → Bool) → Snapshot → Option ℕ
unfolding visit_agent walk
resolve_agent_session_pid fuel reported matches snapshot =
    if leb reported 1
    then some reported
    else walk (visit_agent matches snapshot reported) reported fuel [] reported

unfoldable pub visit_session : (ℕ → Option Text) → Snapshot → ℕ → Next Text
unfolding to_parent
visit_session pane_pid_index snapshot current = elim (pane_pid_index current) [
  | some session ↦ Next.stop session
  | none ↦ elim (find current snapshot) [
    | none ↦ Next.stop []
    | some info ↦ to_parent [] info current
  ]
]

-- `ResolveSessionByPid`, "" for none.
unfoldable pub resolve_session_by_pid : ℕ → ℕ → (ℕ → Option Text) → Snapshot → Option Text
unfolding visit_session walk
resolve_session_by_pid fuel target pane_pid_index snapshot =
    if leb target 1 then some [] else walk (visit_session pane_pid_index snapshot) [] fuel [] target
