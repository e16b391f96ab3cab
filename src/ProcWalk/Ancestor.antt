-- ===== src/ProcWalk/Ancestor.antt =====
-- The nearest process that matches, at or above another one, for
-- apps/server-go/internal/procwalk/procwalk.go.
use tail_claude_mux.ProcWalk.Snapshot.{Snapshot, ProcInfo}
use tail_claude_mux.Base.{
  text_eq, Text, find, option_eq, nat_eq, subst, arith, some, false, true, Bool, ap, refl, ◌≡◌, ◌<◌,
  suc, zero, ℕ,
}

-- From the first process, `n` steps up through processes that do not match, one that does.
pub data Nearest (matches : Text → Bool) (snapshot : Snapshot) : ℕ → ℕ → ℕ → Type 0 where
  here :
      (c : ℕ) (info : ProcInfo)
      → 1 < c
      → find c snapshot ≡ some info
      → matches info.command ≡ true
      → Nearest matches snapshot 0 c c
  up :
      (n c r : ℕ) (info : ProcInfo)
      → 1 < c
      → find c snapshot ≡ some info
      → matches info.command ≡ false
      → Nearest matches snapshot n info.ppid r
      → Nearest matches snapshot (suc n) c r

module _ (matches : Text → Bool) (snapshot : Snapshot) where
  abbrev At : ℕ → ℕ → ℕ → Type 0
  At = Nearest matches snapshot

  -- What a match at the head of a walk tells, with the steps as a variable.
  abbrev Tells : ℕ → ℕ → ℕ → Type 0
  Tells zero c r =
      (info : ProcInfo) × (1 < c)
      × (find c snapshot ≡ some info)
      × (matches info.command ≡ true)
      × (r ≡ c)
  Tells (suc n) c r =
      (info : ProcInfo) × (1 < c)
      × (find c snapshot ≡ some info)
      × (matches info.command ≡ false)
      × At n info.ppid r

  pub tells : {n c r : ℕ} → At n c r → Tells n c r
  tells (here c info l e m) = (info, l, e, m, refl)
  tells (up n c r info l e m above) = (info, l, e, m, above)

  pub Nearest-unique : (n m c r s : ℕ) → At n c r → At m c s → n ≡ m
  Nearest-unique zero zero c r s a b = refl
  Nearest-unique zero (suc m) c r s a b =
      let (i, _, e, t, _) = tells a in
      let (j, _, f, u, _) = tells b in let q : i ≡ j = cc in absurd (ground arith)
  Nearest-unique (suc n) zero c r s a b =
      let (i, _, e, t, _) = tells a in
      let (j, _, f, u, _) = tells b in let q : i ≡ j = cc in absurd (ground arith)
  Nearest-unique (suc n) (suc m) c r s a b =
      let (i, _, e, t, above) = tells a in
      let (j, _, f, u, above') = tells b in
      let q : j.ppid ≡ i.ppid = cc in
      ap suc (Nearest-unique n m i.ppid r s above (subst (λ p. At m p s) q above'))

  pub starts_above : (n c r : ℕ) → At n c r → 1 < c
  starts_above zero c r h = (tells h).1
  starts_above (suc n) c r h = (tells h).1
