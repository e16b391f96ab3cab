-- ===== src/ProcWalk/Total.antt =====
-- The loops of apps/server-go/internal/procwalk/procwalk.go end: they look at each process once.
-- The processes of a list that the walk has not looked at.
use tail_claude_mux.ProcWalk.Snapshot.{Snapshot, ProcInfo}
use tail_claude_mux.ProcWalk.Walks.{visit_agent, to_parent, Next-cases, walk, Next}
use tail_claude_mux.Base.{
  Text, find, Option-cases, Bool, text_eq, any, length, option_eq, ==→eq, ==_refl, nat_eq, ◌==◌,
  Bool-cases, if◌then◌else◌, leb, arith, ◌∷◌, [], List, some, ◌||◌, false, true, inr, inl, refl,
  ◌≡◌, ◌<◌, ◌≤◌, ◌+◌, suc, zero, ℕ,
}

abbrev unseen : List ℕ → List ℕ → ℕ
unseen seen [] = 0
unseen seen (k ∷ ks) = (if any (λ p. p == k) seen then 0 else 1) + unseen seen ks

unseen-le : (seen : List ℕ) (c : ℕ) (ks : List ℕ) → unseen (c ∷ seen) ks ≤ unseen seen ks
unseen-le seen c [] = omega arith
unseen-le seen c (k ∷ ks) = ground (arith, unseen-le seen c ks)

unseen-lt :
    (seen : List ℕ) (c : ℕ) (ks : List ℕ)
    → any (λ p. p == c) ks ≡ true
    → any (λ p. p == c) seen ≡ false
    → unseen (c ∷ seen) ks < unseen seen ks
unseen-lt seen c [] h g = cc
unseen-lt seen c (k ∷ ks) h g = elim (Bool-cases (k == c)) [
  | inl e ↦ let q : k ≡ c = ==→eq k c e in rw (q, ==_refl c, g) (omega (arith, unseen-le seen c ks))
  | inr e ↦
      let r : any (λ p. p == c) ks ≡ true = ground arith in
      let ih = unseen-lt seen c ks r g in ground (arith, ih)
]

unseen-length : (ks : List ℕ) → unseen [] ks ≡ length ks
unseen-length [] = refl
unseen-length (k ∷ ks) = omega (arith, unseen-length ks)

module _ {R : Type 0} (visit : ℕ → Next R) (fallback : R) (ks : List ℕ)
    (known : (c p : ℕ) → visit c ≡ Next.go p → any (λ k. k == c) ks ≡ true) where
  walk_total :
      (fuel : ℕ) (seen : List ℕ) (c : ℕ)
      → unseen seen ks < fuel
      → (r : R) × (walk visit fallback fuel seen c ≡ some r)
  unfolding walk
  walk_total zero seen c h = absurd (omega arith)
  walk_total (suc fuel) seen c h = elim (Bool-cases (leb c 1 || any (λ p. p == c) seen)) [
    | inl e ↦ (fallback, rw (e, walk))
    | inr e ↦ elim (Next-cases (visit c)) [
      | inl (r, q) ↦ (r, rw (e, q, walk))
      | inr (p, q) ↦
          let g : any (λ x. x == c) seen ≡ false = ground arith in
          let less : unseen (c ∷ seen) ks < fuel =
            omega (arith, unseen-lt seen c ks (known c p q) g) in
          let (r, ih) = walk_total fuel (c ∷ seen) p less in (r, rw (e, q, walk) ih)
    ]
  ]

  -- With a round for each process and one more, the walk ends.
  pub walk_ends :
      (fuel : ℕ) (c : ℕ) → length ks < fuel → (r : R) × (walk visit fallback fuel [] c ≡ some r)
  walk_ends fuel c h = walk_total fuel [] c (omega (arith, unseen-length ks))

pub to_parent_go :
    {R : Type 0} (r : R) (info : ProcInfo) (c p : ℕ)
    → to_parent r info c ≡ Next.go p
    → (info.ppid ≡ p) × (1 < p) × ((p == c) ≡ false)
unfolding to_parent
to_parent_go r info c p h = elim (Bool-cases (info.ppid == c || leb info.ppid 1)) [
  | inl e ↦ let q : Next.stop r ≡ Next.go p = rw (to_parent, e) at h in absurd (ground arith)
  | inr e ↦
      let q : Next.go info.ppid ≡ Next.go p = rw (to_parent, e) at h in
      let f : info.ppid ≡ p = cc in (f, ground arith, ground arith)
]

-- Only a process of the table has a parent to go to.
pub visit_agent_known :
    (matches : Text → Bool) (snapshot : Snapshot) (reported c p : ℕ)
    → visit_agent matches snapshot reported c ≡ Next.go p
    → (info : ProcInfo) × (find c snapshot ≡ some info)
      × (matches info.command ≡ false)
      × (info.ppid ≡ p)
      × (1 < p)
unfolding visit_agent
visit_agent_known matches snapshot reported c p h = elim (Option-cases (find c snapshot)) [
  | inl e ↦
      let q : Next.stop reported ≡ Next.go p = rw (visit_agent, e) at h in absurd (ground arith)
  | inr (info, e) ↦ elim (Bool-cases (matches info.command)) [
    | inl m ↦ let q : Next.stop c ≡ Next.go p = rw (visit_agent, e, m) at h in absurd (ground arith)
    | inr m ↦
        let q : to_parent reported info c ≡ Next.go p = rw (visit_agent, e, m) at h in
        let (f, l, _) = to_parent_go reported info c p q in (info, e, m, f, l)
  ]
]
