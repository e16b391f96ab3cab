-- ===== src/ProcWalk/Nearest.antt =====
-- What `ResolveAgentSessionPid` of apps/server-go/internal/procwalk/procwalk.go finds.
use tail_claude_mux.ProcWalk.Ancestor.{here, up, starts_above, Nearest-unique, tells, Nearest}
use tail_claude_mux.ProcWalk.Total.{walk_ends, visit_agent_known}
use tail_claude_mux.ProcWalk.Walks.{
  resolve_agent_session_pid, to_parent, Next-cases, visit_agent, walk, Next,
}
use tail_claude_mux.ProcWalk.Snapshot.{Snapshot, ProcInfo}
use tail_claude_mux.Base.{
  none, find_visited, keys, [], ◌≤◌, length, ==→eq, Option-cases, Bool-cases, leb, ◌∷◌, ◌||◌, inr,
  inl, ◌⊎◌, ◌≢◌, ◌∙◌, sym, text_eq, Text, any, find, option_eq, nat_eq, ◌==◌, subst, arith, List,
  some, false, true, Bool, ap, refl, ◌≡◌, ◌<◌, suc, zero, ℕ,
}

length-keys : (m : Snapshot) → length (keys m) ≡ length m
length-keys [] = refl
length-keys (e ∷ m) = omega (arith, length-keys m)

leb→le : (a b : ℕ) → leb a b ≡ true → a ≤ b
leb→le a b h = ground arith

module _ (matches : Text → Bool) (snapshot : Snapshot) where
  abbrev At : ℕ → ℕ → ℕ → Type 0
  At = Nearest matches snapshot

  -- The processes that a walk has looked at are further from the match.
  abbrev Fresh : ℕ → ℕ → List ℕ → Type 0
  Fresh n a seen = (s : ℕ) → any (λ p. p == s) seen ≡ true → (m : ℕ) × (n < m) × At m s a

  not_seen :
      (n c a : ℕ) (seen : List ℕ) → At n c a → Fresh n a seen → any (λ p. p == c) seen ≡ false
  not_seen n c a seen h fresh = elim (Bool-cases (any (λ p. p == c) seen)) [
    | inr e ↦ e
    | inl e ↦
        let (m, lt, h') = fresh c e in
        let q : n ≡ m = Nearest-unique matches snapshot n m c a a h h' in absurd (omega arith)
  ]

  Fresh-cons :
      (n c a : ℕ) (seen : List ℕ) → At (suc n) c a → Fresh (suc n) a seen → Fresh n a (c ∷ seen)
  Fresh-cons n c a seen h fresh s e = elim (Bool-cases (c == s)) [
    | inl q ↦ (suc n, omega arith, subst (λ x. At (suc n) x a) (==→eq c s q) h)
    | inr q ↦
        let older : any (λ p. p == s) seen ≡ true = ground arith in
        let (m, lt, h') = fresh s older in (m, omega arith, h')
  ]

  abbrev visit : ℕ → ℕ → Next ℕ
  visit reported = visit_agent matches snapshot reported

  visit_above :
      (reported n c a : ℕ) (info : ProcInfo)
      → find c snapshot ≡ some info
      → matches info.command ≡ false
      → At n info.ppid a
      → At (suc n) c a
      → visit reported c ≡ Next.go info.ppid
  unfolding visit_agent to_parent
  visit_above reported n c a info e m above whole =
      let l : 1 < info.ppid = starts_above matches snapshot n info.ppid a above in
      let apart : info.ppid ≢ c = λ q.
        (let same : n ≡ suc n =
            Nearest-unique matches snapshot n (suc n) c a a (subst (λ x. At n x a) q above) whole in
          absurd (omega arith)) in
      let guard : (info.ppid == c || leb info.ppid 1) ≡ false = ground (arith, apart) in
      rw (visit_agent, e, m, to_parent, guard) refl

  -- A walk that has not looked at the processes below the match finds it.
  walk-finds :
      (reported fuel : ℕ) (seen : List ℕ) (n c r a : ℕ)
      → At n c a
      → Fresh n a seen
      → walk (visit reported) reported fuel seen c ≡ some r
      → r ≡ a
  unfolding walk
  walk-finds reported zero seen n c r a h fresh w = cc
  walk-finds reported (suc fuel) seen zero c r a h fresh w =
      let (info, l, e, m, q) = tells matches snapshot h in
      let guard : (leb c 1 || any (λ p. p == c) seen) ≡ false =
        ground (arith, not_seen zero c a seen h fresh) in
      let v : visit reported c ≡ Next.stop c = unfold visit_agent in rw (visit_agent, e, m) refl in
      let w' : some c ≡ some r = rw (walk, guard, v) at w in cc
  walk-finds reported (suc fuel) seen (suc n) c r a h fresh w =
      let (info, l, e, m, above) = tells matches snapshot h in
      let guard : (leb c 1 || any (λ p. p == c) seen) ≡ false =
        ground (arith, not_seen (suc n) c a seen h fresh) in
      let v = visit_above reported n c a info e m above h in
      let w' : walk (visit reported) reported fuel (c ∷ seen) info.ppid ≡ some r =
        rw (walk, guard, v) at w in
      walk-finds reported fuel (c ∷ seen) n info.ppid r a above (Fresh-cons n c a seen h fresh) w'

  stopped :
      (reported c r : ℕ)
      → 1 < c
      → visit reported c ≡ Next.stop r
      → (r ≡ reported) ⊎ ((n : ℕ) × At n c r)
  unfolding visit_agent to_parent
  stopped reported c r l v = elim (Option-cases (find c snapshot)) [
    | inl e ↦ let v' : Next.stop reported ≡ Next.stop r = rw (visit_agent, e) at v in inl (cc)
    | inr (info, e) ↦ elim (Bool-cases (matches info.command)) [
      | inl m ↦
          let v' : Next.stop c ≡ Next.stop r = rw (visit_agent, e, m) at v in
          let q : c ≡ r = cc in inr (0, subst (λ x. At 0 c x) q (here c info l e m))
      | inr m ↦ elim (Bool-cases (info.ppid == c || leb info.ppid 1)) [
        | inl g ↦
            let v' : Next.stop reported ≡ Next.stop r = rw (visit_agent, e, m, to_parent, g) at v in
            inl (cc)
        | inr g ↦
            let v' : Next.go info.ppid ≡ Next.stop r = rw (visit_agent, e, m, to_parent, g) at v in
            absurd (ground arith)
      ]
    ]
  ]

  climbed :
      (reported c p r : ℕ)
      → 1 < c
      → visit reported c ≡ Next.go p
      → (r ≡ reported) ⊎ ((n : ℕ) × At n p r)
      → (r ≡ reported) ⊎ ((n : ℕ) × At n c r)
  climbed reported c p r l v (inl q) = inl q
  climbed reported c p r l v (inr (n, above)) =
      let (info, e, m, q, _) = visit_agent_known matches snapshot reported c p v in
      inr (suc n, up n c r info l e m (subst (λ x. At n x r) (sym q) above))

  walk-found :
      (reported fuel : ℕ) (seen : List ℕ) (c r : ℕ)
      → walk (visit reported) reported fuel seen c ≡ some r
      → (r ≡ reported) ⊎ ((n : ℕ) × At n c r)
  unfolding walk
  walk-found reported zero seen c r w = cc
  walk-found reported (suc fuel) seen c r w =
      elim (Bool-cases (leb c 1 || any (λ p. p == c) seen)) [
        | inl g ↦ let w' : some reported ≡ some r = rw (walk, g) at w in inl (cc)
        | inr g ↦ elim (Next-cases (visit reported c)) [
          | inl (s, v) ↦
              let w' : some s ≡ some r = rw (walk, g, v) at w in
              let q : s ≡ r = cc in stopped reported c r (ground arith) (v ∙ ap Next.stop q)
          | inr (p, v) ↦
              let w' : walk (visit reported) reported fuel (c ∷ seen) p ≡ some r =
                rw (walk, g, v) at w in
              climbed reported c p r (ground arith) v (walk-found reported fuel (c ∷ seen) p r w')
        ]
      ]

  -- What a walk finds matches.
  found_matches :
      (n c r : ℕ)
      → At n c r
      → (info : ProcInfo) × (find r snapshot ≡ some info) × (matches info.command ≡ true)
  found_matches zero c r h = let (info, _, e, m, q) = tells matches snapshot h in (info, rw q e, m)
  found_matches (suc n) c r h =
      let (info, _, _, _, above) = tells matches snapshot h in found_matches n info.ppid r above

  abbrev Any : ℕ → Type 0
  Any c = (n : ℕ) × (a : ℕ) × At n c a

  -- A walk that falls back on a process that does not match has nothing to find.
  none_above :
      (reported fuel r : ℕ)
      → walk (visit reported) reported fuel [] reported ≡ some r
      → r ≡ reported
      → ((info : ProcInfo) → find reported snapshot ≡ some info → matches info.command ≡ true → ⊥)
      → ¬ Any reported
  none_above reported fuel r w q no_match h =
      let (n, a, above) = h in
      let e : a ≡ reported =
        sym (walk-finds reported fuel [] n reported r a above (λ s p. absurd (ground arith)) w)
        ∙ q in
      let (info, f, m) = found_matches n reported a above in
      no_match info (ap (λ x. find x snapshot) (sym e) ∙ f) m

  settle :
      (reported fuel r : ℕ)
      → walk (visit reported) reported fuel [] reported ≡ some r
      → 1 < reported
      → (r ≡ reported) ⊎ ((n : ℕ) × At n reported r)
      → ((n : ℕ) × At n reported r) ⊎ ((r ≡ reported) × ¬ Any reported)
  settle reported fuel r w l (inr found) = inl found
  settle reported fuel r w l (inl q) = elim (Option-cases (find reported snapshot)) [
    | inl e ↦ inr (
      q,
      none_above reported fuel r w q
          (λ info f m. (let c : none ≡ some info = sym e ∙ f in absurd (ground arith))),
    )
    | inr (info, e) ↦ elim (Bool-cases (matches info.command)) [
      | inl m ↦ inl (0, subst (λ x. At 0 reported x) (sym q) (here reported info l e m))
      | inr m ↦ inr (
        q,
        none_above reported fuel r w q (λ other f m'.
            (let c : some info ≡ some other = sym e ∙ f in
              let same : info ≡ other = cc in
              let m2 : matches info.command ≡ true =
                ap (λ (x : ProcInfo). matches x.command) same ∙ m' in
              absurd (ground arith))),
      )
    ]
  ]

  -- With a round for each process of the table and one more, the walk up from a hook's process
  -- returns. The result is the nearest process at or above it that matches, if there is one, and
  -- the hook's process itself if there is none.
  pub resolve_agent_session_pid-Nearest :
      (fuel reported : ℕ)
      → length snapshot < fuel
      → (r : ℕ) × (resolve_agent_session_pid fuel reported matches snapshot ≡ some r)
        × (((n : ℕ) × Nearest matches snapshot n reported r)
            ⊎ ((r ≡ reported) × ¬ ((n : ℕ) × (a : ℕ) × Nearest matches snapshot n reported a)))
  unfolding resolve_agent_session_pid
  resolve_agent_session_pid-Nearest fuel reported h = elim (Bool-cases (leb reported 1)) [
    | inl e ↦ (
      reported,
      rw (resolve_agent_session_pid, e) refl,
      inr (
        refl,
        λ (x : Any reported). absurd (
            omega (arith, starts_above matches snapshot x.0 reported x.1 x.2, leb→le reported 1 e)),
      ),
    )
    | inr e ↦
        let enough : length (keys snapshot) < fuel = omega (arith, length-keys snapshot) in
        let (r, w) =
          walk_ends (visit reported) reported (keys snapshot) in_table fuel reported enough in
        (
          r,
          rw (resolve_agent_session_pid, e) w,
          settle reported fuel r w (ground arith) (walk-found reported fuel [] reported r w),
        )
  ]
    where
      in_table : (c p : ℕ) → visit reported c ≡ Next.go p → any (λ k. k == c) (keys snapshot) ≡ true
      in_table c p v =
          let (info, e, _, _, _) = visit_agent_known matches snapshot reported c p v in
          sym (find_visited c snapshot) ∙ rw e refl
