-- ===== src/Server/Routed.antt =====
-- The directory that `resolveSessionLocked` of apps/server-go/internal/server/watch.go picks.
use tail_claude_mux.Server.Sessions.{resolve_session, best_dir, related_dir, longer_than, BestDir}
use tail_claude_mux.Base.{
  text_eq, all, any, find, option_eq, nat_eq, ◌!=◌, subst, Text, length, Map, Bool-cases, ltb,
  arith, ◌∷◌, [], some, none, Option, false, true, inr, inl, ◌⊎◌, ap, sym, refl, ◌≡◌, ◌≤◌, ℕ,
}

-- A directory of the map that is related to the project's, with its name and length.
abbrev pub Candidate : Text → Map Text Text → Text → ℕ → Type 0
Candidate project_dir [] name n = ⊥
Candidate project_dir ((dir, found) ∷ m) name n =
    ((found ≡ name) × (length dir ≡ n) × (related_dir project_dir dir ≡ true))
    ⊎ Candidate project_dir m name n

-- No related directory of the map is longer.
abbrev pub Longest : Text → Map Text Text → ℕ → Type 0
Longest project_dir [] n = Unit {0}
Longest project_dir ((dir, name) ∷ m) n =
    ((related_dir project_dir dir ≡ false) ⊎ (length dir ≤ n)) × Longest project_dir m n

-- No related directory of the map beats the best one so far.
abbrev NoLonger : Text → Map Text Text → Option ℕ → Type 0
NoLonger project_dir [] len = Unit {0}
NoLonger project_dir ((dir, name) ∷ m) len =
    ((related_dir project_dir dir ≡ false) ⊎ (longer_than (length dir) len ≡ false))
    × NoLonger project_dir m len

module _ (project_dir : Text) where
  NoLonger-Longest :
      (m : Map Text Text) (n : ℕ) → NoLonger project_dir m (some n) → Longest project_dir m n
  NoLonger-Longest [] n h = tt
  NoLonger-Longest ((dir, name) ∷ m) n (inl u, h) = (inl u, NoLonger-Longest m n h)
  NoLonger-Longest ((dir, name) ∷ m) n (inr u, h) = (inr (ground arith), NoLonger-Longest m n h)

  longer_trans :
      (a b : ℕ) (len : Option ℕ)
      → ltb a b ≡ true
      → longer_than a len ≡ true
      → longer_than b len ≡ true
  longer_trans a b none h g = refl
  longer_trans a b (some c) h g = ground arith

  not_longer-le :
      (a b : ℕ) (len : Option ℕ) → longer_than a len ≡ false → longer_than b len ≡ true → a ≤ b
  not_longer-le a b none h g = absurd (ground arith)
  not_longer-le a b (some c) h g = ground arith

  -- What the loop ends with: the best one that it began with, or a longest candidate.
  abbrev Ends : Map Text Text → BestDir → BestDir → Type 0
  Ends m best r =
      ((r ≡ best) × NoLonger project_dir m best.len)
      ⊎ ((n : ℕ) × Candidate project_dir m r.name n
          × Longest project_dir m n
          × (longer_than n best.len ≡ true))

  Ends-taken :
      (dir name : Text) (m : Map Text Text) (best r : BestDir)
      → related_dir project_dir dir ≡ true
      → longer_than (length dir) best.len ≡ true
      → Ends m (record { name = name; len = some (length dir) }) r
      → Ends ((dir, name) ∷ m) best r
  Ends-taken dir name m best r rel longer (inl (q, none_longer)) = inr (
    length dir,
    inl (ap (λ (b : BestDir). b.name) (sym q), refl, rel),
    (inr (omega arith), NoLonger-Longest m (length dir) none_longer),
    longer,
  )
  Ends-taken dir name m best r rel longer (inr (n, candidate, longest, beats)) = inr (
    n,
    inr candidate,
    (inr (ground arith), longest),
    longer_trans (length dir) n best.len beats longer,
  )

  Ends-passed :
      (dir name : Text) (m : Map Text Text) (best r : BestDir)
      → (related_dir project_dir dir ≡ false) ⊎ (longer_than (length dir) best.len ≡ false)
      → Ends m best r
      → Ends ((dir, name) ∷ m) best r
  Ends-passed dir name m best r out (inl (q, none_longer)) = inl (q, (out, none_longer))
  Ends-passed dir name m best r (inl rel) (inr (n, candidate, longest, beats)) =
      inr (n, inr candidate, (inl rel, longest), beats)
  Ends-passed dir name m best r (inr short) (inr (n, candidate, longest, beats)) =
      inr (
        n,
        inr candidate,
        (inr (not_longer-le (length dir) n best.len short beats), longest),
        beats,
      )

  best_dir-Ends : (m : Map Text Text) (best : BestDir) → Ends m best (best_dir project_dir m best)
  unfolding best_dir
  best_dir-Ends [] best = inl (refl, tt)
  best_dir-Ends ((dir, name) ∷ m) best =
      let whole = best_dir project_dir ((dir, name) ∷ m) best in
      let passed : BestDir = best_dir project_dir m best in
      let next : BestDir = record { name = name; len = some (length dir) } in
      elim (Bool-cases (related_dir project_dir dir)) [
        | inr rel ↦
            let e : passed ≡ whole = rw (best_dir, rel) refl in
            subst (Ends ((dir, name) ∷ m) best) e
              (Ends-passed dir name m best passed (inl rel) (best_dir-Ends m best))
        | inl rel ↦ elim (Bool-cases (longer_than (length dir) best.len)) [
          | inr short ↦
              let e : passed ≡ whole = rw (best_dir, rel, short) refl in
              subst (Ends ((dir, name) ∷ m) best) e
                (Ends-passed dir name m best passed (inr short) (best_dir-Ends m best))
          | inl longer ↦
              let e : best_dir project_dir m next ≡ whole = rw (best_dir, rel, longer) refl in
              subst (Ends ((dir, name) ∷ m) best) e (
                Ends-taken dir name m best (best_dir project_dir m next) rel longer
                  (best_dir-Ends m next))
        ]
      ]

  none_related :
      (m : Map Text Text)
      → NoLonger project_dir m none
      → any (λ e. related_dir project_dir e.0) m ≡ false
  none_related [] h = refl
  none_related ((dir, name) ∷ m) (inl u, h) = rw (u, none_related m h) refl
  none_related ((dir, name) ∷ m) (inr u, h) = absurd (ground arith)

  Candidate-named :
      (m : Map Text Text) (name : Text) (n : ℕ)
      → all (λ e. e.1 != []) m ≡ true
      → Candidate project_dir m name n
      → (name != []) ≡ true
  Candidate-named [] name n h c = absurd c
  Candidate-named ((dir, found) ∷ m) name n h (inl (e, _, _)) = rw (sym e) (ground arith)
  Candidate-named ((dir, found) ∷ m) name n h (inr c) = Candidate-named m name n (ground arith) c

  -- A directory that is no session's own goes, if some session's directory is above it or below it,
  -- to a session with such a directory, and to one with the longest, in whatever order the map is
  -- read; the sessions' names are not empty.
  pub resolve_session-Longest :
      (encode : Text → Text) (m : Map Text Text)
      → find project_dir m ≡ none
      → any (λ e. related_dir project_dir e.0) m ≡ true
      → all (λ e. e.1 != []) m ≡ true
      → (n : ℕ) × Candidate project_dir m (resolve_session encode project_dir m) n
        × Longest project_dir m n
  unfolding resolve_session
  resolve_session-Longest encode m absent rel named =
      let start : BestDir = record { name = []; len = none } in
      elim (best_dir-Ends m start) [
        | inl (q, none_longer) ↦
            let c : any (λ e. related_dir project_dir e.0) m ≡ false = none_related m none_longer in
            absurd (ground arith)
        | inr (n, candidate, longest, _) ↦
            let g = Candidate-named m (best_dir project_dir m start).name n named candidate in
            let e : (best_dir project_dir m start).name ≡ resolve_session encode project_dir m =
              rw (resolve_session, absent, g) refl in
            (n, subst (λ x. Candidate project_dir m x n) e candidate, longest)
      ]
