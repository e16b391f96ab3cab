-- ===== src/AgentMatch/CommFound.antt =====
-- `CommMatches` of apps/server-go/internal/agentmatch/agentmatch.go against what it looks for.
use tail_claude_mux.AgentMatch.Comm.{comm_matches, comm_loop, ends_word, starts_segment}
use tail_claude_mux.Base.{
  index_text, length-drop, ltb, has_prefix, Text, drop, length, Option-cases, Bool-cases, leb,
  arith, ◌∷◌, [], some, none, ◌&&◌, false, true, inr, inl, ◌↔◌, ◌∙◌, ap, sym, refl, ◌≡◌, ◌<◌, ◌≤◌,
  ◌-◌, ◌+◌, suc, zero, ℕ, nat_eq, text_eq, option_eq,
}

-- The pattern stands at the index as a whole word of a path's segment.
abbrev pub StandsAt : Text → Text → ℕ → Type 0
StandsAt comm pat i =
    (has_prefix (drop i comm) pat ≡ true)
    × (i + length pat ≤ length comm)
    × ((starts_segment comm i && ends_word comm (i + length pat)) ≡ true)

drop-nil : (n : ℕ) → drop {A = ℕ} n [] ≡ []
drop-nil zero = refl
drop-nil (suc n) = refl

index_text-occurs : (s p : Text) (i : ℕ) → index_text s p ≡ some i → has_prefix (drop i s) p ≡ true
unfolding index_text
index_text-occurs [] p i h = elim (Bool-cases (has_prefix [] p)) [
  | inl c ↦ ap (λ r. has_prefix r p) (drop-nil i) ∙ c
  | inr c ↦ let q : none ≡ some i = sym (rw (index_text, c) refl) ∙ h in absurd (ground arith)
]
index_text-occurs (c ∷ s) p i h = elim (Bool-cases (has_prefix (c ∷ s) p)) [
  | inl e ↦
      let q : some 0 ≡ some i = sym (rw (index_text, e) refl) ∙ h in
      let z : 0 ≡ i = cc in ap (λ k. has_prefix (drop k (c ∷ s)) p) (sym z) ∙ e
  | inr e ↦ elim (Option-cases (index_text s p)) [
    | inl f ↦ let q : none ≡ some i = sym (rw (index_text, e, f) refl) ∙ h in absurd (ground arith)
    | inr (k, f) ↦
        let q : some (suc k) ≡ some i = sym (rw (index_text, e, f) refl) ∙ h in
        let z : suc k ≡ i = cc in
        ap (λ n. has_prefix (drop n (c ∷ s)) p) (sym z) ∙ index_text-occurs s p k f
  ]
]

index_text-within : (s p : Text) (i : ℕ) → index_text s p ≡ some i → i ≤ length s
unfolding index_text
index_text-within [] p i h = ground arith
index_text-within (c ∷ s) p i h = elim (Option-cases (index_text s p)) [
  | inl f ↦ ground (arith, f)
  | inr (k, f) ↦ ground (arith, f, index_text-within s p k f)
]

index_text-first :
    (s p : Text) (j : ℕ)
    → has_prefix (drop j s) p ≡ true
    → (i : ℕ) × (index_text s p ≡ some i) × (i ≤ j)
unfolding index_text
index_text-first [] p j h =
    let e : has_prefix [] p ≡ true = ap (λ r. has_prefix r p) (sym (drop-nil j)) ∙ h in
    (0, rw (index_text, e) refl, omega arith)
index_text-first (c ∷ s) p zero h = (0, rw (index_text, h) refl, omega arith)
index_text-first (c ∷ s) p (suc j) h = elim (Bool-cases (has_prefix (c ∷ s) p)) [
  | inl e ↦ (0, rw (index_text, e) refl, omega arith)
  | inr e ↦
      let (i, f, g) = index_text-first s p j h in (suc i, rw (index_text, e, f) refl, omega arith)
]

drop-drop : (m n : ℕ) (s : Text) → drop m (drop n s) ≡ drop (n + m) s
drop-drop m zero s = let e : m ≡ 0 + m = omega arith in ap (λ k. drop k s) e
drop-drop m (suc n) [] = drop-nil m ∙ sym (drop-nil (suc n + m))
drop-drop m (suc n) (c ∷ s) =
    let e : suc (n + m) ≡ suc n + m = omega arith in drop-drop m n s ∙ ap (λ k. drop k (c ∷ s)) e

has_prefix-length : (s p : Text) → has_prefix s p ≡ true → length p ≤ length s
unfolding has_prefix
has_prefix-length s [] h = omega arith
has_prefix-length [] (c ∷ p) h = ground arith
has_prefix-length (d ∷ s) (c ∷ p) h = ground (arith, has_prefix-length s p)

-- What the loop finds, from an offset within the text.
comm_loop_sound :
    (fuel : ℕ) (comm pat : Text) (offset : ℕ)
    → comm_loop fuel comm pat offset ≡ true
    → (i : ℕ) × StandsAt comm pat i
unfolding comm_loop
comm_loop_sound zero comm pat offset h = absurd (ground arith)
comm_loop_sound (suc fuel) comm pat offset h =
    elim (Bool-cases (leb (offset + length pat) (length comm))) [
      | inr c ↦ let q : false ≡ true = sym (rw (comm_loop, c) refl) ∙ h in absurd (ground arith)
      | inl c ↦ elim (Option-cases (index_text (drop offset comm) pat)) [
        | inl e ↦
            let q : false ≡ true = sym (rw (comm_loop, c, e) refl) ∙ h in absurd (ground arith)
        | inr (rel, e) ↦
            elim (Bool-cases
              (starts_segment comm (offset + rel) && ends_word comm (offset + rel + length pat))) [
                | inr b ↦
                    comm_loop_sound fuel comm pat (offset + rel + 1)
                      (sym (rw (comm_loop, c, e, b) refl) ∙ h)
                | inl b ↦
                    let o : has_prefix (drop (offset + rel) comm) pat ≡ true =
                      ap (λ r. has_prefix r pat) (sym (drop-drop rel offset comm))
                      ∙ index_text-occurs (drop offset comm) pat rel e in
                    let w : offset + length pat ≤ length comm = ground arith in
                    let n = index_text-within (drop offset comm) pat rel e in
                    (
                      offset + rel,
                      (
                        o,
                        omega (
                          arith,
                          n,
                          length-drop offset comm,
                          length-drop (offset + rel) comm,
                          has_prefix-length (drop (offset + rel) comm) pat o,
                        ),
                        b,
                      ),
                    )
              ]
      ]
    ]

-- A place before one with the boundaries, and without them itself.
later :
    (comm pat : Text) (n i : ℕ)
    → (starts_segment comm i && ends_word comm (i + length pat)) ≡ true
    → (starts_segment comm n && ends_word comm (n + length pat)) ≡ false
    → n ≤ i
    → n + 1 ≤ i
later comm pat n i b d h = elim (Bool-cases (ltb n i)) [
  | inl c ↦ ground arith
  | inr c ↦
      let e : n ≡ i = ground arith in
      let q : false ≡ true =
        sym d ∙ (ap (λ k. starts_segment comm k && ends_word comm (k + length pat)) e ∙ b) in
      absurd (ground arith)
]

comm_loop_complete :
    (fuel : ℕ) (comm pat : Text) (offset i : ℕ)
    → StandsAt comm pat i
    → offset ≤ i
    → length comm < offset + fuel
    → comm_loop fuel comm pat offset ≡ true
unfolding comm_loop
comm_loop_complete zero comm pat offset i s h f = absurd (let p = s.1 in omega arith)
comm_loop_complete (suc fuel) comm pat offset i (o, l, b) h f =
    let c : leb (offset + length pat) (length comm) ≡ true = ground arith in
    let k : offset + (i - offset) ≡ i = omega arith in
    let o' : has_prefix (drop (i - offset) (drop offset comm)) pat ≡ true =
      ap (λ r. has_prefix r pat) (drop-drop (i - offset) offset comm)
      ∙ ap (λ n. has_prefix (drop n comm) pat) k
      ∙ o in
    let (rel, e, le) = index_text-first (drop offset comm) pat (i - offset) o' in
    elim (Bool-cases
      (starts_segment comm (offset + rel) && ends_word comm (offset + rel + length pat))) [
        | inl d ↦ rw (comm_loop, c, e, d) refl
        | inr d ↦
            rw (comm_loop, c, e, d)
              (comm_loop_complete fuel comm pat (offset + rel + 1) i (o, l, b)
                (later comm pat (offset + rel) i b d (omega arith)) (omega arith))
      ]

-- A command matches a pattern exactly when the pattern stands somewhere in it as a whole word: at
-- the start or after a slash, and at the end or before a hyphen.
pub comm_matches-StandsAt :
    (comm pat : Text) → (comm_matches comm pat ≡ true) ↔ ((i : ℕ) × StandsAt comm pat i)
unfolding comm_matches
comm_matches-StandsAt comm pat = (
  comm_loop_sound (length comm + 1) comm pat 0,
  λ s.
      (let (i, at) = s in
        comm_loop_complete (length comm + 1) comm pat 0 i at (omega arith) (omega arith)),
)
