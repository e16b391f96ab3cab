-- ===== src/TextUtil/Truncated.antt =====
-- `TruncateToWidth` of apps/server-go/internal/textutil/textutil.go.
use tail_claude_mux.TextUtil.Width.{
  truncate_to_width, fit_runes, ellipsis, string_width, char_width,
}
use tail_claude_mux.Base.{
  true, text_eq, Text, option_eq, ◌==◌, Bool-cases, leb, ltb, arith, ◌++◌, ◌∷◌, [], false, inr, inl,
  ap, refl, ◌≡◌, ◌<◌, ◌≤◌, ◌-◌, ◌+◌, ℕ, nat_eq,
}

string_width-append : (s r : Text) → string_width (s ++ r) ≡ string_width s + string_width r
unfolding string_width
string_width-append [] r = omega arith
string_width-append (c ∷ s) r = omega (arith, string_width-append s r)

ellipsis-width : string_width ellipsis ≡ 1
unfolding string_width char_width
ellipsis-width = refl

fit_runes-width :
    (budget width : ℕ) (text : Text)
    → width ≤ budget
    → width + string_width (fit_runes budget width text) ≤ budget
unfolding fit_runes string_width
fit_runes-width budget width [] h = omega arith
fit_runes-width budget width (r ∷ s) h = elim (Bool-cases (ltb budget (width + char_width r))) [
  | inl e ↦ rw e (omega arith)
  | inr e ↦ rw e (
      let p : width + char_width r ≤ budget = ground arith in
      omega (arith, fit_runes-width budget (width + char_width r) s p))
]

-- A truncated text is never wider than asked.
pub truncate_to_width-fits :
    (text : Text) (max_width : ℕ) → string_width (truncate_to_width text max_width) ≤ max_width
unfolding truncate_to_width
truncate_to_width-fits text max_width = elim (Bool-cases (max_width == 0)) [
  | inl z ↦ rw (truncate_to_width, z, string_width) (omega arith)
  | inr z ↦ elim (Bool-cases (leb (string_width text) max_width)) [
    | inl e ↦ rw (truncate_to_width, z, e) (ground arith)
    | inr e ↦ elim (Bool-cases (leb max_width 1)) [
      | inl f ↦ rw (truncate_to_width, z, e, f) (ground (arith, ellipsis-width))
      | inr f ↦
          rw (truncate_to_width, z, e, f)
            (let p : 1 ≤ max_width = ground arith in
              omega (
                arith,
                string_width-append (fit_runes (max_width - 1) 0 text) ellipsis,
                ellipsis-width,
                fit_runes-width (max_width - 1) 0 text (omega arith),
              ))
    ]
  ]
]

-- The first rune left out of a text that is too wide would pass the budget.
fit_runes-cut :
    (budget width : ℕ) (text : Text)
    → width ≤ budget
    → budget < width + string_width text
    → (r : ℕ) × (left : Text) × (text ≡ fit_runes budget width text ++ (r ∷ left))
      × (budget < width + string_width (fit_runes budget width text ++ (r ∷ [])))
unfolding fit_runes string_width
fit_runes-cut budget width [] p h = absurd (omega arith)
fit_runes-cut budget width (r ∷ s) p h = elim (Bool-cases (ltb budget (width + char_width r))) [
  | inl e ↦
      rw e (r, s, refl, (let h : ltb budget (width + char_width r) ≡ true = e in ground arith))
  | inr e ↦
      let q : width + char_width r ≤ budget = ground arith in
      let (x, left, f, g) = fit_runes-cut budget (width + char_width r) s q (omega arith) in
      rw e (x, left, ap (λ t. r ∷ t) f, omega arith)
]

-- A text that is too wide for at least two cells is cut before some rune, and the ellipsis, U+2026,
-- put there: what is kept leaves a cell for it, and with the rune that is cut off it would not.
pub truncate_to_width-longest :
    (text : Text) (max_width : ℕ)
    → 2 ≤ max_width
    → max_width < string_width text
    → (kept : Text) × (r : ℕ) × (left : Text) × (text ≡ kept ++ (r ∷ left))
      × (truncate_to_width text max_width ≡ kept ++ (0x2026 ∷ []))
      × (string_width kept + 1 ≤ max_width)
      × (max_width < string_width (kept ++ (r ∷ [])) + 1)
unfolding truncate_to_width
truncate_to_width-longest text max_width h g =
    let z : (max_width == 0) ≡ false = ground arith in
    let e : leb (string_width text) max_width ≡ false = ground arith in
    let f : leb max_width 1 ≡ false = ground arith in
    let (r, left, p, q) = fit_runes-cut (max_width - 1) 0 text (omega arith) (omega arith) in
    (
      fit_runes (max_width - 1) 0 text,
      r,
      left,
      p,
      rw (truncate_to_width, z, e, f) refl,
      omega (arith, fit_runes-width (max_width - 1) 0 text (omega arith)),
      omega arith,
    )
