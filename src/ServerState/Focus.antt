-- ===== src/ServerState/Focus.antt =====
-- The focus rule of `Build` in apps/server-go/internal/state/state.go.
use tail_claude_mux.ServerState.Parts.{refocus, contains_session}
use tail_claude_mux.Base.{
  Bool, Text, option_eq, ne→==, ==_refl, ◌==◌, Bool-cases, if◌then◌else◌, arith, ◌∷◌, [], List,
  some, none, Option, ◌||◌, not, false, true, inr, inl, ◌≢◌, ◌∙◌, ap, sym, refl, ◌≡◌, nat_eq,
  text_eq,
}

if_passes :
    (p : Text → Bool) (first c : Text) → p first ≡ true → p (if p c then c else first) ≡ true
if_passes p first c h = elim (Bool-cases (p c)) [ inl g ↦ rw g g | inr g ↦ rw g h ]

-- What the focus goes to when it is not kept.
abbrev fallback : Text → List Text → Option Text → Text
fallback first names none = first
fallback first names (some c) = if contains_session (first ∷ names) c then c else first

fallback_shown :
    (first : Text) (names : List Text) (current : Option Text)
    → contains_session (first ∷ names) (fallback first names current) ≡ true
fallback_shown first names none = rw (==_refl first) refl
fallback_shown first names (some c) =
    if_passes (contains_session (first ∷ names)) first c (rw (==_refl first) refl)

refocus_moved :
    (first : Text) (names : List Text) (current : Option Text) (focused : Text)
    → (focused == [] || not (contains_session (first ∷ names) focused)) ≡ true
    → refocus (first ∷ names) current focused ≡ fallback first names current
unfolding refocus
refocus_moved first names none focused h = rw (refocus, h) refl
refocus_moved first names (some c) focused h = rw (refocus, h) refl

refocus_kept :
    (first : Text) (names : List Text) (current : Option Text) (focused : Text)
    → (focused == []) ≡ false
    → contains_session (first ∷ names) focused ≡ true
    → refocus (first ∷ names) current focused ≡ focused
unfolding refocus
refocus_kept first names current focused h g = rw (refocus, h, g) refl

refocus_shown :
    (first : Text) (names : List Text) (current : Option Text) (focused : Text)
    → contains_session (first ∷ names) (refocus (first ∷ names) current focused) ≡ true
refocus_shown first names current focused =
    let shown = contains_session (first ∷ names) in
    elim (Bool-cases (focused == [] || not (shown focused))) [
      | inl h ↦
          ap shown (refocus_moved first names current focused h)
          ∙ fallback_shown first names current
      | inr h ↦
          let g : shown focused ≡ true = ground arith in
          ap shown (refocus_kept first names current focused (ground arith) g) ∙ g
    ]

-- While sessions are shown, none with an empty name, the focus is on one of them, and it stays
-- there in later builds that show the same sessions, whichever session is current then.
refocus-stays :
    (first : Text) (names : List Text) (current later : Option Text) (focused : Text)
    → contains_session (first ∷ names) [] ≡ false
    → let focus = refocus (first ∷ names) current focused in
      (contains_session (first ∷ names) focus ≡ true)
      × (refocus (first ∷ names) later focus ≡ focus)
refocus-stays first names current later focused h =
    let focus = refocus (first ∷ names) current focused in
    let shown = refocus_shown first names current focused in
    let named : focus ≢ [] = λ e.
      (let q : true ≡ false = sym shown ∙ (ap (contains_session (first ∷ names)) e ∙ h) in
        absurd (ground (arith, q))) in
    (shown, refocus_kept first names later focus (ne→== focus [] named) shown)
