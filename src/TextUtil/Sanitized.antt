-- ===== src/TextUtil/Sanitized.antt =====
-- The sanitizer of apps/server-go/internal/textutil/textutil.go.
use tail_claude_mux.TextUtil.Width.{
  truncate_to_width, fit_runes, ellipsis, string_width, char_width, session_name_max_width,
}
use tail_claude_mux.TextUtil.Truncated.{truncate_to_width-fits}
use tail_claude_mux.TextUtil.Strip.{
  sanitize_session_name, sanitize_for_display, strip_ansi_escapes, strip_ansi_fuel, sequence_end,
  skip_osc, skip_csi, is_csi_final, strip_non_printing_control_chars, is_control, csi_open_code,
  esc_code,
}
use tail_claude_mux.Base.{
  ◌&&◌, ◌-◌, ◌+◌, ◌==◌, false, text_eq, Text, keep_if-all, all, keep_if, length, option_eq,
  Option-cases, arith, ◌++◌, ◌∷◌, [], some, none, not, true, Bool, inr, inl, ◌∙◌, ap, refl, ◌≡◌,
  ◌≤◌, suc, zero, ℕ, nat_eq,
}

skip_csi-shorter : (s : Text) → length (skip_csi s) ≤ length s
unfolding skip_csi
skip_csi-shorter [] = omega arith
skip_csi-shorter (x ∷ s) = ground (arith, skip_csi-shorter s)

skip_osc-shorter : (s : Text) → length (skip_osc s) ≤ length s
unfolding skip_osc
skip_osc-shorter [] = omega arith
skip_osc-shorter (x ∷ s) = ground (arith, skip_osc-shorter s)

sequence_end-shorter :
    (c : ℕ) (s rest : Text) → sequence_end c s ≡ some rest → length rest ≤ length s
unfolding sequence_end
sequence_end-shorter c [] rest h = ground arith
sequence_end-shorter c (d ∷ s) rest h = ground (arith, skip_csi-shorter s, skip_osc-shorter s)

-- Two amounts of fuel that the text allows for give the same.
strip_ansi_fuel-agree :
    (n m : ℕ) (text : Text)
    → length text ≤ n
    → length text ≤ m
    → strip_ansi_fuel n text ≡ strip_ansi_fuel m text
unfolding strip_ansi_fuel
strip_ansi_fuel-agree zero zero text h g = refl
strip_ansi_fuel-agree zero (suc m) [] h g = refl
strip_ansi_fuel-agree zero (suc m) (c ∷ s) h g = ground arith
strip_ansi_fuel-agree (suc n) zero [] h g = refl
strip_ansi_fuel-agree (suc n) zero (c ∷ s) h g = ground arith
strip_ansi_fuel-agree (suc n) (suc m) [] h g = refl
strip_ansi_fuel-agree (suc n) (suc m) (c ∷ s) h g = elim (Option-cases (sequence_end c s)) [
  | inl e ↦
      rw (strip_ansi_fuel, e)
        (ap (λ x. c ∷ x) (strip_ansi_fuel-agree n m s (omega arith) (omega arith)))
  | inr (rest, e) ↦
      let p = sequence_end-shorter c s rest e in
      rw (strip_ansi_fuel, e) (strip_ansi_fuel-agree n m rest (omega arith) (omega arith))
]

pub strip_ansi_escapes-kept :
    (c : ℕ) (s : Text)
    → sequence_end c s ≡ none
    → strip_ansi_escapes (c ∷ s) ≡ c ∷ strip_ansi_escapes s
unfolding strip_ansi_escapes
strip_ansi_escapes-kept c s e = rw (strip_ansi_fuel, e) refl

pub strip_ansi_escapes-cut :
    (c : ℕ) (s rest : Text)
    → sequence_end c s ≡ some rest
    → strip_ansi_escapes (c ∷ s) ≡ strip_ansi_escapes rest
unfolding strip_ansi_escapes
strip_ansi_escapes-cut c s rest e =
    rw (strip_ansi_fuel, e)
      (strip_ansi_fuel-agree (length s) (length rest) rest (sequence_end-shorter c s rest e)
        (omega arith))

pub sequence_end-none : (c : ℕ) (s : Text) → (c == esc_code) ≡ false → sequence_end c s ≡ none
unfolding sequence_end
sequence_end-none c [] h = refl
sequence_end-none c (d ∷ s) h = rw h refl

pub sequence_end-csi : (s : Text) → sequence_end esc_code (csi_open_code ∷ s) ≡ some (skip_csi s)
unfolding sequence_end
sequence_end-csi s = refl

abbrev is_clean : Text → Bool
is_clean text = all (λ r. not (is_control r)) text

pub skip_csi-params :
    (params : Text) (final : ℕ) (s : Text)
    → all (λ x. not (is_csi_final x)) params ≡ true
    → is_csi_final final ≡ true
    → skip_csi (params ++ (final ∷ s)) ≡ s
unfolding skip_csi
skip_csi-params [] final s h g = rw g refl
skip_csi-params (x ∷ params) final s h g = ground (arith, skip_csi-params params final s)

pub strip_ansi_escapes-nil : strip_ansi_escapes [] ≡ []
unfolding strip_ansi_escapes strip_ansi_fuel
strip_ansi_escapes-nil = refl

-- A text without control runes has no sequence.
clean-strip_ansi_escapes : (text : Text) → is_clean text ≡ true → strip_ansi_escapes text ≡ text
clean-strip_ansi_escapes [] h = strip_ansi_escapes-nil
clean-strip_ansi_escapes (c ∷ s) h =
    strip_ansi_escapes-kept c s (sequence_end-none c s (ground arith))
    ∙ ap (λ x. c ∷ x) (clean-strip_ansi_escapes s (ground arith))

keep_if_idle : (p : ℕ → Bool) (s : Text) → all p s ≡ true → keep_if p s ≡ s
keep_if_idle p [] h = refl
keep_if_idle p (c ∷ s) h = ground (arith, keep_if_idle p s)

-- A sanitized text has no control rune, and sanitizing it again changes nothing.
sanitize_for_display-clean :
    (text : Text)
    → (is_clean (sanitize_for_display text) ≡ true)
      × (sanitize_for_display (sanitize_for_display text) ≡ sanitize_for_display text)
unfolding sanitize_for_display strip_non_printing_control_chars
sanitize_for_display-clean text =
    let p = λ (r : ℕ). not (is_control r) in
    let once = keep_if p (strip_ansi_escapes text) in
    let clean = keep_if-all p (strip_ansi_escapes text) in
    (clean, ap (keep_if p) (clean-strip_ansi_escapes once clean) ∙ keep_if_idle p once clean)

all-append : (p : ℕ → Bool) (s r : Text) → all p (s ++ r) ≡ (all p s && all p r)
all-append p [] r = refl
all-append p (c ∷ s) r = ground (arith, all-append p s r)

fit_runes-all :
    (p : ℕ → Bool) (budget width : ℕ) (text : Text)
    → all p text ≡ true
    → all p (fit_runes budget width text) ≡ true
unfolding fit_runes
fit_runes-all p budget width [] h = refl
fit_runes-all p budget width (r ∷ s) h =
    ground (arith, fit_runes-all p budget (width + char_width r) s)

truncate_to_width-clean :
    (text : Text) (max_width : ℕ)
    → is_clean text ≡ true
    → is_clean (truncate_to_width text max_width) ≡ true
unfolding truncate_to_width
truncate_to_width-clean text max_width h = ground (
  arith,
  all-append (λ r. not (is_control r)) (fit_runes (max_width - 1) 0 text) ellipsis,
  fit_runes-all (λ r. not (is_control r)) (max_width - 1) 0 text h,
)

-- A session name that is shown has no control rune and is at most 80 cells wide.
sanitize_session_name-shown :
    (text : Text)
    → (is_clean (sanitize_session_name text) ≡ true)
      × (string_width (sanitize_session_name text) ≤ session_name_max_width)
unfolding sanitize_session_name
sanitize_session_name-shown text = (
  truncate_to_width-clean (sanitize_for_display text) session_name_max_width
      (sanitize_for_display-clean text).0,
  truncate_to_width-fits (sanitize_for_display text) session_name_max_width,
)
