-- ===== src/TextUtil/Displayed.antt =====
-- What `SanitizeForDisplay` of apps/server-go/internal/textutil/textutil.go leaves of a text.
use tail_claude_mux.TextUtil.Strip.{
  skip_csi, sanitize_for_display, strip_ansi_escapes, sequence_end, skip_osc, is_csi_final,
  strip_non_printing_control_chars, is_control, esc_code,
}
use mathlib.Core.List.{append-nil}
use tail_claude_mux.Base.{
  sym, ne→==, ◌==◌, none, false, ◌≢◌, Bool-cases, leb, ltb, ◌||◌, ◌&&◌, text_eq, Text, all, keep_if,
  option_eq, ◌!=◌, arith, ◌++◌, ◌∷◌, [], some, not, true, Bool, inr, inl, ◌∙◌, ap, refl, ◌≡◌, ◌≤◌,
  ℕ, nat_eq,
}
use tail_claude_mux.TextUtil.Sanitized.{
  strip_ansi_escapes-cut, strip_ansi_escapes-kept, strip_ansi_escapes-nil, skip_csi-params,
  sequence_end-csi, sequence_end-none,
}

-- The runes that a text may show: no control rune, of the first or of the second block.
abbrev pub is_shown : ℕ → Bool
is_shown r = (leb 32 r && leb r 126) || leb 160 r

keep_if-shown : (s : Text) → keep_if (λ r. not (is_control r)) s ≡ keep_if is_shown s
keep_if-shown [] = refl
keep_if-shown (c ∷ s) =
    let e : not (is_control c) ≡ is_shown c = ground arith in rw (e, keep_if-shown s) refl

keep_if-append : (p : ℕ → Bool) (s r : Text) → keep_if p (s ++ r) ≡ keep_if p s ++ keep_if p r
keep_if-append p [] r = refl
keep_if-append p (c ∷ s) r = elim (Bool-cases (p c)) [
  | inl e ↦ rw e (ap (λ t. c ∷ t) (keep_if-append p s r))
  | inr e ↦ rw e (keep_if-append p s r)
]

sequence_end-osc : (s : Text) → sequence_end esc_code (93 ∷ s) ≡ some (skip_osc s)
unfolding sequence_end
sequence_end-osc s = refl

skip_osc-body : (body s : Text) → all (λ x. x != 7) body ≡ true → skip_osc (body ++ (7 ∷ s)) ≡ s
unfolding skip_osc
skip_osc-body [] s h = refl
skip_osc-body (x ∷ body) s h = ground (arith, skip_osc-body body s)

skip_osc-unended : (body : Text) → all (λ x. x != 7) body ≡ true → skip_osc body ≡ []
unfolding skip_osc
skip_osc-unended [] h = refl
skip_osc-unended (x ∷ body) h = ground (arith, skip_osc-unended body)

skip_csi-unended :
    (params : Text) → all (λ x. not (is_csi_final x)) params ≡ true → skip_csi params ≡ []
unfolding skip_csi
skip_csi-unended [] h = refl
skip_csi-unended (x ∷ params) h = ground (arith, skip_csi-unended params)

sequence_end-other :
    (other : ℕ) (s : Text)
    → (other == 91) ≡ false
    → (other == 93) ≡ false
    → sequence_end esc_code (other ∷ s) ≡ none
unfolding sequence_end
sequence_end-other other s h g = rw (h, g) refl

-- A text with no ESC before something opens nothing.
strip_ansi_escapes-append :
    (before text : Text)
    → all (λ c. c != 27) before ≡ true
    → strip_ansi_escapes (before ++ text) ≡ before ++ strip_ansi_escapes text
strip_ansi_escapes-append [] text h = refl
strip_ansi_escapes-append (c ∷ s) text h =
    strip_ansi_escapes-kept c (s ++ text) (sequence_end-none c (s ++ text) (ground arith))
    ∙ ap (λ x. c ∷ x) (strip_ansi_escapes-append s text (ground arith))

params_open :
    (params : Text)
    → all (λ x. ltb x 64 || ltb 126 x) params ≡ true
    → all (λ x. not (is_csi_final x)) params ≡ true
params_open [] h = refl
params_open (x ∷ params) h = ground (arith, params_open params)

sanitize_for_display-append :
    (before text : Text)
    → all (λ c. c != 27) before ≡ true
    → sanitize_for_display (before ++ text) ≡ keep_if is_shown before ++ sanitize_for_display text
unfolding sanitize_for_display strip_non_printing_control_chars
sanitize_for_display-append before text h =
    ap (keep_if (λ r. not (is_control r))) (strip_ansi_escapes-append before text h)
    ∙ keep_if-append (λ r. not (is_control r)) before (strip_ansi_escapes text)
    ∙ ap (λ t. t ++ sanitize_for_display text) (keep_if-shown before)

-- A sequence shows nothing, and neither does an ESC that opens none.
sanitize_for_display-cut :
    (s rest : Text)
    → sequence_end esc_code s ≡ some rest
    → sanitize_for_display (esc_code ∷ s) ≡ sanitize_for_display rest
unfolding sanitize_for_display strip_non_printing_control_chars
sanitize_for_display-cut s rest h =
    ap (keep_if (λ r. not (is_control r))) (strip_ansi_escapes-cut esc_code s rest h)

sanitize_for_display-lone :
    (s : Text)
    → sequence_end esc_code s ≡ none
    → sanitize_for_display (esc_code ∷ s) ≡ sanitize_for_display s
unfolding sanitize_for_display strip_non_printing_control_chars
sanitize_for_display-lone s h =
    ap (keep_if (λ r. not (is_control r))) (strip_ansi_escapes-kept esc_code s h)

sanitize_for_display-nil : sanitize_for_display [] ≡ []
unfolding sanitize_for_display strip_non_printing_control_chars
sanitize_for_display-nil = ap (keep_if (λ r. not (is_control r))) strip_ansi_escapes-nil

shown_before :
    (before text rest : Text)
    → all (λ c. c != 27) before ≡ true
    → sanitize_for_display text ≡ rest
    → sanitize_for_display (before ++ text) ≡ keep_if is_shown before ++ rest
shown_before before text rest h e =
    sanitize_for_display-append before text h ∙ ap (λ t. keep_if is_shown before ++ t) e

shown_alone :
    (before text : Text)
    → all (λ c. c != 27) before ≡ true
    → sanitize_for_display text ≡ []
    → sanitize_for_display (before ++ text) ≡ keep_if is_shown before
shown_alone before text h e = shown_before before text [] h e ∙ append-nil (keep_if is_shown before)

-- What a text shows. Up to its first ESC it is kept but for its control runes, which are those up to
-- U+001F and from U+007F to U+009F. A CSI sequence that the ESC opens shows nothing, neither its
-- parameters nor the rune of U+0040 to U+007E that ends it, nor does an OSC sequence up to its BEL,
-- and what follows shows as it does by itself; without such an end, the sequence takes the rest of
-- the text. An ESC before another rune goes alone.
pub sanitize_for_display-shows :
    (before params body after : Text) (final other : ℕ)
    → all (λ c. c != 27) before ≡ true
    → all (λ x. ltb x 64 || ltb 126 x) params ≡ true
    → 64 ≤ final
    → final ≤ 126
    → all (λ x. x != 7) body ≡ true
    → other ≢ 91
    → other ≢ 93
    → let shown = keep_if is_shown before in
      (sanitize_for_display (before ++ (27 ∷ 91 ∷ (params ++ (final ∷ after))))
        ≡ shown ++ sanitize_for_display after)
      × (sanitize_for_display (before ++ (27 ∷ 93 ∷ (body ++ (7 ∷ after))))
          ≡ shown ++ sanitize_for_display after)
      × (sanitize_for_display (before ++ (27 ∷ 91 ∷ params)) ≡ shown)
      × (sanitize_for_display (before ++ (27 ∷ 93 ∷ body)) ≡ shown)
      × (sanitize_for_display (before ++ (27 ∷ other ∷ after))
          ≡ shown ++ sanitize_for_display (other ∷ after))
      × (sanitize_for_display before ≡ shown)
sanitize_for_display-shows before params body after final other unopened unended low high quiet
      no_csi no_osc =
    let apart = params_open params unended in
    (
      shown_before before (27 ∷ 91 ∷ (params ++ (final ∷ after))) (sanitize_for_display after)
          unopened
          (sanitize_for_display-cut (91 ∷ (params ++ (final ∷ after))) after (
            sequence_end-csi (params ++ (final ∷ after))
            ∙ ap some (skip_csi-params params final after apart (ground arith)))),
      shown_before before (27 ∷ 93 ∷ (body ++ (7 ∷ after))) (sanitize_for_display after) unopened (
          sanitize_for_display-cut (93 ∷ (body ++ (7 ∷ after))) after
            (sequence_end-osc (body ++ (7 ∷ after)) ∙ ap some (skip_osc-body body after quiet))),
      shown_alone before (27 ∷ 91 ∷ params) unopened (
          sanitize_for_display-cut (91 ∷ params) []
            (sequence_end-csi params ∙ ap some (skip_csi-unended params apart))
          ∙ sanitize_for_display-nil),
      shown_alone before (27 ∷ 93 ∷ body) unopened (
          sanitize_for_display-cut (93 ∷ body) []
            (sequence_end-osc body ∙ ap some (skip_osc-unended body quiet))
          ∙ sanitize_for_display-nil),
      shown_before before (27 ∷ other ∷ after) (sanitize_for_display (other ∷ after)) unopened (
          sanitize_for_display-lone (other ∷ after)
            (sequence_end-other other after (ne→== other 91 no_csi) (ne→== other 93 no_osc))),
      ap sanitize_for_display (sym (append-nil before))
          ∙ shown_alone before [] unopened sanitize_for_display-nil,
    )
