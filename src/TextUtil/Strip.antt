-- ===== src/TextUtil/Strip.antt =====
-- The sanitizer of apps/server-go/internal/textutil/textutil.go. `StripAnsiEscapes` reads bytes;
-- every byte that it tests for is ASCII, and no rune of several bytes has one, so that it does the
-- same on runes.
use tail_claude_mux.TextUtil.Width.{session_name_max_width, truncate_to_width}
use tail_claude_mux.Base.{
  text_eq, Text, keep_if, length, option_eq, ◌==◌, if◌then◌else◌, leb, ◌∷◌, [], some, none, Option,
  ◌||◌, ◌&&◌, not, Bool, suc, zero, ℕ, nat_eq,
}

abbrev pub esc_code : ℕ
esc_code = 27

abbrev bel_code : ℕ
bel_code = 7

abbrev pub csi_open_code : ℕ
csi_open_code = 91

abbrev osc_open_code : ℕ
osc_open_code = 93

abbrev pub is_control : ℕ → Bool
is_control r = leb r 31 || (leb 127 r && leb r 159)

unfoldable pub strip_non_printing_control_chars : Text → Text
strip_non_printing_control_chars text = keep_if (λ r. not (is_control r)) text

abbrev pub is_csi_final : ℕ → Bool
is_csi_final x = leb 64 x && leb x 126

-- What follows the final byte of a CSI sequence, or nothing.
unfoldable pub skip_csi : Text → Text
skip_csi [] = []
skip_csi (x ∷ s) = let rest = skip_csi s in if is_csi_final x then s else rest

-- What follows the BEL of an OSC sequence, or nothing.
unfoldable pub skip_osc : Text → Text
skip_osc [] = []
skip_osc (x ∷ s) = let rest = skip_osc s in if x == bel_code then s else rest

-- Where a sequence that opens here ends.
unfoldable pub sequence_end : ℕ → Text → Option Text
unfolding skip_csi skip_osc
sequence_end c [] = none
sequence_end c (d ∷ s) =
    if c == esc_code
    then if d == csi_open_code
      then some (skip_csi s)
      else if d == osc_open_code
      then some (skip_osc s)
      else none
    else none

unfoldable pub strip_ansi_fuel : ℕ → Text → Text
unfolding sequence_end
strip_ansi_fuel zero text = []
strip_ansi_fuel (suc fuel) [] = []
strip_ansi_fuel (suc fuel) (c ∷ s) = elim (sequence_end c s) [
  | some rest ↦ strip_ansi_fuel fuel rest
  | none ↦ c ∷ strip_ansi_fuel fuel s
]

-- Every round of the loop goes at least one rune further.
unfoldable pub strip_ansi_escapes : Text → Text
unfolding strip_ansi_fuel
strip_ansi_escapes text = strip_ansi_fuel (length text) text

unfoldable pub sanitize_for_display : Text → Text
unfolding strip_ansi_escapes strip_non_printing_control_chars
sanitize_for_display text = strip_non_printing_control_chars (strip_ansi_escapes text)

unfoldable pub sanitize_session_name : Text → Text
unfolding sanitize_for_display truncate_to_width
sanitize_session_name text = truncate_to_width (sanitize_for_display text) session_name_max_width
