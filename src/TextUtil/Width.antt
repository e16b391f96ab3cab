-- ===== src/TextUtil/Width.antt =====
-- `charWidth`, `StringWidth` and `TruncateToWidth` of apps/server-go/internal/textutil/textutil.go.
-- A text is the list of its runes.
use tail_claude_mux.Base.{
  text_eq, Text, any, option_eq, ◌==◌, if◌then◌else◌, leb, ltb, ◌++◌, ◌∷◌, [], List, ◌&&◌, Bool,
  ◌-◌, ◌+◌, ℕ, nat_eq,
}

abbrev pub session_name_max_width : ℕ
session_name_max_width = 80

-- The ranges of a width, both ends included.
abbrev zero_ranges : List (ℕ × ℕ)
zero_ranges = (0, 0) ∷ (768, 879) ∷ (65024, 65039) ∷ (8203, 8207) ∷ (65279, 65279) ∷ []

abbrev wide_ranges : List (ℕ × ℕ)
wide_ranges =
    (4352, 4447)
    ∷ (11904, 12350)
    ∷ (12352, 13247)
    ∷ (13312, 19903)
    ∷ (19968, 42191)
    ∷ (44032, 55215)
    ∷ (63744, 64255)
    ∷ (65072, 65135)
    ∷ (65281, 65376)
    ∷ (65504, 65510)
    ∷ (131072, 195103)
    ∷ (196608, 205743)
    ∷ (126976, 127023)
    ∷ (127136, 127231)
    ∷ (127232, 127487)
    ∷ (127488, 127743)
    ∷ (127744, 129023)
    ∷ []

abbrev in_ranges : ℕ → List (ℕ × ℕ) → Bool
in_ranges r ranges = any (λ p. leb p.0 r && leb r p.1) ranges

unfoldable pub char_width : ℕ → ℕ
char_width r = if in_ranges r zero_ranges then 0 else if in_ranges r wide_ranges then 2 else 1

unfoldable pub string_width : Text → ℕ
unfolding char_width
string_width [] = 0
string_width (r ∷ s) = char_width r + string_width s

abbrev pub ellipsis : Text
ellipsis = 8230 ∷ []

-- The runes that are written before one would pass the budget.
unfoldable pub fit_runes : ℕ → ℕ → Text → Text
unfolding char_width
fit_runes budget width [] = []
fit_runes budget width (r ∷ s) =
    let rest = fit_runes budget (width + char_width r) s in
    if ltb budget (width + char_width r) then [] else r ∷ rest

unfoldable pub truncate_to_width : Text → ℕ → Text
unfolding string_width fit_runes
truncate_to_width text max_width =
    if max_width == 0
    then []
    else if leb (string_width text) max_width
    then text
    else if leb max_width 1
    then ellipsis
    else fit_runes (max_width - 1) 0 text ++ ellipsis
