-- ===== src/Tests/Shown.antt =====
-- Runs of apps/server-go/internal/textutil/textutil.go.
use tail_claude_mux.TextUtil.Width.{truncate_to_width, string_width, char_width}
use tail_claude_mux.TextUtil.Truncated.{truncate_to_width-longest}
use tail_claude_mux.TextUtil.Displayed.{sanitize_for_display-shows, is_shown}
use tail_claude_mux.TextUtil.Strip.{sanitize_for_display}
use tail_claude_mux.Base.{
  codes, Text, arith, keep_if, ◌++◌, ◌∷◌, [], ◌≡◌, ◌≤◌, ◌<◌, ◌+◌, ℕ, nat_eq, text_eq, option_eq,
  refl,
}

truncate_to_width-longest_example :
    (kept : Text) × (r : ℕ) × (left : Text) × (codes "abcd" ≡ kept ++ (r ∷ left))
    × (truncate_to_width (codes "abcd") 3 ≡ kept ++ (0x2026 ∷ []))
    × (string_width kept + 1 ≤ 3)
    × (3 < string_width (kept ++ (r ∷ [])) + 1)
unfolding string_width char_width
truncate_to_width-longest_example =
    truncate_to_width-longest (codes "abcd") 3 (omega arith) (ground arith)

-- A tab, a red word, and a title.
abbrev tabbed : Text
tabbed = 9 ∷ codes "a"

sanitize_for_display-shows_example :
    let shown = keep_if is_shown tabbed in
    (sanitize_for_display (tabbed ++ (27 ∷ 91 ∷ (codes "31" ++ (109 ∷ codes "red"))))
      ≡ shown ++ sanitize_for_display (codes "red"))
    × (sanitize_for_display (tabbed ++ (27 ∷ 93 ∷ (codes "0;t" ++ (7 ∷ codes "red"))))
        ≡ shown ++ sanitize_for_display (codes "red"))
    × (sanitize_for_display (tabbed ++ (27 ∷ 91 ∷ codes "31")) ≡ shown)
    × (sanitize_for_display (tabbed ++ (27 ∷ 93 ∷ codes "0;t")) ≡ shown)
    × (sanitize_for_display (tabbed ++ (27 ∷ 40 ∷ codes "red"))
        ≡ shown ++ sanitize_for_display (40 ∷ codes "red"))
    × (sanitize_for_display tabbed ≡ shown)
sanitize_for_display-shows_example =
    sanitize_for_display-shows tabbed (codes "31") (codes "0;t") (codes "red") 109 40 refl refl
      (omega arith) (omega arith) refl (omega arith) (omega arith)
