-- ===== src/WidthSync/Clamped.antt =====
-- `Clamp` of apps/server-go/internal/widthsync/widthsync.go.
use tail_claude_mux.WidthSync.Rows.{clamp, absolute_min}
use tail_claude_mux.Base.{nat_eq, ne→==, arith, ◌↔◌, ◌≡◌, ◌<◌, ◌≤◌, ◌/◌, ◌*◌, ℕ}

-- In a window of a known width a clamped width is at most two fifths of it, at least 15 when the
-- window has 38 columns, and under 15 in a narrower window; clamping it again changes nothing.
clamp-bounds :
    (width window_width : ℕ)
    → 0 < window_width
    → (clamp width window_width ≤ window_width * 2 / 5)
      × ((absolute_min ≤ clamp width window_width) ↔ (38 ≤ window_width))
      × (clamp (clamp width window_width) window_width ≡ clamp width window_width)
unfolding clamp
clamp-bounds width window_width h =
    let e = ne→== window_width 0 (λ q. absurd (omega arith)) in
    rw e (omega arith, (λ q. omega arith, λ q. omega arith), omega arith)
