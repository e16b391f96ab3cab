-- ===== src/Base/Decimal.antt =====
-- `strconv.Itoa` of a number that is not negative.
use Prim.Native.Nat.{ℕ, zero, suc, ◌+◌, ◌/◌, ◌%◌}
use mathlib.Core.List.{[], ◌∷◌, ◌++◌}
use tail_claude_mux.Base.Tests.{ltb, if◌then◌else◌}
use tail_claude_mux.Base.Texts.{Text}

-- The number's own value is fuel enough: every digit divides it by ten.
unfoldable pub itoa_fuel : ℕ → ℕ → Text
itoa_fuel zero n = (48 + n) ∷ []
itoa_fuel (suc fuel) n =
    let rest = itoa_fuel fuel (n / 10) in
    if ltb n 10 then (48 + n) ∷ [] else rest ++ ((48 + n % 10) ∷ [])

unfoldable pub itoa : ℕ → Text
unfolding itoa_fuel
itoa n = itoa_fuel n n
