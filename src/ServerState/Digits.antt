-- ===== src/ServerState/Digits.antt =====
-- `itoa` of apps/server-go/internal/state/state.go against the decimal digits.
use tail_claude_mux.ServerState.Parts.{own_itoa, write_digits}
use tail_claude_mux.Base.{
  Text, option_eq, ◌==◌, Bool-cases, ltb, append_assoc, append-nil, arith, ◌++◌, ◌∷◌, [], false,
  inr, inl, ◌∙◌, sym, refl, ◌≡◌, ◌<◌, ◌≤◌, ◌%◌, ◌/◌, ◌+◌, suc, zero, ℕ, nat_eq, text_eq, itoa_fuel,
  itoa,
}

-- The loop stops at once when nothing is left.
write_digits-done : (fuel : ℕ) (buf : Text) → write_digits fuel 0 buf ≡ buf
unfolding write_digits
write_digits-done zero buf = refl
write_digits-done (suc fuel) buf = refl

-- Digits in front of others, with any fuel that the number allows for.
write_digits-itoa_fuel :
    (fuel fuel' n : ℕ) (buf : Text)
    → 0 < n
    → n ≤ fuel
    → n ≤ fuel'
    → write_digits fuel n buf ≡ itoa_fuel fuel' n ++ buf
unfolding write_digits itoa_fuel
write_digits-itoa_fuel zero fuel' n buf p h g = absurd (omega arith)
write_digits-itoa_fuel (suc fuel) zero n buf p h g = absurd (omega arith)
write_digits-itoa_fuel (suc fuel) (suc fuel') n buf p h g =
    let z : (n == 0) ≡ false = ground arith in
    elim (Bool-cases (ltb n 10)) [
      | inl c ↦
          let small : n < 10 = ground arith in
          let q : n / 10 ≡ 0 = omega arith in
          let d : n % 10 ≡ n = omega arith in
          rw (z, c, q, d) (write_digits-done fuel ((48 + n) ∷ buf))
      | inr c ↦
          let large : 10 ≤ n = ground arith in
          rw (z, c)
            (write_digits-itoa_fuel fuel fuel' (n / 10) ((48 + n % 10) ∷ buf) (omega arith)
                (omega arith) (omega arith)
              ∙ sym (append_assoc (itoa_fuel fuel' (n / 10)) ((48 + n % 10) ∷ []) buf))
    ]

own_itoa-written : (n : ℕ) → (n == 0) ≡ false → own_itoa n ≡ write_digits n n []
unfolding own_itoa
own_itoa-written n h = rw h refl

zero_digits : own_itoa 0 ≡ itoa 0
unfolding own_itoa itoa itoa_fuel
zero_digits = refl

itoa-itoa_fuel : (n : ℕ) → itoa n ≡ itoa_fuel n n
unfolding itoa
itoa-itoa_fuel n = refl

-- The hand-written conversion, which fills its buffer from the end, writes the decimal digits.
own_itoa-itoa : (n : ℕ) → own_itoa n ≡ itoa n
own_itoa-itoa zero = zero_digits
own_itoa-itoa (suc n) =
    own_itoa-written (suc n) (ground arith)
    ∙ (write_digits-itoa_fuel (suc n) (suc n) (suc n) [] (omega arith) (omega arith) (omega arith)
        ∙ (append-nil (itoa_fuel (suc n) (suc n)) ∙ sym (itoa-itoa_fuel (suc n))))
