-- ===== src/Base/Texts.antt =====
-- Go strings as lists of bytes.
use Prim.Native.Nat.{ℕ}
use Prim.Native.Char.{code}
use Prim.Native.String.{String}
use mathlib.Core.Path.{◌≡◌, refl}
use mathlib.Core.Logic.{◌↔◌}
use mathlib.Core.Bool.{Bool, true, false, ◌&&◌, ◌||◌}
use mathlib.Core.List.{List, [], ◌∷◌, ◌++◌}
use native.Mathlib.Omega.{arith}
use tail_claude_mux.Base.Tests.{Equality, nat_eq, nat_beq, ltb}

abbrev pub Text : Type 0
Text = List ℕ

-- The bytes of a literal; the code points, which are the bytes of an ASCII text.
abbrev pub codes : String → Text
codes (String.◌∷◌ first rest) = code first ∷ codes rest
codes String.[] = []

unfoldable pub text_beq : Text → Text → Bool
text_beq [] [] = true
text_beq [] (y ∷ ys) = false
text_beq (x ∷ xs) [] = false
text_beq (x ∷ xs) (y ∷ ys) = nat_beq x y && text_beq xs ys

pub text_beq_iff : (a b : Text) → (text_beq a b ≡ true) ↔ (a ≡ b)
unfolding text_beq
text_beq_iff [] [] = ground arith
text_beq_iff [] (y ∷ ys) = ground arith
text_beq_iff (x ∷ xs) [] = ground arith
text_beq_iff (x ∷ xs) (y ∷ ys) = ground (arith, text_beq_iff xs ys)

instance abbrev pub text_eq : Equality Text
text_eq = record { same = text_beq; same_iff = text_beq_iff }

-- The order of `sort.Strings` and of `strings.Compare`.
unfoldable pub text_less : Text → Text → Bool
text_less xs [] = false
text_less [] (y ∷ ys) = true
text_less (x ∷ xs) (y ∷ ys) = ltb x y || (nat_beq x y && text_less xs ys)

-- `strings.HasPrefix`.
unfoldable pub has_prefix : Text → Text → Bool
has_prefix s [] = true
has_prefix [] (p ∷ ps) = false
has_prefix (x ∷ xs) (p ∷ ps) = nat_beq x p && has_prefix xs ps

-- `strings.Contains`.
unfoldable pub contains_text : Text → Text → Bool
unfolding has_prefix
contains_text [] p = has_prefix [] p
contains_text (x ∷ xs) p = has_prefix (x ∷ xs) p || contains_text xs p

pub append-cancel : (p a b : Text) → p ++ a ≡ p ++ b → a ≡ b
append-cancel [] a b h = h
append-cancel (x ∷ p) a b h = append-cancel p a b (cc)

has_prefix-append : (p s : Text) → has_prefix (p ++ s) p ≡ true
unfolding has_prefix
has_prefix-append [] s = refl
has_prefix-append (x ∷ p) s = ground (arith, has_prefix-append p s)

-- A text contains any piece that stands in its middle.
pub contains_text-append : (a p s : Text) → contains_text (a ++ (p ++ s)) p ≡ true
unfolding contains_text
contains_text-append [] [] [] = refl
contains_text-append [] [] (x ∷ s) = refl
contains_text-append [] (x ∷ p) s = ground (arith, has_prefix-append (x ∷ p) s)
contains_text-append (x ∷ a) p s = ground (arith, contains_text-append a p s)
