-- ===== src/Delegation/Uuid.antt =====
-- `validUUID`, `newUUID` and `normalizeAgent` of apps/server-go/internal/delegation/store.go.
use tail_claude_mux.Base.{
  not, ◌∙◌, ap, refl, codes, Text, length, option_eq, ◌==◌, if◌then◌else◌, leb, ltb, arith, ◌++◌,
  ◌∷◌, [], List, ◌||◌, ◌&&◌, false, true, Bool, ◌≡◌, ◌<◌, ◌%◌, ◌/◌, ◌+◌, ℕ, nat_eq, text_eq,
}

abbrev is_hex : ℕ → Bool
is_hex c = (leb 48 c && leb c 57) || (leb 97 c && leb c 102)

abbrev is_dash_place : ℕ → Bool
is_dash_place i = i == 8 || i == 13 || i == 18 || i == 23

unfoldable pub valid_from : ℕ → Text → Bool
valid_from i [] = true
valid_from i (c ∷ id) = (if is_dash_place i then c == 45 else is_hex c) && valid_from (i + 1) id

-- On bytes: a byte of a longer rune is no hexadecimal digit.
unfoldable pub valid_uuid : Text → Bool
unfolding valid_from
valid_uuid id = length id == 36 && valid_from 0 id

abbrev hex_digit : ℕ → ℕ
hex_digit n = if ltb n 10 then 48 + n else 87 + n

-- `hex.Encode` of some of the bytes.
unfoldable hex_encode : List ℕ → Text
hex_encode [] = []
hex_encode (b ∷ bytes) = hex_digit (b / 16) ∷ hex_digit (b % 16) ∷ hex_encode bytes

-- `newUUID`, on the random bytes: the sixth gets the version and the eighth the variant.
unfoldable pub new_uuid : (ℕ → ℕ) → Text
unfolding hex_encode
new_uuid r =
    hex_encode (r 0 ∷ r 1 ∷ r 2 ∷ r 3 ∷ [])
    ++ (45 ∷ hex_encode (r 4 ∷ r 5 ∷ []))
    ++ (45 ∷ hex_encode ((r 6 % 16 + 64) ∷ r 7 ∷ []))
    ++ (45 ∷ hex_encode ((r 8 % 64 + 128) ∷ r 9 ∷ []))
    ++ (45 ∷ hex_encode (r 10 ∷ r 11 ∷ r 12 ∷ r 13 ∷ r 14 ∷ r 15 ∷ []))

unfoldable pub normalize_agent : Text → Text
normalize_agent agent = if agent == codes "claude" then codes "claude-code" else agent

is_hex-hex_digit : (n : ℕ) → n < 16 → is_hex (hex_digit n) ≡ true
is_hex-hex_digit n h = ground arith

-- No place of the digits of the bytes is a dash's, from a place on.
abbrev no_dash : ℕ → List ℕ → Bool
no_dash i [] = true
no_dash i (b ∷ bytes) =
    not (is_dash_place i) && (not (is_dash_place (i + 1)) && no_dash (i + 2) bytes)

abbrev place_after : ℕ → List ℕ → ℕ
place_after i [] = i
place_after i (b ∷ bytes) = place_after (i + 2) bytes

abbrev AreBytes : List ℕ → Type 0
AreBytes [] = Unit
AreBytes (b ∷ bytes) = (b < 256) × AreBytes bytes

valid_from-hex_encode :
    (i : ℕ) (bytes : List ℕ) (s : Text)
    → AreBytes bytes
    → no_dash i bytes ≡ true
    → valid_from (place_after i bytes) s ≡ true
    → valid_from i (hex_encode bytes ++ s) ≡ true
unfolding valid_from hex_encode
valid_from-hex_encode i [] s h d rest = rest
valid_from-hex_encode i (b ∷ bytes) s h d rest =
    let tail = valid_from-hex_encode (i + 2) bytes s h.1 (ground arith) rest in
    let next : valid_from (i + 1 + 1) (hex_encode bytes ++ s) ≡ true =
      ap (λ j. valid_from j (hex_encode bytes ++ s)) (omega arith) ∙ tail in
    let d0 : is_dash_place i ≡ false = ground arith in
    let d1 : is_dash_place (i + 1) ≡ false = ground arith in
    rw
      (
        d0,
        d1,
        is_hex-hex_digit (b / 16) (let p = h.0 in omega arith),
        is_hex-hex_digit (b % 16) (omega arith),
      )
      next

valid_from-dash :
    (i : ℕ) (s : Text)
    → is_dash_place i ≡ true
    → valid_from (i + 1) s ≡ true
    → valid_from i (45 ∷ s) ≡ true
unfolding valid_from
valid_from-dash i s h g = rw (h, g) refl

-- Whatever bytes the generator returns, what is made of them is accepted as a delegation's id.
new_uuid-valid : (r : ℕ → ℕ) → ((i : ℕ) → r i < 256) → valid_uuid (new_uuid r) ≡ true
unfolding new_uuid valid_uuid valid_from hex_encode
new_uuid-valid r h =
    let last = r 10 ∷ r 11 ∷ r 12 ∷ r 13 ∷ r 14 ∷ r 15 ∷ [] in
    let variant = (r 8 % 64 + 128) ∷ r 9 ∷ [] in
    let version = (r 6 % 16 + 64) ∷ r 7 ∷ [] in
    let second = r 4 ∷ r 5 ∷ [] in
    let s4 = hex_encode last in
    let s3 = hex_encode variant ++ (45 ∷ s4) in
    let s2 = hex_encode version ++ (45 ∷ s3) in
    let s1 = hex_encode second ++ (45 ∷ s2) in
    let v4 =
      valid_from-hex_encode 24 last [] (h 10, (h 11, (h 12, (h 13, (h 14, (h 15, tt)))))) refl
        refl in
    let v3 =
      valid_from-hex_encode 19 variant (45 ∷ s4) (omega arith, (h 9, tt)) refl
        (valid_from-dash 23 s4 refl v4) in
    let v2 =
      valid_from-hex_encode 14 version (45 ∷ s3) (omega arith, (h 7, tt)) refl
        (valid_from-dash 18 s3 refl v3) in
    let v1 =
      valid_from-hex_encode 9 second (45 ∷ s2) (h 4, (h 5, tt)) refl
        (valid_from-dash 13 s2 refl v2) in
    valid_from-hex_encode 0 (r 0 ∷ r 1 ∷ r 2 ∷ r 3 ∷ []) (45 ∷ s1) (h 0, (h 1, (h 2, (h 3, tt))))
      refl (valid_from-dash 8 s1 refl v1)
