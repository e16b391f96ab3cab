-- ===== src/WidthSync/Leaf.antt =====
-- `hasDirMismatch` of apps/server-go/internal/widthsync/widthsync.go.
use tail_claude_mux.WidthSync.Rows.{has_dir_mismatch, last_segment, split_slash}
use tail_claude_mux.Wire.{SessionData}
use tail_claude_mux.Base.{
  text_beq, Text, all, option_eq, ne→==, ◌!=◌, ◌==◌, Bool-cases, if◌then◌else◌, append_assoc,
  append-nil, arith, ◌++◌, ◌∷◌, [], List, false, true, Bool, inr, inl, ◌≢◌, ◌∙◌, ap, refl, ◌≡◌, ℕ,
  nat_eq, text_eq,
}

abbrev no_slash : Text → Bool
no_slash s = all (λ c. c != 47) s

split_slash-whole : (seg b : Text) → no_slash b ≡ true → split_slash seg b ≡ (seg ++ b) ∷ []
unfolding split_slash
split_slash-whole seg [] h = rw (append-nil seg) refl
split_slash-whole seg (c ∷ b) h =
    let e : (c == 47) ≡ false = ground arith in
    let g : no_slash b ≡ true = ground arith in
    rw e (split_slash-whole (seg ++ (c ∷ [])) b g ∙ ap (λ x. x ∷ []) (append_assoc seg (c ∷ []) b))

split_slash-last :
    (seg a b : Text)
    → no_slash b ≡ true
    → (segs : List Text) × (split_slash seg (a ++ (47 ∷ b)) ≡ segs ++ (b ∷ []))
unfolding split_slash
split_slash-last seg [] b h = (seg ∷ [], ap (λ x. seg ∷ x) (split_slash-whole [] b h))
split_slash-last seg (c ∷ a) b h = elim (Bool-cases (c == 47)) [
  | inl e ↦ let (segs, p) = split_slash-last [] a b h in rw e (seg ∷ segs, ap (λ x. seg ∷ x) p)
  | inr e ↦ rw e (split_slash-last (seg ++ (c ∷ [])) a b h)
]

last_segment-append :
    (leaf : Text) (segs : List Text) (b : Text)
    → (b == []) ≡ false
    → last_segment leaf (segs ++ (b ∷ [])) ≡ b
unfolding last_segment
last_segment-append leaf [] b h = rw h refl
last_segment-append leaf (seg ∷ segs) b h =
    last_segment-append (if seg != [] then seg else leaf) segs b h

append-nonempty : (a : Text) (c : ℕ) (b : Text) → ((a ++ (c ∷ b)) == []) ≡ false
unfolding text_beq
append-nonempty [] c b = refl
append-nonempty (x ∷ a) c b = refl

-- A directory whose path ends in a name is a mismatch exactly when that name is not the session's.
has_dir_mismatch-leaf :
    (s : SessionData) (parent leaf : Text)
    → s.dir ≡ parent ++ (47 ∷ leaf)
    → no_slash leaf ≡ true
    → leaf ≢ []
    → has_dir_mismatch s ≡ (leaf != s.name)
unfolding has_dir_mismatch
has_dir_mismatch-leaf s parent leaf h slash nonempty =
    let (segs, p) = split_slash-last [] parent leaf slash in
    let e = ne→== leaf [] nonempty in
    let found : last_segment [] (split_slash [] (parent ++ (47 ∷ leaf))) ≡ leaf =
      ap (last_segment []) p ∙ last_segment-append [] segs leaf e in
    rw (h, has_dir_mismatch, append-nonempty parent 47 leaf, found, e) refl
