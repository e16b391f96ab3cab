-- ===== src/ClaudeWatch/Counted.antt =====
-- The count of apps/server-go/internal/ccwatch/thinking.go as a transcript grows.
use tail_claude_mux.ClaudeWatch.Thinking.{
  new_thinking_blocks, count_thinking_blocks, ThinkingCursor, max_thinking_scan_bytes, sum_blocks,
  line_blocks, whole_lines,
}
use tail_claude_mux.ClaudeWatch.Transcript.{Entry}
use tail_claude_mux.Base.{
  length-drop, length-append, ne→==, contains_text, ltb, ◌≢◌, ◌∙◌, append_assoc, some, false, ◌-◌,
  split_from, has_prefix, text_eq, codes, Text, is_empty, drop, length, option_eq, ==→eq, nat_eq,
  ◌==◌, Bool-cases, if◌then◌else◌, arith, ◌++◌, ◌∷◌, [], Option, ◌||◌, not, true, inr, inl, ◌⊎◌, ap,
  sym, refl, ◌≡◌, ◌≤◌, ◌+◌, suc, zero, ℕ,
}

drop-append : (n : ℕ) (x y : Text) → n ≤ length x → drop n (x ++ y) ≡ drop n x ++ y
drop-append zero x y h = refl
drop-append (suc n) [] y h = absurd (omega arith)
drop-append (suc n) (c ∷ x) y h = drop-append n x y (omega arith)

drop-nil : (n : ℕ) → ◌≡◌ {A = Text} (drop n []) []
drop-nil zero = refl
drop-nil (suc n) = refl

drop-add : (m n k : ℕ) (x : Text) → k ≡ m + n → drop k x ≡ drop n (drop m x)
drop-add zero n k x h = ap (λ i. drop i x) (omega arith)
drop-add (suc m) n zero x h = absurd (omega arith)
drop-add (suc m) n (suc k) [] h = sym (drop-nil n)
drop-add (suc m) n (suc k) (c ∷ x) h = drop-add m n k x (omega arith)

drop_length : (x : Text) → ◌≡◌ {A = Text} (drop (length x) x) []
drop_length [] = refl
drop_length (c ∷ x) = drop_length x

drop_all : (x y : Text) → drop (length x) (x ++ y) ≡ y
drop_all [] y = refl
drop_all (c ∷ x) y = drop_all x y

-- A text is its whole lines and a rest, which what follows completes.
whole_lines-split :
    (x : Text)
    → (r : Text) × (x ≡ whole_lines x ++ r)
      × ((d : Text) → whole_lines (x ++ d) ≡ whole_lines x ++ whole_lines (r ++ d))
unfolding whole_lines
whole_lines-split [] = ([], refl, λ d. refl)
whole_lines-split (c ∷ s) =
    let (r, e, f) = whole_lines-split s in
    elim (Bool-cases (c == 10 || not (is_empty (whole_lines s)))) [
      | inr g ↦ (c ∷ s, rw (whole_lines, g) refl, λ d. rw (whole_lines, g) refl)
      | inl g ↦ (
        r,
        rw (whole_lines, g) (ap (λ t. c ∷ t) e),
        λ d.
            (let h : (c == 10 || not (is_empty (whole_lines (s ++ d)))) ≡ true =
                rw (f d) (more c (whole_lines s) (whole_lines (r ++ d)) g) in
              rw (whole_lines, g, h) (ap (λ t. c ∷ t) (f d))),
      )
    ]
  where
    more :
        (c : ℕ) (w v : Text)
        → (c == 10 || not (is_empty w)) ≡ true
        → (c == 10 || not (is_empty (w ++ v))) ≡ true
    more c [] v g = ground arith
    more c (b ∷ w) v g = g

-- Whole lines, if there are any, end in a line end.
whole_lines-ends :
    (x : Text) → (whole_lines x ≡ []) ⊎ ((k : Text) × (whole_lines x ≡ k ++ (10 ∷ [])))
unfolding whole_lines
whole_lines-ends [] = inl refl
whole_lines-ends (c ∷ s) = elim (Bool-cases (c == 10 || not (is_empty (whole_lines s)))) [
  | inr g ↦ inl (rw (whole_lines, g) refl)
  | inl g ↦ elim (whole_lines-ends s) [
    | inr (k, e) ↦ inr (c ∷ k, rw (whole_lines, g) (ap (λ t. c ∷ t) e))
    | inl e ↦
        let g' : (c == 10 || false) ≡ true = rw e at g in
        let b : (c == 10) ≡ true = ground arith in
        inr ([], rw (whole_lines, g) (rw (e, ==→eq c 10 b) refl))
  ]
]

module _ (decode : Text → Option Entry) where
  -- The blocks of a text, with what has been read of its first line.
  count_from : Text → Text → ℕ
  count_from piece s = sum_blocks decode (split_from (codes "\n") 0 piece s)

  count-step :
      (piece s : Text) (c : ℕ)
      → count_from piece (c ∷ s) ≡ (
          if c == 10
          then line_blocks decode piece + count_from [] s
          else count_from (piece ++ (c ∷ [])) s)
  unfolding count_from split_from has_prefix sum_blocks
  count-step piece s c = elim (Bool-cases (c == 10)) [
    | inl e ↦ rw (==→eq c 10 e) refl
    | inr e ↦ rw (split_from, e) refl
  ]

  count_nothing : count_from [] [] ≡ 0
  unfolding count_from split_from sum_blocks line_blocks contains_text has_prefix
  count_nothing = refl

  count_whole :
      (k m piece : Text)
      → count_from piece (k ++ (10 ∷ m)) ≡ count_from piece (k ++ (10 ∷ [])) + count_from [] m
  count_whole [] m piece =
      rw (count-step piece m 10, count-step piece [] 10, count_nothing) (omega arith)
  count_whole (c ∷ k) m piece = elim (Bool-cases (c == 10)) [
    | inl e ↦
        rw (count-step piece (k ++ (10 ∷ m)) c, count-step piece (k ++ (10 ∷ [])) c, e)
          (omega (arith, count_whole k m []))
    | inr e ↦
        rw (count-step piece (k ++ (10 ∷ m)) c, count-step piece (k ++ (10 ∷ [])) c, e)
          (count_whole k m (piece ++ (c ∷ [])))
  ]

  -- What stands in whole lines counts apart from what follows.
  count-append :
      (x y : Text)
      → count_thinking_blocks decode (whole_lines x ++ y)
        ≡ count_thinking_blocks decode (whole_lines x) + count_thinking_blocks decode y
  unfolding count_thinking_blocks count_from
  count-append x y = elim (whole_lines-ends x) [
    | inl e ↦ rw e (omega (arith, count_nothing))
    | inr (k, e) ↦ rw (e, append_assoc k (10 ∷ []) y) (count_whole k y [])
  ]

  unread :
      (c : ThinkingCursor)
      → ◌≡◌ {A = ThinkingCursor × ℕ}
          (c, 0)
          (
            record c { offset = c.offset + length (whole_lines []) },
            count_thinking_blocks decode (whole_lines []),
          )
  unfolding whole_lines count_thinking_blocks count_from
  unread c = let q : c.offset + 0 ≡ c.offset = omega arith in rw (q, count_nothing) refl

  -- Both branches that read the file do the same when nothing is new.
  new_thinking_blocks-read :
      (files : Text → Option Text) (c : ThinkingCursor) (content : Text)
      → (c.path == []) ≡ false
      → files c.path ≡ some content
      → c.offset ≤ length content
      → length content - c.offset ≤ max_thinking_scan_bytes
      → new_thinking_blocks files decode c ≡ (
        record c { offset = c.offset + length (whole_lines (drop c.offset content)) },
        count_thinking_blocks decode (whole_lines (drop c.offset content)),
      )
  unfolding new_thinking_blocks
  new_thinking_blocks-read files c content p f within small =
      let l : length content ≡ length content = refl in
      let g : (ltb (length content) c.offset
            || ltb max_thinking_scan_bytes (length content - c.offset))
          ≡ false =
        ground arith in
      elim (Bool-cases (length content == c.offset)) [
        | inr e ↦ rw (new_thinking_blocks, p, f, g, e) refl
        | inl e ↦
            let q : length content ≡ c.offset = ==→eq (length content) c.offset e in
            let d : drop c.offset content ≡ [] =
              ap (λ i. drop i content) (sym q) ∙ drop_length content in
            rw (new_thinking_blocks, p, f, g, e, d) (unread c)
      ]

  -- A block counts once, whenever the transcript is read: two readings, with more text between
  -- them, find together what one reading of the longer text finds, and leave the same place. The
  -- gap is at most the limit of one scan.
  pub new_thinking_blocks-twice :
      (files files' : Text → Option Text) (c : ThinkingCursor) (content more : Text)
      → c.path ≢ []
      → files c.path ≡ some content
      → files' c.path ≡ some (content ++ more)
      → c.offset ≤ length content
      → length (content ++ more) - c.offset ≤ max_thinking_scan_bytes
      → let (c1, n1) = new_thinking_blocks files decode c in
        let (c2, n2) = new_thinking_blocks files' decode c1 in
        new_thinking_blocks files' decode c ≡ (c2, n1 + n2)
  new_thinking_blocks-twice files files' c content more p f f' within small =
      let o = c.offset in
      let x = drop o content in
      let w = whole_lines x in
      let (r, whole, later) = whole_lines-split x in
      let named = ne→== c.path [] p in
      let size : length x ≡ length w + length r = ap length whole ∙ length-append w r in
      let rest : length x ≡ length content - o = length-drop o content in
      let grown = length-append content more in
      let c1 : ThinkingCursor = record c { offset = o + length w } in
      let tail : drop (o + length w) (content ++ more) ≡ r ++ more =
        drop-add o (length w) (o + length w) (content ++ more) refl
        ∙ ap (drop (length w)) (drop-append o content more within)
        ∙ ap (λ t. drop (length w) (t ++ more)) whole
        ∙ ap (drop (length w)) (append_assoc w r more)
        ∙ drop_all w (r ++ more) in
      let first = new_thinking_blocks-read files c content named f within (omega (arith, grown)) in
      let second =
        new_thinking_blocks-read files' c1 (content ++ more) named f'
          (omega (arith, grown, size, rest)) (omega (arith, grown, size, rest)) in
      let once =
        new_thinking_blocks-read files' c (content ++ more) named f' (omega (arith, grown)) small in
      let all_lines : whole_lines (drop o (content ++ more)) ≡ w ++ whole_lines (r ++ more) =
        ap whole_lines (drop-append o content more within) ∙ later more in
      let v = whole_lines (r ++ more) in
      let place : o + length (w ++ v) ≡ o + length w + length v =
        omega (arith, length-append w v) in
      let count = count-append x v in
      rw (first, second, once, tail, all_lines) (λ i. (record c { offset = place i }, count i))
