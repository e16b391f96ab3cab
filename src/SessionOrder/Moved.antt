-- ===== src/SessionOrder/Moved.antt =====
-- `Reorder` of apps/server-go/internal/sessionorder/sessionorder.go.
use tail_claude_mux.SessionOrder.State.{
  reorder, target, Delta, swap_elems, set_elem, get_elem?, index_of, has_name, save, Order,
}
use mathlib.Core.List.{append_assoc}
use tail_claude_mux.Base.{
  text_eq, Text, length, option_eq, nat_eq, ◌==◌, arith, ◌∷◌, ◌++◌, [], List, some, none, ◌∙◌, ap,
  refl, ◌≡◌, subst, sym, ◌+◌, suc, zero, ℕ, false, ==_refl,
}

-- The order before and after two names change places.
abbrev pub around : List Text → Text → List Text → Text → List Text → List Text
around before x mid y after = before ++ (x ∷ (mid ++ (y ∷ after)))

length-split :
    (xs : List Text) (x : Text) (ys : List Text)
    → length (xs ++ (x ∷ ys)) ≡ suc (length xs + length ys)
length-split [] x ys = omega arith
length-split (z ∷ xs) x ys = omega (arith, length-split xs x ys)

index_of-split :
    (xs : List Text) (x : Text) (ys : List Text)
    → has_name xs x ≡ false
    → index_of x (xs ++ (x ∷ ys)) ≡ some (length xs)
unfolding index_of
index_of-split [] x ys h = rw (==_refl x) refl
index_of-split (z ∷ xs) x ys h =
    let apart : (z == x) ≡ false = ground arith in
    rw (apart, index_of-split xs x ys (ground arith)) refl

-- At its place in the order a name is found and replaced.
get_elem?-split :
    (xs : List Text) (x : Text) (ys : List Text) (i : ℕ)
    → i ≡ length xs
    → get_elem? (xs ++ (x ∷ ys)) i ≡ some x
unfolding get_elem?
get_elem?-split [] x ys zero h = refl
get_elem?-split [] x ys (suc i) h = absurd (omega arith)
get_elem?-split (z ∷ xs) x ys zero h = absurd (omega arith)
get_elem?-split (z ∷ xs) x ys (suc i) h = get_elem?-split xs x ys i (omega arith)

set_elem-split :
    (xs : List Text) (x : Text) (ys : List Text) (i : ℕ) (y : Text)
    → i ≡ length xs
    → set_elem (xs ++ (x ∷ ys)) i y ≡ xs ++ (y ∷ ys)
unfolding set_elem
set_elem-split [] x ys zero y h = refl
set_elem-split [] x ys (suc i) y h = absurd (omega arith)
set_elem-split (z ∷ xs) x ys zero y h = absurd (omega arith)
set_elem-split (z ∷ xs) x ys (suc i) y h =
    ap (λ l. z ∷ l) (set_elem-split xs x ys i y (omega arith))

module _ (before : List Text) (x : Text) (mid : List Text) (y : Text) (after : List Text) where
  joined : (before ++ (x ∷ mid)) ++ (y ∷ after) ≡ around before x mid y after
  joined = append_assoc before (x ∷ mid) (y ∷ after)

  get_elem?-around :
      (j : ℕ)
      → j ≡ suc (length before + length mid)
      → get_elem? (around before x mid y after) j ≡ some y
  get_elem?-around j h =
      subst (λ l. get_elem? l j ≡ some y) joined
        (get_elem?-split (before ++ (x ∷ mid)) y after j (h ∙ sym (length-split before x mid)))

  set_elem-around :
      (j : ℕ) (z : Text)
      → j ≡ suc (length before + length mid)
      → set_elem (around before x mid y after) j z ≡ around before x mid z after
  set_elem-around j z h =
      ap (λ l. set_elem l j z) (sym joined)
      ∙ set_elem-split (before ++ (x ∷ mid)) y after j z (h ∙ sym (length-split before x mid))
      ∙ append_assoc before (x ∷ mid) (z ∷ after)

module _ (before : List Text) (x : Text) (mid : List Text) (y : Text) (after : List Text) (i j : ℕ)
    (first : i ≡ length before) (second : j ≡ suc (length before + length mid)) where
  swap_elems-down :
      swap_elems (around before x mid y after) i j ≡ some (around before y mid x after)
  unfolding swap_elems
  swap_elems-down =
      rw
        (
          swap_elems,
          get_elem?-split before x (mid ++ (y ∷ after)) i first,
          get_elem?-around before x mid y after j second,
          set_elem-split before x (mid ++ (y ∷ after)) i y first,
          set_elem-around before y mid y after j x second,
        )
        refl

  swap_elems-up : swap_elems (around before x mid y after) j i ≡ some (around before y mid x after)
  unfolding swap_elems
  swap_elems-up =
      rw
        (
          swap_elems,
          get_elem?-around before x mid y after j second,
          get_elem?-split before x (mid ++ (y ∷ after)) i first,
          set_elem-around before x mid y after j x second,
          set_elem-split before x (mid ++ (x ∷ after)) i y first,
        )
        refl

reorder-swapped :
    (name : Text) (delta : Delta) (o : Order) (i j : ℕ) (order : List Text)
    → index_of name o.order ≡ some i
    → target i delta (length o.order) ≡ some j
    → swap_elems o.order i j ≡ some order
    → reorder name delta o ≡ some (save (record o { order = order }))
unfolding reorder
reorder-swapped name delta o i j order p q r = rw (reorder, p, q, r) refl

reorder-stays :
    (name : Text) (delta : Delta) (o : Order) (i : ℕ)
    → index_of name o.order ≡ some i
    → target i delta (length o.order) ≡ none
    → reorder name delta o ≡ some o
unfolding reorder
reorder-stays name delta o i p q = rw (reorder, p, q) refl

-- In an order in which a name stands, for the first time, somewhere before another one does: down by
-- their distance, the first one changes places with the other, and up by it the second one does,
-- with the same order in the end, which is saved; and a move of the first one past the top, or of
-- the second one past the bottom, by however much, changes nothing and saves nothing. No index is
-- out of range.
pub reorder-exchanges :
    (before : List Text) (x : Text) (mid : List Text) (y : Text) (after : List Text) (more : ℕ)
    (o : Order)
    → o.order ≡ before ++ (x ∷ (mid ++ (y ∷ after)))
    → has_name before x ≡ false
    → has_name (before ++ (x ∷ mid)) y ≡ false
    → let moved = save (record o { order = before ++ (y ∷ (mid ++ (x ∷ after))) }) in
      (reorder x (Delta.down (1 + length mid)) o ≡ some moved)
      × (reorder y (Delta.up (1 + length mid)) o ≡ some moved)
      × (reorder x (Delta.up (1 + length before + more)) o ≡ some o)
      × (reorder y (Delta.down (1 + length after + more)) o ≡ some o)
unfolding target
reorder-exchanges before x mid y after more o placed fresh_x fresh_y =
    let i = length before in
    let j = suc (i + length mid) in
    let len : length o.order ≡ suc (suc (i + length mid + length after)) =
      ap length placed
      ∙ omega (arith, length-split before x (mid ++ (y ∷ after)), length-split mid y after) in
    let at_x : index_of x o.order ≡ some i =
      ap (index_of x) placed ∙ index_of-split before x (mid ++ (y ∷ after)) fresh_x in
    let at_y : index_of y o.order ≡ some j =
      ap (index_of y) (placed ∙ sym (joined before x mid y after))
      ∙ index_of-split (before ++ (x ∷ mid)) y after fresh_y
      ∙ ap some (length-split before x mid) in
    (
      reorder-swapped x (Delta.down (1 + length mid)) o i j _ at_x (ground arith)
          (ap (λ l. swap_elems l i j) placed ∙ swap_elems-down before x mid y after i j refl refl),
      reorder-swapped y (Delta.up (1 + length mid)) o j i _ at_y (ground arith)
          (ap (λ l. swap_elems l j i) placed ∙ swap_elems-up before x mid y after i j refl refl),
      reorder-stays x (Delta.up (1 + i + more)) o i at_x (ground arith),
      reorder-stays y (Delta.down (1 + length after + more)) o j at_y (ground arith),
    )
