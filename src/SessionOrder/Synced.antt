-- ===== src/SessionOrder/Synced.antt =====
-- `Sync` of apps/server-go/internal/sessionorder/sessionorder.go.
use tail_claude_mux.SessionOrder.State.{sync, append_new, Order, has_name}
use tail_claude_mux.Base.{
  text_eq, Text, append_assoc, append-nil, any-append, keep_if, option_eq, ==→eq, nat_eq, ◌==◌,
  Bool-cases, arith, ◌++◌, ◌∷◌, [], List, ◌||◌, ◌&&◌, false, Bool, inr, inl, ◌∙◌, ap, sym, refl,
  ◌≡◌,
}

pub keep_if-has_name :
    (p : Text → Bool) (order : List Text) (n : Text)
    → has_name (keep_if p order) n ≡ (has_name order n && p n)
keep_if-has_name p [] n = refl
keep_if-has_name p (m ∷ order) n = elim (Bool-cases (m == n)) [
  | inl h ↦ ground (arith, ap p (==→eq m n h), keep_if-has_name p order n)
  | inr h ↦ ground (arith, h, keep_if-has_name p order n)
]

append_new-has_name :
    (names order : List Text) (n : Text)
    → has_name (append_new names order) n ≡ (has_name order n || has_name names n)
unfolding append_new
append_new-has_name [] order n = ground arith
append_new-has_name (m ∷ names) order n = elim (Bool-cases (has_name order m)) [
  | inl h ↦ elim (Bool-cases (m == n)) [
    | inl e ↦
        ground (arith, h, ap (has_name order) (==→eq m n e), append_new-has_name names order n)
    | inr e ↦ ground (arith, h, e, append_new-has_name names order n)
  ]
  | inr h ↦ ground (
    arith,
    h,
    append_new-has_name names (order ++ (m ∷ [])) n,
    any-append (λ x. x == n) order (m ∷ []),
  )
]

-- After a sync the order holds exactly the live names, and the hidden names are those that were
-- hidden and are live.
sync-members :
    (names : List Text) (o : Order) (n : Text)
    → (has_name (sync names o).order n ≡ has_name names n)
      × (has_name (sync names o).hidden n ≡ (has_name o.hidden n && has_name names n))
unfolding sync
sync-members names o n = (
  ground (
    arith,
    append_new-has_name names (keep_if (has_name names) o.order) n,
    keep_if-has_name (has_name names) o.order n,
  ),
  keep_if-has_name (has_name names) o.hidden n,
)

abbrev pub NoRepeats : List Text → Type 0
NoRepeats [] = Unit
NoRepeats (x ∷ xs) = (has_name xs x ≡ false) × NoRepeats xs

keep_if-NoRepeats : (p : Text → Bool) (xs : List Text) → NoRepeats xs → NoRepeats (keep_if p xs)
keep_if-NoRepeats p [] h = tt
keep_if-NoRepeats p (x ∷ xs) h = elim (Bool-cases (p x)) [
  | inl e ↦ rw e (ground (arith, keep_if-has_name p xs x, h.0), keep_if-NoRepeats p xs h.1)
  | inr e ↦ rw e (keep_if-NoRepeats p xs h.1)
]

append-NoRepeats :
    (xs : List Text) (n : Text) → NoRepeats xs → has_name xs n ≡ false → NoRepeats (xs ++ (n ∷ []))
append-NoRepeats [] n h g = (refl, tt)
append-NoRepeats (x ∷ xs) n h g = (
  ground (
    arith,
    h.0,
    g,
    any-append (λ y. y == x) xs (n ∷ []),
    text_eq.same_iff n x,
    text_eq.same_iff x n,
  ),
  append-NoRepeats xs n h.1 (ground arith),
)

append_new-NoRepeats :
    (names order : List Text) → NoRepeats order → NoRepeats (append_new names order)
unfolding append_new
append_new-NoRepeats [] order h = h
append_new-NoRepeats (n ∷ names) order h = elim (Bool-cases (has_name order n)) [
  | inl e ↦ rw e (append_new-NoRepeats names order h)
  | inr e ↦ rw e (append_new-NoRepeats names (order ++ (n ∷ [])) (append-NoRepeats order n h e))
]

append_new-prefix :
    (names order : List Text) → (new : List Text) × (append_new names order ≡ order ++ new)
unfolding append_new
append_new-prefix [] order = ([], sym (append-nil order))
append_new-prefix (n ∷ names) order = elim (Bool-cases (has_name order n)) [
  | inl e ↦ rw e (append_new-prefix names order)
  | inr e ↦
      let (new, p) = append_new-prefix names (order ++ (n ∷ [])) in
      rw e (n ∷ new, p ∙ append_assoc order (n ∷ []) new)
]

-- A sync of an order without repeated names leaves one without, in which the live names that the
-- order had come first and in the order that they had.
pub sync-keeps_order :
    (names : List Text) (o : Order)
    → NoRepeats o.order
    → NoRepeats (sync names o).order
      × ((new : List Text) × ((sync names o).order ≡ keep_if (has_name names) o.order ++ new))
unfolding sync
sync-keeps_order names o h = (
  append_new-NoRepeats names _ (keep_if-NoRepeats (has_name names) o.order h),
  append_new-prefix names (keep_if (has_name names) o.order),
)
