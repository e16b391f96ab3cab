-- ===== src/SessionOrder/Shown.antt =====
-- `Apply`, `Hide`, `Show` and `save` of apps/server-go/internal/sessionorder/sessionorder.go.
use tail_claude_mux.SessionOrder.State.{
  show, hide, apply, visible, rank_less, save, Order, has_name,
}
use tail_claude_mux.Base.{
  sym, text_eq, Text, stable_sort-IsSorted, stable_sort-perm, IsSorted, stable_sort, insert_sorted,
  option_eq, ==→eq, nat_eq, ◌==◌, Bool-cases, arith, ◌∷◌, [], List, ◌||◌, ◌&&◌, not, false, true,
  Bool, inr, inl, ◌∙◌, ap, refl, ◌≡◌,
}
use mathlib.Core.List.{Perm}
use tail_claude_mux.SessionOrder.Synced.{keep_if-has_name}

insert_sorted-has_name :
    (less : Text → Text → Bool) (x : Text) (ys : List Text) (n : Text)
    → has_name (insert_sorted less x ys) n ≡ (x == n || has_name ys n)
unfolding insert_sorted
insert_sorted-has_name less x [] n = refl
insert_sorted-has_name less x (y ∷ ys) n = ground (arith, insert_sorted-has_name less x ys n)

pub stable_sort-has_name :
    (less : Text → Text → Bool) (xs : List Text) (n : Text)
    → has_name (stable_sort less xs) n ≡ has_name xs n
unfolding stable_sort
stable_sort-has_name less [] n = refl
stable_sort-has_name less (x ∷ xs) n =
    ground
      (arith, insert_sorted-has_name less x (stable_sort less xs) n, stable_sort-has_name less xs n)

rank_less-asym :
    (order : List Text) (a b : Text) → rank_less order a b ≡ true → rank_less order b a ≡ false
unfolding rank_less
rank_less-asym order a b h = ground arith

-- What is shown is the names that are not hidden, each as often as it was given, and no name
-- ranks before the one that precedes it.
apply-ranked :
    (o : Order) (names : List Text)
    → IsSorted (rank_less o.order) (apply o names) × Perm (apply o names) (visible o names)
unfolding apply
apply-ranked o names = (
  stable_sort-IsSorted (rank_less o.order) (rank_less-asym o.order) (visible o names),
  stable_sort-perm (rank_less o.order) (visible o names),
)

apply-has_name :
    (o : Order) (names : List Text) (n : Text)
    → has_name (apply o names) n ≡ (has_name names n && not (has_name o.hidden n))
unfolding apply visible
apply-has_name o names n =
    stable_sort-has_name (rank_less o.order) (visible o names) n
    ∙ keep_if-has_name (λ m. not (has_name o.hidden m)) names n

save-hidden : (o : Order) → (save o).hidden ≡ o.hidden
unfolding save
save-hidden o = ground arith

hide-hidden :
    (name : Text) (o : Order) (n : Text)
    → has_name o.order name ≡ true
    → has_name (hide name o).hidden n ≡ (name == n || has_name o.hidden n)
unfolding hide
hide-hidden name o n h = elim (Bool-cases (has_name o.hidden name)) [
  | inl e ↦ elim (Bool-cases (name == n)) [
    | inl q ↦ rw (hide, h, e) (ground (arith, q, e, ap (has_name o.hidden) (==→eq name n q)))
    | inr q ↦ rw (hide, h, e, q) refl
  ]
  | inr e ↦
      rw (hide, h, e) (ap (λ x. has_name x n) (save-hidden (record o { hidden = name ∷ o.hidden })))
]

show-hidden :
    (name : Text) (o : Order) (n : Text)
    → has_name (show name o).hidden n ≡ (has_name o.hidden n && not (n == name))
unfolding show
show-hidden name o n = elim (Bool-cases (has_name o.hidden name)) [
  | inl e ↦
      rw (show, e)
        (ap (λ x. has_name x n) (save-hidden _)
          ∙ keep_if-has_name (λ m. not (m == name)) o.hidden n)
  | inr e ↦ elim (Bool-cases (n == name)) [
    | inl q ↦ rw (show, e, q) (ground (arith, e, ap (has_name o.hidden) (==→eq n name q)))
    | inr q ↦ rw (show, e, q) (ground arith)
  ]
]

shown_again :
    (name : Text) (o : Order) (n : Text)
    → has_name o.order name ≡ true
    → has_name o.hidden name ≡ false
    → has_name (show name (hide name o)).hidden n ≡ has_name o.hidden n
shown_again name o n h g = elim (Bool-cases (name == n)) [
  | inl q ↦
      let e = ==→eq name n q in
      show-hidden name (hide name o) n
      ∙ ground (arith, text_eq.same_iff n name, e, g, ap (has_name o.hidden) e)
  | inr q ↦
      show-hidden name (hide name o) n
      ∙ ground (arith, hide-hidden name o n h, q, text_eq.same_iff n name, text_eq.same_iff name n)
]

-- Hiding a session of the order takes it off what is shown and nothing else, and showing it again
-- brings every session back that was shown before.
pub hide-show :
    (name : Text) (o : Order) (names : List Text) (n : Text)
    → has_name o.order name ≡ true
    → has_name o.hidden name ≡ false
    → (has_name (apply (hide name o) names) n ≡ (has_name (apply o names) n && not (name == n)))
      × (has_name (apply (show name (hide name o)) names) n ≡ has_name (apply o names) n)
hide-show name o names n h g = (
  ground (
    arith,
    apply-has_name (hide name o) names n,
    apply-has_name o names n,
    hide-hidden name o n h,
  ),
  apply-has_name (show name (hide name o)) names n
      ∙ ap (λ b. has_name names n && not b) (shown_again name o n h g)
      ∙ sym (apply-has_name o names n),
)
