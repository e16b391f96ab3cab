-- ===== src/SessionOrder/Saved.antt =====
-- `save` and `Load` of apps/server-go/internal/sessionorder/sessionorder.go.
use tail_claude_mux.SessionOrder.State.{save, document, load, hide_all, Order, has_name}
use tail_claude_mux.Base.{
  text_less, true, sym, text_eq, Text, stable_sort, is_empty, option_eq, ne→==, ==→eq, nat_eq, ◌==◌,
  Bool-cases, arith, ◌∷◌, [], List, some, ◌||◌, false, inr, inl, ◌≢◌, ◌∙◌, ap, refl, ◌≡◌,
}
use tail_claude_mux.SessionOrder.Shown.{stable_sort-has_name}

hide_all-has_name :
    (names hidden : List Text) (n : Text)
    → has_name (hide_all names hidden) n ≡ (has_name hidden n || has_name names n)
unfolding hide_all
hide_all-has_name [] hidden n = ground arith
hide_all-has_name (m ∷ names) hidden n = elim (Bool-cases (has_name hidden m)) [
  | inl h ↦ elim (Bool-cases (m == n)) [
    | inl e ↦
        ground (arith, h, ap (has_name hidden) (==→eq m n e), hide_all-has_name names hidden n)
    | inr e ↦ ground (arith, h, e, hide_all-has_name names hidden n)
  ]
  | inr h ↦ ground (arith, h, hide_all-has_name names (m ∷ hidden) n)
]

is_empty-has_name :
    (names : List Text) (n : Text) → is_empty names ≡ true → has_name names n ≡ false
is_empty-has_name [] n h = refl
is_empty-has_name (m ∷ names) n h = ground arith

loaded-document :
    (path : Text) (o : Order) (n : Text)
    → (path == []) ≡ false
    → ((load path (some (document o))).order ≡ o.order)
      × (has_name (load path (some (document o))).hidden n ≡ has_name o.hidden n)
unfolding load document
loaded-document path o n h = elim (Bool-cases (is_empty o.hidden)) [
  | inl e ↦ rw (load, document, h, e) (refl, sym (is_empty-has_name o.hidden n e))
  | inr e ↦
      rw (load, document, h, e)
        (
          refl,
          hide_all-has_name (stable_sort text_less o.hidden) [] n
              ∙ stable_sort-has_name text_less o.hidden n,
        )
]

-- What is saved and loaded again has the order as it was, and the same names hidden.
pub save-load :
    (o : Order) (n : Text)
    → o.persist_path ≢ []
    → ((load o.persist_path (save o).file).order ≡ o.order)
      × (has_name (load o.persist_path (save o).file).hidden n ≡ has_name o.hidden n)
unfolding save
save-load o n h =
    let e = ne→== o.persist_path [] h in rw (save, e) (loaded-document o.persist_path o n e)
