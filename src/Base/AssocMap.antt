-- ===== src/Base/AssocMap.antt =====
-- Go maps as association lists: the list's order is the order in which `range` visits the keys,
-- and what is proved holds of every order. Also maps that no loop ranges over, as functions.
use mathlib.Core.Path.{◌≡◌, refl}
use mathlib.Core.List.{List, [], ◌∷◌, map}
use mathlib.Core.Option.{Option, none, some}
use native.Mathlib.Omega.{arith}
use tail_claude_mux.Base.Tests.{Equality, ◌==◌, if◌then◌else◌, is_some}
use tail_claude_mux.Base.Lists.{any}

abbrev pub Map : Type 0 → Type 0 → Type 0
Map K V = List (K × V)

module _ {K V : Type 0} ⦃e : Equality K⦄ where
  unfoldable pub find : K → Map K V → Option V
  find k [] = none
  find k ((j, v) ∷ m) = if j == k then some v else find k m

  -- `m[k] = v`: the entry keeps its place, a new one goes last.
  unfoldable pub put : K → V → Map K V → Map K V
  put k v [] = (k, v) ∷ []
  put k v ((j, w) ∷ m) = if j == k then (k, v) ∷ m else (j, w) ∷ put k v m

  -- `delete(m, k)`.
  unfoldable pub remove : K → Map K V → Map K V
  remove k [] = []
  remove k ((j, w) ∷ m) = let rest = remove k m in if j == k then rest else (j, w) ∷ rest

  abbrev pub keys : Map K V → List K
  keys = map (λ p. p.0)

  pub find-put :
      (k j : K) (v : V) (m : Map K V) → find j (put k v m) ≡ (if k == j then some v else find j m)
  unfolding find put
  find-put k j v [] = refl
  find-put k j v ((i, w) ∷ m) =
      ground (arith, e.same_iff k j, e.same_iff i k, e.same_iff i j, find-put k j v m)

  pub find-remove :
      (k j : K) (m : Map K V) → find j (remove k m) ≡ (if k == j then none else find j m)
  unfolding find remove
  find-remove k j [] = ground arith
  find-remove k j ((i, w) ∷ m) =
      ground (arith, e.same_iff k j, e.same_iff i k, e.same_iff i j, find-remove k j m)

  -- A key with an entry is among the keys that a loop visits.
  pub find_visited : (k : K) (m : Map K V) → is_some (find k m) ≡ any (λ j. j == k) (keys m)
  unfolding find
  find_visited k [] = refl
  find_visited k ((j, w) ∷ m) = ground (arith, find_visited k m)

module _ {K V : Type 0} ⦃e : Equality K⦄ where
  -- A write to a map that is kept as a function.
  abbrev pub update : (K → V) → K → V → K → V
  update f k v j = if k == j then v else f j
