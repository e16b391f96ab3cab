-- ===== src/SessionOrder/State.antt =====
-- `Order` and its operations. The JSON encoding is left to Go's library: a document is the value
-- that is encoded. A write is taken to succeed; the code ignores its error.
use tail_claude_mux.Base.{
  text_less, option_eq, nat_eq, ℕ, suc, zero, if◌then◌else◌, ltb, leb, Bool, true, false, not, ◌||◌,
  Option, none, some, List, [], ◌∷◌, ◌++◌, Text, text_eq, ◌==◌, any, keep_if, length, is_empty,
  stable_sort, insert_sorted, ◌+◌, ◌-◌,
}

abbrev pub has_name : List Text → Text → Bool
has_name names n = any (λ m. m == n) names

-- What is encoded: the bare array, or the object with both lists.
pub data Persisted : Type 0 where
  bare : List Text → Persisted
  with_hidden : List Text → List Text → Persisted

-- `Order`. The keys of `hidden` are listed; `file` is what was last written to `persist_path`.
pub record Order : Type 0 where
  pub order : List Text
  pub hidden : List Text
  pub persist_path : Text
  pub file : Option Persisted

-- `o.hidden[n] = true`.
abbrev add_hidden : Text → List Text → List Text
add_hidden n hidden = if has_name hidden n then hidden else n ∷ hidden

unfoldable pub hide_all : List Text → List Text → List Text
hide_all [] hidden = hidden
hide_all (n ∷ names) hidden = hide_all names (add_hidden n hidden)

-- `Load`, on the document that the file decodes to, or none.
unfoldable pub load : Text → Option Persisted → Order
unfolding hide_all
load path file =
    let o : Order = record { order = []; hidden = []; persist_path = path; file = file } in
    if path == [] then record o { file = none } else elim file [
      | none ↦ o
      | some doc ↦ elim doc [
        | bare arr ↦ record o { order = arr }
        | with_hidden order hidden ↦ record o { order = order; hidden = hide_all hidden [] }
      ]
    ]

unfoldable pub document : Order → Persisted
unfolding stable_sort insert_sorted text_less
document o =
    if is_empty o.hidden then bare o.order else with_hidden o.order (stable_sort text_less o.hidden)

unfoldable pub save : Order → Order
unfolding document
save o = if o.persist_path == [] then o else record o { file = some (document o) }

unfoldable pub append_new : List Text → List Text → List Text
append_new [] order = order
append_new (n ∷ names) order =
    append_new names (if has_name order n then order else order ++ (n ∷ []))

unfoldable pub sync : List Text → Order → Order
unfolding append_new
sync names o = record o {
  order = append_new names (keep_if (has_name names) o.order);
  hidden = keep_if (has_name names) o.hidden;
}

-- `pos[n]`: the last index at which the order has the name.
unfoldable position : ℕ → List Text → Text → Option ℕ
position i [] n = none
position i (m ∷ order) n = elim (position (suc i) order n) [
  | some p ↦ some p
  | none ↦ if m == n then some i else none
]

-- Names without a position rank last: no index reaches the greatest `int`.
unfoldable pub rank_less : List Text → Text → Text → Bool
unfolding position
rank_less order a b = elim (position 0 order a) [
  | none ↦ false
  | some p ↦ elim (position 0 order b) [ none ↦ true | some q ↦ ltb p q ]
]

-- The names that are not hidden.
unfoldable pub visible : Order → List Text → List Text
visible o names = keep_if (λ n. not (has_name o.hidden n)) names

unfoldable pub apply : Order → List Text → List Text
unfolding visible stable_sort insert_sorted rank_less
apply o names = stable_sort (rank_less o.order) (visible o names)

unfoldable pub index_of : Text → List Text → Option ℕ
index_of n [] = none
index_of n (m ∷ order) =
    if m == n then some 0 else elim (index_of n order) [ none ↦ none | some i ↦ some (suc i) ]

unfoldable pub get_elem? : List Text → ℕ → Option Text
get_elem? [] i = none
get_elem? (x ∷ xs) zero = some x
get_elem? (x ∷ xs) (suc i) = get_elem? xs i

unfoldable pub set_elem : List Text → ℕ → Text → List Text
set_elem [] i y = []
set_elem (x ∷ xs) zero y = y ∷ xs
set_elem (x ∷ xs) (suc i) y = x ∷ set_elem xs i y

-- `order[i], order[j] = order[j], order[i]`; none is the panic of an index out of range.
unfoldable pub swap_elems : List Text → ℕ → ℕ → Option (List Text)
unfolding get_elem? set_elem
swap_elems xs i j = elim (get_elem? xs i) [
  | none ↦ none
  | some x ↦ elim (get_elem? xs j) [ none ↦ none | some y ↦ some (set_elem (set_elem xs i y) j x) ]
]

-- An `int` that is added to an index.
pub data Delta : Type 0 where
  up : ℕ → Delta
  down : ℕ → Delta

-- The index that the delta leads to, when it is in range.
unfoldable pub target : ℕ → Delta → ℕ → Option ℕ
target i (up d) len = if leb d i then (if ltb (i - d) len then some (i - d) else none) else none
target i (down d) len = if ltb (i + d) len then some (i + d) else none

-- `Reorder`; none is a panic.
unfoldable pub reorder : Text → Delta → Order → Option Order
unfolding index_of target swap_elems save
reorder name delta o = elim (index_of name o.order) [
  | none ↦ some o
  | some i ↦ elim (target i delta (length o.order)) [
    | none ↦ some o
    | some j ↦ elim (swap_elems o.order i j) [
      | none ↦ none
      | some order ↦ some (save (record o { order = order }))
    ]
  ]
]

unfoldable pub hide : Text → Order → Order
unfolding save
hide name o =
    if not (has_name o.order name) || has_name o.hidden name
    then o
    else save (record o { hidden = name ∷ o.hidden })

unfoldable pub show : Text → Order → Order
unfolding save
show name o =
    if has_name o.hidden name
    then save (record o {
      hidden = keep_if (λ n. not (n == name)) o.hidden;
      order = if has_name o.order name then o.order else o.order ++ (name ∷ []);
    })
    else o

unfoldable show_all : Order → Order
unfolding save
show_all o = if is_empty o.hidden then o else save (record o { hidden = [] })
