-- ===== src/Base/Strings.antt =====
-- Functions of Go's `strings`, on lists of bytes; case and white space are those of ASCII.
use Prim.Native.Nat.{ℕ, zero, suc, ◌+◌, ◌-◌}
use Prim.Native.String.{String}
use mathlib.Core.Bool.{Bool, true, false, ◌&&◌, ◌||◌}
use mathlib.Core.List.{List, [], ◌∷◌, ◌++◌, map}
use mathlib.Core.Option.{Option, none, some}
use tail_claude_mux.Base.Tests.{◌==◌, nat_eq, leb, if◌then◌else◌}
use tail_claude_mux.Base.Lists.{is_empty, drop, length}
use tail_claude_mux.Base.Texts.{Text, text_eq, codes, has_prefix}

-- A set of words.
abbrev pub is_among : List String → Text → Bool
is_among [] s = false
is_among (w ∷ ws) s = s == codes w || is_among ws s

-- `strings.ToLower`.
abbrev pub to_lower : Text → Text
to_lower s = map (λ c. if leb 65 c && leb c 90 then c + 32 else c) s

abbrev pub is_space : ℕ → Bool
is_space c = c == 32 || (leb 9 c && leb c 13)

abbrev pub trim_left : (ℕ → Bool) → Text → Text
trim_left cut [] = []
trim_left cut (c ∷ s) = let rest = trim_left cut s in if cut c then rest else c ∷ s

abbrev pub trim_right : (ℕ → Bool) → Text → Text
trim_right cut [] = []
trim_right cut (c ∷ s) =
    let rest = trim_right cut s in if is_empty rest && cut c then [] else c ∷ rest

-- `strings.Trim`, and `strings.TrimSpace` for white space.
abbrev pub trim : (ℕ → Bool) → Text → Text
trim cut s = trim_right cut (trim_left cut s)

-- `strings.FieldsFunc`, with the field that is being read.
unfoldable pub fields_func : (ℕ → Bool) → Text → Text → List Text
fields_func sep field [] = if field == [] then [] else field ∷ []
fields_func sep field (c ∷ s) = elim (sep c) [
  | true ↦ (let rest = fields_func sep [] s in if field == [] then rest else field ∷ rest)
  | false ↦ fields_func sep (field ++ (c ∷ [])) s
]

abbrev pub has_suffix : Text → Text → Bool
has_suffix s p = leb (length p) (length s) && drop (length s - length p) s == p

-- `strings.Index`.
unfoldable pub index_text : Text → Text → Option ℕ
unfolding has_prefix
index_text [] p = if has_prefix [] p then some 0 else none
index_text (c ∷ s) p =
    let rest = index_text s p in
    if has_prefix (c ∷ s) p then some 0 else elim rest [ none ↦ none | some i ↦ some (suc i) ]

-- `strings.CutPrefix`: what is left, if the text starts so.
unfoldable pub cut_prefix : Text → Text → Option Text
unfolding has_prefix
cut_prefix s p = if has_prefix s p then some (drop (length p) s) else none

-- `strings.Split` at a separator that is not empty, with the piece that is being read; a separator
-- that stands at the front is skipped over by its length.
unfoldable pub split_from : Text → ℕ → Text → Text → List Text
unfolding has_prefix
split_from sep (suc skip) piece [] = piece ∷ []
split_from sep zero piece [] = piece ∷ []
split_from sep (suc skip) piece (c ∷ s) = split_from sep skip piece s
split_from sep zero piece (c ∷ s) = elim (has_prefix (c ∷ s) sep) [
  | true ↦ piece ∷ split_from sep (length sep - 1) [] s
  | false ↦ split_from sep zero (piece ++ (c ∷ [])) s
]

unfoldable pub split : Text → Text → List Text
unfolding split_from
split s sep = split_from sep 0 [] s

-- `strings.Fields`.
unfoldable pub fields : Text → List Text
unfolding fields_func
fields s = fields_func is_space [] s

-- `filepath.Base` and `path.Base`.
unfoldable pub base_of : List Text → Text
base_of [] = []
base_of (s ∷ ss) = let rest = base_of ss in if is_empty ss then s else rest

unfoldable pub base_name : Text → Text
unfolding base_of split
base_name s =
    let trimmed = trim_right (λ c. c == 47) s in
    if s == []
    then codes "."
    else if trimmed == []
    then codes "/"
    else base_of (split trimmed (codes "/"))
