-- ===== src/Server/Sessions.antt =====
-- From a directory or a process to its session, in apps/server-go/internal/server/watch.go.
-- The map from directories to sessions is what `dirSessionMapLocked` has cached.
use tail_claude_mux.ProcWalk.Walks.{resolve_session_by_pid}
use tail_claude_mux.ProcWalk.Snapshot.{Snapshot}
use tail_claude_mux.Base.{
  split, cut_prefix, index_text, trim, is_space, has_prefix, text_eq, codes, Text, take, drop,
  length, find, Map, option_eq, nat_eq, ◌==◌, ◌!=◌, if◌then◌else◌, leb, ltb, ◌++◌, ◌∷◌, [], List,
  some, none, Option, ◌||◌, ◌&&◌, true, Bool, ◌+◌, ℕ,
}

-- The loop of `resolveSessionLocked`: the best name and the length of its directory, and whether
-- there is one, for the code's length -1.
pub record BestDir : Type 0 where
  pub name : Text
  pub len : Option ℕ

abbrev pub longer_than : ℕ → Option ℕ → Bool
longer_than n none = true
longer_than n (some best) = ltb best n

unfoldable pub related_dir : Text → Text → Bool
unfolding has_prefix
related_dir project_dir dir =
    has_prefix project_dir (dir ++ codes "/") || has_prefix dir (project_dir ++ codes "/")

unfoldable pub best_dir : Text → Map Text Text → BestDir → BestDir
unfolding related_dir
best_dir project_dir [] best = best
best_dir project_dir ((dir, name) ∷ m) best = best_dir project_dir m (
    if related_dir project_dir dir && longer_than (length dir) best.len
    then record { name = name; len = some (length dir) }
    else best)

-- The fallback, with the path encoding of agent-ouija's `EncodeProjectPath`.
unfoldable pub encoded_session : (Text → Text) → Text → Map Text Text → Text
encoded_session encode encoded [] = []
encoded_session encode encoded ((dir, name) ∷ m) =
    let rest = encoded_session encode encoded m in if encode dir == encoded then name else rest

-- `resolveSessionLocked`, "" for none.
unfoldable pub resolve_session : (Text → Text) → Text → Map Text Text → Text
unfolding best_dir encoded_session cut_prefix
resolve_session encode project_dir m = elim (find project_dir m) [
  | some name ↦ name
  | none ↦
      let best = best_dir project_dir m (record { name = []; len = none }) in
      if best.name != [] then best.name else elim (cut_prefix project_dir (codes "__encoded__:")) [
        | none ↦ []
        | some encoded ↦ encoded_session encode encoded m
      ]
]

-- `resolveSessionByPidLocked`, on a process table and the panes' index, cached and fresh.
unfoldable pub resolve_session_by_pid_locked :
    ℕ → Snapshot → (ℕ → Option Text) → (ℕ → Option Text) → Option Text
unfolding resolve_session_by_pid
resolve_session_by_pid_locked pid table cached fresh =
    if leb pid 1
    then some []
    else elim (resolve_session_by_pid (length table + 1) pid cached table) [
      | none ↦ none
      | some session ↦
          if session == []
          then resolve_session_by_pid (length table + 1) pid fresh table
          else some session
    ]

-- `parseFocusContext`, "" where it does not parse.
abbrev three_parts : List Text → Option Text
three_parts (a ∷ b ∷ c ∷ []) = if b != [] && c != [] then some b else none
three_parts (a ∷ b ∷ c ∷ d ∷ rest) = none
three_parts (a ∷ b ∷ []) = none
three_parts (a ∷ []) = none
three_parts [] = none

unfoldable pub parse_focus_context : Text → Text
unfolding split index_text
parse_focus_context body =
    let trimmed = trim is_space body in
    if trimmed == [] then [] else elim (three_parts (split trimmed (codes "|"))) [
      | some session ↦ session
      | none ↦ elim (index_text trimmed (codes ":")) [
        | none ↦ []
        | some i ↦
            if ltb 0 i && take i trimmed != [] && drop (i + 1) trimmed != []
            then take i trimmed
            else []
      ]
    ]
