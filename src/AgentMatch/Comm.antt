-- ===== src/AgentMatch/Comm.antt =====
-- `CommMatches` of apps/server-go/internal/agentmatch/agentmatch.go, on bytes.
use tail_claude_mux.Base.{
  index_text, Text, drop, length, ◌==◌, leb, ◌∷◌, [], some, none, Option, ◌||◌, ◌&&◌, false, true,
  Bool, ◌-◌, ◌+◌, suc, zero, ℕ, nat_eq, text_eq, option_eq,
}

-- The byte at an index, if there is one.
unfoldable pub byte_at : Text → ℕ → Option ℕ
byte_at s i = elim (drop i s) [ [] ↦ none | c ∷ r ↦ some c ]

unfoldable pub starts_segment : Text → ℕ → Bool
unfolding byte_at
starts_segment comm i = i == 0 || byte_at comm (i - 1) == some 47

unfoldable pub ends_word : Text → ℕ → Bool
unfolding byte_at
ends_word comm tail = tail == length comm || byte_at comm tail == some 45

unfoldable pub comm_loop : ℕ → Text → Text → ℕ → Bool
unfolding index_text starts_segment ends_word
comm_loop zero comm pat offset = false
comm_loop (suc fuel) comm pat offset = elim (leb (offset + length pat) (length comm)) [
  | false ↦ false
  | true ↦ elim (index_text (drop offset comm) pat) [
    | none ↦ false
    | some rel ↦
        elim (starts_segment comm (offset + rel) && ends_word comm (offset + rel + length pat)) [
          | true ↦ true
          | false ↦ comm_loop fuel comm pat (offset + rel + 1)
        ]
  ]
]

-- Every round takes the offset further, which stays within the text.
unfoldable pub comm_matches : Text → Text → Bool
unfolding comm_loop
comm_matches comm pat = comm_loop (length comm + 1) comm pat 0
