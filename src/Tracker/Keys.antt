-- ===== src/Tracker/Keys.antt =====
-- The constants and keys of apps/server-go/internal/tracker/tracker.go.
use tail_claude_mux.Base.{
  ℕ, ◌*◌, ◌≡◌, Bool, true, [], ◌∷◌, ◌++◌, Text, codes, ◌!=◌, contains_text, if◌then◌else◌,
  contains_text-append, append-cancel, text_eq, text_beq,
}

abbrev pub max_event_timestamps : ℕ
max_event_timestamps = 30

abbrev pub recent_end_suppress_ms : ℕ
recent_end_suppress_ms = 5000

abbrev default_miss_threshold : ℕ
default_miss_threshold = 2

abbrev pub alive_prune_ceiling_ms : ℕ
alive_prune_ceiling_ms = 30 * 60 * 1000

-- The byte "\x00", which separates the parts of a key.
abbrev nul : ℕ
nul = 0

-- `InstanceKey`.
unfoldable pub instance_key : Text → Text → Text
unfolding text_beq
instance_key agent thread_id = if thread_id != [] then agent ++ (codes ":" ++ thread_id) else agent

unfoldable pub synthetic_key : Text → Text → Text
synthetic_key agent pane_id = agent ++ (codes ":pane:" ++ pane_id)

unfoldable pub is_synthetic_key : Text → Bool
unfolding contains_text
is_synthetic_key k = contains_text k (codes ":pane:")

unfoldable pub unseen_key : Text → Text → Text
unseen_key session key = session ++ (nul ∷ key)

unfoldable pub end_suppress_key : Text → Text → Text → Text
end_suppress_key session agent pane_id = session ++ (nul ∷ (agent ++ (nul ∷ pane_id)))

-- The key minted for a pane is recognised as synthetic, whatever the agent and the pane.
synthetic_key-is_synthetic :
    (agent pane_id : Text) → is_synthetic_key (synthetic_key agent pane_id) ≡ true
unfolding is_synthetic_key synthetic_key
synthetic_key-is_synthetic agent pane_id = contains_text-append agent (codes ":pane:") pane_id

pub unseen_key-injective : (s k j : Text) → unseen_key s k ≡ unseen_key s j → k ≡ j
unfolding unseen_key
unseen_key-injective s k j h = let e = append-cancel s (nul ∷ k) (nul ∷ j) h in cc
