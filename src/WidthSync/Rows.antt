-- ===== src/WidthSync/Rows.antt =====
-- The rows of a card of apps/server-go/internal/widthsync/widthsync.go. Lengths are in bytes.
use tail_claude_mux.Wire.{SessionData, AgentEvent, is_exited, is_alive, is_terminal_status}
use tail_claude_mux.Base.{
  text_eq, Text, length, option_eq, nat_eq, ◌!=◌, ◌==◌, if◌then◌else◌, ltb, ◌++◌, ◌∷◌, [], List,
  ◌||◌, ◌&&◌, not, false, Bool, max, min, ◌/◌, ◌*◌, ◌+◌, suc, ℕ, itoa,
}

abbrev pub absolute_min : ℕ
absolute_min = 15

abbrev default_width : ℕ
default_width = 37

abbrev padding_left : ℕ
padding_left = 1

abbrev padding_right : ℕ
padding_right = 1

abbrev status_icon_cols : ℕ
status_icon_cols = 2

abbrev pub focused_border : ℕ
focused_border = 2

abbrev name_trunc_limit : ℕ
name_trunc_limit = 18

abbrev branch_trunc_limit : ℕ
branch_trunc_limit = 15

abbrev branch_icon_cols : ℕ
branch_icon_cols = 2

abbrev dir_mismatch_cols : ℕ
dir_mismatch_cols = 2

abbrev agent_row_fixed : ℕ
agent_row_fixed = 1 + 2 + 2 + 1

abbrev thread_id_cols : ℕ
thread_id_cols = 6

-- `strings.Split(s, "/")`, with the segment that is being read.
unfoldable pub split_slash : Text → Text → List Text
split_slash seg [] = seg ∷ []
split_slash seg (c ∷ s) =
    if c == 47 then seg ∷ split_slash [] s else split_slash (seg ++ (c ∷ [])) s

-- The last segment that is not empty, or the one before.
unfoldable pub last_segment : Text → List Text → Text
last_segment leaf [] = leaf
last_segment leaf (seg ∷ segs) = last_segment (if seg != [] then seg else leaf) segs

unfoldable pub has_dir_mismatch : SessionData → Bool
unfolding split_slash last_segment
has_dir_mismatch s =
    if s.dir == []
    then false
    else let leaf = last_segment [] (split_slash [] s.dir) in leaf != [] && leaf != s.name

-- An agent that the badge counts.
unfoldable is_counted : AgentEvent → Bool
is_counted a =
    is_alive a.liveness || (not (is_exited a.liveness) && not (is_terminal_status a.status))

unfoldable pub count_agents : List AgentEvent → ℕ
unfolding is_counted
count_agents [] = 0
count_agents (a ∷ agents) =
    let rest = count_agents agents in if is_counted a then suc rest else rest

unfoldable pub agent_badge_width : SessionData → ℕ
unfolding count_agents itoa
agent_badge_width s =
    let count = count_agents s.agents in
    if count == 0 then 0 else if count == 1 then 2 else 1 + 1 + length (itoa count)

unfoldable pub name_row : SessionData → ℕ
unfolding agent_badge_width
name_row s =
    padding_left
    + min (length s.name) name_trunc_limit
    + agent_badge_width s
    + (if s.unseen then 2 else 0)
    + status_icon_cols
    + padding_right

unfoldable pub branch_row : SessionData → ℕ
unfolding has_dir_mismatch
branch_row s =
    let branch_len = min (length s.branch) branch_trunc_limit in
    if ltb 0 branch_len
    then padding_left
      + branch_icon_cols
      + branch_len
      + (if has_dir_mismatch s then dir_mismatch_cols else 0)
      + padding_right
    else 0

unfoldable pub agent_row : AgentEvent → ℕ
agent_row a =
    agent_row_fixed
    + length a.agent
    + (if a.thread_id != [] then thread_id_cols else 0)
    + (if a.unseen then 2 else 0)

unfoldable pub widest_agents : List AgentEvent → ℕ → ℕ
unfolding agent_row
widest_agents [] widest = widest
widest_agents (a ∷ agents) widest = widest_agents agents (max widest (agent_row a))

unfoldable pub widest_rows : List SessionData → ℕ → ℕ
unfolding name_row branch_row widest_agents
widest_rows [] widest = widest
widest_rows (s ∷ sessions) widest =
    widest_rows sessions (widest_agents s.agents (max (max widest (name_row s)) (branch_row s)))

unfoldable pub compute_min : List SessionData → ℕ
unfolding widest_rows
compute_min sessions = max absolute_min (widest_rows sessions 0 + focused_border)

-- `math.Floor(float64(windowWidth) * 0.4)`: the double nearest to 0.4 is above it by so little that
-- the floor is the exact one for every width that a window has.
unfoldable pub clamp : ℕ → ℕ → ℕ
clamp width window_width =
    let clamped = max absolute_min width in
    if window_width == 0 then clamped else min (window_width * 2 / 5) clamped
