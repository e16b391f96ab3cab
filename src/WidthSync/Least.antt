-- ===== src/WidthSync/Least.antt =====
-- `ComputeMin` of apps/server-go/internal/widthsync/widthsync.go against what it is for.
use tail_claude_mux.WidthSync.Rows.{
  compute_min, widest_rows, widest_agents, agent_row, branch_row, name_row, focused_border,
  absolute_min,
}
use tail_claude_mux.Wire.{SessionData, AgentEvent}
use tail_claude_mux.Base.{arith, ◌∷◌, [], List, max, ◌≤◌, ◌+◌, ℕ}

-- A width holds every row of a session's card inside the border of the focused card.
abbrev FitsAgents : ℕ → List AgentEvent → Type 0
FitsAgents w [] = Unit
FitsAgents w (a ∷ agents) = (agent_row a + focused_border ≤ w) × FitsAgents w agents

abbrev pub Fits : ℕ → List SessionData → Type 0
Fits w [] = Unit
Fits w (s ∷ sessions) =
    (name_row s + focused_border ≤ w)
    × (branch_row s + focused_border ≤ w)
    × FitsAgents w s.agents
    × Fits w sessions

widest_agents-grows : (agents : List AgentEvent) (widest : ℕ) → widest ≤ widest_agents agents widest
unfolding widest_agents
widest_agents-grows [] widest = omega arith
widest_agents-grows (a ∷ agents) widest =
    omega (arith, widest_agents-grows agents (max widest (agent_row a)))

widest_agents-FitsAgents :
    (agents : List AgentEvent) (widest w : ℕ)
    → widest_agents agents widest + focused_border ≤ w
    → FitsAgents w agents
unfolding widest_agents
widest_agents-FitsAgents [] widest w h = tt
widest_agents-FitsAgents (a ∷ agents) widest w h = (
  omega (arith, widest_agents-grows agents (max widest (agent_row a))),
  widest_agents-FitsAgents agents (max widest (agent_row a)) w h,
)

widest_agents-least :
    (agents : List AgentEvent) (widest w : ℕ)
    → FitsAgents w agents
    → widest + focused_border ≤ w
    → widest_agents agents widest + focused_border ≤ w
unfolding widest_agents
widest_agents-least [] widest w h g = g
widest_agents-least (a ∷ agents) widest w h g =
    widest_agents-least agents (max widest (agent_row a)) w h.1 (let p = h.0 in omega arith)

abbrev card : SessionData → ℕ → ℕ
card s widest = max (max widest (name_row s)) (branch_row s)

widest_rows-grows :
    (sessions : List SessionData) (widest : ℕ) → widest ≤ widest_rows sessions widest
unfolding widest_rows
widest_rows-grows [] widest = omega arith
widest_rows-grows (s ∷ sessions) widest = omega (
  arith,
  widest_agents-grows s.agents (card s widest),
  widest_rows-grows sessions (widest_agents s.agents (card s widest)),
)

widest_rows-Fits :
    (sessions : List SessionData) (widest w : ℕ)
    → widest_rows sessions widest + focused_border ≤ w
    → Fits w sessions
unfolding widest_rows
widest_rows-Fits [] widest w h = tt
widest_rows-Fits (s ∷ sessions) widest w h =
    let a = widest_agents-grows s.agents (card s widest) in
    let g = widest_rows-grows sessions (widest_agents s.agents (card s widest)) in
    (
      omega arith,
      omega arith,
      widest_agents-FitsAgents s.agents (card s widest) w (omega arith),
      widest_rows-Fits sessions (widest_agents s.agents (card s widest)) w h,
    )

widest_rows-least :
    (sessions : List SessionData) (widest w : ℕ)
    → Fits w sessions
    → widest + focused_border ≤ w
    → widest_rows sessions widest + focused_border ≤ w
unfolding widest_rows
widest_rows-least [] widest w h g = g
widest_rows-least (s ∷ sessions) widest w (n, b, agents, rest) g =
    widest_rows-least sessions _ w rest
      (widest_agents-least s.agents (card s widest) w agents (omega arith))

-- The minimum is at least 15 and fits every row of every session, and no width that does so is
-- less.
pub compute_min-least :
    (sessions : List SessionData) (w : ℕ)
    → absolute_min ≤ w
    → Fits w sessions
    → (absolute_min ≤ compute_min sessions)
      × Fits (compute_min sessions) sessions
      × (compute_min sessions ≤ w)
unfolding compute_min
compute_min-least sessions w h f =
    let g = widest_rows-least sessions 0 w f (omega arith) in
    let least = max absolute_min (widest_rows sessions 0 + focused_border) in
    (omega arith, widest_rows-Fits sessions 0 least (omega arith), omega arith)
