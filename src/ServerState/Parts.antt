-- ===== src/ServerState/Parts.antt =====
-- The parts of apps/server-go/internal/state/state.go that compute. A configuration is what
-- `config.json` decodes to, or none when there is none to decode.
use tail_claude_mux.Base.{
  codes, Text, any, option_eq, ◌==◌, ◌!=◌, if◌then◌else◌, ltb, ◌++◌, ◌∷◌, [], List, some, none,
  Option, ◌||◌, not, Bool, ◌%◌, ◌/◌, ◌+◌, suc, zero, ℕ, nat_eq, text_eq,
}

-- `containsSession`, on the names.
abbrev pub contains_session : List Text → Text → Bool
contains_session names n = any (λ m. m == n) names

-- The `switch` of `Build` that keeps the focus: the names shown, the current session if there is
-- one, and the focused name, "" for none.
unfoldable pub refocus : List Text → Option Text → Text → Text
refocus [] current focused = []
refocus (first ∷ names) current focused =
    if focused == [] || not (contains_session (first ∷ names) focused)
    then elim current [
      | none ↦ first
      | some c ↦ if contains_session (first ∷ names) c then c else first
    ]
    else focused

-- The digits of `itoa`, from the last one, before those that are written.
unfoldable pub write_digits : ℕ → ℕ → Text → Text
write_digits zero n buf = buf
write_digits (suc fuel) n buf =
    let rest = write_digits fuel (n / 10) ((48 + n % 10) ∷ buf) in if n == 0 then buf else rest

-- `itoa`. The number is fuel enough: every round divides it by ten.
unfoldable pub own_itoa : ℕ → Text
unfolding write_digits
own_itoa n = if n == 0 then codes "0" else write_digits n n []

-- `formatUptime`, of a difference that is not negative.
unfoldable pub format_uptime : ℕ → Text
unfolding own_itoa
format_uptime diff =
    let days = diff / 86400 in
    let hours = diff % 86400 / 3600 in
    let mins = diff % 3600 / 60 in
    if ltb 0 days
    then own_itoa days ++ (codes "d" ++ (own_itoa hours ++ codes "h"))
    else if ltb 0 hours
    then own_itoa hours ++ (codes "h" ++ (own_itoa mins ++ codes "m"))
    else own_itoa mins ++ codes "m"

-- `LoadSidebarWidth`; a width that is not positive is 0 here.
unfoldable pub load_sidebar_width : Option ℕ → ℕ
load_sidebar_width none = 33
load_sidebar_width (some width) = if width == 0 then 33 else width

-- `LoadSidebarPosition`.
unfoldable pub load_sidebar_position : Option Text → Text
load_sidebar_position none = codes "left"
load_sidebar_position (some position) =
    if position != codes "right" then codes "left" else codes "right"

pub record CompanionPaneConfig : Type 0 where
  pub command : Text
  pub rows : ℕ

-- `LoadCompanionPane`.
unfoldable pub load_companion_pane : Option CompanionPaneConfig → CompanionPaneConfig
load_companion_pane none = record { command = []; rows = 0 }
load_companion_pane (some cfg) =
    if cfg.command == []
    then record { command = []; rows = 0 }
    else record { command = cfg.command; rows = if cfg.rows == 0 then 8 else cfg.rows }
