-- ===== src/Tests/Parsed.antt =====
-- Runs of apps/server-go/wire/hook.go and apps/server-go/internal/procwalk/procwalk.go.
use tail_claude_mux.ProcWalk.Ancestor.{Nearest}
use tail_claude_mux.Wire.Ingress.{parse_fields-Accepts, Accepts, required}
use tail_claude_mux.Wire.Hook.{
  str, number, boolean, parse_fields, payload_of, required_string, bounded, decode_string, Json,
}
use tail_claude_mux.ClaudeWatch.Words.{is_claude_command}
use tail_claude_mux.ProcWalk.Walks.{resolve_agent_session_pid}
use tail_claude_mux.ProcWalk.Snapshot.{
  parse_process_snapshot, parse_lines, parse_line, atoi, digits_value, take_run, Snapshot,
}
use tail_claude_mux.ProcWalk.Nearest.{resolve_agent_session_pid-Nearest}
use tail_claude_mux.Base.{
  split, split_from, text_eq, text_beq, codes, Text, put, option_eq, nat_eq, ◌==◌, if◌then◌else◌,
  arith, ◌∷◌, [], some, none, Option, true, ◌⊎◌, refl, ◌≡◌, ℕ,
}

abbrev hook_fields : Text → Option Json
hook_fields k =
    if k == codes "event"
    then some (str (codes "PreToolUse"))
    else if k == codes "session_id"
    then some (str (codes "t1"))
    else if k == codes "cwd"
    then some (str (codes "/w"))
    else if k == codes "pid"
    then some (number (some 12))
    else if k == codes "agent"
    then some (boolean true)
    else none

parse_fields-Accepts_example : Accepts (required hook_fields) (parse_fields hook_fields)
parse_fields-Accepts_example = parse_fields-Accepts hook_fields

accepted :
    parse_fields hook_fields
    ≡ some (payload_of hook_fields (codes "PreToolUse") (codes "t1") (codes "/w"))
unfolding parse_fields required_string decode_string bounded text_beq
accepted = refl

-- A table of processes: a shell below an agent below a shell.
abbrev table : Snapshot
table =
    (30, record { pid = 30; ppid = 12; command = codes "sh -c hook" })
    ∷ (12, record { pid = 12; ppid = 7; command = codes "claude -c" })
    ∷ (7, record { pid = 7; ppid = 1; command = codes "zsh" })
    ∷ []

table_printed :
    parse_process_snapshot (codes "30 12 sh -c hook\n 12 7  claude -c \nbad\n0 7 x\n7 1 zsh")
    ≡ table
unfolding parse_process_snapshot parse_lines parse_line take_run atoi digits_value split split_from
    text_beq put
table_printed = refl

resolve_agent_session_pid-Nearest_example :
    (r : ℕ) × (resolve_agent_session_pid 4 30 is_claude_command table ≡ some r)
    × (((n : ℕ) × Nearest is_claude_command table n 30 r)
        ⊎ ((r ≡ 30) × ¬ ((n : ℕ) × (a : ℕ) × Nearest is_claude_command table n 30 a)))
resolve_agent_session_pid-Nearest_example =
    resolve_agent_session_pid-Nearest is_claude_command table 4 30 (omega arith)
