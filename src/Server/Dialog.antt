-- ===== src/Server/Dialog.antt =====
-- A permission dialog from its opening to its answer, across the session file's readings of
-- apps/server-go/internal/ccwatch/ccwatch.go and the pane scan of
-- apps/server-go/internal/server/watch.go.
use tail_claude_mux.Tracker.State.{row}
use tail_claude_mux.ClaudeWatch.Registry.{Live}
use tail_claude_mux.Wire.{AgentEvent, Status}
use tail_claude_mux.Base.{
  if◌then◌else◌, Bool, text_eq, option_eq, nat_eq, ◌==◌, codes, Option, none, ◌&&◌, ◌-◌, ltb, some,
  ℕ,
}

-- The row that waits at a dialog, with the call that it is about.
abbrev pub waiting_row : AgentEvent → AgentEvent → ℕ → AgentEvent
waiting_row previous ev since = record ev {
  status = Status.waiting;
  ts = since;
  tool_description = previous.tool_description;
  tool_verb = previous.tool_verb;
}

-- The state of a dialog's row, by the session file's status and its times.
abbrev pub hangs : Live → ℕ → Bool
hangs file now = ltb 0 file.updated_at && ltb 1800000 (now - file.updated_at)

-- What an answer makes of a row that waits.
abbrev pub answer_of : Live → ℕ → AgentEvent → AgentEvent → Option AgentEvent
answer_of file now row ev =
    if ltb row.ts file.status_updated_at
    then (if file.status == codes "busy"
        then (if hangs file now
            then none
            else some (record ev {
              status = Status.running;
              tool_description = row.tool_description;
              tool_verb = row.tool_verb;
            }))
        else if file.status == codes "idle"
        then some (record ev { status = Status.done })
        else none)
    else none
