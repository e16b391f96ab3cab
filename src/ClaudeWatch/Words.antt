-- ===== src/ClaudeWatch/Words.antt =====
-- The words of hooks and the agent's command in apps/server-go/internal/ccwatch/ccwatch.go.
use tail_claude_mux.Wire.Hook.{HookPayload}
use tail_claude_mux.ProcWalk.Snapshot.{is_re_space}
use tail_claude_mux.Wire.{status_eq, Status}
use tail_claude_mux.Base.{
  to_lower, is_among, has_prefix, text_eq, codes, Text, drop, option_eq, nat_eq, ◌==◌,
  if◌then◌else◌, ◌∷◌, [], some, none, Option, ◌||◌, ◌&&◌, false, true, Bool,
}

-- `hookStatusMap`.
unfoldable pub hook_status : Text → Option Status
hook_status event =
    if is_among
      ("UserPromptSubmit" ∷ "PreToolUse" ∷ "PostToolUse" ∷ "PostToolUseFailure" ∷ "PermissionDenied"
        ∷ [])
      event
    then some Status.running
    else if event == codes "SessionStart"
    then some Status.idle
    else if event == codes "PermissionRequest"
    then some Status.waiting
    else if is_among ("Stop" ∷ "SessionEnd" ∷ []) event
    then some Status.done
    else if event == codes "StopFailure"
    then some Status.error
    else none

-- `resolveStatus`; none is "".
unfoldable pub resolve_status : HookPayload → Option Status
unfolding hook_status
resolve_status payload =
    if payload.event == codes "Notification"
    then (if payload.notification_type == codes "permission_prompt"
        then some Status.waiting
        else if payload.notification_type == codes "idle_prompt"
        then some Status.done
        else none)
    else hook_status payload.event

-- `toolOutcomeEvents` and `waitOwnedEvents`.
abbrev pub is_tool_outcome : Text → Bool
is_tool_outcome = is_among ("PostToolUse" ∷ "PostToolUseFailure" ∷ "PermissionDenied" ∷ [])

abbrev pub is_wait_owned : Text → Bool
is_wait_owned = is_among (
    "PreToolUse" ∷ "PermissionRequest" ∷ "PostToolUse" ∷ "PostToolUseFailure" ∷ "PermissionDenied"
    ∷ "Notification" ∷ [])

abbrev pub has_tool_context : Text → Bool
has_tool_context = is_among ("PreToolUse" ∷ "PermissionRequest" ∷ [])

abbrev pub ends_segment : Text → Bool
ends_segment [] = true
ends_segment (c ∷ s) = c == 47 || is_re_space c

abbrev is_claude_segment : Text → Bool
is_claude_segment s =
    has_prefix s (codes "claude")
    && (ends_segment (drop 6 s)
        || (has_prefix (drop 6 s) (codes "-code") && ends_segment (drop 11 s)))

-- Some segment of a path, from a place that is a segment's start or not.
unfoldable pub segment_from : (Text → Bool) → Bool → Text → Bool
segment_from is_segment starts [] = false
segment_from is_segment starts (c ∷ s) =
    (starts && is_segment (c ∷ s)) || segment_from is_segment (c == 47) s

-- `claudeCmdRE`.
unfoldable pub is_claude_command : Text → Bool
unfolding segment_from has_prefix
is_claude_command command = segment_from is_claude_segment true (to_lower command)
