-- ===== src/ClaudeWatch/Transcript.antt =====
-- The transcript heuristics of apps/server-go/internal/ccwatch/ccwatch.go, on entries that
-- agent-ouija's `ParseEntryLenient` has decoded.
use Prim.Native.String.{String}
use tail_claude_mux.TextUtil.Strip.{sanitize_session_name}
use tail_claude_mux.Wire.{Status}
use tail_claude_mux.Base.{
  contains_text, has_prefix, text_eq, codes, Text, any, option_eq, nat_eq, ◌==◌, ◌!=◌,
  if◌then◌else◌, ◌∷◌, [], List, some, none, Option, ◌||◌, ◌&&◌, false, Bool,
}

pub record ContentItem : Type 0 where
  pub kind : Text
  pub text : Text

-- The raw content by what it decodes to: a string, a list of blocks, or neither.
pub data Content : Type 0 where
  plain : Text → Content
  blocks : List ContentItem → Content
  unreadable : Content

pub record Entry : Type 0 where
  pub entry_type : Text
  pub custom_title : Text
  pub role : Text
  pub content : Content
  pub stop_reason : Option Text
  pub is_sidechain : Bool

unfoldable pub content_items : Content → List ContentItem
content_items (plain s) = record { kind = codes "text"; text = s } ∷ []
content_items (blocks items) = items
content_items unreadable = []

unfoldable pub first_text : List ContentItem → Text
first_text [] = []
first_text (c ∷ items) =
    let rest = first_text items in if c.kind == codes "text" && c.text != [] then c.text else rest

abbrev has_any_prefix : List String → Text → Bool
has_any_prefix [] s = false
has_any_prefix (p ∷ ps) s = has_prefix s (codes p) || has_any_prefix ps s

abbrev is_interrupt : Text → Bool
is_interrupt = has_any_prefix ("[Request interrupted by user" ∷ "[Request interrupted" ∷ [])

abbrev is_noise : Text → Bool
is_noise = has_any_prefix (
    "<local-command-caveat>" ∷ "<local-command-stdout>" ∷ "<local-command-stderr>" ∷ "<bash-input>"
    ∷ "<bash-stdout>" ∷ "<bash-stderr>" ∷ "<system-reminder>" ∷ "<task-notification>" ∷ [])

abbrev is_work : ContentItem → Bool
is_work c = c.kind == codes "tool_use" || c.kind == codes "thinking"

-- The status that an assistant's entry stands for.
unfoldable assistant_status : Option Text → List ContentItem → Status
assistant_status stop_reason items =
    if any is_work items then Status.running else elim stop_reason [
      | none ↦ Status.running
      | some reason ↦
          if reason == [] || reason == codes "tool_use" then Status.running else Status.done
    ]

unfoldable user_status : Text → Option Status
user_status text =
    if text == []
    then some Status.running
    else if is_interrupt text
    then some Status.interrupted
    else if contains_text text (codes "<command-name>/exit</command-name>")
    then some Status.done
    else if contains_text text (codes "<command-name>/")
    then none
    else if is_noise text
    then none
    else some Status.running

-- `determineStatus`; none for an entry that tells nothing.
unfoldable pub determine_status : Entry → Option Status
unfolding assistant_status user_status content_items first_text
determine_status e =
    if e.role == codes "assistant"
    then some (assistant_status e.stop_reason (content_items e.content))
    else if e.role == codes "user"
    then user_status (first_text (content_items e.content))
    else none

unfoldable pub extract_thread_name : Entry → Text
unfolding content_items first_text
extract_thread_name e =
    let text = first_text (content_items e.content) in
    if e.role != codes "user"
    then []
    else if text == []
    then []
    else if has_any_prefix ("<" ∷ "{" ∷ "[Request" ∷ []) text
    then []
    else sanitize_session_name text

unfoldable pub extract_custom_title : Entry → Text
extract_custom_title e = if e.entry_type == codes "custom-title" then e.custom_title else []

-- The name after one more entry.
unfoldable pub name_after : Entry → Text → Text
unfolding extract_custom_title extract_thread_name
name_after e name =
    if extract_custom_title e != []
    then extract_custom_title e
    else if name == []
    then extract_thread_name e
    else name

unfoldable pub status_after : Entry → Status → Status
unfolding determine_status
status_after e status = elim (determine_status e) [ none ↦ status | some s ↦ s ]

-- The loop of `readTranscriptState` over the lines that parse.
unfoldable pub fold_transcript : List Entry → Status → Text → Status × Text
unfolding name_after status_after
fold_transcript [] status name = (status, name)
fold_transcript (e ∷ es) status name =
    fold_transcript es (status_after e status) (name_after e name)

-- `readTranscriptState` and `scanTranscript`; a file that cannot be read has no entries here.
unfoldable pub scan_transcript : List Entry → Status × Text
unfolding fold_transcript
scan_transcript es = fold_transcript es Status.idle []
