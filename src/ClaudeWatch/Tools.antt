-- ===== src/ClaudeWatch/Tools.antt =====
-- `ToolDescription` of apps/server-go/internal/ccwatch/ccwatch.go. A value is a list of runes where
-- its width counts.
use tail_claude_mux.Wire.Hook.{decode_string, Json}
use tail_claude_mux.TextUtil.Width.{truncate_to_width}
use tail_claude_mux.TextUtil.Strip.{sanitize_for_display}
use tail_claude_mux.Base.{
  base_name, text_eq, codes, Text, find, Map, option_eq, nat_eq, ◌==◌, if◌then◌else◌, ◌++◌, [],
  some, none, ◌||◌, ℕ,
}

unfoldable pub safe_str : Map Text Json → Text → Text
unfolding decode_string
safe_str input key = elim (find key input) [
  | none ↦ []
  | some raw ↦ elim (decode_string raw) [ none ↦ [] | some s ↦ sanitize_for_display s ]
]

unfoldable pub file_desc : Text → Map Text Json → Text
unfolding safe_str base_name
file_desc verb input =
    let fp = safe_str input (codes "file_path") in
    if fp == [] then verb else verb ++ (codes " " ++ base_name fp)

-- A field, cut to a width, after a label; the other text where the field is missing.
abbrev labelled : Text → ℕ → Text → Text → Text
labelled label width s fallback = if s == [] then fallback else label ++ truncate_to_width s width

unfoldable pub tool_description : Text → Map Text Json → Text
unfolding safe_str file_desc
tool_description tool_name input =
    if tool_name == []
    then []
    else if tool_name == codes "Read"
    then file_desc (codes "Reading") input
    else if tool_name == codes "Edit"
    then file_desc (codes "Editing") input
    else if tool_name == codes "Write"
    then file_desc (codes "Writing") input
    else if tool_name == codes "Bash"
    then labelled (codes "Running ") 30 (safe_str input (codes "command")) (codes "Running command")
    else if tool_name == codes "Glob" || tool_name == codes "Grep"
    then labelled (codes "Searching ") 30 (safe_str input (codes "pattern")) (codes "Searching")
    else if tool_name == codes "Agent"
    then labelled [] 40 (safe_str input (codes "description")) (codes "Agent")
    else if tool_name == codes "WebFetch"
    then codes "Fetching URL"
    else if tool_name == codes "WebSearch"
    then labelled (codes "Search: ") 30 (safe_str input (codes "query")) (codes "Searching web")
    else if tool_name == codes "AskUserQuestion"
    then labelled (codes "Question: ") 50 (safe_str input (codes "question"))
        (codes "Asking question")
    else tool_name
