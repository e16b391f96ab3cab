-- ===== src/ClaudeWatch/Verb.antt =====
-- apps/server-go/internal/ccwatch/verb.go: the verb of a tool call. The categories are those of
-- agent-ouija's `CategorizeToolName`, which is a parameter.
use tail_claude_mux.Wire.Hook.{decode_string, Json}
use tail_claude_mux.Metadata.Runs.{step}
use tail_claude_mux.Base.{
  base_name, fields, split, cut_prefix, fields_func, trim_left, is_among, has_prefix, text_eq,
  codes, Text, all, any, is_empty, length, find, Map, option_eq, nat_eq, ◌==◌, ◌!=◌, if◌then◌else◌,
  leb, ltb, ◌++◌, ◌∷◌, [], List, some, none, Option, ◌||◌, ◌&&◌, not, false, true, Bool, ℕ,
}

pub data ToolCategory : Type 0 where
  read edit write bash grep glob task web tool other : ToolCategory

abbrev codex_agent_tool : Text → Bool
codex_agent_tool = is_among (
    "spawn_agent" ∷ "send_input" ∷ "send_message" ∷ "followup_task" ∷ "wait_agent" ∷ "resume_agent"
    ∷ "close_agent" ∷ "interrupt_agent" ∷ "list_agents" ∷ [])

abbrev codex_agent_namespaces : List Text
codex_agent_namespaces = [] ∷ codes "multi_agent_v1" ∷ codes "collaboration" ∷ []

abbrev is_coordination : Text → Text → Bool
is_coordination tool_name ns = elim (cut_prefix tool_name ns) [
  | none ↦ false
  | some name ↦ codex_agent_tool name
]

-- `codexCoordinationVerb`, its flag.
unfoldable codex_coordination_verb : Text → Bool
unfolding cut_prefix
codex_coordination_verb tool_name = any (is_coordination tool_name) codex_agent_namespaces

-- `shellReadVerbs`.
unfoldable shell_read_verb : Text → Option Text
shell_read_verb name =
    if is_among ("grep" ∷ "rg" ∷ "find" ∷ "fd" ∷ []) name
    then some (codes "search")
    else if is_among ("ls" ∷ "tree" ∷ []) name
    then some (codes "list")
    else if is_among ("cat" ∷ "head" ∷ "tail" ∷ "wc" ∷ "less" ∷ "jq" ∷ []) name
    then some (codes "read")
    else none

-- `splitAll` for one separator, over the pieces there are.
unfoldable split_each : Text → List Text → List Text
unfolding split
split_each sep [] = []
split_each sep (p ∷ ps) = split p sep ++ split_each sep ps

-- `splitAll`, from the parts that there are.
unfoldable split_all : List Text → List Text → List Text
unfolding split_each
split_all parts [] = parts
split_all parts (sep ∷ seps) = split_all (split_each sep parts) seps

abbrev is_name_byte : ℕ → Bool
is_name_byte c =
    c == 95 || (leb 65 c && leb c 90) || (leb 97 c && leb c 122) || (leb 48 c && leb c 57)

-- What stands before the first `=`, if there is one: `strings.Cut`.
unfoldable cut_name : Text → Option Text
cut_name [] = none
cut_name (c ∷ s) =
    let rest = cut_name s in
    if c == 61 then some [] else elim rest [ none ↦ none | some n ↦ some (c ∷ n) ]

abbrev starts_name : Text → Bool
starts_name [] = false
starts_name (c ∷ n) = not (leb 48 c && leb c 57)

unfoldable is_assignment : Text → Bool
unfolding cut_name
is_assignment word = elim (cut_name word) [
  | none ↦ false
  | some name ↦ starts_name name && all is_name_byte name
]

-- The words after the leading assignments.
unfoldable skip_assignments : List Text → List Text
unfolding is_assignment
skip_assignments [] = []
skip_assignments (w ∷ ws) =
    let rest = skip_assignments ws in if is_assignment w then rest else w ∷ ws

-- A step of a command line that is none: nothing, a comment, a change of directory.
unfoldable is_skipped : List Text → Bool
unfolding has_prefix
is_skipped [] = true
is_skipped (w ∷ ws) = has_prefix w (codes "#") || w == codes "cd"

unfoldable first_part : List Text → List Text
unfolding is_skipped skip_assignments fields
first_part [] = []
first_part (part ∷ parts) =
    let rest = first_part parts in
    let words = skip_assignments (fields part) in if is_skipped words then rest else words

unfoldable first_step : List Text → List Text
unfolding first_part split_all
first_step [] = []
first_step (step ∷ steps) =
    let rest = first_step steps in
    let words = first_part (split_all (step ∷ []) (codes "&&" ∷ codes "||" ∷ [])) in
    if is_empty words then rest else words

abbrev is_step_end : ℕ → Bool
is_step_end c = c == 10 || c == 59

-- `firstCommand`; nil is the empty list, which no command is.
unfoldable first_command : Text → List Text
unfolding first_step fields_func
first_command command = first_step (fields_func is_step_end [] command)

abbrev trim_prefix : Text → Text → Text
trim_prefix p s = elim (cut_prefix s p) [ none ↦ s | some rest ↦ rest ]

abbrev head_or : Text → List Text → Text
head_or t [] = t
head_or t (a ∷ args) = a

-- Where a redirection that stands before `args` goes.
unfoldable redirect_target : Text → List Text → Text
redirect_target a args =
    let target = trim_left (λ c. c == 62) a in if target == [] then head_or target args else target

unfoldable writes_file : List Text → Bool
unfolding has_prefix redirect_target cut_prefix
writes_file [] = false
writes_file (arg ∷ args) =
    let rest = writes_file args in
    let a = trim_prefix (codes "&") (trim_prefix (codes "1") arg) in
    let target = redirect_target a args in
    (has_prefix a (codes ">") && target != codes "/dev/null" && not (has_prefix target (codes "&")))
    || rest

unfoldable sed_read_only : Bool → List Text → Bool
unfolding has_prefix
sed_read_only quiet [] = quiet
sed_read_only quiet (a ∷ args) =
    let read_only = λ (q : Bool). sed_read_only q args in
    if a == codes "--quiet" || a == codes "--silent"
    then read_only true
    else if has_prefix a (codes "--in-place")
    then false
    else if has_prefix a (codes "--")
    then read_only quiet
    else if has_prefix a (codes "-") && ltb 1 (length a)
    then (if any (λ c. c == 105) a then false else read_only (quiet || any (λ c. c == 110) a))
    else read_only quiet

-- The verb of a command's words.
unfoldable verb_of_words : List Text → Text
unfolding writes_file base_name sed_read_only shell_read_verb
verb_of_words [] = codes "run"
verb_of_words (w ∷ args) =
    if writes_file args
    then codes "run"
    else if base_name w == codes "sed"
    then (if sed_read_only false args then codes "read" else codes "run")
    else elim (shell_read_verb (base_name w)) [ some verb ↦ verb | none ↦ codes "run" ]

-- `ShellVerb`.
unfoldable pub shell_verb : Text → Text
unfolding first_command verb_of_words
shell_verb command = verb_of_words (first_command command)

-- `rawStr`.
unfoldable raw_str : Map Text Json → Text → Text
unfolding decode_string
raw_str input key = elim (find key input) [
  | none ↦ []
  | some raw ↦ elim (decode_string raw) [ none ↦ [] | some s ↦ s ]
]

abbrev category_verb : ToolCategory → Map Text Json → Text
category_verb read input = codes "read"
category_verb edit input = codes "edit"
category_verb write input = codes "edit"
category_verb bash input = shell_verb (raw_str input (codes "command"))
category_verb grep input = codes "search"
category_verb glob input = codes "search"
category_verb task input = codes "task"
category_verb web input = codes "web"
category_verb tool input = codes "tool"
category_verb other input = []

-- `ToolVerb`; `tcmVerbOverrides` has one entry.
unfoldable pub tool_verb : (Text → ToolCategory) → Text → Map Text Json → Text
unfolding codex_coordination_verb raw_str shell_verb
tool_verb categorize tool_name input =
    if tool_name == codes "Skill"
    then codes "skill"
    else if codex_coordination_verb tool_name
    then codes "task"
    else category_verb (categorize tool_name) input
