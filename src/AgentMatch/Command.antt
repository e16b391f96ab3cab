-- ===== src/AgentMatch/Command.antt =====
-- `AgentFromCommand` of apps/server-go/internal/agentmatch/agentmatch.go. Lower case, white space
-- and the bytes that are trimmed are those of ASCII.
use Prim.Native.String.{String}
use tail_claude_mux.Base.{
  has_suffix, fields_func, trim, is_space, to_lower, is_among, has_prefix, codes, Text, take,
  length, option_eq, ◌!=◌, ◌==◌, if◌then◌else◌, ◌∷◌, [], List, ◌||◌, ◌&&◌, false, true, Bool, ◌-◌,
  nat_eq, text_eq,
}

abbrev pub agent_claude_code : Text
agent_claude_code = codes "claude-code"

abbrev is_generic_runtime : Text → Bool
is_generic_runtime = is_among (
    "sh" ∷ "bash" ∷ "zsh" ∷ "fish" ∷ "tmux" ∷ "node" ∷ "bun" ∷ "deno" ∷ "python" ∷ "python3" ∷ "npx"
    ∷ "bunx" ∷ [])

abbrev pub is_eval_flag : Text → Bool
is_eval_flag = is_among ("-e" ∷ "--eval" ∷ "-p" ∷ "--print" ∷ "-c" ∷ [])

abbrev pub is_module_flag : Text → Bool
is_module_flag = is_among ("-m" ∷ [])

abbrev pub is_value_flag : Text → Bool
is_value_flag = is_among (
    "-r" ∷ "--require" ∷ "--loader" ∷ "--import" ∷ "--experimental-loader" ∷ "--inspect-port" ∷ "-W"
    ∷ "-X" ∷ "-S" ∷ "-L" ∷ "-o" ∷ [])

-- The first of the suffixes that the name ends in is cut off.
unfoldable cut_suffix : List String → Text → Text
cut_suffix [] n = n
cut_suffix (w ∷ ws) n =
    let rest = cut_suffix ws n in
    if has_suffix n (codes w) then take (length n - length (codes w)) n else rest

unfoldable pub normalize_lookup_name : Text → Text
unfolding cut_suffix
normalize_lookup_name name =
    cut_suffix (".exe" ∷ ".cmd" ∷ ".bat" ∷ ".ps1" ∷ ".js" ∷ []) (to_lower (trim is_space name))

abbrev last_of : Text → List Text → Text
last_of s [] = s
last_of s (t ∷ ts) = last_of t ts

unfoldable pub path_basename : Text → Text
unfolding fields_func
path_basename path = last_of path (fields_func (λ c. c == 47 || c == 92) [] path)

unfoldable pub parse_agent_label : Text → Text
unfolding normalize_lookup_name
parse_agent_label name =
    if is_among ("claude" ∷ "claude-code" ∷ []) (normalize_lookup_name name)
    then agent_claude_code
    else []

unfoldable pub agent_from_path_token : Text → Text
unfolding path_basename parse_agent_label
agent_from_path_token token =
    let trimmed = trim (λ c. c == 39 || c == 34) token in
    if trimmed == [] || has_prefix trimmed (codes "-")
    then []
    else parse_agent_label (path_basename trimmed)

-- The arguments after the first token; the flag says to pass one over as a value.
unfoldable pub script_args : Bool → List Text → Text
unfolding agent_from_path_token
script_args skipped [] = []
script_args true (arg ∷ args) = script_args false args
script_args false (arg ∷ args) =
    let rest = script_args (is_value_flag arg) args in
    if arg == codes "--"
    then elim args [ [] ↦ [] | next ∷ more ↦ agent_from_path_token next ]
    else if is_eval_flag arg || is_module_flag arg
    then []
    else if has_prefix arg (codes "-")
    then rest
    else agent_from_path_token arg

unfoldable pub agent_from_script_args : List Text → Text
unfolding script_args
agent_from_script_args [] = []
agent_from_script_args (t ∷ args) = script_args false args

unfoldable pub agent_from_tokens : Text → List Text → Text
unfolding normalize_lookup_name path_basename agent_from_script_args agent_from_path_token
agent_from_tokens comm [] = []
agent_from_tokens comm (t ∷ args) =
    let script = agent_from_script_args (t ∷ args) in
    if is_generic_runtime (normalize_lookup_name (path_basename comm)) && script != []
    then script
    else agent_from_path_token t

unfoldable pub agent_from_command : Text → Text → Text
unfolding fields_func agent_from_tokens
agent_from_command comm cmdline =
    agent_from_tokens comm (fields_func is_space [] (trim is_space cmdline))
