-- ===== src/AgentMatch/Bailed.antt =====
-- `agentFromScriptArgs` and `AgentFromCommand` of apps/server-go/internal/agentmatch/agentmatch.go.
use tail_claude_mux.AgentMatch.Command.{
  agent_from_tokens, agent_from_script_args, script_args, agent_from_path_token, parse_agent_label,
  path_basename, normalize_lookup_name, is_value_flag, is_module_flag, is_eval_flag,
  agent_claude_code,
}
use tail_claude_mux.Base.{
  trim, is_among, if◌then◌else◌, text_beq, ==→eq, arith, ◌∙◌, ap, sym, has_prefix, codes, Text, all,
  option_eq, ◌!=◌, ◌==◌, Bool-cases, ◌++◌, ◌∷◌, [], List, ◌||◌, ◌&&◌, not, false, true, Bool, inr,
  inl, ◌⊎◌, refl, ◌≡◌, nat_eq, text_eq,
}

abbrev IsLabel : Text → Type 0
IsLabel a = (a ≡ []) ⊎ (a ≡ agent_claude_code)

parse_agent_label-IsLabel : (name : Text) → IsLabel (parse_agent_label name)
unfolding parse_agent_label
parse_agent_label-IsLabel name =
    elim (Bool-cases (is_among ("claude" ∷ "claude-code" ∷ []) (normalize_lookup_name name))) [
      | inl c ↦ inr (rw (parse_agent_label, c) refl)
      | inr c ↦ inl (rw (parse_agent_label, c) refl)
    ]

agent_from_path_token-IsLabel : (token : Text) → IsLabel (agent_from_path_token token)
unfolding agent_from_path_token
agent_from_path_token-IsLabel token =
    let trimmed = trim (λ c. c == 39 || c == 34) token in
    elim (Bool-cases (trimmed == [] || has_prefix trimmed (codes "-"))) [
      | inl c ↦ inl (rw (agent_from_path_token, c) refl)
      | inr c ↦ rw (agent_from_path_token, c) (parse_agent_label-IsLabel (path_basename trimmed))
    ]

if-IsLabel : (b : Bool) (x y : Text) → IsLabel x → IsLabel y → IsLabel (if b then x else y)
if-IsLabel true x y h g = h
if-IsLabel false x y h g = g

next-IsLabel :
    (args : List Text) → IsLabel (elim args [ [] ↦ [] | next ∷ more ↦ agent_from_path_token next ])
next-IsLabel [] = inl refl
next-IsLabel (next ∷ more) = agent_from_path_token-IsLabel next

script_args-IsLabel : (skipped : Bool) (args : List Text) → IsLabel (script_args skipped args)
unfolding script_args
script_args-IsLabel skipped [] = inl refl
script_args-IsLabel true (arg ∷ args) = script_args-IsLabel false args
script_args-IsLabel false (arg ∷ args) = if-IsLabel (arg == codes "--") _ _ (next-IsLabel args) (
    if-IsLabel (is_eval_flag arg || is_module_flag arg) _ _ (inl refl) (
      if-IsLabel (has_prefix arg (codes "-")) _ _ (script_args-IsLabel (is_value_flag arg) args)
        (agent_from_path_token-IsLabel arg)))

agent_from_tokens-IsLabel :
    (comm : Text) (tokens : List Text) → IsLabel (agent_from_tokens comm tokens)
unfolding agent_from_tokens agent_from_script_args
agent_from_tokens-IsLabel comm [] = inl refl
agent_from_tokens-IsLabel comm (t ∷ args) =
    if-IsLabel _ _ _ (script_args-IsLabel false args) (agent_from_path_token-IsLabel t)

-- Flags that neither end the walk nor take the next token as a value.
abbrev is_plain_flag : Text → Bool
is_plain_flag arg =
    has_prefix arg (codes "-")
    && (arg != codes "--")
    && not (is_eval_flag arg || is_module_flag arg)
    && not (is_value_flag arg)

script_args-plain :
    (flags args : List Text)
    → all is_plain_flag flags ≡ true
    → script_args false (flags ++ args) ≡ script_args false args
unfolding script_args
script_args-plain [] args h = refl
script_args-plain (f ∷ flags) args h =
    let d : (f == codes "--") ≡ false = ground arith in
    let e : (is_eval_flag f || is_module_flag f) ≡ false = ground arith in
    let x : has_prefix f (codes "-") ≡ true = ground arith in
    let v : is_value_flag f ≡ false = ground arith in
    let g : all is_plain_flag flags ≡ true = ground arith in
    rw (script_args, d, e, x, v) (script_args-plain flags args g)

ends_flags-dashes :
    (flag : Text) → (is_eval_flag flag || is_module_flag flag) ≡ true → (flag == codes "--") ≡ false
unfolding text_beq
ends_flags-dashes flag e = elim (Bool-cases (flag == codes "--")) [
  | inr c ↦ c
  | inl c ↦
      let f = ==→eq flag (codes "--") c in
      let q : (is_eval_flag (codes "--") || is_module_flag (codes "--")) ≡ true =
        ap (λ x. is_eval_flag x || is_module_flag x) (sym f) ∙ e in
      absurd (ground (arith, q))
]

script_args-bail :
    (flag : Text) (args : List Text)
    → (is_eval_flag flag || is_module_flag flag) ≡ true
    → script_args false (flag ∷ args) ≡ []
unfolding script_args
script_args-bail flag args e = rw (script_args, ends_flags-dashes flag e, e) refl

-- After plain flags, a flag that passes code or a module ends the search: what follows it is never
-- taken for an agent.
agent_from_script_args-bails :
    (runtime : Text) (flags : List Text) (flag : Text) (args : List Text)
    → all is_plain_flag flags ≡ true
    → (is_eval_flag flag || is_module_flag flag) ≡ true
    → agent_from_script_args (runtime ∷ (flags ++ (flag ∷ args))) ≡ []
unfolding agent_from_script_args
agent_from_script_args-bails runtime flags flag args h e =
    script_args-plain flags (flag ∷ args) h ∙ script_args-bail flag args e
