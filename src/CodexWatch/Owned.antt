-- ===== src/CodexWatch/Owned.antt =====
-- That a hook keeps the owner of a thread, step by step, in apps/server-go/internal/codexwatch/codexwatch.go.
use tail_claude_mux.Wire.Hook.{HookPayload}
use tail_claude_mux.ClaudeWatch.Words.{has_tool_context}
use tail_claude_mux.ClaudeWatch.Hooks.{snapshot_pid}
use tail_claude_mux.CodexWatch.Rollouts.{rollout_path_for_pid}
use tail_claude_mux.Wire.{Status, AgentEvent}
use tail_claude_mux.Base.{
  Option-cases, codes, ◌∙◌, text_eq, Text, option_eq, ==_refl, nat_eq, ◌==◌, ◌!=◌, Bool-cases,
  arith, [], some, none, Option, ◌||◌, ◌&&◌, not, true, Bool, inr, inl, refl, ◌≡◌,
}
use tail_claude_mux.Wire.{status_eq}
use tail_claude_mux.CodexWatch.State.{
  emit, resolve_state_session, keep_thread, start_lookup, World, Adapter, ThreadState, Claim,
}
use tail_claude_mux.CodexWatch.Hooks.{
  owner_checked, thread_of, after_stop, note_tool, starts_turn, note_prompt, note_tool,
  check_ownership, update_routing, is_codex_command, handle_owned, routed, finish, disown,
}

-- The pid of a thread is that of the process that its hooks are routed by, or unknown.
abbrev pub is_owned : Option ThreadState → Bool
is_owned none = true
is_owned (some st) = st.pid == 0 || st.pid == st.routing_pid

check_ownership-owned :
    (w : World) (payload : HookPayload) (st : ThreadState)
    → is_owned (some st) ≡ true
    → is_owned (some (check_ownership w payload st)) ≡ true
unfolding check_ownership
check_ownership-owned w payload st h =
    elim (Bool-cases (
      st.routing_pid != 0
      && (not st.ownership_checked || (st.recheck_ownership && starts_turn payload.event)))) [
        | inr e ↦ rw (check_ownership, e) h
        | inl e ↦
            elim (Bool-cases (rollout_path_for_pid w st.routing_pid payload.session_id != [])) [
              | inl f ↦ rw (check_ownership, e, f) (ground (arith, ==_refl st.routing_pid))
              | inr f ↦ rw (check_ownership, e, f) h
            ]
      ]

update_routing-owned :
    (payload : HookPayload) (st : ThreadState)
    → is_owned (some st) ≡ true
    → is_owned (some (update_routing payload st)) ≡ true
unfolding update_routing
update_routing-owned payload st h =
    elim (Bool-cases (payload.pid == 0 || payload.process_snapshot == [])) [
      | inl e ↦ rw (update_routing, e) h
      | inr e ↦
          let sender = snapshot_pid is_codex_command payload in
          elim (Bool-cases (sender == 0 || sender == st.routing_pid)) [
            | inl f ↦ rw (update_routing, e, f) h
            | inr f ↦ rw (update_routing, e, f) refl
          ]
    ]

-- What a step may do to a thread: its pids stay.
abbrev pub SamePids : ThreadState → ThreadState → Type 0
SamePids st st' = (st'.pid ≡ st.pid) × (st'.routing_pid ≡ st.routing_pid)

owned_as : (st st' : ThreadState) → SamePids st st' → is_owned (some st') ≡ is_owned (some st)
owned_as st st' (p, r) = rw (p, r) refl

pub after_stop-SamePids :
    (payload : HookPayload) (st : ThreadState) → SamePids st (after_stop payload st).0
unfolding after_stop start_lookup
after_stop-SamePids payload st = elim (Bool-cases (payload.event == codes "Stop")) [
  | inr e ↦ rw (after_stop, e) (refl, refl)
  | inl e ↦ elim (Bool-cases st.name_lookup_in_flight) [
    | inl f ↦ rw (after_stop, e, start_lookup, f) (refl, refl)
    | inr f ↦ rw (after_stop, e, start_lookup, f) (refl, refl)
  ]
]

note_tool-SamePids :
    (w : World) (payload : HookPayload) (st : ThreadState) → SamePids st (note_tool w payload st)
unfolding note_tool
note_tool-SamePids w payload st = elim (Bool-cases (has_tool_context payload.event)) [
  | inl e ↦ rw (note_tool, e) (refl, refl)
  | inr e ↦ elim (Bool-cases (payload.event != codes "PostToolUse")) [
    | inl f ↦ rw (note_tool, e, f) (refl, refl)
    | inr f ↦ rw (note_tool, e, f) (refl, refl)
  ]
]

note_prompt-SamePids :
    (payload : HookPayload) (st : ThreadState) → SamePids st (note_prompt payload st)
unfolding note_prompt
note_prompt-SamePids payload st =
    elim (Bool-cases (
      payload.event == codes "UserPromptSubmit"
      && not st.name_from_index
      && st.thread_name == [])) [
        | inl e ↦ rw (note_prompt, e) (refl, refl)
        | inr e ↦ rw (note_prompt, e) (refl, refl)
      ]

pub noted-SamePids :
    (w : World) (payload : HookPayload) (st : ThreadState)
    → SamePids st (note_prompt payload (note_tool w payload st))
noted-SamePids w payload st =
    let (p, r) = note_tool-SamePids w payload st in
    let (p', r') = note_prompt-SamePids payload (note_tool w payload st) in (p' ∙ p, r' ∙ r)

pub kept-owned :
    (thread_id id : Text) (st : ThreadState) (a : Adapter)
    → is_owned (some st) ≡ true
    → is_owned (a.threads id) ≡ true
    → is_owned ((keep_thread thread_id st a).threads id) ≡ true
kept-owned thread_id id st a h g = elim (Bool-cases (thread_id == id)) [
  | inl e ↦ rw e h
  | inr e ↦ rw e g
]

finish-owned :
    (payload : HookPayload) (st : ThreadState) (looked : Bool) (emitted : Option AgentEvent)
    (a : Adapter) (id : Text)
    → is_owned (some st) ≡ true
    → is_owned (a.threads id) ≡ true
    → is_owned ((finish payload st looked emitted a).adapter.threads id) ≡ true
unfolding finish
finish-owned payload st looked emitted a id h g =
    kept-owned payload.session_id id (after_stop payload st).0 a
      (owned_as st (after_stop payload st).0 (after_stop-SamePids payload st) ∙ h) g

routed-owned :
    (w : World) (payload : HookPayload) (new_status : Status) (session : Text) (st : ThreadState)
    (is_new : Bool) (a : Adapter) (id : Text)
    → is_owned (some st) ≡ true
    → is_owned (a.threads id) ≡ true
    → is_owned ((routed w payload new_status session st is_new a).adapter.threads id) ≡ true
unfolding routed
routed-owned w payload new_status session st is_new a id h g =
    let noted = note_prompt payload (note_tool w payload st) in
    let h' : is_owned (some noted) ≡ true = owned_as st noted (noted-SamePids w payload st) ∙ h in
    elim (Bool-cases (
      st.status == new_status
      && not is_new
      && st.last_tool_description == noted.last_tool_description
      && not (payload.event == codes "PreToolUse"))) [
        | inl e ↦ rw (routed, e) (finish-owned payload noted is_new none a id h' g)
        | inr e ↦
            rw (routed, e)
              (finish-owned payload (record noted { status = new_status }) is_new
                (some (
                  emit w payload.session_id (record noted { status = new_status }) session
                    (payload.event == codes "PreToolUse")))
                a id h' g)
      ]

pub handle_owned-owned :
    (w : World) (payload : HookPayload) (claim : Claim) (st : ThreadState) (is_new : Bool)
    (a : Adapter) (id : Text)
    → is_owned (some st) ≡ true
    → is_owned (a.threads id) ≡ true
    → is_owned ((handle_owned w payload claim st is_new a).adapter.threads id) ≡ true
unfolding handle_owned disown
handle_owned-owned w payload claim st is_new a id h g =
    elim (Bool-cases (st.routing_pid != 0 && st.pid == 0)) [
      | inl e ↦
          rw (handle_owned, e, disown)
            (finish-owned payload
              (record st {
                drop_logged = true;
                recheck_ownership = payload.event == codes "Stop" || st.recheck_ownership;
              })
              is_new none a id h g)
      | inr e ↦ elim (Bool-cases (resolve_state_session w st payload.cwd == [])) [
        | inl f ↦
            rw (handle_owned, e, f)
              (finish-owned payload (record st { drop_logged = true }) is_new none a id h g)
        | inr f ↦ rw (handle_owned, e, f) (routed-owned w payload _ _ st is_new a id h g)
      ]
    ]

pub owner_checked-owned :
    (w : World) (payload : HookPayload) (st : ThreadState)
    → is_owned (some st) ≡ true
    → is_owned (some (owner_checked w payload st)) ≡ true
unfolding owner_checked
owner_checked-owned w payload st h =
    check_ownership-owned w payload (update_routing payload st) (update_routing-owned payload st h)

-- The thread of a payload, and the threads beside it.
pub thread_of-owned :
    (payload : HookPayload) (a : Adapter) (id : Text)
    → is_owned (a.threads payload.session_id) ≡ true
    → is_owned (a.threads id) ≡ true
    → (is_owned (some (thread_of payload a).1) ≡ true)
      × (is_owned ((thread_of payload a).0.threads id) ≡ true)
unfolding thread_of
thread_of-owned payload a id h g = elim (Option-cases (a.threads payload.session_id)) [
  | inl e ↦ rw (thread_of, e) (refl, g)
  | inr (st, e) ↦ rw (thread_of, e) (rw e at h, g)
]
