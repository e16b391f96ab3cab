-- ===== src/CodexWatch/Reported.antt =====
-- What a hook emits, and for whom, in apps/server-go/internal/codexwatch/codexwatch.go.
use tail_claude_mux.Wire.Hook.{HookPayload}
use tail_claude_mux.CodexWatch.Owned.{
  thread_of-owned, owner_checked-owned, is_owned, noted-SamePids, after_stop-SamePids,
}
use tail_claude_mux.Base.{
  ==→ne, ◌!=◌, Option-cases, [], ◌||◌, false, true, ◌≢◌, text_eq, codes, Text, option_eq, ==_refl,
  nat_eq, ◌==◌, Bool-cases, subst, arith, some, none, ◌&&◌, not, Bool, inr, inl, ◌∙◌, sym, refl,
  ◌≡◌,
}
use tail_claude_mux.Wire.{AgentEvent, Status, status_eq}
use tail_claude_mux.CodexWatch.State.{
  resolve_state_session, Claim, emit, start_lookup, World, Adapter, ThreadState,
}
use tail_claude_mux.CodexWatch.Hooks.{
  handle_hook, handle_owned, claimed_status, disown, owner_checked, thread_of, note_prompt,
  after_stop, routed, finish, Hooked, note_tool,
}

-- An emitted event against the thread that the watcher holds after the hook.
abbrev pub Reports : HookPayload → Hooked → AgentEvent → Type 0
Reports payload h ev =
    (st : ThreadState) × (h.adapter.threads payload.session_id ≡ some st)
    × (ev.status ≡ st.status)
    × (ev.thread_id ≡ payload.session_id)
    × (ev.pid ≡ st.pid)
    × (st.pid ≡ st.routing_pid)

after_stop-status :
    (payload : HookPayload) (st : ThreadState) → (after_stop payload st).0.status ≡ st.status
unfolding after_stop start_lookup
after_stop-status payload st = elim (Bool-cases (payload.event == codes "Stop")) [
  | inr e ↦ rw (after_stop, e) refl
  | inl e ↦ elim (Bool-cases st.name_lookup_in_flight) [
    | inl f ↦ rw (after_stop, e, start_lookup, f) refl
    | inr f ↦ rw (after_stop, e, start_lookup, f) refl
  ]
]

routed-Reports :
    (w : World) (payload : HookPayload) (new_status : Status) (session : Text) (st : ThreadState)
    (is_new : Bool) (a : Adapter) (ev : AgentEvent)
    → st.pid ≡ st.routing_pid
    → (routed w payload new_status session st is_new a).emitted ≡ some ev
    → (ev.session ≡ session) × Reports payload (routed w payload new_status session st is_new a) ev
unfolding routed finish emit
routed-Reports w payload new_status session st is_new a ev own h =
    let noted = note_prompt payload (note_tool w payload st) in
    let told : ThreadState = record noted { status = new_status } in
    elim (Bool-cases (
      st.status == new_status
      && not is_new
      && st.last_tool_description == noted.last_tool_description
      && not (payload.event == codes "PreToolUse"))) [
        | inl e ↦ let q : none ≡ some ev = rw (routed, e) at h in absurd (ground arith)
        | inr e ↦
            let said =
              emit w payload.session_id told session (payload.event == codes "PreToolUse") in
            let q : some said ≡ some ev = rw (routed, e) at h in
            let same : said ≡ ev = cc in
            let (p, r) = noted-SamePids w payload st in
            let (p', r') = after_stop-SamePids payload told in
            rw (routed, e)
              (subst
                (λ x.
                  (x.session ≡ session)
                  × Reports payload (finish payload told is_new (some said) a) x)
                same
                (
                  refl,
                  (
                    (after_stop payload told).0,
                    rw (==_refl payload.session_id) refl,
                    sym (after_stop-status payload told),
                    refl,
                    sym p',
                    p' ∙ p ∙ own ∙ sym (r' ∙ r),
                  ),
                ))
      ]

is_owner :
    (st : ThreadState)
    → is_owned (some st) ≡ true
    → (st.routing_pid != 0 && st.pid == 0) ≡ false
    → st.pid ≡ st.routing_pid
is_owner st h e = ground arith

handle_owned-Reports :
    (w : World) (payload : HookPayload) (claim : Claim) (st : ThreadState) (is_new : Bool)
    (a : Adapter) (ev : AgentEvent)
    → is_owned (some st) ≡ true
    → (handle_owned w payload claim st is_new a).emitted ≡ some ev
    → (ev.session ≢ []) × Reports payload (handle_owned w payload claim st is_new a) ev
unfolding handle_owned disown finish
handle_owned-Reports w payload claim st is_new a ev own h =
    elim (Bool-cases (st.routing_pid != 0 && st.pid == 0)) [
      | inl e ↦
          let q : none ≡ some ev = rw (handle_owned, e, disown, finish) at h in
          absurd (ground arith)
      | inr e ↦
          let session = resolve_state_session w st payload.cwd in
          elim (Bool-cases (session == [])) [
            | inl f ↦
                let q : none ≡ some ev = rw (handle_owned, e, f, finish) at h in
                absurd (ground arith)
            | inr f ↦
                let new_status = claimed_status w claim st.pid payload.session_id in
                let h' : (routed w payload new_status session st is_new a).emitted ≡ some ev =
                  rw (handle_owned, e, f) at h in
                let (routed_to, reports) =
                  routed-Reports w payload new_status session st is_new a ev (is_owner st own e)
                    h' in
                rw (handle_owned, e, f) (λ q. ==→ne session [] f (sym routed_to ∙ q), reports)
          ]
    ]

-- An event that a hook emits has a session, the thread's id and its status after the hook, and the
-- pid that the thread's hooks are routed by, which is then the thread's own pid. The thread's pid is the routed one, or unknown, before.
pub handle_hook-owner :
    (w : World) (payload : HookPayload) (a : Adapter) (ev : AgentEvent)
    → is_owned (a.threads payload.session_id) ≡ true
    → (handle_hook w payload a).emitted ≡ some ev
    → (ev.session ≢ []) × Reports payload (handle_hook w payload a) ev
unfolding handle_hook
handle_hook-owner w payload a ev own h =
    elim (Bool-cases (payload.agent != codes "codex" || not a.started)) [
      | inl e ↦ let q : none ≡ some ev = rw (handle_hook, e) at h in absurd (ground arith)
      | inr e ↦ elim (Option-cases (w.claim_for payload.event)) [
        | inl f ↦ let q : none ≡ some ev = rw (handle_hook, e, f) at h in absurd (ground arith)
        | inr (claim, f) ↦
            let (found, _) = thread_of-owned payload a payload.session_id own own in
            let st = owner_checked w payload (thread_of payload a).1 in
            let h' : (handle_owned w payload claim st (thread_of payload a).2
                  (thread_of payload a).0).emitted
                ≡ some ev =
              rw (handle_hook, e, f) at h in
            rw (handle_hook, e, f)
              (handle_owned-Reports w payload claim st (thread_of payload a).2
                (thread_of payload a).0 ev
                (owner_checked-owned w payload (thread_of payload a).1 found) h')
      ]
    ]
