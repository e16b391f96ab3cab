-- ===== src/ClaudeWatch/Emitted.antt =====
-- The events that `HandleHook` of apps/server-go/internal/ccwatch/ccwatch.go emits.
use tail_claude_mux.ClaudeWatch.Cases.{
  handle_hook-cases, routed_hook, refreshed, session_of, found_state,
}
use tail_claude_mux.Wire.Hook.{HookPayload}
use tail_claude_mux.ClaudeWatch.Words.{is_wait_owned, resolve_status}
use tail_claude_mux.ClaudeWatch.Hooks.{
  handle_hook, routed, is_repeat, note_tool, dialog_open, route, thread_of, emit_kept, kind_of,
  Hooked,
}
use tail_claude_mux.ClaudeWatch.State.{
  is_invoked, is_ended, emit, EmitKind, drop_thread, World, Adapter, ThreadState,
}
use tail_claude_mux.Wire.{is_waiting, AgentEvent, Status}
use tail_claude_mux.Base.{
  ==→ne, ◌!=◌, if◌then◌else◌, subst, arith, [], ◌&&◌, not, ◌≢◌, ◌∙◌, text_eq, text_beq, codes, Text,
  option_eq, ==→eq, ==_refl, nat_eq, ◌==◌, Bool-cases, some, none, Option, false, true, Bool, inr,
  inl, sym, refl, ◌≡◌,
}

-- A thread after its event: forgotten once it has ended, else at the event's status.
abbrev pub After : Bool → Status → Option ThreadState → Type 0
After true status o = o ≡ none
After false status o = (st : ThreadState) × (o ≡ some st) × (st.status ≡ status)

After-kept :
    (ends : Bool) (status : Status) (o : Option ThreadState) (st : ThreadState)
    → ends ≡ false
    → o ≡ some st
    → st.status ≡ status
    → After ends status o
After-kept true status o st e q s = absurd (ground arith)
After-kept false status o st e q s = (st, q, s)

-- An emitted event against the hook, its session and the watcher after it.
pub record Reports (w : World) (payload : HookPayload) (session : Text) (h : Hooked)
    (ev : AgentEvent) : Type 0 where
  pub from_claude : ev.agent ≡ codes "claude-code"
  pub of_thread : ev.thread_id ≡ payload.session_id
  pub dated : ev.ts ≡ w.now
  pub status_of_hook : resolve_status payload ≡ some ev.status
  pub session_routed : ev.session ≡ session
  pub ends : ev.ended ≡ (payload.event == codes "SessionEnd")
  pub invokes : ev.tool_invoked ≡ (payload.event == codes "PreToolUse")
  pub thread_after : After ev.ended ev.status (h.adapter.threads payload.session_id)

kind_ends :
    (event : Text)
    → (event == codes "SessionEnd") ≡ false
    → is_ended (kind_of event) ≡ (event == codes "SessionEnd")
unfolding kind_of
kind_ends event e = elim (Bool-cases (event == codes "PreToolUse")) [
  | inl p ↦ rw (kind_of, p, e) refl
  | inr p ↦ rw (kind_of, p, e) refl
]

kind_invokes : (event : Text) → is_invoked (kind_of event) ≡ (event == codes "PreToolUse")
unfolding kind_of
kind_invokes event = elim (Bool-cases (event == codes "PreToolUse")) [
  | inl p ↦ rw (kind_of, p) refl
  | inr p ↦ rw (kind_of, p) refl
]

end_is_no_call :
    (event : Text) → (event == codes "SessionEnd") ≡ true → false ≡ (event == codes "PreToolUse")
unfolding text_beq
end_is_no_call event e = rw (==→eq event (codes "SessionEnd") e) refl

emit_kept-Reports :
    (w : World) (payload : HookPayload) (st : ThreadState) (session : Text) (lookup : Bool)
    (a : Adapter)
    → resolve_status payload ≡ some st.status
    → (payload.event == codes "SessionEnd") ≡ false
    → (ev : AgentEvent) × ((emit_kept w payload st session (kind_of payload.event) lookup a).emitted
        ≡ some ev)
      × Reports w payload session
          (emit_kept w payload st session (kind_of payload.event) lookup a)
          ev
unfolding emit_kept emit
emit_kept-Reports w payload st session lookup a r e = (
  (emit w payload.session_id st session (kind_of payload.event)).1,
  refl,
  record {
    from_claude = refl;
    of_thread = refl;
    dated = refl;
    status_of_hook = r;
    session_routed = refl;
    ends = kind_ends payload.event e;
    invokes = kind_invokes payload.event;
    thread_after =
        After-kept (is_ended (kind_of payload.event)) st.status _
          (emit w payload.session_id st session (kind_of payload.event)).0
          (kind_ends payload.event e ∙ e) (rw (==_refl payload.session_id) refl) refl;
  },
)

ended-Reports :
    (w : World) (payload : HookPayload) (st : ThreadState) (session : Text) (lookup : Bool)
    (a : Adapter)
    → resolve_status payload ≡ some st.status
    → (payload.event == codes "SessionEnd") ≡ true
    → let (st', ev) = emit w payload.session_id st session EmitKind.ended in
      Reports w payload session
        (record { adapter = drop_thread payload.session_id a; emitted = some ev; lookup = lookup })
        ev
unfolding emit
ended-Reports w payload st session lookup a r e = record {
  from_claude = refl;
  of_thread = refl;
  dated = refl;
  status_of_hook = r;
  session_routed = refl;
  ends = sym e;
  invokes = end_is_no_call payload.event e;
  thread_after = rw (==_refl payload.session_id) refl;
}

-- The event is among those that the hook emits, which reads the hook's record.
Reports-as :
    (w : World) (payload : HookPayload) (session : Text) (h : Hooked) (ev ev' : AgentEvent)
    → Reports w payload session h ev
    → h.emitted ≡ some ev
    → h.emitted ≡ some ev'
    → Reports w payload session h ev'
Reports-as w payload session h ev ev' r e e' =
    let q : some ev ≡ some ev' = sym e ∙ e' in
    let f : ev ≡ ev' = cc in subst (Reports w payload session h) f r

routed-Reports :
    (w : World) (payload : HookPayload) (new_status : Status) (session : Text) (st : ThreadState)
    (is_new : Bool) (a : Adapter) (ev : AgentEvent)
    → resolve_status payload ≡ some new_status
    → (routed w payload new_status session st is_new a).emitted ≡ some ev
    → Reports w payload session (routed w payload new_status session st is_new a) ev
unfolding routed
routed-Reports w payload new_status session st is_new a ev r h =
    elim (Bool-cases (payload.event == codes "SessionEnd")) [
      | inl e ↦
          let st' : ThreadState = record st {
            status = new_status;
            last_tool_description = [];
            last_tool_verb = [];
          } in
          let h' = rw (routed, e) at h in
          rw (routed, e)
            (Reports-as w payload session _ _ ev (ended-Reports w payload st' session is_new a r e)
              refl h')
      | inr e ↦
          elim (Bool-cases (
            not (is_waiting new_status)
            && is_wait_owned payload.event
            && dialog_open w payload.session_id st.pid)) [
              | inl d ↦ let h' : none ≡ some ev = rw (routed, e, d) at h in absurd (ground arith)
              | inr d ↦ elim (Bool-cases (is_repeat is_new payload.event st.status new_status)) [
                | inl s ↦
                    let h' : none ≡ some ev = rw (routed, e, d, s) at h in absurd (ground arith)
                | inr s ↦
                    let st' : ThreadState = record (note_tool w payload st) {
                      status = new_status;
                    } in
                    let (ev', q, reports) = emit_kept-Reports w payload st' session is_new a r e in
                    let h' : (emit_kept w payload st' session (kind_of payload.event) is_new
                          a).emitted
                        ≡ some ev =
                      rw (routed, e, d, s) at h in
                    rw (routed, e, d, s) (Reports-as w payload session _ ev' ev reports q h')
              ]
            ]
    ]

-- What a hook emits is one event of its own thread, at the status that stands for it. Its session
-- is never empty: it is that of the thread's process once a pid is known, and only without one
-- that of the working directory. The event ends the thread exactly for SessionEnd, and the watcher
-- then forgets it, else it holds the thread at the event's status; only PreToolUse counts as a call.
pub handle_hook-Reports :
    (w : World) (payload : HookPayload) (a : Adapter) (ev : AgentEvent)
    → (handle_hook w payload a).emitted ≡ some ev
    → (ev.session ≢ [])
      × (let st = found_state w payload a in
          Reports w payload
            (if st.pid != 0 then w.resolve_session_by_pid st.pid else w.resolve_session payload.cwd)
            (handle_hook w payload a)
            ev)
unfolding route
handle_hook-Reports w payload a ev h = elim (handle_hook-cases w payload a) [
  | inl e ↦ let h' : none ≡ some ev = rw e at h in absurd (ground arith)
  | inr (inl e) ↦ let h' : none ≡ some ev = rw e at h in absurd (ground arith)
  | inr (inr (new_status, r, known, e)) ↦
      let h' : (routed_hook w payload new_status a).emitted ≡ some ev = rw e at h in
      let reports =
        routed-Reports w payload new_status (session_of w payload a) (refreshed w payload a)
          (thread_of payload a).2 (thread_of payload a).0 ev r h' in
      (
        (λ q. ==→ne (session_of w payload a) [] known (sym reports.session_routed ∙ q)),
        rw e reports,
      )
]
