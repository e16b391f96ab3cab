-- ===== src/ClaudeWatch/Dialogs.antt =====
-- Open dialogs and turn starts in `HandleHook` of apps/server-go/internal/ccwatch/ccwatch.go.
use tail_claude_mux.Wire.Hook.{HookPayload}
use tail_claude_mux.ClaudeWatch.Registry.{session_status_waiting, Live}
use tail_claude_mux.ClaudeWatch.Cases.{
  handle_hook-dropped, handle_hook-routed, is_for_claude, refreshed, session_of, found_state,
}
use tail_claude_mux.ClaudeWatch.Words.{is_claude_command, resolve_status, is_wait_owned}
use tail_claude_mux.ClaudeWatch.Hooks.{
  kind_of, note_tool, handle_hook, routed, emit_kept, is_repeat, prepared, dialog_open,
  refresh_from_registry, refresh_file, note_drop, update_pid, snapshot_pid, thread_of,
}
use tail_claude_mux.ClaudeWatch.State.{emit, keep_thread, World, Adapter, ThreadState}
use tail_claude_mux.ClaudeWatch.Thinking.{track_transcript}
use tail_claude_mux.Wire.{
  AgentEvent, other, interrupted, waiting, error, done, running, idle, is_waiting, Status,
}
use tail_claude_mux.Base.{
  Bool, none, not, ◌∙◌, text_eq, text_beq, codes, Text, option_eq, ne→==, ==→eq, ==_refl, nat_eq,
  ◌==◌, ◌!=◌, Option-cases, Bool-cases, if◌then◌else◌, arith, [], some, ◌||◌, ◌&&◌, false, true,
  inr, inl, ◌≢◌, refl, ◌≡◌,
}

-- The state shows the same call at the same status.
abbrev pub Keeps : ThreadState → ThreadState → Type 0
Keeps before after =
    (after.status ≡ before.status)
    × (after.last_tool_description ≡ before.last_tool_description)
    × (after.last_tool_verb ≡ before.last_tool_verb)

update_pid-Keeps : (payload : HookPayload) (st : ThreadState) → Keeps st (update_pid payload st)
unfolding update_pid
update_pid-Keeps payload st =
    elim (Bool-cases (
      payload.pid == 0
      || payload.process_snapshot == []
      || snapshot_pid is_claude_command payload == 0)) [
        | inl e ↦ rw (update_pid, e) (refl, refl, refl)
        | inr e ↦ rw (update_pid, e) (refl, refl, refl)
      ]

prepared-Keeps :
    (w : World) (payload : HookPayload) (st : ThreadState) → Keeps st (prepared w payload st)
unfolding prepared
prepared-Keeps w payload st = update_pid-Keeps payload (record st {
  thinking = track_transcript w.files payload.transcript_path payload.session_id st.thinking;
})

note_drop-Keeps : (w : World) (id : Text) (st : ThreadState) → Keeps st (note_drop w id st)
unfolding note_drop
note_drop-Keeps w id st = elim (Bool-cases (st.pid == 0)) [
  | inl e ↦ rw (note_drop, e) (refl, refl, refl)
  | inr e ↦ elim (Option-cases (w.session_file st.pid)) [
    | inl f ↦ rw (note_drop, e, f) (refl, refl, refl)
    | inr (file, f) ↦
        elim (Bool-cases (file.session_id == id && file.kind != codes "interactive")) [
          | inl g ↦ rw (note_drop, e, f, g) (refl, refl, refl)
          | inr g ↦ rw (note_drop, e, f, g) (refl, refl, refl)
        ]
  ]
]

-- A session file that identifies the thread of a known process.
module _ (w : World) (id : Text) (st : ThreadState) (file : Live) (known : st.pid ≢ 0)
    (read : w.session_file st.pid ≡ some file) (same : file.session_id ≡ id) where
  refresh_from_registry-matched : refresh_from_registry w id st ≡ record st {
    subagent = file.agent;
    thread_name = if file.name != [] then file.name else st.thread_name;
  }
  unfolding refresh_from_registry
  refresh_from_registry-matched =
      let matched : (file.session_id == id) ≡ true = rw same (==_refl id) in
      rw (refresh_from_registry, ne→== st.pid 0 known, refresh_file, read, matched) refl

  dialog_open-waiting :
      file.status ≡ session_status_waiting
      → dialog_open w id (refresh_from_registry w id st).pid ≡ true
  unfolding dialog_open
  dialog_open-waiting shown =
      rw
        (
          refresh_from_registry-matched,
          dialog_open,
          ne→== st.pid 0 known,
          read,
          same,
          shown,
          ==_refl id,
          ==_refl session_status_waiting,
        )
        refl

wait_owned_goes_on :
    (event : Text) → is_wait_owned event ≡ true → (event == codes "SessionEnd") ≡ false
unfolding text_beq
wait_owned_goes_on event h = elim (Bool-cases (event == codes "SessionEnd")) [
  | inr e ↦ e
  | inl e ↦
      let q : event ≡ codes "SessionEnd" = ==→eq event (codes "SessionEnd") e in
      let h' : false ≡ true = rw q at h in absurd (ground arith)
]

not_waiting : (s : Status) → s ≢ Status.waiting → is_waiting s ≡ false
not_waiting idle h = refl
not_waiting running h = refl
not_waiting done h = refl
not_waiting error h = refl
not_waiting waiting h = absurd (h refl)
not_waiting interrupted h = refl
not_waiting (other t) h = refl

found-Keeps :
    (w : World) (payload : HookPayload) (a : Adapter)
    → Keeps (thread_of payload a).1 (found_state w payload a)
found-Keeps w payload a = prepared-Keeps w payload (thread_of payload a).1

-- A kept thread, as the watcher has it.
kept_thread :
    (id : Text) (before st : ThreadState) (a : Adapter)
    → Keeps before st
    → (after : ThreadState) × ((keep_thread id st a).threads id ≡ some after) × Keeps before after
kept_thread id before st a k = (st, rw (==_refl id) refl, k)

-- While the session file of a thread's process shows that thread's dialog open, a tool or
-- notification hook that would leave waiting emits nothing, and the thread keeps its status and the
-- call that it is shown at.
pub handle_hook-open_dialog :
    (w : World) (payload : HookPayload) (a : Adapter) (file : Live) (new_status : Status)
    → is_for_claude payload a ≡ true
    → resolve_status payload ≡ some new_status
    → new_status ≢ Status.waiting
    → is_wait_owned payload.event ≡ true
    → (found_state w payload a).pid ≢ 0
    → w.session_file (found_state w payload a).pid ≡ some file
    → file.session_id ≡ payload.session_id
    → file.status ≡ session_status_waiting
    → ((handle_hook w payload a).emitted ≡ none)
      × ((after : ThreadState) × ((handle_hook w payload a).adapter.threads payload.session_id
            ≡ some after)
          × Keeps (thread_of payload a).1 after)
unfolding routed
handle_hook-open_dialog w payload a file new_status g r moves owned known shown_by same shown =
    let st = found_state w payload a in
    let f = found-Keeps w payload a in
    elim (Bool-cases (session_of w payload a == [])) [
      | inl s ↦
          let d = note_drop-Keeps w payload.session_id st in
          rw (handle_hook-dropped w payload a new_status g r s) (
            refl,
            kept_thread payload.session_id (thread_of payload a).1
                (note_drop w payload.session_id st) (thread_of payload a).0
                (d.0 ∙ f.0, d.1 ∙ f.1, d.2 ∙ f.2),
          )
      | inr s ↦
          let goes_on = wait_owned_goes_on payload.event owned in
          let open_ = dialog_open-waiting w payload.session_id st file known shown_by same shown in
          let guard : (not (is_waiting new_status)
                && is_wait_owned payload.event
                && dialog_open w payload.session_id (refreshed w payload a).pid)
              ≡ true =
            rw (not_waiting new_status moves, owned, open_) refl in
          rw (handle_hook-routed w payload a new_status g r s, routed, goes_on, guard)
            (
              refl,
              kept_thread payload.session_id (thread_of payload a).1 (refreshed w payload a)
                  (thread_of payload a).0
                  (rw
                    (refresh_from_registry-matched w payload.session_id st file known shown_by same)
                    f),
            )
    ]

is_repeat-turn :
    (is_new : Bool) (event : Text) (status new_status : Status)
    → (event == codes "UserPromptSubmit") ≡ true
    → is_repeat is_new event status new_status ≡ false
unfolding is_repeat
is_repeat-turn is_new event status new_status h = rw (is_repeat, h) (ground arith)

-- A turn that starts always reaches the tracker: whatever the watcher holds, once it is started, a
-- UserPromptSubmit of Claude Code that a session is found for emits a running event there.
pub handle_hook-turn_starts :
    (w : World) (payload : HookPayload) (a : Adapter)
    → is_for_claude payload a ≡ true
    → payload.event ≡ codes "UserPromptSubmit"
    → session_of w payload a ≢ []
    → (ev : AgentEvent) × ((handle_hook w payload a).emitted ≡ some ev)
      × (ev.status ≡ Status.running)
      × (ev.session ≡ session_of w payload a)
unfolding routed resolve_status emit_kept emit kind_of text_beq
handle_hook-turn_starts w payload a g e s =
    let r : resolve_status payload ≡ some Status.running = rw (resolve_status, e) refl in
    let goes_on : (payload.event == codes "SessionEnd") ≡ false = rw e refl in
    let free : is_wait_owned payload.event ≡ false = rw e refl in
    rw
      (
        handle_hook-routed w payload a Status.running g r (ne→== (session_of w payload a) [] s),
        routed,
        goes_on,
        free,
        is_repeat-turn (thread_of payload a).2 payload.event (refreshed w payload a).status
            Status.running (rw e (==_refl (codes "UserPromptSubmit"))),
      )
      (
        (emit w payload.session_id
            (record (note_tool w payload (refreshed w payload a)) { status = Status.running })
            (session_of w payload a) (kind_of payload.event)).1,
        refl,
        refl,
        refl,
      )
