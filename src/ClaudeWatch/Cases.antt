-- ===== src/ClaudeWatch/Cases.antt =====
-- The ways that `HandleHook` of apps/server-go/internal/ccwatch/ccwatch.go can go.
use tail_claude_mux.Wire.Hook.{HookPayload}
use tail_claude_mux.ClaudeWatch.Words.{resolve_status}
use tail_claude_mux.ClaudeWatch.Hooks.{
  handle_hook, prepared, routed, silent, Hooked, refresh_from_registry, note_drop, route, thread_of,
}
use tail_claude_mux.ClaudeWatch.State.{World, Adapter, ThreadState}
use tail_claude_mux.Wire.{Status}
use tail_claude_mux.Base.{
  text_eq, codes, Text, option_eq, nat_eq, ◌==◌, ◌!=◌, Option-cases, Bool-cases, arith, [], some,
  none, ◌||◌, ◌&&◌, not, false, true, Bool, inr, inl, ◌⊎◌, refl, ◌≡◌,
}

abbrev pub ignored : Adapter → Hooked
ignored a = record { adapter = a; emitted = none; lookup = false }

-- The state of the payload's thread when its session is looked for.
abbrev pub found_state : World → HookPayload → Adapter → ThreadState
found_state w payload a = prepared w payload (thread_of payload a).1

abbrev pub session_of : World → HookPayload → Adapter → Text
session_of w payload a = route w payload (found_state w payload a)

abbrev pub refreshed : World → HookPayload → Adapter → ThreadState
refreshed w payload a = refresh_from_registry w payload.session_id (found_state w payload a)

abbrev pub dropped_hook : World → HookPayload → Adapter → Hooked
dropped_hook w payload a =
    silent payload (note_drop w payload.session_id (found_state w payload a))
      (thread_of payload a).2 (thread_of payload a).0

abbrev pub routed_hook : World → HookPayload → Status → Adapter → Hooked
routed_hook w payload new_status a =
    routed w payload new_status (session_of w payload a) (refreshed w payload a)
      (thread_of payload a).2 (thread_of payload a).0

abbrev pub is_for_claude : HookPayload → Adapter → Bool
is_for_claude payload a =
    not ((payload.agent != [] && payload.agent != codes "claude-code") || not a.started)

pub handle_hook-routed :
    (w : World) (payload : HookPayload) (a : Adapter) (new_status : Status)
    → is_for_claude payload a ≡ true
    → resolve_status payload ≡ some new_status
    → (session_of w payload a == []) ≡ false
    → handle_hook w payload a ≡ routed_hook w payload new_status a
unfolding handle_hook
handle_hook-routed w payload a new_status g e r =
    let g' : ((payload.agent != [] && payload.agent != codes "claude-code") || not a.started)
        ≡ false =
      ground arith in
    rw (handle_hook, g', e, r) refl

pub handle_hook-dropped :
    (w : World) (payload : HookPayload) (a : Adapter) (new_status : Status)
    → is_for_claude payload a ≡ true
    → resolve_status payload ≡ some new_status
    → (session_of w payload a == []) ≡ true
    → handle_hook w payload a ≡ dropped_hook w payload a
unfolding handle_hook
handle_hook-dropped w payload a new_status g e r =
    let g' : ((payload.agent != [] && payload.agent != codes "claude-code") || not a.started)
        ≡ false =
      ground arith in
    rw (handle_hook, g', e, r) refl

pub handle_hook-cases :
    (w : World) (payload : HookPayload) (a : Adapter)
    → (handle_hook w payload a ≡ ignored a)
      ⊎ ((handle_hook w payload a ≡ dropped_hook w payload a)
          ⊎ ((new_status : Status) × (resolve_status payload ≡ some new_status)
              × ((session_of w payload a == []) ≡ false)
              × (handle_hook w payload a ≡ routed_hook w payload new_status a)))
unfolding handle_hook
handle_hook-cases w payload a =
    elim (Bool-cases
      ((payload.agent != [] && payload.agent != codes "claude-code") || not a.started)) [
        | inl g ↦ inl (rw (handle_hook, g) refl)
        | inr g ↦ elim (Option-cases (resolve_status payload)) [
          | inl e ↦ inl (rw (handle_hook, g, e) refl)
          | inr (new_status, e) ↦ elim (Bool-cases (session_of w payload a == [])) [
            | inl r ↦ inr (inl (rw (handle_hook, g, e, r) refl))
            | inr r ↦ inr (inr (new_status, e, r, rw (handle_hook, g, e, r) refl))
          ]
        ]
      ]
