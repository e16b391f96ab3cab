-- ===== src/CodexWatch/Owners.antt =====
-- The owners of the threads over time, in apps/server-go/internal/codexwatch/codexwatch.go.
use tail_claude_mux.Wire.Hook.{HookPayload}
use tail_claude_mux.CodexWatch.Owned.{
  thread_of-owned, owner_checked-owned, handle_owned-owned, kept-owned, is_owned,
}
use tail_claude_mux.CodexWatch.Rollouts.{trailing_rollout_state}
use tail_claude_mux.Base.{
  text_eq, codes, Text, option_eq, nat_eq, ◌==◌, ◌!=◌, Option-cases, Bool-cases, ltb, ◌∷◌, [], List,
  some, ◌||◌, not, false, true, inr, inl, refl, ◌≡◌, ◌-◌, ◌+◌, ℕ,
}
use tail_claude_mux.CodexWatch.Seed.{stale_ms, is_inactive}
use tail_claude_mux.CodexWatch.State.{
  lookup_thread_name, wire_status, Rollout, World, Adapter, new_adapter, name_found,
}
use tail_claude_mux.CodexWatch.Hooks.{owner_checked, thread_of, handle_hook}
use tail_claude_mux.CodexWatch.Seed.{
  start, Seeding, seed_rollouts, seed_thread, seed_rollout, seeded_thread,
}

-- What happens to the watcher: it starts, a hook comes, or a name's lookup ends.
pub data Event : Type 0 where
  started : World → Event
  hooked : World → HookPayload → Event
  looked_up : World → Text → ℕ → Event

abbrev pub step : Event → Adapter → Adapter
step (started w) a = (start w a).adapter
step (hooked w payload) a = (handle_hook w payload a).adapter
step (looked_up w thread_id serial) a = (name_found w thread_id serial a).0

unfoldable pub run : List Event → Adapter → Adapter
unfolding start handle_hook name_found
run [] a = a
run (ev ∷ events) a = run events (step ev a)

seed_rollout-owned :
    (w : World) (r : Rollout) (s : Seeding) (id : Text)
    → is_owned (s.adapter.threads id) ≡ true
    → is_owned ((seed_rollout w r s).adapter.threads id) ≡ true
unfolding seed_rollout seed_thread
seed_rollout-owned w r s id h = elim (Bool-cases (ltb stale_ms (w.now - r.mod_time))) [
  | inl e ↦ rw (seed_rollout, e) h
  | inr e ↦ elim (Option-cases (s.adapter.threads r.session_id)) [
    | inr (st, f) ↦ rw (seed_rollout, e, f) h
    | inl f ↦ elim (Option-cases (trailing_rollout_state w r.path)) [
      | inl g ↦ rw (seed_rollout, e, f, g) h
      | inr (found, g) ↦
          elim (Bool-cases (
            is_inactive (wire_status found.status)
            || found.cwd == []
            || w.resolve_session found.cwd == [])) [
              | inl i ↦ rw (seed_rollout, e, f, g, seed_thread, i) h
              | inr i ↦
                  rw (seed_rollout, e, f, g, seed_thread, i)
                    (kept-owned r.session_id id
                      (seeded_thread s.adapter.next_serial (wire_status found.status)
                        (lookup_thread_name w r.session_id) found.cwd)
                      (record s.adapter { next_serial = s.adapter.next_serial + 1 }) refl h)
            ]
    ]
  ]
]

seed_rollouts-owned :
    (w : World) (rollouts : List Rollout) (s : Seeding) (id : Text)
    → is_owned (s.adapter.threads id) ≡ true
    → is_owned ((seed_rollouts w rollouts s).adapter.threads id) ≡ true
unfolding seed_rollouts
seed_rollouts-owned w [] s id h = h
seed_rollouts-owned w (r ∷ rollouts) s id h =
    seed_rollouts-owned w rollouts (seed_rollout w r s) id (seed_rollout-owned w r s id h)

name_found-owned :
    (w : World) (thread_id : Text) (serial : ℕ) (a : Adapter) (id : Text)
    → is_owned (a.threads thread_id) ≡ true
    → is_owned (a.threads id) ≡ true
    → is_owned ((name_found w thread_id serial a).0.threads id) ≡ true
unfolding name_found
name_found-owned w thread_id serial a id h g = elim (Option-cases (a.threads thread_id)) [
  | inl e ↦ rw (name_found, e) g
  | inr (st, e) ↦
      let own : is_owned (some st) ≡ true = rw e at h in
      let name = lookup_thread_name w thread_id in
      elim (Bool-cases (st.serial != serial)) [
        | inl f ↦ rw (name_found, e, f) g
        | inr f ↦ elim (Bool-cases (name == [])) [
          | inl i ↦
              rw (name_found, e, f, i)
                (kept-owned thread_id id (record st { name_lookup_in_flight = false }) a own g)
          | inr i ↦ elim (Bool-cases (st.thread_name == name)) [
            | inl j ↦
                rw (name_found, e, f, i, j)
                  (kept-owned thread_id id
                    (record st { name_lookup_in_flight = false; name_from_index = true }) a own g)
            | inr j ↦
                rw (name_found, e, f, i, j)
                  (kept-owned thread_id id
                    (record st {
                      name_lookup_in_flight = false;
                      name_from_index = true;
                      thread_name = name;
                    })
                    a own g)
          ]
        ]
      ]
]

pub handle_hook-owned :
    (w : World) (payload : HookPayload) (a : Adapter) (id : Text)
    → is_owned (a.threads payload.session_id) ≡ true
    → is_owned (a.threads id) ≡ true
    → is_owned ((handle_hook w payload a).adapter.threads id) ≡ true
unfolding handle_hook
handle_hook-owned w payload a id h g =
    elim (Bool-cases (payload.agent != codes "codex" || not a.started)) [
      | inl e ↦ rw (handle_hook, e) g
      | inr e ↦ elim (Option-cases (w.claim_for payload.event)) [
        | inl f ↦ rw (handle_hook, e, f) g
        | inr (claim, f) ↦
            let (own, others) = thread_of-owned payload a id h g in
            rw (handle_hook, e, f)
              (handle_owned-owned w payload claim (owner_checked w payload (thread_of payload a).1)
                (thread_of payload a).2 (thread_of payload a).0 id
                (owner_checked-owned w payload (thread_of payload a).1 own) others)
      ]
    ]

-- Every thread that a watcher holds is owned, as a claim on all of them at once.
abbrev AllOwned : Adapter → Type 0
AllOwned a = (id : Text) → is_owned (a.threads id) ≡ true

step-AllOwned : (ev : Event) (a : Adapter) → AllOwned a → AllOwned (step ev a)
unfolding start
step-AllOwned (started w) a h id =
    seed_rollouts-owned w w.rollouts
      (record { adapter = record a { started = true }; emitted = [] }) id (h id)
step-AllOwned (hooked w payload) a h id =
    handle_hook-owned w payload a id (h payload.session_id) (h id)
step-AllOwned (looked_up w thread_id serial) a h id =
    name_found-owned w thread_id serial a id (h thread_id) (h id)

run-AllOwned : (events : List Event) (a : Adapter) → AllOwned a → AllOwned (run events a)
unfolding run
run-AllOwned [] a h = h
run-AllOwned (ev ∷ events) a h = run-AllOwned events (step ev a) (step-AllOwned ev a h)

-- Whatever starts, hooks and lookups come, in whatever order, the pid of a thread is unknown or the
-- one that its hooks are routed by.
pub run-owned :
    (events : List Event) (id : Text) → is_owned ((run events new_adapter).threads id) ≡ true
unfolding new_adapter
run-owned events = run-AllOwned events new_adapter (λ id. refl)
