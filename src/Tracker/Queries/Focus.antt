-- ===== src/Tracker/Queries/Focus.antt =====
-- The unseen flags and the active sessions: `IsUnseen`, `MarkSeen`, `HandleFocus`,
-- `SetActiveSessions`.
use tail_claude_mux.Tracker.Keys.{unseen_key}
use tail_claude_mux.Tracker.State.{rows_of, Tracker}
use tail_claude_mux.Base.{
  ap, Bool-cases, inr, inl, refl, text_eq, text_beq_iff, Text, any, update, keys, option_eq, nat_eq,
  ◌==◌, if◌then◌else◌, arith, ◌∷◌, [], List, ◌&&◌, not, false, true, Bool, ◌≡◌,
}

unfoldable pub is_unseen : Text → Tracker → Bool
is_unseen s t = any (λ key. t.unseen (unseen_key s key)) (keys (rows_of t s))

-- The loop that clears the flags of the session's rows.
unfoldable clear_flags : Text → List Text → (Text → Bool) → Text → Bool
clear_flags s [] flags = flags
clear_flags s (k ∷ ks) flags = clear_flags s ks (update flags (unseen_key s k) false)

unfoldable pub mark_seen : Text → Tracker → Tracker × Bool
unfolding clear_flags is_unseen
mark_seen s t =
    if not (is_unseen s t)
    then (t, false)
    else (record t { unseen = clear_flags s (keys (rows_of t s)) t.unseen }, true)

unfoldable set_active_sessions : List Text → Tracker → Tracker
set_active_sessions sessions t = record t { active = λ s. any (λ x. x == s) sessions }

unfoldable handle_focus : Text → Tracker → Tracker × Bool
unfolding mark_seen
handle_focus s t = mark_seen s (record t { active = λ x. s == x })

clear_flags-lem :
    (s : Text) (ks : List Text) (flags : Text → Bool) (u : Text)
    → clear_flags s ks flags u ≡ (flags u && not (any (λ k. unseen_key s k == u) ks))
unfolding clear_flags
clear_flags-lem s [] flags u = ground arith
clear_flags-lem s (k ∷ ks) flags u =
    ground (arith, clear_flags-lem s ks (update flags (unseen_key s k) false) u)

cleared :
    (s : Text) (ks : List Text) (k : Text)
    → any (λ j. j == k) ks ≡ true
    → any (λ j. unseen_key s j == unseen_key s k) ks ≡ true
cleared s [] k h = cc
cleared s (j ∷ ks) k h =
    ground (arith, cleared s ks k, text_beq_iff j k, text_beq_iff (unseen_key s j) (unseen_key s k))

any_witness :
    (p : Text → Bool) (xs : List Text)
    → any p xs ≡ true
    → (x : Text) × (p x ≡ true) × (any (λ j. j == x) xs ≡ true)
any_witness p [] h = absurd (cc)
any_witness p (x ∷ xs) h = elim (Bool-cases (p x)) [
  | inl e ↦ (x, e, ground (arith, text_beq_iff x x))
  | inr e ↦ let (y, py, m) = any_witness p xs (ground (arith, h, e)) in (y, py, ground (arith, m))
]

all_cleared :
    (s : Text) (ks : List Text) (flags : Text → Bool)
    → any (λ k. clear_flags s ks flags (unseen_key s k)) ks ≡ false
all_cleared s ks flags = elim (Bool-cases (any (λ k. clear_flags s ks flags (unseen_key s k)) ks)) [
  | inl h ↦
      let (k, up, m) = any_witness (λ k. clear_flags s ks flags (unseen_key s k)) ks h in
      absurd (ground (arith, up, clear_flags-lem s ks flags (unseen_key s k), cleared s ks k m))
  | inr h ↦ h
]

flag_down :
    (s : Text) (ks : List Text) (flags : Text → Bool) (u : Text)
    → any (λ k. flags (unseen_key s k)) ks ≡ false
    → flags u ≡ (flags u && not (any (λ k. unseen_key s k == u) ks))
flag_down s [] flags u h = ground arith
flag_down s (k ∷ ks) flags u h =
    ground (arith, flag_down s ks flags u, text_beq_iff (unseen_key s k) u)

mark_seen-active : (s : Text) (t : Tracker) → (mark_seen s t).0.active ≡ t.active
unfolding mark_seen
mark_seen-active s t = elim (Bool-cases (is_unseen s t)) [
  | inl h ↦ rw (h, mark_seen)
  | inr h ↦ rw (h, mark_seen)
]

-- Marking a session seen leaves it with no unseen row and reports whether it had one; it changes
-- no row, and clears the flags of the session's own rows only.
mark_seen_lem :
    (s : Text) (t : Tracker) (u : Text)
    → (is_unseen s (mark_seen s t).0 ≡ false)
      × ((mark_seen s t).1 ≡ is_unseen s t)
      × ((mark_seen s t).0.instances ≡ t.instances)
      × ((mark_seen s t).0.unseen u
          ≡ (t.unseen u && not (any (λ k. unseen_key s k == u) (keys (rows_of t s)))))
unfolding mark_seen is_unseen rows_of
mark_seen_lem s t u = elim (Bool-cases (is_unseen s t)) [
  | inl h ↦
      rw (h, mark_seen)
        (
          all_cleared s (keys (rows_of t s)) t.unseen,
          refl,
          refl,
          clear_flags-lem s (keys (rows_of t s)) t.unseen u,
        )
  | inr h ↦ rw (h, mark_seen) (h, refl, refl, flag_down s (keys (rows_of t s)) t.unseen u h)
]

-- Focusing a session marks it seen, with the same report, and makes it the one active session.
handle_focus-seen :
    (s : Text) (t : Tracker) (x : Text)
    → (is_unseen s (handle_focus s t).0 ≡ false)
      × ((handle_focus s t).1 ≡ is_unseen s t)
      × ((handle_focus s t).0.active x ≡ (s == x))
unfolding handle_focus is_unseen rows_of
handle_focus-seen s t x =
    let t' = record t { active = λ x. s == x } in
    let (seen, report, _, _) = mark_seen_lem s t' [] in
    (seen, report, ap (λ f. f x) (mark_seen-active s t'))
