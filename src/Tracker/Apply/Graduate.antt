-- ===== src/Tracker/Apply/Graduate.antt =====
-- The scan of `ApplyEvent` for the one synthetic row that an event without a pid match takes over.
use tail_claude_mux.Tracker.Apply.Supersede.{SameTurn-refl, adopt_pane-SameTurn, SameTurn}
use tail_claude_mux.Tracker.Rows.{gone, kept, row-delete_instance, Outcome, row-put_row}
use tail_claude_mux.Tracker.Keys.{is_synthetic_key}
use tail_claude_mux.Tracker.State.{delete_instance, put_row, row, Tracker}
use tail_claude_mux.Wire.{AgentEvent}
use tail_claude_mux.Base.{
  text_beq_iff, ◌!=◌, Bool-cases, if◌then◌else◌, ==_refl, none, Option, inr, inl, ◌⊎◌,
  contains_text, has_prefix, text_eq, Text, option_eq, nat_eq, ◌==◌, arith, ◌∷◌, [], List, some,
  ◌&&◌, not, false, true, Bool, refl, ◌≡◌,
}
use tail_claude_mux.Tracker.Apply.{
  graduate_synthetic, Pick, pass, adopt, retire, pick_synthetic, graduate_scan,
}

-- The rows that may be taken over: the agent's synthetic ones, but not the event's own.
abbrev may_graduate : Text → Text → AgentEvent → AgentEvent → Bool
may_graduate key k stored ev = not (k == key) && (ev.agent == stored.agent && is_synthetic_key k)

pick-adopt :
    (key k : Text) (stored : AgentEvent) (o : Option AgentEvent) (stored' : AgentEvent)
    → pick_synthetic key k stored o ≡ adopt stored'
    → SameTurn stored' stored
      × ((ev : AgentEvent) × (o ≡ some ev) × (may_graduate key k stored ev ≡ true))
unfolding pick_synthetic
pick-adopt key k stored none stored' h = cc
pick-adopt key k stored (some ev) stored' h =
    (ground (arith, adopt_pane-SameTurn stored ev), (ev, refl, ground arith))

pick-retire :
    (key k : Text) (stored : AgentEvent) (o : Option AgentEvent)
    → pick_synthetic key k stored o ≡ retire
    → (ev : AgentEvent) × (o ≡ some ev) × (may_graduate key k stored ev ≡ true)
unfolding pick_synthetic
pick-retire key k stored none h = cc
pick-retire key k stored (some ev) h = (ev, refl, ground arith)

is_synthetic_key-nil : is_synthetic_key [] ≡ false
unfolding is_synthetic_key contains_text has_prefix
is_synthetic_key-nil = refl

module _ (s key : Text) where
  -- To prove a claim of the scan: at the rest of the keys, at an adopted row, at a retired one.
  pub scan_step {ℓ} :
      (P : Tracker × Text → Type ℓ) (k : Text) (ks : List Text) (t : Tracker) (stored : AgentEvent)
      → P (graduate_scan s key ks t stored)
      → ((stored' : AgentEvent)
          → pick_synthetic key k stored (row t s k) ≡ adopt stored'
          → P (put_row s key stored' t, k))
      → (pick_synthetic key k stored (row t s k) ≡ retire → P (t, k))
      → P (graduate_scan s key (k ∷ ks) t stored)
  unfolding graduate_scan
  scan_step P k ks t stored hp ha hr = go (pick_synthetic key k stored (row t s k)) refl
    where
      go :
          (p : Pick)
          → pick_synthetic key k stored (row t s k) ≡ p
          → P (elim p [
            | pass ↦ graduate_scan s key ks t stored
            | adopt stored' ↦ (put_row s key stored' t, k)
            | retire ↦ (t, k)
          ])
      go pass e = hp
      go (adopt stored') e = ha stored' e
      go retire e = hr e

  -- The scan writes the event's row only.
  graduate_scan-row :
      (ks : List Text) (t : Tracker) (stored : AgentEvent) (s' k' : Text)
      → (s == s' && key == k') ≡ false
      → row (graduate_scan s key ks t stored).0 s' k' ≡ row t s' k'
  unfolding graduate_scan
  graduate_scan-row [] t stored s' k' h = refl
  graduate_scan-row (k ∷ ks) t stored s' k' h =
      scan_step (λ r. row r.0 s' k' ≡ row t s' k') k ks t stored
        (graduate_scan-row ks t stored s' k' h)
        (λ stored' _. rw (row-put_row s key stored' t s' k', h)) (λ _. refl)

  graduate_scan-stored :
      (ks : List Text) (t : Tracker) (stored : AgentEvent)
      → row t s key ≡ some stored
      → (ev : AgentEvent) × (row (graduate_scan s key ks t stored).0 s key ≡ some ev)
        × SameTurn ev stored
  unfolding graduate_scan
  graduate_scan-stored [] t stored h = (stored, h, SameTurn-refl stored)
  graduate_scan-stored (k ∷ ks) t stored h =
      scan_step (λ r. (ev : AgentEvent) × (row r.0 s key ≡ some ev) × SameTurn ev stored) k ks t
        stored (graduate_scan-stored ks t stored h)
        (λ stored' e. (
          stored',
          rw (row-put_row s key stored' t s key, ==_refl s, ==_refl key),
          (pick-adopt key k stored (row t s k) stored' e).0,
        ))
        (λ _. (stored, h, SameTurn-refl stored))

  -- What the scan picks is a row that may be taken over.
  pub graduate_scan-picked :
      (ks : List Text) (t : Tracker) (stored : AgentEvent)
      → let k = (graduate_scan s key ks t stored).1 in
        (k ≡ [])
        ⊎ ((ev : AgentEvent) × (row t s k ≡ some ev) × (may_graduate key k stored ev ≡ true))
  unfolding graduate_scan
  graduate_scan-picked [] t stored = inl refl
  graduate_scan-picked (k ∷ ks) t stored =
      scan_step
        (λ r.
          (r.1 ≡ [])
          ⊎ ((ev : AgentEvent) × (row t s r.1 ≡ some ev) × (may_graduate key r.1 stored ev ≡ true)))
        k ks t stored (graduate_scan-picked ks t stored)
        (λ stored' e. inr (pick-adopt key k stored (row t s k) stored' e).1)
        (λ e. inr (pick-retire key k stored (row t s k) e))

  -- After the scan the picked row is deleted, if there is one.
  retire_picked :
      (k : Text) (t : Tracker) (s' k' : Text)
      → row (if k != [] then delete_instance s k t else t) s' k'
        ≡ (if s == s' && (k == k' && k != []) then none else row t s' k')
  retire_picked k t s' k' = ground (arith, row-delete_instance s k t s' k')

  pub graduate_synthetic-stored :
      (ks : List Text) (t : Tracker) (stored : AgentEvent)
      → row t s key ≡ some stored
      → (ev : AgentEvent) × (row (graduate_synthetic s key ks t stored) s key ≡ some ev)
        × SameTurn ev stored
  unfolding graduate_synthetic
  graduate_synthetic-stored ks t stored h =
      let (t', k) = graduate_scan s key ks t stored in
      let (ev, e, same) = graduate_scan-stored ks t stored h in
      (
        ev,
        rw (retire_picked k t' s key, e)
            (ground (arith, text_beq_iff k key, graduate_scan-picked ks t stored)),
        same,
      )

  -- At most rows that may be taken over go; in another session all rows stay.
  pub graduate_synthetic-Outcome :
      (ks : List Text) (t : Tracker) (stored : AgentEvent) (k' : Text)
      → (key == k') ≡ false
      → Outcome
          (may_graduate key k' stored)
          (row t s k')
          (row (graduate_synthetic s key ks t stored) s k')
  unfolding graduate_synthetic
  graduate_synthetic-Outcome ks t stored k' h =
      let (t', k) = graduate_scan s key ks t stored in
      let same = graduate_scan-row ks t stored s k' (ground arith) in
      rw (retire_picked k t' s k', same)
        (elim (Bool-cases (k == k' && k != [])) [
          | inl hit ↦ elim (graduate_scan-picked ks t stored) [
            | inl e ↦ absurd (ground (arith, e, text_beq_iff k []))
            | inr found ↦
                let (ev, e, may) = found in
                let same_key : k ≡ k' = ground (arith, text_beq_iff k k') in
                gone ev (ground arith) (ground arith) (ground (arith, text_beq_iff s s))
          ]
          | inr miss ↦ kept (ground arith)
        ])

  pub graduate_synthetic-session :
      (ks : List Text) (t : Tracker) (stored : AgentEvent) (s' k' : Text)
      → (s == s') ≡ false
      → row (graduate_synthetic s key ks t stored) s' k' ≡ row t s' k'
  unfolding graduate_synthetic
  graduate_synthetic-session ks t stored s' k' h =
      let (t', k) = graduate_scan s key ks t stored in
      rw (retire_picked k t' s' k', graduate_scan-row ks t stored s' k' (ground arith), h) refl
