-- ===== src/Tracker/Apply/Supersede.antt =====
-- The loop of `ApplyEvent` that retires the rows of the event's own process.
use tail_claude_mux.Tracker.Rows.{row-delete_instance, row-put_row}
use tail_claude_mux.Tracker.State.{put_row, row}
use tail_claude_mux.Wire.{AgentEvent}
use tail_claude_mux.Base.{
  any, ◌∷◌, [], List, ◌||◌, text_beq_iff, text_eq, Text, option_eq, nat_eq, ◌==◌, Option-cases,
  if◌then◌else◌, arith, some, none, Option, ◌&&◌, false, Bool, inr, inl, ◌≡◌,
}
use tail_claude_mux.Tracker.Apply.{supersede_rows, Graduation, supersede_row, adopt_pane}

-- Two events agree on all that is no pane binding.
pub record SameTurn (a b : AgentEvent) : Type 0 where
  pub agent : a.agent ≡ b.agent
  pub session : a.session ≡ b.session
  pub status : a.status ≡ b.status
  pub ts : a.ts ≡ b.ts
  pub first_seen_ts : a.first_seen_ts ≡ b.first_seen_ts
  pub thread_id : a.thread_id ≡ b.thread_id
  pub thread_name : a.thread_name ≡ b.thread_name
  pub pid : a.pid ≡ b.pid
  pub tool_invoked : a.tool_invoked ≡ b.tool_invoked
  pub thinking_blocks : a.thinking_blocks ≡ b.thinking_blocks
  pub ended : a.ended ≡ b.ended

pub SameTurn-refl : (a : AgentEvent) → SameTurn a a
SameTurn-refl a = ground arith

pub SameTurn-trans : {a b c : AgentEvent} → SameTurn a b → SameTurn b c → SameTurn a c
SameTurn-trans h k = ground arith

pub adopt_pane-SameTurn : (dst src : AgentEvent) → SameTurn (adopt_pane dst src) dst
unfolding adopt_pane
adopt_pane-SameTurn dst src = ground arith

abbrev pub same_process : AgentEvent → AgentEvent → Bool
same_process a ev = ev.agent == a.agent && ev.pid == a.pid

abbrev pub drop_row : (AgentEvent → Bool) → Option AgentEvent → Option AgentEvent
drop_row p none = none
drop_row p (some ev) = if p ev then none else some ev

same_process-eq : {a b : AgentEvent} → SameTurn a b → same_process a ≡ same_process b
same_process-eq h = λ i ev. ev.agent == h.agent i && ev.pid == h.pid i

-- Two rounds that drop by one test are one.
regroup :
    (here hit rest : Bool) (p : AgentEvent → Bool) (o : Option AgentEvent)
    → (if here && rest
        then drop_row p (if here && hit then drop_row p o else o)
        else if here && hit
        then drop_row p o
        else o)
      ≡ (if here && (hit || rest) then drop_row p o else o)
regroup here hit rest p none = ground arith
regroup here hit rest p (some ev) = ground arith

module _ (s key : Text) where
  -- What one round leaves at the keys of the map, the event's own row apart.
  supersede_row-row :
      (k : Text) (g : Graduation) (s' k' : Text)
      → (s == s' && key == k') ≡ false
      → row (supersede_row s key k g).tracker s' k' ≡ (
          if s == s' && k == k'
          then drop_row (same_process g.stored) (row g.tracker s' k')
          else row g.tracker s' k')
  unfolding supersede_row
  supersede_row-row k g s' k' h = elim (Option-cases (row g.tracker s k)) [
    | inl e ↦ ground (arith, e, text_beq_iff s s', text_beq_iff k k')
    | inr (ev, e) ↦
        let stored = adopt_pane g.stored ev in
        ground (
          arith,
          e,
          text_beq_iff s s',
          text_beq_iff k k',
          text_beq_iff k key,
          row-delete_instance s k (put_row s key stored g.tracker) s' k',
          row-put_row s key stored g.tracker s' k',
        )
  ]

  supersede_row-stored :
      (k : Text) (g : Graduation)
      → row g.tracker s key ≡ some g.stored
      → row (supersede_row s key k g).tracker s key ≡ some (supersede_row s key k g).stored
  unfolding supersede_row
  supersede_row-stored k g h = elim (Option-cases (row g.tracker s k)) [
    | inl e ↦ ground (arith, e)
    | inr (ev, e) ↦
        let stored = adopt_pane g.stored ev in
        ground (
          arith,
          e,
          text_beq_iff s s,
          text_beq_iff key key,
          row-delete_instance s k (put_row s key stored g.tracker) s key,
          row-put_row s key stored g.tracker s key,
        )
  ]

  supersede_row-SameTurn :
      (k : Text) (g : Graduation) → SameTurn (supersede_row s key k g).stored g.stored
  unfolding supersede_row
  supersede_row-SameTurn k g = elim (Option-cases (row g.tracker s k)) [
    | inl e ↦ ground (arith, e)
    | inr (ev, e) ↦ ground (arith, e, adopt_pane-SameTurn g.stored ev)
  ]

  pub supersede_rows-SameTurn :
      (ks : List Text) (g : Graduation) → SameTurn (supersede_rows s key ks g).stored g.stored
  unfolding supersede_rows
  supersede_rows-SameTurn [] g = SameTurn-refl g.stored
  supersede_rows-SameTurn (k ∷ ks) g =
      SameTurn-trans (supersede_rows-SameTurn ks (supersede_row s key k g))
        (supersede_row-SameTurn k g)

  pub supersede_rows-stored :
      (ks : List Text) (g : Graduation)
      → row g.tracker s key ≡ some g.stored
      → row (supersede_rows s key ks g).tracker s key ≡ some (supersede_rows s key ks g).stored
  unfolding supersede_rows
  supersede_rows-stored [] g h = h
  supersede_rows-stored (k ∷ ks) g h =
      supersede_rows-stored ks (supersede_row s key k g) (supersede_row-stored k g h)

  -- The loop drops the visited rows of the event's process, and leaves all others as they are.
  pub supersede_rows-row :
      (ks : List Text) (g : Graduation) (s' k' : Text)
      → (s == s' && key == k') ≡ false
      → row (supersede_rows s key ks g).tracker s' k' ≡ (
          if s == s' && any (λ k. k == k') ks
          then drop_row (same_process g.stored) (row g.tracker s' k')
          else row g.tracker s' k')
  unfolding supersede_rows
  supersede_rows-row [] g s' k' h = ground arith
  supersede_rows-row (k ∷ ks) g s' k' h =
      let g' = supersede_row s key k g in
      let same = supersede_row-SameTurn k g in
      rw (supersede_rows-row ks g' s' k' h, supersede_row-row k g s' k' h, same_process-eq same)
        (regroup (s == s') (k == k') (any (λ j. j == k') ks) (same_process g.stored)
          (row g.tracker s' k'))
