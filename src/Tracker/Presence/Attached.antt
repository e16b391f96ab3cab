-- ===== src/Tracker/Presence/Attached.antt =====
-- The local map and the suppressed panes, in the scan of `ApplyPanePresence` of
-- apps/server-go/internal/tracker/tracker.go.
use tail_claude_mux.Tracker.Keys.{end_suppress_key}
use tail_claude_mux.Tracker.Presence.Bind.{ensure_at}
use tail_claude_mux.Tracker.Rows.{row-put_row}
use tail_claude_mux.Tracker.State.{is_pane_end_suppressed, row, rows_of, Tracker}
use tail_claude_mux.Wire.{AgentEvent}
use tail_claude_mux.Tracker.Presence.Local.{orphan, shared, nil, put_local, rows_at, Fold, Handle}
use tail_claude_mux.Base.{
  Option-cases, Bool-cases, leb, arith, not, inr, inl, ap, sym, Text, ==_refl, some, none, Option,
  false, true, Bool, ◌∙◌, refl, ◌≡◌, ℕ, nat_eq, text_eq, option_eq,
}

-- The local map is nil, or the one that the tracker holds.
abbrev pub is_attached : Handle → Bool
is_attached nil = true
is_attached shared = true
is_attached (orphan m) = false

pub row-put_local :
    (s key : Text) (ev : AgentEvent) (st : Fold)
    → st.local ≡ shared
    → row (put_local s key ev st).tracker s key ≡ some ev
unfolding put_local
row-put_local s key ev st h =
    rw (put_local, h) (row-put_row s key ev st.tracker s key ∙ rw (==_refl s, ==_refl key) refl)

pub ensure_at-shared :
    (s : Text) (handle : Handle) (st : Fold)
    → st.local ≡ handle
    → is_attached handle ≡ true
    → (ensure_at handle s st).local ≡ shared
unfolding ensure_at
ensure_at-shared s nil st e h = refl
ensure_at-shared s shared st e h = e
ensure_at-shared s (orphan m) st e h = absurd (ground (arith, h))

pub ensure_at-ended :
    (s : Text) (handle : Handle) (st : Fold)
    → (ensure_at handle s st).tracker.recently_ended_panes ≡ st.tracker.recently_ended_panes
unfolding ensure_at
ensure_at-ended s nil st = refl
ensure_at-ended s shared st = refl
ensure_at-ended s (orphan m) st = refl

pub ensure_at-claimed :
    (s : Text) (handle : Handle) (st : Fold) → (ensure_at handle s st).claimed ≡ st.claimed
unfolding ensure_at
ensure_at-claimed s nil st = refl
ensure_at-claimed s shared st = refl
ensure_at-claimed s (orphan m) st = refl

-- Whether a pane is suppressed is read from its entry.
abbrev holds_at : ℕ → Option ℕ → Bool
holds_at now none = false
holds_at now (some exp) = not (leb exp now)

suppressed-holds_at :
    (now : ℕ) (s agent pane_id : Text) (t : Tracker)
    → (is_pane_end_suppressed now s agent pane_id t).1
      ≡ holds_at now (t.recently_ended_panes (end_suppress_key s agent pane_id))
unfolding is_pane_end_suppressed
suppressed-holds_at now s agent pane_id t =
    elim (Option-cases (t.recently_ended_panes (end_suppress_key s agent pane_id))) [
      | inl e ↦ rw (is_pane_end_suppressed, e) refl
      | inr (exp, e) ↦
          rw (is_pane_end_suppressed, e)
            (elim (Bool-cases (leb exp now)) [ inl c ↦ rw c refl | inr c ↦ rw c refl ])
    ]

pub suppressed-same :
    (now : ℕ) (s agent pane_id : Text) (t u : Tracker)
    → t.recently_ended_panes ≡ u.recently_ended_panes
    → (is_pane_end_suppressed now s agent pane_id t).1
      ≡ (is_pane_end_suppressed now s agent pane_id u).1
suppressed-same now s agent pane_id t u h =
    suppressed-holds_at now s agent pane_id t
    ∙ ap (λ f. holds_at now (f (end_suppress_key s agent pane_id))) h
    ∙ sym (suppressed-holds_at now s agent pane_id u)

pub suppressed-instances :
    (now : ℕ) (s agent pane_id : Text) (t : Tracker)
    → (is_pane_end_suppressed now s agent pane_id t).0.instances ≡ t.instances
unfolding is_pane_end_suppressed
suppressed-instances now s agent pane_id t =
    elim (Option-cases (t.recently_ended_panes (end_suppress_key s agent pane_id))) [
      | inl e ↦ rw (is_pane_end_suppressed, e) refl
      | inr (exp, e) ↦
          rw (is_pane_end_suppressed, e)
            (elim (Bool-cases (leb exp now)) [ inl c ↦ rw c refl | inr c ↦ rw c refl ])
    ]

pub rows_at-same :
    (s : Text) (handle : Handle) (t u : Tracker)
    → t.instances ≡ u.instances
    → rows_at handle s t ≡ rows_at handle s u
unfolding rows_at rows_of
rows_at-same s nil t u h = refl
rows_at-same s shared t u h = rw h refl
rows_at-same s (orphan m) t u h = refl
