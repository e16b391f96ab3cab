-- ===== src/Server/Bindings.antt =====
-- The binding of delegations from a pane scan, in apps/server-go/internal/server/watch.go. A
-- directory that cannot be listed is not modelled.
use tail_claude_mux.Tracker.Presence.Local.{PanePresence}
use tail_claude_mux.Delegation.Records.{ok, failed, has_unbound, find_unbound_by_pane, bind, Files}
use tail_claude_mux.Base.{
  text_eq, Text, update, Map, option_eq, nat_eq, ◌==◌, if◌then◌else◌, ◌∷◌, [], List, true, Bool, ℕ,
}

-- The delegations' files, and the delegations whose failed binding has been logged.
pub record BindState : Type 0 where
  pub files : Files
  pub bind_log : Text → Bool

-- `bindDelegation`, of a server that has a store.
unfoldable pub bind_delegation : Bool → ℕ → Text → Text → Text → BindState → BindState
unfolding bind
bind_delegation writable now id agent thread_id s =
    let (result, files) = bind writable now id agent thread_id s.files in
    elim result [
      | ok r ↦ record s { files = files }
      | failed e ↦ record { files = files; bind_log = update s.bind_log id true }
    ]

-- One presence of a session.
unfoldable pub bind_presence : Bool → ℕ → Text → PanePresence → BindState → BindState
unfolding find_unbound_by_pane bind_delegation
bind_presence writable now session pa s =
    if pa.thread_id == [] then s else elim (find_unbound_by_pane session pa.pane_id s.files) [
      | failed e ↦ s
      | ok r ↦ bind_delegation writable now r.delegation_id pa.agent pa.thread_id s
    ]

unfoldable pub bind_presences : Bool → ℕ → Text → List PanePresence → BindState → BindState
unfolding bind_presence
bind_presences writable now session [] s = s
bind_presences writable now session (pa ∷ panes) s =
    bind_presences writable now session panes (bind_presence writable now session pa s)

unfoldable pub bind_sessions : Bool → ℕ → Map Text (List PanePresence) → BindState → BindState
unfolding bind_presences
bind_sessions writable now [] s = s
bind_sessions writable now ((session, panes) ∷ presences) s =
    bind_sessions writable now presences (bind_presences writable now session panes s)

-- `bindDelegationsFromPaneScan`.
unfoldable pub bind_delegations_from_pane_scan :
    Bool → ℕ → Map Text (List PanePresence) → BindState → BindState
unfolding has_unbound bind_sessions
bind_delegations_from_pane_scan writable now presences s =
    if has_unbound s.files then bind_sessions writable now presences s else s
