-- ===== src/Tracker/Scan.antt =====
-- The pane scan's readings of an agent process, in apps/server-go/internal/tracker/tracker.go.
use tail_claude_mux.Base.{
  Bool-cases, inr, inl, ◌⊎◌, refl, ◌≤◌, text_eq, Text, option_eq, nat_eq, ◌!=◌, ◌==◌, if◌then◌else◌,
  leb, ltb, arith, some, none, Option, ◌||◌, ◌&&◌, not, false, true, Bool, ◌≢◌, ◌≡◌, ◌<◌, ℕ,
}
use tail_claude_mux.Wire.{AgentEvent, is_waiting, Status}

pub data ProbeVerdict : Type 0 where
  no_signal working ended done interrupted error : ProbeVerdict

abbrev is_no_signal : ProbeVerdict → Bool
is_no_signal no_signal = true
is_no_signal _ = false

pub record PromptResolution : Type 0 where
  pub verdict : ProbeVerdict
  pub at_ms : ℕ

-- `Clears`.
unfoldable pub clears : PromptResolution → ℕ → Bool
clears r waiting_since_ms = not (is_no_signal r.verdict) && ltb waiting_since_ms r.at_ms

pub record ScanState : Type 0 where
  pub thread_id : Text
  pub thread_name : Text
  pub verdict : ProbeVerdict
  pub prompt : PromptResolution
  pub waiting_since_ms : ℕ

unfoldable has_signal : ScanState → Bool
has_signal s =
    not (is_no_signal s.verdict) || not (is_no_signal s.prompt.verdict) || s.waiting_since_ms != 0

-- Whether the row's latest event already covers the dialog.
unfoldable pub covers_dialog : Option AgentEvent → ℕ → Bool
covers_dialog none since = false
covers_dialog (some previous) since = is_waiting previous.status || leb since previous.ts

abbrev call_of : Option AgentEvent → AgentEvent → AgentEvent
call_of none ev = ev
call_of (some previous) ev = record ev {
  tool_description = previous.tool_description;
  tool_verb = previous.tool_verb;
}

-- `WaitingOver`.
unfoldable pub waiting_over : ScanState → Option AgentEvent → AgentEvent → AgentEvent × Bool
unfolding covers_dialog
waiting_over s previous ev =
    if s.waiting_since_ms == 0
    then (ev, false)
    else if covers_dialog previous s.waiting_since_ms
    then (ev, false)
    else (call_of previous (record ev { status = Status.waiting; ts = s.waiting_since_ms }), true)

-- A reading that puts a row into waiting records an open dialog that the row's latest event, if
-- there is one, does not cover: that event is not waiting and is older than the dialog. The event
-- then is waiting since the dialog's time.
waiting_over-opened :
    (s : ScanState) (previous : Option AgentEvent) (ev : AgentEvent)
    → (waiting_over s previous ev).1 ≡ true
    → ((waiting_over s previous ev).0.status ≡ Status.waiting)
      × ((waiting_over s previous ev).0.ts ≡ s.waiting_since_ms)
      × (s.waiting_since_ms ≢ 0)
      × ((previous ≡ none)
          ⊎ ((p : AgentEvent) × (previous ≡ some p)
              × (is_waiting p.status ≡ false)
              × (p.ts < s.waiting_since_ms)))
unfolding waiting_over
waiting_over-opened s none ev h = (ground arith, ground arith, ground arith, inl refl)
waiting_over-opened s (some p) ev h =
    (ground arith, ground arith, ground arith, inr (p, refl, ground arith, ground arith))

-- A reading that does not leaves the event as it is, and has a reason: no dialog is open, or the
-- row's latest event is waiting, or is at or after the dialog's time.
waiting_over-left :
    (s : ScanState) (previous : Option AgentEvent) (ev : AgentEvent)
    → (waiting_over s previous ev).1 ≡ false
    → ((waiting_over s previous ev).0 ≡ ev)
      × ((s.waiting_since_ms ≡ 0)
          ⊎ ((p : AgentEvent) × (previous ≡ some p)
              × ((is_waiting p.status ≡ true) ⊎ (s.waiting_since_ms ≤ p.ts))))
unfolding waiting_over
waiting_over-left s none ev h = (ground arith, inl (ground arith))
waiting_over-left s (some p) ev h = elim (Bool-cases (s.waiting_since_ms == 0)) [
  | inl z ↦ (ground arith, inl (ground arith))
  | inr z ↦ (ground arith, inr (p, refl, ground arith))
]

-- The resolution that clears a row put into waiting by a dialog was recorded after the dialog.
clears-waiting_over :
    (s : ScanState) (previous : Option AgentEvent) (ev : AgentEvent) (r : PromptResolution)
    → (waiting_over s previous ev).1 ≡ true
    → clears r (waiting_over s previous ev).0.ts ≡ true
    → (r.verdict ≢ no_signal) × (s.waiting_since_ms < r.at_ms)
unfolding waiting_over clears
clears-waiting_over s none ev r h c = ground arith
clears-waiting_over s (some p) ev r h c = ground arith
