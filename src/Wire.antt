-- ===== src/Wire.antt =====
-- apps/server-go/wire/wire.go: the status and liveness words and the agent event. A string field
-- is "" and a numeric one 0 where it is unset; window and pane index may be absent. Status and
-- liveness are strings in the source, and data here; `other` stands for any further string.
pub mod Hook
pub mod Ingress
use tail_claude_mux.Base.{
  List, [], ℕ, Bool, true, false, ◌&&◌, Option, Text, Equality, ◌==◌, nat_eq, text_eq,
  if◌then◌else◌, ==_refl, ==→eq, ◌≡◌, refl, sym, ◌∙◌, subst, ◌↔◌, arith,
}

pub data Status : Type 0 where
  idle running done error waiting interrupted : Status
  other : Text → Status

pub data Liveness : Type 0 where
  unset alive exited unknown : Liveness

abbrev pub is_idle : Status → Bool
is_idle idle = true
is_idle _ = false

abbrev pub is_running : Status → Bool
is_running running = true
is_running _ = false

abbrev pub is_waiting : Status → Bool
is_waiting waiting = true
is_waiting _ = false

unfoldable pub is_terminal_status : Status → Bool
is_terminal_status done = true
is_terminal_status error = true
is_terminal_status interrupted = true
is_terminal_status _ = false

abbrev pub is_alive : Liveness → Bool
is_alive alive = true
is_alive _ = false

abbrev pub is_exited : Liveness → Bool
is_exited exited = true
is_exited _ = false

abbrev pub is_unset : Liveness → Bool
is_unset unset = true
is_unset _ = false

pub record AgentEvent : Type 0 where
  pub agent : Text
  pub session : Text
  pub status : Status
  pub ts : ℕ
  pub first_seen_ts : ℕ
  pub thread_id : Text
  pub thread_name : Text
  pub unseen : Bool
  pub pane_id : Text
  pub window_index : Option ℕ
  pub pane_index : Option ℕ
  pub liveness : Liveness
  pub pid : ℕ
  pub tool_description : Text
  pub tool_verb : Text
  pub tool_invoked : Bool
  pub thinking_blocks : ℕ
  pub pane_title : Text
  pub subagent : Text
  pub ended : Bool

-- `MetadataStatus`. Texts of the metadata are lists of runes, which is what the store measures.
pub record MetadataStatus : Type 0 where
  pub text : Text
  pub tone : Text
  pub ts : ℕ

-- `MetadataProgress`: the numbers are optional floats, kept by their 64 bits.
pub record MetadataProgress : Type 0 where
  pub current : Option ℕ
  pub total : Option ℕ
  pub percent : Option ℕ
  pub label : Text
  pub ts : ℕ

pub record MetadataLogEntry : Type 0 where
  pub message : Text
  pub tone : Text
  pub source : Text
  pub verb : Text
  pub ts : ℕ

pub record SessionMetadata : Type 0 where
  pub status : Option MetadataStatus
  pub progress : Option MetadataProgress
  pub logs : List MetadataLogEntry

-- `SessionData`, with the fields that the server's own logic reads.
pub record SessionData : Type 0 where
  pub name : Text
  pub dir : Text
  pub branch : Text
  pub unseen : Bool
  pub agents : List AgentEvent

abbrev status_rank : Status → ℕ
status_rank idle = 0
status_rank running = 1
status_rank done = 2
status_rank error = 3
status_rank waiting = 4
status_rank interrupted = 5
status_rank (other t) = 6

abbrev status_text : Status → Text
status_text (other t) = t
status_text _ = []

abbrev status_at : ℕ → Text → Status
status_at n t =
    if n == 0
    then idle
    else if n == 1
    then running
    else if n == 2
    then done
    else if n == 3
    then error
    else if n == 4
    then waiting
    else if n == 5
    then interrupted
    else other t

status_at_rank : (s : Status) → status_at (status_rank s) (status_text s) ≡ s
status_at_rank idle = refl
status_at_rank running = refl
status_at_rank done = refl
status_at_rank error = refl
status_at_rank waiting = refl
status_at_rank interrupted = refl
status_at_rank (other t) = refl

abbrev same_status : Status → Status → Bool
same_status a b = status_rank a == status_rank b && status_text a == status_text b

same_status_refl : (a : Status) → same_status a a ≡ true
same_status_refl a = rw (==_refl (status_rank a), ==_refl (status_text a)) refl

pub same_status_iff : (a b : Status) → (same_status a b ≡ true) ↔ (a ≡ b)
same_status_iff a b = (
  λ h.
      (let r : status_rank a ≡ status_rank b =
          ==→eq (status_rank a) (status_rank b) (ground arith) in
        let t : status_text a ≡ status_text b =
          ==→eq (status_text a) (status_text b) (ground arith) in
        sym (status_at_rank a) ∙ (rw (r, t) (status_at_rank b))),
  λ e. subst (λ x. same_status a x ≡ true) e (same_status_refl a),
)

instance abbrev pub status_eq : Equality Status
status_eq = record { same = same_status; same_iff = same_status_iff }
