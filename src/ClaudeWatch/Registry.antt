-- ===== src/ClaudeWatch/Registry.antt =====
-- What apps/server-go/internal/ccwatch/ccwatch.go reads off a session file, which agent-ouija's
-- `registry.Live` decodes. Times are milliseconds, and 0 where the file has none.
use tail_claude_mux.Tracker.Scan.{ScanState, PromptResolution, ProbeVerdict}
use tail_claude_mux.TextUtil.Strip.{sanitize_session_name}
use tail_claude_mux.Base.{
  text_eq, codes, Text, option_eq, nat_eq, ◌==◌, ◌!=◌, if◌then◌else◌, leb, ltb, ◌∷◌, [], List, some,
  none, Option, ◌||◌, ◌&&◌, Bool, ◌*◌, ◌-◌, ℕ,
}

pub record Live : Type 0 where
  pub pid : ℕ
  pub session_id : Text
  pub name : Text
  pub status : Text
  pub status_updated_at : ℕ
  pub updated_at : ℕ
  pub kind : Text
  pub agent : Text

abbrev pub stale_ms : ℕ
stale_ms = 5 * 60 * 1000

abbrev pub busy_hung_ms : ℕ
busy_hung_ms = 30 * 60 * 1000

abbrev pub session_status_busy : Text
session_status_busy = codes "busy"

abbrev pub session_status_idle : Text
session_status_idle = codes "idle"

abbrev pub session_status_waiting : Text
session_status_waiting = codes "waiting"

abbrev pub session_status_shell : Text
session_status_shell = codes "shell"

unfoldable pub busy_hung : Live → ℕ → Bool
busy_hung file now = file.updated_at != 0 && ltb busy_hung_ms (now - file.updated_at)

-- `DialogOpenSince`.
unfoldable pub dialog_open_since : Option Live → ℕ
dialog_open_since none = 0
dialog_open_since (some file) =
    if file.status != session_status_waiting then 0 else file.status_updated_at

abbrev pub no_resolution : PromptResolution
no_resolution = record { verdict = ProbeVerdict.no_signal; at_ms = 0 }

-- `ClassifyPromptResolution`.
unfoldable pub classify_prompt_resolution : Option Live → ℕ → PromptResolution
unfolding busy_hung
classify_prompt_resolution none now = no_resolution
classify_prompt_resolution (some file) now =
    if file.status_updated_at == 0
    then no_resolution
    else if file.status == session_status_busy
    then (if busy_hung file now
        then no_resolution
        else record { verdict = ProbeVerdict.working; at_ms = file.status_updated_at })
    else if file.status == session_status_idle
    then record { verdict = ProbeVerdict.done; at_ms = file.status_updated_at }
    else no_resolution

-- `ClassifySessionStatus`.
unfoldable pub classify_session_status : Option Live → Text → ℕ → ProbeVerdict
unfolding busy_hung
classify_session_status none thread_id now = ProbeVerdict.no_signal
classify_session_status (some file) thread_id now =
    if file.session_id != [] && thread_id != [] && file.session_id != thread_id
    then ProbeVerdict.ended
    else if file.status == session_status_busy
    then (if busy_hung file now then ProbeVerdict.ended else ProbeVerdict.working)
    else if file.status == session_status_shell
    then ProbeVerdict.working
    else if file.status == session_status_idle
        || file.status == session_status_waiting
        || file.status == codes "done"
    then ProbeVerdict.ended
    else ProbeVerdict.no_signal

-- `ClassifyTitleStatus`, on the title's runes; the loop looks at the first one only.
unfoldable pub classify_title_status : Text → ProbeVerdict
classify_title_status [] = ProbeVerdict.no_signal
classify_title_status (r ∷ title) =
    if leb 0x2800 r && leb r 0x28ff
    then ProbeVerdict.working
    else if r == 0x2733
    then ProbeVerdict.ended
    else ProbeVerdict.no_signal

-- `ScanStateForPid`, of the session file of a pid.
unfoldable pub scan_state : Option Live → ℕ → ScanState
unfolding classify_prompt_resolution dialog_open_since
scan_state none now = record {
  thread_id = [];
  thread_name = [];
  verdict = ProbeVerdict.no_signal;
  prompt = no_resolution;
  waiting_since_ms = 0;
}
scan_state (some l) now = record {
  thread_id = l.session_id;
  thread_name = sanitize_session_name l.name;
  verdict =
      if l.status == session_status_shell then ProbeVerdict.working else ProbeVerdict.no_signal;
  prompt = classify_prompt_resolution (some l) now;
  waiting_since_ms = dialog_open_since (some l);
}

-- `SessionInfoForPid` and `SessionIDForPid`, of the session file of a pid.
unfoldable pub session_info : Option Live → Text × Text
session_info none = ([], [])
session_info (some l) = (l.session_id, sanitize_session_name l.name)

-- `resolvePidFromSessions`: 0 for none.
unfoldable pub resolve_pid_from_sessions : List Live → Text → ℕ
resolve_pid_from_sessions [] thread_id = 0
resolve_pid_from_sessions (l ∷ ls) thread_id =
    let rest = resolve_pid_from_sessions ls thread_id in
    if l.session_id == thread_id && ltb 0 l.pid then l.pid else rest
