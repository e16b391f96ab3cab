-- ===== src/Tests/Watched.antt =====
-- Runs of apps/server-go/internal/ccwatch.
use tail_claude_mux.ClaudeWatch.Result.{
  listed, transcript, missing, result_for_thread, find_result, snapshot_of, final_text,
}
use tail_claude_mux.ClaudeWatch.Verb.{bash}
use tail_claude_mux.Wire.Hook.{opt_positive_int, opt_bounded_string, payload_of, HookPayload}
use tail_claude_mux.ClaudeWatch.Registry.{session_status_waiting, Live}
use tail_claude_mux.ClaudeWatch.Emitted.{handle_hook-Reports, Reports}
use tail_claude_mux.ClaudeWatch.Words.{resolve_status, hook_status}
use tail_claude_mux.ClaudeWatch.Hooks.{
  routed, emit_kept, is_repeat, kind_of, note_tool, dialog_open, refresh_from_registry,
  refresh_file, handle_hook, prepared, route, update_pid, thread_of,
}
use tail_claude_mux.ClaudeWatch.State.{
  emit, count_thinking, agent_event, World, Adapter, ThreadState,
}
use tail_claude_mux.ClaudeWatch.Thinking.{
  new_thinking_blocks, track_transcript, no_cursor, ThinkingCursor,
}
use tail_claude_mux.ClaudeWatch.Counted.{new_thinking_blocks-twice}
use tail_claude_mux.ClaudeWatch.Seed.{start}
use tail_claude_mux.ClaudeWatch.Dialogs.{handle_hook-turn_starts, handle_hook-open_dialog, Keeps}
use tail_claude_mux.ClaudeWatch.Transcript.{
  plain, scan_transcript, fold_transcript, status_after, name_after, extract_custom_title,
  extract_thread_name, determine_status, first_text, content_items, blocks, Entry,
}
use tail_claude_mux.ClaudeWatch.Seeded.{start-known, is_new_to, is_active_event}
use tail_claude_mux.Wire.{AgentEvent, Status}
use tail_claude_mux.Base.{
  base_name, base_of, split, split_from, text_eq, text_beq, codes, Text, all, option_eq, nat_eq,
  ◌==◌, if◌then◌else◌, arith, ◌++◌, ◌∷◌, [], some, none, Option, false, true, ◌≢◌, refl, ◌≡◌, ◌+◌,
}

-- Transcripts: each line decodes to an entry with one thinking block.
abbrev thought : Text → Option Entry
thought line = some (record {
  entry_type = codes "assistant";
  custom_title = [];
  role = codes "assistant";
  is_sidechain = false;
  stop_reason = none;
  content = blocks (record { kind = codes "thinking"; text = [] } ∷ []);
})

abbrev one_line : Text
one_line = codes "{\"thinking\"}\n"

abbrev at_start : ThinkingCursor
at_start = record { path = codes "/t1.jsonl"; offset = 0 }

new_thinking_blocks-twice_example :
    let (c1, n1) = new_thinking_blocks (λ p. some one_line) thought at_start in
    let (c2, n2) = new_thinking_blocks (λ p. some (one_line ++ one_line)) thought c1 in
    new_thinking_blocks (λ p. some (one_line ++ one_line)) thought at_start ≡ (c2, n1 + n2)
new_thinking_blocks-twice_example =
    new_thinking_blocks-twice thought (λ p. some one_line) (λ p. some (one_line ++ one_line))
      at_start one_line one_line (λ e. absurd (ground (arith, e))) refl refl (omega arith)
      (omega arith)

-- A watcher with one known thread in process 12, whose dialog is open.
abbrev file12 : Live
file12 = record {
  pid = 12;
  session_id = codes "t1";
  name = [];
  status = session_status_waiting;
  status_updated_at = 90;
  updated_at = 90;
  kind = codes "interactive";
  agent = [];
}

abbrev asking : World
asking = record {
  now = 100;
  session_file = λ pid. if pid == 12 then some file12 else none;
  registry = file12 ∷ [];
  resolve_session_by_pid = λ pid. if pid == 12 then codes "work" else [];
  resolve_session = λ dir. [];
  files = λ path. none;
  decode = thought;
  categorize = λ name. bash;
}

abbrev known : ThreadState
known = record {
  serial = 0;
  status = Status.waiting;
  thread_name = [];
  project_dir = codes "/w";
  name_resolved = true;
  pid = 12;
  last_tool_description = codes "Running make";
  last_tool_verb = codes "run";
  subagent = [];
  thinking = no_cursor;
  non_tmux_logged = false;
}

abbrev watching : Adapter
watching = record {
  threads = λ id. if id == codes "t1" then some known else none;
  next_serial = 1;
  started = true;
}

-- A hook of that thread, without a process snapshot.
abbrev plain_hook : Text → HookPayload
plain_hook name = payload_of (λ _. none) name (codes "t1") (codes "/w")

abbrev turn_event : AgentEvent
turn_event = agent_event (codes "claude-code") (codes "work") Status.running 100 (codes "t1") [] 12

handle_hook-Reports_example :
    (turn_event.session ≢ [])
    × Reports asking
        (plain_hook (codes "UserPromptSubmit"))
        (codes "work")
        (handle_hook asking (plain_hook (codes "UserPromptSubmit")) watching)
        turn_event
unfolding handle_hook text_beq resolve_status hook_status prepared track_transcript update_pid
    thread_of routed route refresh_from_registry refresh_file note_tool emit_kept emit is_repeat
    kind_of count_thinking new_thinking_blocks dialog_open opt_bounded_string opt_positive_int
handle_hook-Reports_example =
    handle_hook-Reports asking (plain_hook (codes "UserPromptSubmit")) watching turn_event refl

handle_hook-open_dialog_example :
    ((handle_hook asking (plain_hook (codes "PostToolUse")) watching).emitted ≡ none)
    × ((after : ThreadState) × ((handle_hook asking
              (plain_hook (codes "PostToolUse"))
              watching).adapter.threads
            (codes "t1")
          ≡ some after)
        × Keeps known after)
unfolding text_beq resolve_status hook_status prepared track_transcript update_pid thread_of
    opt_bounded_string opt_positive_int
handle_hook-open_dialog_example =
    handle_hook-open_dialog asking (plain_hook (codes "PostToolUse")) watching file12 Status.running
      refl refl (ground arith) refl (ground arith) refl refl refl

handle_hook-turn_starts_example :
    (ev : AgentEvent) × ((handle_hook asking
        (plain_hook (codes "UserPromptSubmit"))
        watching).emitted
      ≡ some ev)
    × (ev.status ≡ Status.running)
    × (ev.session ≡ codes "work")
unfolding text_beq resolve_status hook_status prepared track_transcript update_pid thread_of route
    opt_bounded_string opt_positive_int
handle_hook-turn_starts_example =
    handle_hook-turn_starts asking (plain_hook (codes "UserPromptSubmit")) watching refl refl
      (ground arith)

start-known_example :
    let s =
      start asking (λ _. false) (record { encoded = codes "-w"; transcripts = [] } ∷ []) watching in
    (s.adapter.threads (codes "t1") ≡ some known)
    × (all (is_new_to watching) s.emitted ≡ true)
    × (all is_active_event s.emitted ≡ true)
unfolding text_beq
start-known_example =
    start-known asking (λ _. false) watching
      (record { encoded = codes "-w"; transcripts = [] } ∷ []) (codes "t1") known refl

-- A finished transcript, its directory behind another one.
abbrev ended_turn : Entry
ended_turn = record {
  entry_type = codes "assistant";
  custom_title = [];
  role = codes "assistant";
  content = plain (codes "all green");
  stop_reason = some (codes "end_turn");
  is_sidechain = false;
}

its_result :
    result_for_thread (codes "/p") (codes "t1") (
      listed (
        record { name = codes "-a"; is_dir = true; looked = missing }
        ∷ record {
          name = codes "-b";
          is_dir = true;
          looked = transcript (some (ended_turn ∷ [])) (
              some (
                record { from_agent = true; text = codes "all green" }
                ∷ record { from_agent = false; text = codes "thanks" }
                ∷ []));
        }
        ∷ []))
    ≡ some (record {
      transcript_path = codes "/p/-b/t1.jsonl";
      status = Status.done;
      has_final = true;
      final_message = codes "all green";
    })
unfolding result_for_thread find_result snapshot_of final_text scan_transcript fold_transcript
    status_after name_after determine_status content_items extract_thread_name extract_custom_title
    first_text base_name base_of split split_from text_beq
its_result = refl
