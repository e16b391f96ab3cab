-- ===== src/Tests/Delegated.antt =====
-- Runs of apps/server-go/internal/delegation.
use tail_claude_mux.Delegation.Uuid.{normalize_agent, valid_uuid, valid_from}
use tail_claude_mux.Delegation.Records.{
  failed, ok, already_bound, sweep, list, bind, read, decode_record, Files, Delegation,
}
use tail_claude_mux.Delegation.Messages.{
  unanswered_asks, is_ask, is_answered, push_message, read_messages, Logs, Message,
}
use tail_claude_mux.Delegation.Bound.{bind-once}
use tail_claude_mux.Delegation.Swept.{sweep-removes_old, has_id, old_records}
use tail_claude_mux.Delegation.Answered.{push_message-answers}
use tail_claude_mux.Base.{
  text_beq, codes, Text, keep_if, length, find, ==→ne, ◌==◌, if◌then◌else◌, ◌∷◌, [], some, none,
  ◌&&◌, not, false, true, refl, ◌≡◌, ◌-◌, nat_eq, text_eq, option_eq,
}

abbrev uuid : Text
uuid = codes "01234567-89ab-4def-8123-456789abcdef"

abbrev unbound : Delegation
unbound = record {
  delegation_id = uuid;
  agent = codes "claude";
  cwd = [];
  owner_session = [];
  session_name = codes "work";
  pane_id = codes "%1";
  window_id = [];
  created_at = 10;
  thread_id = [];
  bound_at = none;
}

abbrev files : Files
files = (uuid, some unbound) ∷ []

bind-once_example :
    let bound = record unbound {
      agent = normalize_agent unbound.agent;
      thread_id = codes "t1";
      bound_at = some 20;
    } in
    let files' = (bind true 20 uuid (codes "claude-code") (codes "t1") files).1 in
    (read uuid files' ≡ ok bound)
    × (bind false 30 uuid (codes "claude-code") (codes "t1") files' ≡ (ok bound, files'))
    × (bind false 30 uuid (codes "claude-code") (codes "t2") files'
        ≡ (failed already_bound, files'))
unfolding read valid_uuid valid_from find text_beq decode_record normalize_agent
bind-once_example =
    bind-once 20 30 false uuid (codes "claude-code") (codes "t1") (codes "t2") unbound files refl
      refl refl (==→ne (codes "t1") [] refl) (==→ne (codes "t2") (codes "t1") refl)

sweep-removes_old_example :
    let old = old_records (100 - 50) (list files) in
    let after = sweep (λ _. true) 100 50 files in
    (after.removed ≡ length old)
    × (after.failure ≡ none)
    × (find uuid after.files ≡ (if has_id old uuid then none else find uuid files))
sweep-removes_old_example = sweep-removes_old 100 50 files uuid

abbrev question : Message
question = record {
  id = codes "m1";
  ts = 1;
  from = codes "delegate";
  kind = codes "ask";
  text = codes "which?";
  reply_to = [];
  delivered_at = none;
}

abbrev reply : Message
reply = record {
  id = codes "m2";
  ts = 2;
  from = codes "orchestrator";
  kind = codes "answer";
  text = codes "that";
  reply_to = codes "m1";
  delivered_at = none;
}

abbrev logs : Logs
logs = (uuid, some (question ∷ [])) ∷ []

push_message-answers_example :
    unanswered_asks uuid (push_message true uuid reply logs).1
    ≡ ok (
        keep_if
          (λ m. not (reply.reply_to == m.id))
          (keep_if (λ m. is_ask m && not (is_answered (question ∷ []) m.id)) (question ∷ [])))
unfolding valid_uuid valid_from find text_beq read_messages
push_message-answers_example = push_message-answers uuid reply logs (question ∷ []) refl refl
