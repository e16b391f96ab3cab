-- ===== src/ClaudeWatch/Result.antt =====
-- `ResultForThread` of apps/server-go/internal/ccwatch/ccwatch.go. A result that fails is none.
use tail_claude_mux.Base.{
  base_name, text_eq, codes, Text, option_eq, nat_eq, ◌==◌, ◌!=◌, if◌then◌else◌, ◌++◌, ◌∷◌, [],
  List, some, none, Option, ◌||◌, ◌&&◌, not, false, true, Bool,
}
use tail_claude_mux.Wire.{status_eq, Status}
use tail_claude_mux.ClaudeWatch.Transcript.{scan_transcript, Entry}

-- `ResultSnapshot`; the zero value has the empty status.
pub record ResultSnapshot : Type 0 where
  pub transcript_path : Text
  pub status : Status
  pub has_final : Bool
  pub final_message : Text

abbrev pub no_result : ResultSnapshot
no_result = record {
  transcript_path = [];
  status = Status.other [];
  has_final = false;
  final_message = [];
}

-- A chunk of agent-ouija's `ReadSession`, by whether the agent wrote it.
pub record Chunk : Type 0 where
  pub from_agent : Bool
  pub text : Text

-- What stands under a thread's name in a directory: nothing, something that cannot be looked at, or
-- a transcript with its entries and its chunks, each none when reading it fails.
pub data Looked : Type 0 where
  missing unreachable : Looked
  transcript : Option (List Entry) → Option (List Chunk) → Looked

pub record ResultDir : Type 0 where
  pub name : Text
  pub is_dir : Bool
  pub looked : Looked

-- The projects' directory: it may not exist, or not be readable.
pub data Listing : Type 0 where
  no_directory unlistable : Listing
  listed : List ResultDir → Listing

-- The text of the last chunk of the agent that has one.
unfoldable pub final_text : List Chunk → Option Text
final_text [] = none
final_text (c ∷ chunks) = elim (final_text chunks) [
  | some text ↦ some text
  | none ↦ if c.from_agent && c.text != [] then some c.text else none
]

abbrev with_final : ResultSnapshot → Option Text → ResultSnapshot
with_final snapshot none = snapshot
with_final snapshot (some text) = record snapshot { has_final = true; final_message = text }

-- The snapshot of a transcript that is found.
unfoldable pub snapshot_of :
    Text → Option (List Entry) → Option (List Chunk) → Option ResultSnapshot
unfolding scan_transcript final_text
snapshot_of path none chunks = none
snapshot_of path (some entries) chunks =
    let status = (scan_transcript entries).0 in
    let snapshot : ResultSnapshot = record no_result { transcript_path = path; status = status } in
    if status != Status.done
    then some snapshot
    else elim chunks [ none ↦ none | some cs ↦ some (with_final snapshot (final_text cs)) ]

-- The loop over the directories; the projects' directory is a clean path.
unfoldable pub find_result : Text → Text → List ResultDir → Option ResultSnapshot
unfolding snapshot_of
find_result projects_dir thread_id [] = some no_result
find_result projects_dir thread_id (dir ∷ dirs) =
    let rest = find_result projects_dir thread_id dirs in
    if not dir.is_dir then rest else elim dir.looked [
      | missing ↦ rest
      | unreachable ↦ none
      | transcript entries chunks ↦
          snapshot_of
            (projects_dir
              ++ (codes "/" ++ (dir.name ++ (codes "/" ++ (thread_id ++ codes ".jsonl")))))
            entries chunks
    ]

-- `ResultForThread`.
unfoldable pub result_for_thread : Text → Text → Listing → Option ResultSnapshot
unfolding find_result base_name
result_for_thread projects_dir thread_id listing =
    if thread_id == [] || base_name thread_id != thread_id then some no_result else elim listing [
      | no_directory ↦ some no_result
      | unlistable ↦ none
      | listed dirs ↦ find_result projects_dir thread_id dirs
    ]
