-- ===== src/ClaudeWatch/Thinking.antt =====
-- apps/server-go/internal/ccwatch/thinking.go: the thinking blocks that a transcript gains.
use tail_claude_mux.ClaudeWatch.Transcript.{content_items, Entry, ContentItem}
use tail_claude_mux.Base.{
  base_name, split, contains_text, has_prefix, text_eq, codes, Text, keep_if, is_empty, drop,
  length, option_eq, nat_eq, ◌==◌, ◌!=◌, if◌then◌else◌, ltb, ◌++◌, ◌∷◌, [], List, some, none,
  Option, ◌||◌, not, Bool, ◌^◌, ◌*◌, ◌-◌, ◌+◌, ℕ,
}

abbrev pub max_thinking_scan_bytes : ℕ
max_thinking_scan_bytes = 8 * 2 ^ 20

pub record ThinkingCursor : Type 0 where
  pub path : Text
  pub offset : ℕ

abbrev pub no_cursor : ThinkingCursor
no_cursor = record { path = []; offset = 0 }

-- `filepath.Clean` of an absolute path: its elements, the last one first.
unfoldable clean_elements : List Text → List Text → List Text
clean_elements above [] = above
clean_elements above (e ∷ es) =
    clean_elements
      (if e == [] || e == codes "."
        then above
        else if e == codes ".."
        then drop 1 above
        else e ∷ above)
      es

unfoldable join_elements : List Text → Text
join_elements [] = []
join_elements (e ∷ es) = join_elements es ++ (codes "/" ++ e)

unfoldable clean : Text → Text
unfolding clean_elements join_elements split
clean path =
    let elements = clean_elements [] (split path (codes "/")) in
    if is_empty elements then codes "/" else join_elements elements

-- `trackTranscript`, with the files' contents.
unfoldable pub track_transcript :
    (Text → Option Text) → Text → Text → ThinkingCursor → ThinkingCursor
unfolding clean base_name has_prefix
track_transcript files path thread_id c =
    if c.path != []
      || path == []
      || not (has_prefix path (codes "/"))
      || base_name path != thread_id ++ codes ".jsonl"
    then c
    else record {
      path = clean path;
      offset = elim (files (clean path)) [ none ↦ c.offset | some content ↦ length content ];
    }

-- The bytes up to the last line end, and as many as they are; none if there is no line end.
unfoldable pub whole_lines : Text → Text
whole_lines [] = []
whole_lines (c ∷ s) =
    let rest = whole_lines s in if c == 10 || not (is_empty rest) then c ∷ rest else []

abbrev is_thinking : ContentItem → Bool
is_thinking c = c.kind == codes "thinking" || c.kind == codes "redacted_thinking"

-- The blocks of one line, with the decoder of a line.
unfoldable pub line_blocks : (Text → Option Entry) → Text → ℕ
unfolding content_items
line_blocks decode line =
    if not (contains_text line (codes "thinking\"")) then 0 else elim (decode line) [
      | none ↦ 0
      | some e ↦
          if e.is_sidechain || e.role != codes "assistant"
          then 0
          else length (keep_if is_thinking (content_items e.content))
    ]

unfoldable pub sum_blocks : (Text → Option Entry) → List Text → ℕ
unfolding line_blocks
sum_blocks decode [] = 0
sum_blocks decode (line ∷ lines) = line_blocks decode line + sum_blocks decode lines

-- `countThinkingBlocks`.
unfoldable pub count_thinking_blocks : (Text → Option Entry) → Text → ℕ
unfolding sum_blocks split
count_thinking_blocks decode lines = sum_blocks decode (split lines (codes "\n"))

-- `newThinkingBlocks`: the cursor after it, and the number.
unfoldable pub new_thinking_blocks :
    (Text → Option Text) → (Text → Option Entry) → ThinkingCursor → ThinkingCursor × ℕ
unfolding count_thinking_blocks whole_lines
new_thinking_blocks files decode c = if c.path == [] then (c, 0) else elim (files c.path) [
  | none ↦ (c, 0)
  | some content ↦
      if ltb (length content) c.offset || ltb max_thinking_scan_bytes (length content - c.offset)
      then (record c { offset = length content }, 0)
      else if length content == c.offset
      then (c, 0)
      else (let lines = whole_lines (drop c.offset content) in
          (record c { offset = c.offset + length lines }, count_thinking_blocks decode lines))
]
