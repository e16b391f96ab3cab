-- ===== src/ProcWalk/Snapshot.antt =====
-- `ProcInfo` and `ParseProcessSnapshot` of apps/server-go/internal/procwalk/procwalk.go.
use tail_claude_mux.Metadata.Runs.{run}
use tail_claude_mux.Base.{
  split, trim, is_space, text_eq, codes, Text, put, Map, option_eq, nat_eq, ◌==◌, if◌then◌else◌,
  leb, ◌∷◌, [], List, some, none, Option, ◌||◌, ◌&&◌, Bool, ◌^◌, ◌*◌, ◌-◌, ◌+◌, ℕ,
}

pub record ProcInfo : Type 0 where
  pub pid : ℕ
  pub ppid : ℕ
  pub command : Text

abbrev pub Snapshot : Type 0
Snapshot = Map ℕ ProcInfo

abbrev is_digit : ℕ → Bool
is_digit c = leb 48 c && leb c 57

-- The white space of a regular expression's `\s`.
abbrev pub is_re_space : ℕ → Bool
is_re_space c = c == 32 || c == 9 || c == 10 || c == 12 || c == 13

-- What a greedy repetition takes, and what it leaves.
unfoldable pub take_run : (ℕ → Bool) → Text → Text × Text
take_run p [] = ([], [])
take_run p (c ∷ s) = let (run, rest) = take_run p s in if p c then (c ∷ run, rest) else ([], c ∷ s)

-- `strconv.Atoi` of a run of digits; the range is that of a 64-bit int.
unfoldable pub digits_value : ℕ → Text → ℕ
digits_value acc [] = acc
digits_value acc (c ∷ s) = digits_value (acc * 10 + (c - 48)) s

unfoldable pub atoi : Text → Option ℕ
unfolding digits_value
atoi s = let n = digits_value 0 s in if s == [] || leb (2 ^ 63) n then none else some n

-- A line that `snapshotLineRE` matches: two runs of digits, each followed by white space, and the
-- command.
unfoldable pub parse_line : Text → Option ProcInfo
unfolding take_run atoi
parse_line line =
    let (first, a) = take_run is_digit line in
    let (gap, b) = take_run is_re_space a in
    let (second, c) = take_run is_digit b in
    let (gap', command) = take_run is_re_space c in
    if gap == [] || gap' == [] then none else elim (atoi first) [
      | none ↦ none
      | some pid ↦ elim (atoi second) [
        | none ↦ none
        | some ppid ↦
            if pid == 0 then none else some (record { pid = pid; ppid = ppid; command = command })
      ]
    ]

unfoldable pub parse_lines : List Text → Snapshot → Snapshot
unfolding parse_line
parse_lines [] m = m
parse_lines (line ∷ lines) m =
    parse_lines lines
      (elim (parse_line (trim is_space line)) [ none ↦ m | some info ↦ put info.pid info m ])

unfoldable pub parse_process_snapshot : Text → Snapshot
unfolding parse_lines
parse_process_snapshot snapshot = parse_lines (split snapshot (codes "\n")) []
