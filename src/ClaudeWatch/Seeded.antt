-- ===== src/ClaudeWatch/Seeded.antt =====
-- What the cold start of apps/server-go/internal/ccwatch/ccwatch.go brings in.
use tail_claude_mux.ClaudeWatch.Registry.{stale_ms, resolve_pid_from_sessions}
use tail_claude_mux.ClaudeWatch.State.{keep_thread, World, Adapter, ThreadState}
use tail_claude_mux.ClaudeWatch.Seed.{
  start, seed_dirs, seed_files, seed_file, decode_project_dir, ProjectDir, seed_thread, seed_status,
  is_inactive, Seeding, seed_session, thread_dialog_since, TranscriptFile,
}
use tail_claude_mux.ClaudeWatch.Transcript.{scan_transcript}
use tail_claude_mux.Wire.{AgentEvent, is_terminal_status, Status}
use tail_claude_mux.Base.{
  has_suffix, codes, take, length, ==→eq, ltb, Option, ◌||◌, ◌-◌, ◌+◌, text_eq, Text, all,
  option_eq, nat_eq, ◌==◌, ◌!=◌, is_some, Option-cases, Bool-cases, arith, ◌++◌, ◌∷◌, [], List,
  some, none, ◌&&◌, not, false, true, Bool, inr, inl, ◌∙◌, ap, sym, refl, ◌≡◌, ℕ,
}

-- An event worth seeding: of an active thread, with a session.
abbrev pub is_active_event : AgentEvent → Bool
is_active_event ev = not (is_inactive ev.status) && ev.session != []

abbrev pub is_new_to : Adapter → AgentEvent → Bool
is_new_to a ev = not (is_some (a.threads ev.thread_id))

-- A seeding against the watcher that it began with.
record IsSound (a : Adapter) (s : Seeding) : Type 0 where
  pub kept_threads :
      (id : Text) (st : ThreadState) → a.threads id ≡ some st → s.adapter.threads id ≡ some st
  pub all_active : all is_active_event s.emitted ≡ true
  pub all_new : all (is_new_to a) s.emitted ≡ true

all-append :
    {A : Type 0} (p : A → Bool) (xs : List A) (x : A)
    → all p xs ≡ true
    → p x ≡ true
    → all p (xs ++ (x ∷ [])) ≡ true
all-append p [] x h g = rw g refl
all-append p (y ∷ xs) x h g = let ih = all-append p xs x (ground arith) g in ground (arith, ih)

seed_status-active :
    (dialog_at mtime ts : ℕ) (latest status : Status)
    → seed_status dialog_at latest mtime ≡ some (status, ts)
    → is_inactive status ≡ false
unfolding seed_status is_terminal_status
seed_status-active dialog_at mtime ts latest status h = elim (Bool-cases (dialog_at != 0)) [
  | inl e ↦
      let q : ◌≡◌ {A = Option (Status × ℕ)} (some (Status.waiting, dialog_at)) (some (status, ts)) =
        rw (seed_status, e) at h in
      let f : Status.waiting ≡ status = cc in rw (sym f) refl
  | inr e ↦ elim (Bool-cases (is_inactive latest)) [
    | inl i ↦
        let q : ◌≡◌ {A = Option (Status × ℕ)} none (some (status, ts)) =
          rw (seed_status, e, i) at h in
        absurd (ground arith)
    | inr i ↦
        let q : ◌≡◌ {A = Option (Status × ℕ)} (some (latest, mtime)) (some (status, ts)) =
          rw (seed_status, e, i) at h in
        let f : latest ≡ status = cc in ap is_inactive (sym f) ∙ i
  ]
]

module _ (w : World) (is_dir : Text → Bool) (a : Adapter) where
  unknown_before :
      (id : Text) (s : Seeding) → IsSound a s → s.adapter.threads id ≡ none → a.threads id ≡ none
  unknown_before id s sound e = elim (Option-cases (a.threads id)) [
    | inl q ↦ q
    | inr (st, q) ↦
        let k = sound.kept_threads id st q in
        let h : none ≡ some st = sym e ∙ k in absurd (ground arith)
  ]

  -- One more thread that was not known.
  keep_thread-IsSound :
      (id : Text) (st : ThreadState) (ev : AgentEvent) (s : Seeding) (serial : ℕ)
      → s.adapter.threads id ≡ none
      → ev.thread_id ≡ id
      → is_active_event ev ≡ true
      → IsSound a s
      → IsSound a (record {
        adapter = keep_thread id st (record s.adapter { next_serial = serial });
        emitted = s.emitted ++ (ev ∷ []);
      })
  keep_thread-IsSound id st ev s serial absent same active sound = record {
    kept_threads = λ j st' h. elim (Bool-cases (id == j)) [
      | inl q ↦
          let k : s.adapter.threads id ≡ some st' =
            ap s.adapter.threads (==→eq id j q) ∙ sound.kept_threads j st' h in
          let c : none ≡ some st' = sym absent ∙ k in absurd (ground arith)
      | inr q ↦ rw q (sound.kept_threads j st' h)
    ];
    all_active = all-append is_active_event s.emitted ev sound.all_active active;
    all_new =
        all-append (is_new_to a) s.emitted ev sound.all_new
          (rw (same, unknown_before id s sound absent) refl);
  }

  seed_thread-IsSound :
      (project_dir thread_id : Text) (file : TranscriptFile) (s : Seeding)
      → s.adapter.threads thread_id ≡ none
      → IsSound a s
      → IsSound a (seed_thread w project_dir thread_id file s)
  unfolding seed_thread
  seed_thread-IsSound project_dir thread_id file s absent sound =
      let pid = resolve_pid_from_sessions w.registry thread_id in
      let latest = (scan_transcript file.entries).0 in
      let dialog_at = thread_dialog_since w thread_id pid in
      elim (Option-cases (seed_status dialog_at latest file.mtime)) [
        | inl e ↦ rw (seed_thread, e) sound
        | inr ((status, ts), e) ↦ elim (Bool-cases (seed_session w pid project_dir == [])) [
          | inl q ↦ rw (seed_thread, e, q) sound
          | inr q ↦
              let active = seed_status-active dialog_at file.mtime ts latest status e in
              rw (seed_thread, e, q)
                (keep_thread-IsSound thread_id _ _ s (s.adapter.next_serial + 1) absent refl
                  (rw (active, q) refl) sound)
        ]
      ]

  seed_file-IsSound :
      (project_dir : Text) (file : TranscriptFile) (s : Seeding)
      → IsSound a s
      → IsSound a (seed_file w project_dir file s)
  unfolding seed_file
  seed_file-IsSound project_dir file s sound =
      let id = take (length file.name - 6) file.name in
      elim (Bool-cases
        (not (has_suffix file.name (codes ".jsonl")) || ltb stale_ms (w.now - file.mtime))) [
          | inl g ↦ rw (seed_file, g) sound
          | inr g ↦ elim (Option-cases (s.adapter.threads id)) [
            | inl e ↦ rw (seed_file, g, e) (seed_thread-IsSound project_dir id file s e sound)
            | inr (st, e) ↦ rw (seed_file, g, e) sound
          ]
        ]

  seed_files-IsSound :
      (project_dir : Text) (files : List TranscriptFile) (s : Seeding)
      → IsSound a s
      → IsSound a (seed_files w project_dir files s)
  unfolding seed_files
  seed_files-IsSound project_dir [] s sound = sound
  seed_files-IsSound project_dir (file ∷ files) s sound =
      seed_files-IsSound project_dir files (seed_file w project_dir file s)
        (seed_file-IsSound project_dir file s sound)

  seed_dirs-IsSound :
      (dirs : List ProjectDir) (s : Seeding) → IsSound a s → IsSound a (seed_dirs w is_dir dirs s)
  unfolding seed_dirs
  seed_dirs-IsSound [] s sound = sound
  seed_dirs-IsSound (dir ∷ dirs) s sound =
      seed_dirs-IsSound dirs
        (seed_files w (decode_project_dir is_dir dir.encoded) dir.transcripts s)
        (seed_files-IsSound (decode_project_dir is_dir dir.encoded) dir.transcripts s sound)

  start-IsSound : (dirs : List ProjectDir) → IsSound a (start w is_dir dirs a)
  unfolding start
  start-IsSound dirs =
      seed_dirs-IsSound dirs (record { adapter = record a { started = true }; emitted = [] })
        (record { kept_threads = λ id st h. h; all_active = refl; all_new = refl })

  -- A cold start leaves a thread that hooks have established as it was. What it emits are events
  -- of threads that were not known, active ones, neither idle nor in a terminal status, each with a
  -- session.
  pub start-known :
      (dirs : List ProjectDir) (id : Text) (st : ThreadState)
      → a.threads id ≡ some st
      → let s = start w is_dir dirs a in
        (s.adapter.threads id ≡ some st)
        × (all (is_new_to a) s.emitted ≡ true)
        × (all is_active_event s.emitted ≡ true)
  start-known dirs id st h =
      let sound = start-IsSound dirs in
      (sound.kept_threads id st h, sound.all_new, sound.all_active)
