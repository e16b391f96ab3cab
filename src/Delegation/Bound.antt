-- ===== src/Delegation/Bound.antt =====
-- What `CreateWithID` and `Bind` of apps/server-go/internal/delegation/store.go leave to be read.
use tail_claude_mux.Delegation.Uuid.{normalize_agent, valid_uuid}
use tail_claude_mux.Delegation.Records.{
  malformed, not_found, find_unbound_by_pane, is_unbound_in, list, bind_record, failed, ok,
  already_bound, find_last, bind, create_with_id, write, read, decode_record, Files, CreateParams,
  Delegation,
}
use tail_claude_mux.Base.{
  text_beq, codes, ne→==, ==→eq, ◌==◌, Option-cases, Bool-cases, if◌then◌else◌, arith, none, Option,
  false, inr, inl, ap, sym, Text, all, find-put, put, find, option_eq, ==_refl, ◌++◌, ◌∷◌, [], List,
  some, not, true, Bool, ◌≢◌, ◌∙◌, refl, ◌≡◌, ℕ, nat_eq, text_eq,
}

read-put :
    (id : Text) (r : Delegation) (files : Files)
    → valid_uuid id ≡ true
    → r.delegation_id ≡ id
    → read id (put r.delegation_id (some r) files) ≡ ok r
unfolding read decode_record
read-put id r files h e =
    let f : find id (put r.delegation_id (some r) files) ≡ some (some r) =
      find-put r.delegation_id id (some r) files ∙ rw (e, ==_refl id) refl in
    rw (h, f, decode_record, e, ==_refl id) refl

-- A created delegation is read back as it was returned, not yet bound.
create_with_id-read :
    (now : ℕ) (id : Text) (params : CreateParams) (files : Files)
    → valid_uuid id ≡ true
    → (r : Delegation) × ((create_with_id true now id params files).0 ≡ ok r)
      × (read id (create_with_id true now id params files).1 ≡ ok r)
      × (r.thread_id ≡ [])
      × (r.agent ≡ normalize_agent params.agent)
unfolding create_with_id write
create_with_id-read now id params files h = rw h (_, refl, read-put id _ files h refl, refl, refl)

decode_record-id :
    (id : Text) (raw : Option Delegation) (r : Delegation)
    → decode_record id raw ≡ ok r
    → r.delegation_id ≡ id
unfolding decode_record
decode_record-id id none r h = absurd (ground arith)
decode_record-id id (some d) r h = elim (Bool-cases (d.delegation_id == id)) [
  | inl c ↦
      let e : ok d ≡ ok r = sym (rw c refl) ∙ h in
      let f : d ≡ r = cc in ap (λ x. x.delegation_id) (sym f) ∙ ==→eq d.delegation_id id c
  | inr c ↦ let e : failed malformed ≡ ok r = sym (rw c refl) ∙ h in absurd (ground arith)
]

read-id :
    (id : Text) (r : Delegation) (files : Files)
    → read id files ≡ ok r
    → (valid_uuid id ≡ true) × (r.delegation_id ≡ id)
unfolding read
read-id id r files h = elim (Bool-cases (valid_uuid id)) [
  | inr c ↦ let e : failed not_found ≡ ok r = sym (rw (read, c) refl) ∙ h in absurd (ground arith)
  | inl c ↦ elim (Option-cases (find id files)) [
    | inl f ↦
        let e : failed not_found ≡ ok r = sym (rw (read, c, f) refl) ∙ h in absurd (ground arith)
    | inr (raw, f) ↦ (c, decode_record-id id raw r (sym (rw (read, c, f) refl) ∙ h))
  ]
]

normalize_agent-again :
    (agent : Text) → normalize_agent (normalize_agent agent) ≡ normalize_agent agent
unfolding normalize_agent text_beq
normalize_agent-again agent = elim (Bool-cases (agent == codes "claude")) [
  | inl h ↦ rw (normalize_agent, h) refl
  | inr h ↦ rw (normalize_agent, h, h) refl
]

bind-read :
    (writable : Bool) (now : ℕ) (id agent thread_id : Text) (r : Delegation) (files : Files)
    → read id files ≡ ok r
    → bind writable now id agent thread_id files ≡ bind_record writable now agent thread_id r files
unfolding bind
bind-read writable now id agent thread_id r files h = rw (bind, h) refl

bind_record-first :
    (now : ℕ) (agent thread_id : Text) (r : Delegation) (files : Files)
    → r.thread_id ≡ []
    → (normalize_agent r.agent == normalize_agent agent) ≡ true
    → (thread_id == []) ≡ false
    → let bound = record r {
      agent = normalize_agent r.agent;
      thread_id = thread_id;
      bound_at = some now;
    } in
      bind_record true now agent thread_id r files
      ≡ (ok bound, put r.delegation_id (some bound) files)
unfolding bind_record write text_beq
bind_record-first now agent thread_id r files unbound same thread =
    rw (bind_record, same, unbound, thread, write) refl

bind_record-bound :
    (writable : Bool) (now : ℕ) (agent thread_id : Text) (r : Delegation) (files : Files)
    → (normalize_agent r.agent == normalize_agent agent) ≡ true
    → (r.thread_id == []) ≡ false
    → bind_record writable now agent thread_id r files ≡ (
        if r.thread_id == thread_id
        then (ok (record r { agent = normalize_agent r.agent }), files)
        else (failed already_bound, files))
unfolding bind_record
bind_record-bound writable now agent thread_id r files same thread =
    rw (bind_record, same, thread) refl

-- A delegation that reads as unbound and is bound to a thread is read back bound to it; binding it
-- again to that thread changes nothing, however often and whoever writes, and binding it to another
-- thread is refused.
pub bind-once :
    (now later : ℕ) (writable : Bool) (id agent thread_id other_id : Text) (r : Delegation)
    (files : Files)
    → read id files ≡ ok r
    → r.thread_id ≡ []
    → normalize_agent r.agent ≡ normalize_agent agent
    → thread_id ≢ []
    → other_id ≢ thread_id
    → let bound = record r {
      agent = normalize_agent r.agent;
      thread_id = thread_id;
      bound_at = some now;
    } in
      let files' = (bind true now id agent thread_id files).1 in
      (read id files' ≡ ok bound)
      × (bind writable later id agent thread_id files' ≡ (ok bound, files'))
      × (bind writable later id agent other_id files' ≡ (failed already_bound, files'))
bind-once now later writable id agent thread_id other_id r files h unbound same thread
      other_thread =
    let bound = record r {
      agent = normalize_agent r.agent;
      thread_id = thread_id;
      bound_at = some now;
    } in
    let (valid, own) = read-id id r files h in
    let agree : (normalize_agent r.agent == normalize_agent agent) ≡ true =
      rw same (==_refl (normalize_agent agent)) in
    let fresh = ne→== thread_id [] thread in
    let first =
      bind-read true now id agent thread_id r files h
      ∙ bind_record-first now agent thread_id r files unbound agree fresh in
    let back : read id (put r.delegation_id (some bound) files) ≡ ok bound =
      read-put id bound files valid own in
    let again : (normalize_agent bound.agent == normalize_agent agent) ≡ true =
      rw (normalize_agent-again r.agent) agree in
    rw first (
      back,
      bind-read writable later id agent thread_id bound _ back
          ∙ bind_record-bound writable later agent thread_id bound _ again fresh
          ∙ rw (==_refl thread_id, normalize_agent-again r.agent) refl,
      bind-read writable later id agent other_id bound _ back
          ∙ bind_record-bound writable later agent other_id bound _ again fresh
          ∙ rw (ne→== thread_id other_id (λ q. other_thread (sym q))) refl,
    )

find_last-none :
    (p : Delegation → Bool) (rs : List Delegation)
    → find_last p rs ≡ none
    → all (λ s. not (p s)) rs ≡ true
unfolding find_last
find_last-none p [] h = refl
find_last-none p (s ∷ rs) h = ground (arith, find_last-none p rs)

-- What `find_last` finds passes the test, and no later entry does.
find_last-last :
    (p : Delegation → Bool) (rs : List Delegation) (r : Delegation)
    → find_last p rs ≡ some r
    → (before : List Delegation) × (after : List Delegation) × (rs ≡ before ++ (r ∷ after))
      × (p r ≡ true)
      × (all (λ s. not (p s)) after ≡ true)
unfolding find_last
find_last-last p [] r h = absurd (ground arith)
find_last-last p (s ∷ rs) r h = elim (Option-cases (find_last p rs)) [
  | inr (d, e) ↦
      let q : some d ≡ some r = sym (rw (find_last, e) refl) ∙ h in
      let f : d ≡ r = cc in
      let (before, after, split, passes, rest) = find_last-last p rs r (e ∙ ap some f) in
      (s ∷ before, after, ap (λ x. s ∷ x) split, passes, rest)
  | inl e ↦ elim (Bool-cases (p s)) [
    | inl c ↦
        let q : some s ≡ some r = sym (rw (find_last, e, c) refl) ∙ h in
        let f : s ≡ r = cc in ([], rs, ap (λ x. x ∷ rs) f, ap p (sym f) ∙ c, find_last-none p rs e)
    | inr c ↦ let q : none ≡ some r = sym (rw (find_last, e, c) refl) ∙ h in absurd (ground arith)
  ]
]

-- The record found for a pane is unbound and of that pane and session, and no record that the
-- listing has after it is.
find_unbound_by_pane-newest :
    (session_name pane_id : Text) (files : Files) (r : Delegation)
    → find_unbound_by_pane session_name pane_id files ≡ ok r
    → (before : List Delegation) × (after : List Delegation) × (list files ≡ before ++ (r ∷ after))
      × (is_unbound_in session_name pane_id r ≡ true)
      × (all (λ s. not (is_unbound_in session_name pane_id s)) after ≡ true)
unfolding find_unbound_by_pane
find_unbound_by_pane-newest session_name pane_id files r h =
    let p = is_unbound_in session_name pane_id in
    elim (Option-cases (find_last p (list files))) [
      | inl e ↦
          let q : failed not_found ≡ ok r = sym (rw (find_unbound_by_pane, e) refl) ∙ h in
          absurd (ground arith)
      | inr (d, e) ↦
          let q : ok d ≡ ok r = sym (rw (find_unbound_by_pane, e) refl) ∙ h in
          let f : d ≡ r = cc in find_last-last p (list files) r (e ∙ ap some f)
    ]
