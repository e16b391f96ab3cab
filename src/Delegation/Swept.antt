-- ===== src/Delegation/Swept.antt =====
-- `Sweep` of apps/server-go/internal/delegation/store.go.
use tail_claude_mux.Delegation.Records.{sweep, sweep_records, list, Files, Delegation}
use tail_claude_mux.Base.{
  Text, any, keep_if, length, find-remove, remove, find, option_eq, ◌==◌, Bool-cases, if◌then◌else◌,
  ltb, arith, ◌∷◌, [], List, none, true, Bool, inr, inl, ◌∙◌, refl, ◌≡◌, ◌-◌, ◌+◌, ℕ, nat_eq,
  text_eq,
}

-- The records that a sweep is about.
abbrev pub old_records : ℕ → List Delegation → List Delegation
old_records cutoff rs = keep_if (λ r. ltb r.created_at cutoff) rs

abbrev pub has_id : List Delegation → Text → Bool
has_id rs id = any (λ r. r.delegation_id == id) rs

sweep_records-done :
    (cutoff : ℕ) (rs : List Delegation) (n : ℕ) (files : Files) (id : Text)
    → let after = sweep_records (λ _. true) cutoff rs n files in
      (after.removed ≡ n + length (old_records cutoff rs))
      × (after.failure ≡ none)
      × (find id after.files ≡ (if has_id (old_records cutoff rs) id then none else find id files))
unfolding sweep_records
sweep_records-done cutoff [] n files id = (omega arith, refl, refl)
sweep_records-done cutoff (r ∷ rs) n files id = elim (Bool-cases (ltb r.created_at cutoff)) [
  | inr c ↦ rw (sweep_records, c) (sweep_records-done cutoff rs n files id)
  | inl c ↦
      let (counted, fine, found) =
        sweep_records-done cutoff rs (n + 1) (remove r.delegation_id files) id in
      rw (sweep_records, c)
        (omega (arith, counted), fine, found ∙ ground (arith, find-remove r.delegation_id id files))
]

-- When every file can be removed, a sweep removes exactly the listed records that were created
-- before the cutoff, counts them, and leaves every other file as it was.
pub sweep-removes_old :
    (now max_age : ℕ) (files : Files) (id : Text)
    → let old = old_records (now - max_age) (list files) in
      let after = sweep (λ _. true) now max_age files in
      (after.removed ≡ length old)
      × (after.failure ≡ none)
      × (find id after.files ≡ (if has_id old id then none else find id files))
unfolding sweep
sweep-removes_old now max_age files id =
    let (counted, fine, found) = sweep_records-done (now - max_age) (list files) 0 files id in
    (omega (arith, counted), fine, found)
