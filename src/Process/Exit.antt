-- ===== src/Process/Exit.antt =====
-- The way of an exit code from `_exit`, in the child, to `waitpid`, in the parent.
use ece.Common.{
  ℕ, ◌≤◌, ◌<◌, ◌≡◌, refl, ap, sym, ◌∙◌, Bool, true, false, ◌||◌, not, none, some, inl, inr, arith,
  length, set, set-set, done, success, ℤ, pos, ltb, ◌==◌, ==_true, subst,
}
use ece.Array
use ece.Array.Filled.{Filled, num_lem, setguy-Filled}
use ece.Process.{
  Process, Table, pid_max, slot, waitpid_check, waitpid_collect, exit_process, bad_pointer,
}
use ece.Process.Slots.{Slots, lookup, lookup-lt, lookup_of_get, slot_cases, lookup-set_self}
use ece.Process.Release.{idle, free_pid-idle}

-- the node of a child once `_exit` has written to it
abbrev pub left : Process → ℤ → Process
left p code = record p { exit_code = code; exited = true }

module _ {t : Table} {ps : Slots} (h : Filled t ps) (pid : ℕ) {p : Process}
    (l : lookup ps pid ≡ some p) where
  pub inside : pid < length ps
  inside = lookup-lt ps pid (λ e. cc)

  -- A taken slot is read as its node.
  pub slot_taken : slot t pid ≡ done (some p)
  slot_taken = elim (slot_cases h pid inside) [
    | inl (s, g) ↦ let f = lookup_of_get ps pid g in absurd (cc)
    | inr (q, s, g) ↦ let f = lookup_of_get ps pid g in s ∙ ap done (sym f ∙ l)
  ]

  exit_lem :
      (code : ℤ)
      → (t' : Table) × (exit_process pid code t ≡ done (p.exit_lock, t'))
        × Filled t' (set ps pid (some (left p code)))
  unfolding exit_process
  exit_lem code =
      let (t', e, f) = setguy-Filled h pid inside (some (left p code)) in
      (t', rw (slot_taken, e), f)

  waitpid_check_lem :
      (status : ℕ)
      → 0 < pid
      → pid ≤ pid_max
      → bad_pointer status ≡ false
      → waitpid_check p.parent_pid (pos pid) status 0 t ≡ done (success, some p)
  unfolding waitpid_check
  waitpid_check_lem status lo hi ok =
      let test : (ltb pid_max pid || (pid == 0) || not (ltb pid (Array.getnum t)) || not (0 == 0))
          ≡ false =
        ground (arith, num_lem h, inside) in
      rw (test, ok, slot_taken, ==_true p.parent_pid p.parent_pid refl)

  waitpid_collect_lem :
      (has_sleepers : ℕ → Bool)
      → 0 < pid
      → pid ≤ pid_max
      → idle has_sleepers p ≡ true
      → (t' : Table) × (waitpid_collect has_sleepers pid t ≡ done (success, p.exit_code, pid, t'))
        × Filled t' (set ps pid none)
  unfolding waitpid_collect
  waitpid_collect_lem has_sleepers lo hi quiet =
      let (t', e, f) = free_pid-idle has_sleepers h pid p lo hi inside slot_taken quiet in
      (t', rw (slot_taken, e), f)

-- A child that exits with a code hands it to the parent that waits on it, whatever the code, and
-- its id is free afterwards while no other slot has changed: `exit_process` in the child yields the
-- semaphore to signal, `waitpid_check` then lets the parent pass, and `waitpid_collect` returns the
-- code. No thread sleeps on the semaphore any more at that point.
pub exit-then-waitpid :
    (has_sleepers : ℕ → Bool) {t : Table} {ps : Slots} (pid : ℕ) {p : Process} (code : ℤ)
    (status : ℕ)
    → Filled t ps
    → lookup ps pid ≡ some p
    → 0 < pid
    → pid ≤ pid_max
    → bad_pointer status ≡ false
    → idle has_sleepers p ≡ true
    → (t₁ : Table) × (t₂ : Table) × (exit_process pid code t ≡ done (p.exit_lock, t₁))
      × (waitpid_check p.parent_pid (pos pid) status 0 t₁ ≡ done (success, some (left p code)))
      × (waitpid_collect has_sleepers pid t₁ ≡ done (success, code, pid, t₂))
      × Filled t₂ (set ps pid none)
exit-then-waitpid has_sleepers {t} {ps} pid {p} code status h l lo hi ok quiet =
    let (t₁, e, f) = exit_lem h pid l code in
    let l₁ = lookup-set_self ps pid (some (left p code)) (inside h pid l) in
    let (t₂, c, f₂) = waitpid_collect_lem f pid l₁ has_sleepers lo hi quiet in
    (
      t₁,
      t₂,
      e,
      waitpid_check_lem f pid l₁ status lo hi ok,
      c,
      subst (Filled t₂) (set-set ps pid (some (left p code)) none) f₂,
    )
