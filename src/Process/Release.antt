-- ===== src/Process/Release.antt =====
-- freePid on every branch.
use ece.Common.{
  ℕ, ◌+◌, ◌-◌, ◌≤◌, ◌<◌, ◌≡◌, ◌⊎◌, Bool, true, false, ◌||◌, not, none, some, arith, length, set,
  Run, done, fault, Fault, Status, success, einval, pos, ltb, ◌==◌, if◌then◌else◌,
}
use ece.Array
use ece.Array.Filled.{Filled, num_lem, setguy-Filled}
use ece.Array.Access.{getguy_outside}
use ece.Process.{Process, Table, pid_max, slot, process_exit, free_pid}
use ece.Process.Slots.{Slots, lookup}

-- The id is refused by the test of `freePid`.
abbrev pub Refused : Slots → ℕ → Type 0
Refused ps pid = (pid_max < pid) ⊎ (pid ≡ 0) ⊎ (length ps + 1 < pid)

-- Whether the semaphore of `p` can be destroyed.
abbrev pub idle : (ℕ → Bool) → Process → Bool
idle has_sleepers p = elim p.exit_lock [ none ↦ false | some s ↦ not (has_sleepers s) ]

-- The ways in which `freePid` ends. All but the first are for an id from 1 to PID_MAX.
pub data Freed (has_sleepers : ℕ → Bool) (t : Table) (ps : Slots) (pid : ℕ)
    : Run (Status × Table) → Type 0 where
  refused : Refused ps pid → Freed has_sleepers t ps pid (done (einval, t))
  outside :
      0 < pid
      → pid ≤ pid_max
      → length ps ≤ pid
      → pid ≤ length ps + 1
      → Freed has_sleepers t ps pid (fault Fault.assertion)
  unused :
      0 < pid
      → pid ≤ pid_max
      → pid < length ps
      → lookup ps pid ≡ none
      → Freed has_sleepers t ps pid (fault Fault.panicked)
  busy :
      (p : Process)
      → 0 < pid
      → pid ≤ pid_max
      → lookup ps pid ≡ some p
      → idle has_sleepers p ≡ false
      → Freed has_sleepers t ps pid (fault Fault.assertion)
  freed :
      (p : Process) (t' : Table)
      → 0 < pid
      → pid ≤ pid_max
      → lookup ps pid ≡ some p
      → idle has_sleepers p ≡ true
      → Filled t' (set ps pid none)
      → Freed has_sleepers t ps pid (done (success, t'))

-- the test of `freePid` on the id
abbrev bad_pid : Table → ℕ → Bool
bad_pid t pid = ltb pid_max pid || (pid == 0) || ltb (Array.getnum t) (pid - 1)

module _ (has_sleepers : ℕ → Bool) where
  process_exit_lem :
      (p : Process)
      → process_exit has_sleepers p
        ≡ (if idle has_sleepers p then done tt else fault Fault.assertion)
  unfolding process_exit
  process_exit_lem p = ground arith

module _ (has_sleepers : ℕ → Bool) {t : Table} {ps : Slots} (h : Filled t ps) (pid : ℕ) where
  slot_outside : length ps ≤ pid → slot t pid ≡ fault Fault.assertion
  slot_outside ge = rw (getguy_outside h.valid pid (omega (arith, num_lem h)))

  pub free_pid-idle :
      (p : Process)
      → 0 < pid
      → pid ≤ pid_max
      → pid < length ps
      → slot t pid ≡ done (some p)
      → idle has_sleepers p ≡ true
      → (t' : Table) × (free_pid has_sleepers (pos pid) t ≡ done (success, t'))
        × Filled t' (set ps pid none)
  unfolding free_pid
  free_pid-idle p lo hi lt s quiet =
      let good : bad_pid t pid ≡ false = ground (arith, num_lem h) in
      let (t', e, f) = setguy-Filled h pid lt none in
      (t', rw (good, s, e, process_exit_lem has_sleepers p, quiet), f)

  pub free_pid-busy :
      (p : Process)
      → 0 < pid
      → pid ≤ pid_max
      → pid < length ps
      → slot t pid ≡ done (some p)
      → idle has_sleepers p ≡ false
      → free_pid has_sleepers (pos pid) t ≡ fault Fault.assertion
  unfolding free_pid
  free_pid-busy p lo hi lt s waiting =
      let good : bad_pid t pid ≡ false = ground (arith, num_lem h) in
      let (t', e, f) = setguy-Filled h pid lt none in
      rw (good, s, e, process_exit_lem has_sleepers p, waiting)

  -- An id at the end of the table, or one past it, passes the test of `freePid` and stops the
  -- kernel on the assertion of `array_getguy` in place of EINVAL.
  pub free_pid_past_end :
      length ps ≤ pid
      → pid ≤ length ps + 1
      → 0 < pid
      → pid ≤ pid_max
      → free_pid has_sleepers (pos pid) t ≡ fault Fault.assertion
  unfolding free_pid
  free_pid_past_end ge le pos_pid small =
      let good : bad_pid t pid ≡ false = ground (arith, num_lem h) in rw (good, slot_outside ge)
