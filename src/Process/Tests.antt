-- ===== src/Process/Tests.antt =====
-- The theorems on os161/kern/thread/process.c at a table of three slots.
use ece.Common.{
  ℕ, ◌≡◌, refl, Bool, true, false, none, some, [], ◌∷◌, arith, done, fault, Fault, success, pos,
}
use ece.Array.Filled.{Filled}
use ece.Process.{
  Process, Table, allocate_pid, free_pid, waitpid_check, waitpid_collect, exit_process,
}
use ece.Process.Slots.{Slots}
use ece.Process.Allocate.{Allocated, node, allocate_pid-Allocated}
use ece.Process.Release.{free_pid_past_end}
use ece.Process.Exit.{left, exit-then-waitpid}

abbrev boot : Process
boot = node (some 10) 0 100

abbrev child : Process
child = node (some 12) 0 102

-- The process 1 has gone.
abbrev slots : Slots
slots = some boot ∷ none ∷ some child ∷ []

abbrev table : Table
table = record {
  num = 3;
  max = 4;
  v = some (some (some boot) ∷ some none ∷ some (some child) ∷ none ∷ []);
}

abbrev plenty : ℕ → Bool
plenty _ = true

abbrev nobody : ℕ → Bool
nobody _ = false

table-Filled : Filled table slots
table-Filled = record { valid = omega arith; shows = refl }

allocate_pid-Allocated_example :
    Allocated plenty table slots (node (some 11) 0 101) (allocate_pid plenty (some 11) 0 101 table)
allocate_pid-Allocated_example =
    allocate_pid-Allocated plenty (some 11) 0 101 table slots table-Filled (omega arith) refl

free_pid_past_end_example : free_pid nobody (pos 4) table ≡ fault Fault.assertion
free_pid_past_end_example =
    free_pid_past_end nobody table-Filled 4 (omega arith) (omega arith) (omega arith) (omega arith)

exit-then-waitpid_example :
    (t₁ : Table) × (t₂ : Table) × (exit_process 2 (pos 7) table ≡ done (some 12, t₁))
    × (waitpid_check 0 (pos 2) 4 0 t₁ ≡ done (success, some (left child (pos 7))))
    × (waitpid_collect nobody 2 t₁ ≡ done (success, pos 7, 2, t₂))
    × Filled t₂ (some boot ∷ none ∷ none ∷ [])
exit-then-waitpid_example =
    exit-then-waitpid nobody 2 (pos 7) 4 table-Filled refl (omega arith) (omega arith) refl refl
