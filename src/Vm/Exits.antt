-- ===== src/Vm/Exits.antt =====
-- Faults that end the thread: segmentation_handler with freePid.
use ece.Common.{
  ℕ, ◌*◌, ◌/◌, ◌≤◌, ◌<◌, ◌≡◌, ◌≢◌, ◌⊎◌, inl, inr, refl, ap, ◌∙◌, pos, none, set, ◌>>=◌, Bool, true,
  false, ◌&&◌, some, leb, lt→leb_false, Bool-cases, Run, done, fault, Fault, Status,
}
use ece.Coremap.{page_size}
use ece.Array.Filled.{Filled}
use ece.Process.{Process, Table, pid_max}
use ece.Process.Slots.{Slots, lookup}
use ece.Process.Exit.{inside, slot_taken}
use ece.Process.Release.{idle, free_pid-idle, free_pid-busy}
use ece.Vm.{Space}
use ece.Vm.Regions.{
  AddrSpace, heap_start, user_stack, top, FaultType, fault_read, fault_write, fault_readonly,
  fault_other, readonly, Ended, Machine, end_thread, segmentation_handler, fault_in, vm_fault,
}

-- what vm_fault answers for a thread that has exited
abbrev pub exits : {T : Type 0} → Space × Machine T → Run (Ended × Space × Machine T)
exits (sp, m) = done (Ended.exited, sp, m)

-- `f` lies below `low` or above `high`.
abbrev pub Beyond : ℕ → ℕ → ℕ → Type 0
Beyond low high f = (f < low) ⊎ (high < f)

-- A write to a read-only page, or an access outside both segments and the range from the heap to the
-- stack, their ends counted in.
abbrev pub Fatal : FaultType → ℕ → AddrSpace → Type 0
Fatal faulttype f s =
    (faulttype ≡ fault_readonly)
    ⊎ ((faulttype ≢ fault_other)
        × Beyond s.first.vbase (top s.first) f
        × Beyond s.second.vbase (top s.second) f
        × Beyond (heap_start s) user_stack f)

beyond : (low high f : ℕ) → Beyond low high f → (leb low f && leb f high) ≡ false
beyond low high f (inl lt) = rw (lt→leb_false low f lt) refl
beyond low high f (inr gt) = elim (Bool-cases (leb low f)) [
  | inl a ↦ rw (a, lt→leb_false f high gt) refl
  | inr a ↦ rw a refl
]

module _ {T : Type 0} (tlb_load : ℕ → ℕ → T → T)
    (thread_exit : Space → Machine T → Run (Space × Machine T))
    (evict_page : Space → Run (ℕ × Space))
    (swap_pagein : ℕ → Bool → ℕ → ℕ → ℕ → Bool → ℕ → Space → Run (Status × Space)) where
  segmentation_ends :
      (faulttype : FaultType) (f : ℕ) (s : AddrSpace) (sp : Space) (m : Machine T)
      → Fatal faulttype f s
      → segmentation_handler tlb_load thread_exit evict_page swap_pagein f faulttype
          (heap_start s)
          user_stack
          (top s.first)
          s.first.vbase
          (top s.second)
          s.second.vbase
          sp
          m
        ≡ (end_thread tlb_load thread_exit evict_page swap_pagein sp m >>= λ r. done (some r))
  unfolding segmentation_handler
  segmentation_ends faulttype f s sp m (inl protected) =
      let test : readonly faulttype ≡ true = ap readonly protected in
      elim (Bool-cases (leb s.first.vbase f && leb f (top s.first))) [
        | inl a ↦ rw (a, test) refl
        | inr a ↦ elim (Bool-cases (leb s.second.vbase f && leb f (top s.second))) [
          | inl b ↦ rw (a, b, test) refl
          | inr b ↦ elim (Bool-cases (leb (heap_start s) f && leb f user_stack)) [
            | inl c ↦ rw (a, b, c, test) refl
            | inr c ↦ rw (a, b, c) refl
          ]
        ]
      ]
  segmentation_ends faulttype f s sp m (inr (known, first, second, heap)) =
      rw
        (
          beyond s.first.vbase (top s.first) f first,
          beyond s.second.vbase (top s.second) f second,
          beyond (heap_start s) user_stack f heap,
        )
        refl

  pub vm_fault_known :
      (faulttype : FaultType) (f : ℕ) (s : AddrSpace) (sp : Space) (m : Machine T)
      → faulttype ≢ fault_other
      → vm_fault tlb_load thread_exit evict_page swap_pagein faulttype f (some s) sp m
        ≡ fault_in tlb_load thread_exit evict_page swap_pagein faulttype
            (f / page_size * page_size)
            s
            sp
            m
  unfolding vm_fault
  vm_fault_known fault_read f s sp m ne = refl
  vm_fault_known fault_write f s sp m ne = refl
  vm_fault_known fault_readonly f s sp m ne = refl
  vm_fault_known fault_other f s sp m ne = absurd (ne refl)

  Fatal-known :
      (faulttype : FaultType) (f : ℕ) (s : AddrSpace)
      → Fatal faulttype f s
      → faulttype ≢ fault_other
  Fatal-known faulttype f s (inl protected) = λ e. cc (protected, e)
  Fatal-known faulttype f s (inr (known, first, second, heap)) = known

  -- Such a fault comes down to the end of the thread.
  vm_fault-end_thread :
      (faulttype : FaultType) (f : ℕ) (s : AddrSpace) (sp : Space) (m : Machine T)
      → Fatal faulttype (f / page_size * page_size) s
      → vm_fault tlb_load thread_exit evict_page swap_pagein faulttype f (some s) sp m
        ≡ (end_thread tlb_load thread_exit evict_page swap_pagein sp m >>= exits)
  unfolding fault_in
  vm_fault-end_thread faulttype f s sp m ends =
      vm_fault_known faulttype f s sp m (Fatal-known faulttype (f / page_size * page_size) s ends)
      ∙ rw (segmentation_ends faulttype (f / page_size * page_size) s sp m ends)
          (through _ (end_thread tlb_load thread_exit evict_page swap_pagein sp m))
    where
      through :
          (back : Run (Ended × Space × Machine T)) (run : Run (Space × Machine T))
          → ((run >>= λ r. done (some r)) >>= λ gone. elim gone [
            | none ↦ back
            | some (sp', m') ↦ done (Ended.exited, sp', m')
          ])
            ≡ (run >>= exits)
      through back (done r) = refl
      through back (fault e) = refl

  -- A write to a read-only page, wherever the page lies, and an access outside both segments and the
  -- range from the heap to the stack, their ends counted in, end the thread, whose id from 1 to
  -- PID_MAX is taken in the table. No page is mapped first: where no thread sleeps on the exit
  -- semaphore of the process, exactly its slot becomes free, and thread_exit is called with the page
  -- table, the frames and the rest of the machine as they were. Where a thread sleeps on it, or it is
  -- NULL, the kernel stops on an assertion of sem_destroy.
  pub vm_fault_ends :
      (faulttype : FaultType) (f : ℕ) (s : AddrSpace) (sp : Space) (m : Machine T) {ps : Slots}
      (pid : ℕ) (p : Process)
      → Fatal faulttype (f / page_size * page_size) s
      → Filled m.processes ps
      → m.pid ≡ pos pid
      → 0 < pid
      → pid ≤ pid_max
      → lookup ps pid ≡ some p
      → ((idle m.has_sleepers p ≡ true)
          × (t : Table) × Filled t (set ps pid none)
          × (vm_fault tlb_load thread_exit evict_page swap_pagein faulttype f (some s) sp m
              ≡ (thread_exit sp (record m { processes = t }) >>= exits)))
        ⊎ ((idle m.has_sleepers p ≡ false)
            × (vm_fault tlb_load thread_exit evict_page swap_pagein faulttype f (some s) sp m
                ≡ fault Fault.assertion))
  unfolding end_thread
  vm_fault_ends faulttype f s sp m pid p ends filled at lo hi there =
      let lt = inside filled pid there in
      let taken = slot_taken filled pid there in
      let down = vm_fault-end_thread faulttype f s sp m ends in
      elim (Bool-cases (idle m.has_sleepers p)) [
        | inl quiet ↦
            let (t, run, filled') =
              free_pid-idle m.has_sleepers filled pid p lo hi lt taken quiet in
            inl (quiet, t, filled', down ∙ rw (at, run) refl)
        | inr waiting ↦
            let run = free_pid-busy m.has_sleepers filled pid p lo hi lt taken waiting in
            inr (waiting, down ∙ rw (at, run) refl)
      ]
