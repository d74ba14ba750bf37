-- ===== src/Vm/Tests.antt =====
-- A process with an empty page table on a machine with three frames, of which two are free.
use ece.Common.{
  ℕ, zero, suc, ◌≡◌, ◌⊎◌, inl, inr, refl, sym, ap, arith, Bool, true, false, Option, some, none,
  pos, set, ◌>>=◌, [], ◌∷◌, get_elem?, Run, done, fault, Fault, Status, success,
}
use ece.Coremap.{Coremap, Entry, to_paddr, blank, taken, started, allocate_one}
use ece.Coremap.Valid.{Valid}
use ece.Kheap.Pages.{getppages, alloc_kpages}
use ece.Kheap.Subpage.{large_kmalloc}
use ece.Array.Filled.{Filled}
use ece.Process.{Process, Table}
use ece.Process.Slots.{Slots}
use ece.Process.Release.{idle}
use ece.Vm.{Space, PageTableEntry, install, map_page_table, map_loaded, read_page, tlb_handling}
use ece.Vm.Mapped.{LowMemory}
use ece.Vm.Reload.{tlb_handling-tlb_handling}
use ece.Vm.Regions.{AddrSpace, as_define_region, empty_region, FaultType, Machine, vm_fault}
use ece.Vm.Edge.{tlb_handling_no_frame, vm_fault-top}
use ece.Vm.Exits.{exits, vm_fault_ends}
use ece.Vm.Define.{Defined, as_define_region-Defined}

abbrev frames : Coremap
frames = record {
  base = 3;
  num_free = 2;
  entries =
      taken 1 1 (started (blank (to_paddr 3 0))) ∷ blank (to_paddr 3 1) ∷ blank (to_paddr 3 2) ∷ [];
  ram = λ _. 7;
}

frames-Valid : Valid frames
frames-Valid = record { counted = refl; located = located; fits = omega arith }
  where
    located : (i : ℕ) (e : Entry) → get_elem? frames.entries i ≡ some e → e.self_addr ≡ to_paddr 3 i
    located zero e h =
        let q : taken 1 1 (started (blank (to_paddr 3 0))) ≡ e = cc h in
        ap (λ x. x.self_addr) (sym q)
    located (suc zero) e h =
        let q : blank (to_paddr 3 1) ≡ e = cc h in ap (λ x. x.self_addr) (sym q)
    located (suc (suc zero)) e h =
        let q : blank (to_paddr 3 2) ≡ e = cc h in ap (λ x. x.self_addr) (sym q)
    located (suc (suc (suc i))) e h = cc

abbrev no_entry : PageTableEntry
no_entry = record {
  swapped = 0;
  exist = 0;
  global = 0;
  valid = 0;
  writable = 0;
  nocache = 0;
  physical_frame_number = 0;
}

abbrev space : Space
space = record {
  pd_addr = 0x8000_3000;
  pd = λ _. record { exist = 0; addr_page_table = 0 };
  tables = λ _ _. no_entry;
  frames = frames;
}

space-LowMemory : LowMemory space
space-LowMemory = record {
  valid = frames-Valid;
  above = omega arith;
  low = omega arith;
  fields = λ i. omega arith;
}

-- an eviction and a read from the disk that change nothing
abbrev no_page : Space → Run (ℕ × Space)
no_page sp = done (0, sp)

abbrev from_file : ℕ → Bool → ℕ → ℕ → ℕ → Bool → ℕ → Space → Run (Status × Space)
from_file paddr write mem file offset swap index sp = done (success, sp)

abbrev space_of : Run (Status × Option ℕ × Space) → Space
space_of (done (result, lo, sp)) = sp
space_of (fault e) = space

-- a fault on the stack: the frame at 0x4000, with its valid and dirty bits
abbrev after_fault : Space
after_fault = space_of (tlb_handling no_page from_file 0x7fff_f000 0 0 0 6 true true 1 space)

fault_run :
    tlb_handling no_page from_file 0x7fff_f000 0 0 0 6 true true 1 space
    ≡ done (success, some 0x4600, after_fault)
unfolding tlb_handling read_page map_loaded map_page_table install getppages allocate_one
    large_kmalloc alloc_kpages
fault_run = refl

tlb_handling-tlb_handling_example :
    (sp'' : Space) × (tlb_handling no_page from_file 0x7fff_f000 0 0 0 0 false true 1 after_fault
      ≡ done (success, some 0x4600, sp''))
tlb_handling-tlb_handling_example =
    tlb_handling-tlb_handling no_page from_file 0x7fff_f000 0 0 0 6 true true 1 0 0 0 0 false true 1
      space after_fault 0x4600 space-LowMemory (inr (refl, omega arith)) fault_run

abbrev full : Coremap
full = record {
  base = 3;
  num_free = 0;
  entries = taken 1 1 (started (blank (to_paddr 3 0))) ∷ [];
  ram = λ _. 7;
}

full-Valid : Valid full
full-Valid = record { counted = refl; located = located; fits = omega arith }
  where
    located : (i : ℕ) (e : Entry) → get_elem? full.entries i ≡ some e → e.self_addr ≡ to_paddr 3 i
    located zero e h =
        let q : taken 1 1 (started (blank (to_paddr 3 0))) ≡ e = cc h in
        ap (λ x. x.self_addr) (sym q)
    located (suc i) e h = cc

tlb_handling_no_frame_example :
    tlb_handling no_page from_file 0x7fff_f000 0 0 0 6 true true 1 (record space { frames = full })
    ≡ fault Fault.wild
tlb_handling_no_frame_example =
    tlb_handling_no_frame no_page from_file 0x7fff_f000 0 0 0 6 true true 1
      (record space { frames = full }) full-Valid (omega arith) refl (inl (λ q. omega arith))

-- a page of code at 0x400000 and one of data at 0x10000000
abbrev program : AddrSpace
program = record {
  first = record empty_region { vbase = 0x40_0000; npages = 1; segment_size_refine = 4096 };
  second = record empty_region { vbase = 0x1000_0000; npages = 1; segment_size_refine = 4096 };
  prepared = (0, 0, 0);
  as_v = 1;
}

abbrev last_loaded : ℕ → ℕ → ℕ → ℕ
last_loaded hi lo tlb = hi

-- The process 1 faults; no thread sleeps on its exit semaphore 20.
abbrev faulting : Process
faulting = record {
  parent_pid = 0;
  exited = false;
  exit_code = pos 0;
  exit_lock = some 20;
  mythread = 100;
}

abbrev processes : Table
processes = record { num = 2; max = 2; v = some (some none ∷ some (some faulting) ∷ []) }

abbrev slots : Slots
slots = none ∷ some faulting ∷ []

processes-Filled : Filled processes slots
processes-Filled = record { valid = omega arith; shows = refl }

abbrev machine : Machine ℕ
machine = record { processes = processes; has_sleepers = λ _. false; pid = pos 1; rest = 0 }

-- thread_exit empties the page directory
abbrev leave : Space → Machine ℕ → Run (Space × Machine ℕ)
leave sp m =
    done (record sp { pd = λ _. record { exist = 0; addr_page_table = 0 } }, record m { rest = 1 })

vm_fault_ends_example :
    ((idle machine.has_sleepers faulting ≡ true)
      × (t : Table) × Filled t (set slots 1 none)
      × (vm_fault last_loaded leave no_page from_file FaultType.fault_readonly 0x40_0010
            (some program)
            space
            machine
          ≡ (leave space (record machine { processes = t }) >>= exits)))
    ⊎ ((idle machine.has_sleepers faulting ≡ false)
        × (vm_fault last_loaded leave no_page from_file FaultType.fault_readonly 0x40_0010
              (some program)
              space
              machine
            ≡ fault Fault.assertion))
vm_fault_ends_example =
    vm_fault_ends last_loaded leave no_page from_file FaultType.fault_readonly 0x40_0010 program
      space machine 1 faulting (inl refl) processes-Filled refl (omega arith) (omega arith) refl

vm_fault-top_example :
    vm_fault last_loaded leave no_page from_file FaultType.fault_read 0x40_1000
      (some program)
      space
      machine
    ≡ fault Fault.uninitialised
vm_fault-top_example =
    vm_fault-top last_loaded leave no_page from_file 0x40_1000 program space machine refl refl
      (omega arith) (inl (omega arith)) (inl (omega arith))

as_define_region-Defined_example :
    Defined 0x40_0010 5000
      (record program { second = empty_region })
      (as_define_region 0x40_0010 5000 0 1 5000 5 (record program { second = empty_region }))
as_define_region-Defined_example =
    as_define_region-Defined 0x40_0010 5000 0 1 5000 5 (record program { second = empty_region })
      (omega arith)
