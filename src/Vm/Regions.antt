-- ===== src/Vm/Regions.antt =====
-- The regions of an address space: as_create, as_define_region, as_define_stack and vm_fault of
-- os161/kern/vm/addrspace.c, os161/kern/vm/segmentation.c and os161/kern/userprog/sys_sbrk.c.
use ece.Common.{
  ℕ, ◌+◌, ◌-◌, ◌*◌, ◌/◌, ◌%◌, Bool, true, false, ◌&&◌, Option, none, some, ltb, leb, ◌==◌, ℤ,
  if◌then◌else◌, Run, done, fault, Fault, Status, success, enomem, einval, efault, failed, ◌>>=◌,
}
use ece.Coremap.{word, page_size}
use ece.Process.{Table, free_pid}
use ece.Vm.{Space, tlb_handling}

-- What as_define_region keeps of one region.
pub record Region : Type 0 where
  pub vbase : ℕ
  pub npages : ℕ
  pub segment_size : ℕ
  pub segment_size_refine : ℕ
  pub offset : ℕ
  pub permission : ℕ
  pub filez : ℕ

-- `first` and `second` hold the fields of `struct addrspace` that end in 1 and in 2; `prepared` are
-- as_pbase1, as_pbase2 and as_stackpbase.
pub record AddrSpace : Type 0 where
  pub first : Region
  pub second : Region
  pub prepared : ℕ × ℕ × ℕ
  pub as_v : ℕ

abbrev pub empty_region : Region
empty_region = record {
  vbase = 0;
  npages = 0;
  segment_size = 0;
  segment_size_refine = 0;
  offset = 0;
  permission = 0;
  filez = 0;
}

-- as_create; `struct addrspace` has 19 words.
unfoldable pub as_create : (ℕ → Bool) → Option AddrSpace
as_create kmalloc =
    if kmalloc 76
    then some
        (record { first = empty_region; second = empty_region; prepared = (0, 0, 0); as_v = 0 })
    else none

-- the region that as_define_region records
unfoldable pub aligned : ℕ → ℕ → ℕ → ℕ → ℕ → Region
aligned vaddr sz offset file_size protectionFlag =
    let sz' = (sz + vaddr % page_size) % word in
    let sz'' = (sz' + page_size - 1) % word / page_size * page_size in
    record {
      vbase = vaddr / page_size * page_size;
      npages = sz'' / page_size;
      segment_size = sz;
      segment_size_refine = sz'';
      offset = offset;
      permission = protectionFlag;
      filez = file_size;
    }

-- as_define_region, without the name of the program; `none` is EUNIMP.
unfoldable pub as_define_region : ℕ → ℕ → ℕ → ℕ → ℕ → ℕ → AddrSpace → Option (Unit {0}) × AddrSpace
unfolding aligned
as_define_region vaddr sz offset v file_size protectionFlag as_ =
    let r = aligned vaddr sz offset file_size protectionFlag in
    let s : AddrSpace = record as_ { as_v = v } in
    if as_.first.vbase == 0
    then (some tt, record s { first = r })
    else (if as_.second.vbase == 0 then (some tt, record s { second = r }) else (none, s))

-- HEAP_TOP and USERSTACK
abbrev pub heap_top : ℕ
heap_top = 0x7000_0000

abbrev pub user_stack : ℕ
user_stack = 0x8000_0000

-- start of heap
abbrev pub heap_start : AddrSpace → ℕ
heap_start s = (s.second.vbase + s.second.segment_size_refine) % word

abbrev pub top : Region → ℕ
top r = (r.vbase + r.npages * page_size) % word

-- sbrk: the status, and `*old_break` where it is written
unfoldable pub sbrk : ℕ → AddrSpace → Status × Option ℕ
sbrk amount s =
    if ltb ((heap_start s + amount) % word) (heap_start s)
    then (einval, none)
    else (if leb heap_top ((heap_start s + amount) % word)
        then (enomem, none)
        else (if amount % 4 == 0 then (success, some (heap_start s)) else (success, none)))

pub data FaultType : Type 0 where
  fault_read fault_write fault_readonly fault_other : FaultType

abbrev pub readonly : FaultType → Bool
readonly fault_readonly = true
readonly _ = false

-- How vm_fault ends: the thread exited, or it returns.
pub data Ended : Type 0 where
  exited : Ended
  returned : Status → Ended

abbrev pub writing : FaultType → Bool
writing fault_read = false
writing _ = true

-- What a fault reaches besides the space: the table of the processes, the semaphores that threads
-- sleep on, curthread->pid, and the rest of the machine, which the parameters change.
pub record Machine (T : Type 0) : Type 0 where
  pub processes : Table
  pub has_sleepers : ℕ → Bool
  pub pid : ℤ
  pub rest : T

-- The words that vm_fault loads into the TLB go through `tlb_load`: TLB_Write at the index that
-- TLB_Probe gives, or TLB_Random. `thread_exit` does not return to its caller: it gives the space
-- and the machine that the thread leaves.
module _ {T : Type 0} (tlb_load : ℕ → ℕ → T → T)
    (thread_exit : Space → Machine T → Run (Space × Machine T))
    (evict_page : Space → Run (ℕ × Space))
    (swap_pagein : ℕ → Bool → ℕ → ℕ → ℕ → Bool → ℕ → Space → Run (Status × Space)) where
  -- `freePid(curthread->pid)` and `thread_exit()`
  unfoldable pub end_thread : Space → Machine T → Run (Space × Machine T)
  end_thread sp m = do
    (result, processes) ← free_pid m.has_sleepers m.pid m.processes
    thread_exit sp (record m { processes = processes })

  -- segmentation_handler: `none` where it returns, `some` where the thread has exited.
  unfoldable pub segmentation_handler :
      ℕ → FaultType → ℕ → ℕ → ℕ → ℕ → ℕ → ℕ → Space → Machine T → Run (Option (Space × Machine T))
  segmentation_handler faultaddress faulttype heap_start' stacktop segment1_top segment1_bottom
        segment2_top segment2_bottom sp m =
      let ends : Run (Option (Space × Machine T)) = (do r ← end_thread sp m; done (some r)) in
      let protected : Run (Option (Space × Machine T)) =
        if readonly faulttype then ends else done none in
      if leb segment1_bottom faultaddress && leb faultaddress segment1_top
      then protected
      else (if leb segment2_bottom faultaddress && leb faultaddress segment2_top
          then protected
          else (if leb heap_start' faultaddress && leb faultaddress stacktop
              then protected
              else ends))

  -- the end of vm_fault, after tlb_handling
  pub load_tlb : ℕ → Machine T → Status × Option ℕ × Space → Run (Ended × Space × Machine T)
  load_tlb faultaddress m (result, tlb_lo, sp) =
      if failed result then done (Ended.returned result, sp, m) else elim tlb_lo [
        | none ↦ fault Fault.uninitialised
        | some lo ↦
            done (Ended.returned success, sp, record m { rest = tlb_load faultaddress lo m.rest })
      ]

  -- vm_fault at the page `f`, with an address space
  unfoldable pub fault_in :
      FaultType → ℕ → AddrSpace → Space → Machine T → Run (Ended × Space × Machine T)
  unfolding segmentation_handler load_tlb
  fault_in faulttype f s sp m =
      let handle : Region → Bool → Run (Ended × Space × Machine T) = λ r from_stack.
        tlb_handling evict_page swap_pagein f r.segment_size r.filez r.offset r.permission
          (writing faulttype) from_stack r.npages sp
        >>= load_tlb f m in
      let region : Run (Ended × Space × Machine T) =
        if leb (heap_start s) f && ltb f user_stack
        then handle s.first true
        else (if leb s.first.vbase f && ltb f (top s.first)
            then handle s.first false
            else (if leb s.second.vbase f && ltb f (top s.second)
                then handle s.second false
                else fault Fault.uninitialised)) in
      (do
        gone ←
            segmentation_handler f faulttype (heap_start s) user_stack (top s.first) s.first.vbase
              (top s.second) s.second.vbase sp m
        elim gone [ none ↦ region | some (sp', m') ↦ done (Ended.exited, sp', m') ])

  -- `none` is a thread without an address space.
  unfoldable pub vm_fault :
      FaultType → ℕ → Option AddrSpace → Space → Machine T → Run (Ended × Space × Machine T)
  unfolding fault_in
  vm_fault fault_other faultaddress as_ sp m = done (Ended.returned einval, sp, m)
  vm_fault faulttype faultaddress none sp m = done (Ended.returned efault, sp, m)
  vm_fault faulttype faultaddress (some s) sp m =
      fault_in faulttype (faultaddress / page_size * page_size) s sp m
