-- ===== src/Vm.antt =====
-- os161/kern/vm/pagetable.c and tlb.c: the page table of a process in two levels, and what a TLB
-- fault does. `tables` holds the second-level tables by the address they start at. The fields
-- of 20 bits keep the low 20 bits of what is stored in them. evictPage and swap_pagein are parameters,
-- which may change all of it.
pub mod Regions
pub mod Mapped
pub mod Table
pub mod Loaded
pub mod Reload
pub mod Exits
pub mod Edge
pub mod Define
mod Tests
use ece.Common.{
  ℕ, zero, suc, ◌+◌, ◌-◌, ◌*◌, ◌/◌, ◌%◌, Bool, true, false, Option, none, some, List, length, ltb,
  ◌==◌, if◌then◌else◌, Run, done, fault, Fault, Status, success, enomem, failed, ◌>>=◌, ◌>>◌,
}
use ece.Coremap.{Entry, Coremap, page_size, word, from_paddr}
use ece.Coremap as Map
use ece.Kheap.{update}
use ece.Kheap.Pages.{kseg0, getppages, alloc_kpages}
use ece.Kheap.Subpage.{large_kmalloc}

pub record PageTableEntry : Type 0 where
  pub swapped : ℕ
  pub exist : ℕ
  pub global : ℕ
  pub valid : ℕ
  pub writable : ℕ
  pub nocache : ℕ
  pub physical_frame_number : ℕ

pub record PageDirectoryEntry : Type 0 where
  pub exist : ℕ
  pub addr_page_table : ℕ

-- a page directory, the second-level tables and the map of the frames
pub record Space : Type 0 where
  pub pd_addr : ℕ
  pub pd : ℕ → PageDirectoryEntry
  pub tables : ℕ → ℕ → PageTableEntry
  pub frames : Coremap

-- the range of a field of 20 bits
abbrev pub field : ℕ
field = 1048576

-- PADDR_TO_KVADDR and KVADDR_TO_PADDR
abbrev pub to_kvaddr : ℕ → ℕ
to_kvaddr paddr = (paddr + kseg0) % word

abbrev pub of_kvaddr : ℕ → ℕ
of_kvaddr vaddr = (vaddr + word - kseg0) % word

-- EXTRACT_PAGE_DIRECTORY and EXTRACT_PAGE_TABLE
abbrev pub page_directory_of : ℕ → ℕ
page_directory_of vaddr = vaddr / 4194304 % 1024

abbrev pub page_table_of : ℕ → ℕ
page_table_of vaddr = vaddr / 4096 % 1024

-- `x | mask`, for a mask of one bit
abbrev pub with_bit : ℕ → ℕ → ℕ
with_bit x mask = if x / mask % 2 == 1 then x else x + mask

-- `x | (bit * mask)`, for a field of one bit
abbrev pub with_flag : ℕ → ℕ → ℕ → ℕ
with_flag x bit mask = if bit == 1 then with_bit x mask else x

-- `flag & PF_W`
abbrev pub writes : ℕ → Bool
writes flag = flag / 2 % 2 == 1

-- page_table_initializer; `none` is the panic's branch
pub page_table_initializer : (ℕ → Bool) → Run (ℕ → PageDirectoryEntry)
page_table_initializer kmalloc =
    if kmalloc 4096
    then done (λ _. record { exist = 0; addr_page_table = 0 })
    else fault Fault.panicked

-- what map_page_table writes to the entry of the page, and to the map
abbrev pub mapped : ℕ → ℕ → PageTableEntry
mapped p_addr flag = record {
  swapped = 0;
  exist = 1;
  global = 0;
  valid = 1;
  writable = if writes flag then 1 else 0;
  nocache = 0;
  physical_frame_number = p_addr % field;
}

abbrev pub recorded : ℕ → ℕ → ℕ → Entry → Entry
recorded vaddr pte pde e = record e { vaddr = vaddr; pt_addr = pte; pd_addr = pde }

-- the space with the entry written, and the directory's entry for the table at `pte`
abbrev pub installed : ℕ → ℕ → ℕ → ℕ → List Entry → Space → Space
installed p_addr vaddr_vm_fault flag pte entries sp = record sp {
  tables =
      update sp.tables pte
        (update (sp.tables pte) (page_table_of vaddr_vm_fault) (mapped p_addr flag));
  frames = record (sp.frames) { entries = entries };
  pd =
      update sp.pd (page_directory_of vaddr_vm_fault)
        (record { exist = 1; addr_page_table = pte % field });
}

-- the end of map_page_table, with the table at `pte`
pub install : ℕ → ℕ → ℕ → ℕ → Space → Run (Status × Space)
install p_addr vaddr_vm_fault flag pte sp = do
  entries ←
      Map.update (recorded vaddr_vm_fault pte sp.pd_addr)
        (from_paddr sp.frames.base (of_kvaddr p_addr)) sp.frames.entries
  done (success, installed p_addr vaddr_vm_fault flag pte entries sp)

-- alloc_kpages, on the frames of a space
abbrev pub alloc_in : ℕ → Space → Run (ℕ × Space)
alloc_in npages sp = do
  (address, cm) ← alloc_kpages npages sp.frames
  done (address, record sp { frames = cm })

-- `true` for alloc_pagetable is 1.
pub map_page_table : (Space → Run (ℕ × Space)) → ℕ → ℕ → ℕ → Bool → Space → Run (Status × Space)
unfolding install large_kmalloc
map_page_table evict_page p_addr vaddr_vm_fault flag alloc_pagetable sp =
    let old : Run (Status × Space) =
      install p_addr vaddr_vm_fault flag
        (to_kvaddr (sp.pd (page_directory_of vaddr_vm_fault)).addr_page_table) sp in
    let new : Run (Status × Space) = (do
      (pte, sp') ← large_kmalloc alloc_in evict_page page_size sp
      if pte == 0 then done (enomem, sp') else install p_addr vaddr_vm_fault flag pte sp') in
    if alloc_pagetable then new else old

-- a page that was found: its frame and its attributes as the low word of a TLB entry
abbrev pub tlb_word : PageTableEntry → ℕ
tlb_word e =
    with_flag
      (with_flag (with_flag (with_flag e.physical_frame_number e.global 256) e.valid 512) e.writable
        1024)
      e.nocache 2048

-- TLBLO_DIRTY and TLBLO_VALID
abbrev pub fresh_word : ℕ → ℕ → ℕ
fresh_word paddr flag =
    if writes flag
    then with_bit (with_bit (of_kvaddr paddr) 1024) 512
    else with_bit (of_kvaddr paddr) 512

-- The reference and dirty bits of a page that was found, and of a page that was read in.
abbrev pub touched : Bool → Entry → Entry
touched write e = record e { reference = 1; dirty = if write then 1 else e.dirty }

abbrev pub read_in : Entry → Entry
read_in e = record e { reference = 1; dirty = 0 }

module _ (evict_page : Space → Run (ℕ × Space))
    (swap_pagein : ℕ → Bool → ℕ → ℕ → ℕ → Bool → ℕ → Space → Run (Status × Space)) where
  -- The call of map_page_table, and `*tlb_entry_lo` before it.
  pub map_loaded : ℕ → ℕ → ℕ → Bool → Space → Run (Status × Option ℕ × Space)
  map_loaded paddr faultaddress flag alloc_pagetable sp = do
    (result, sp') ← map_page_table evict_page paddr faultaddress flag alloc_pagetable sp
    done (result, some (fresh_word paddr flag), sp')

  -- A page of a segment is read from its file or from the swap device.
  pub load :
      ℕ → ℕ → ℕ → ℕ → ℕ → ℕ → Bool → ℕ → Bool → Bool → ℕ → Space → Run (Status × Option ℕ × Space)
  unfolding map_loaded
  load paddr faultaddress memSize fileSize offset permission write pages alloc_pagetable swap
        swap_index sp =
      let size : ℕ → ℕ = λ given. if ltb 1 pages then 4096 else given in
      (do
        (result, sp') ←
            swap_pagein paddr write (size memSize) (size fileSize) offset swap swap_index sp
        if failed result
            then done (result, none, sp')
            else map_loaded paddr faultaddress permission alloc_pagetable sp')

  -- The part of tlb_handling from readPage on. The result is the status, `*tlb_entry_lo` where it was
  -- written, and the space.
  pub read_page :
      ℕ
      → ℕ
      → ℕ
      → ℕ
      → ℕ
      → Bool
      → Bool
      → ℕ
      → Bool
      → Bool
      → ℕ
      → Space
      → Run (Status × Option ℕ × Space)
  unfolding load map_loaded
  read_page faultaddress memSize fileSize offset permission write from_stack pages alloc_pagetable
        swap swap_index sp =
      do
        (pa, cm) ← getppages 1 0 sp.frames
        let sp₁ : Space = record sp { frames = cm }
        (paddr, sp₂) ← (if to_kvaddr pa == 0 then evict_page sp₁ else done (to_kvaddr pa, sp₁))
        entries ←
            Map.update read_in (from_paddr sp₂.frames.base (of_kvaddr paddr)) sp₂.frames.entries
        let sp' : Space = record sp₂ { frames = record (sp₂.frames) { entries = entries } }
        if from_stack
            then map_loaded paddr faultaddress 6 alloc_pagetable sp'
            else load paddr faultaddress memSize fileSize offset permission write pages
                alloc_pagetable swap swap_index sp'

  pub tlb_handling : ℕ → ℕ → ℕ → ℕ → ℕ → Bool → Bool → ℕ → Space → Run (Status × Option ℕ × Space)
  unfolding read_page
  tlb_handling faultaddress memSize fileSize offset permission write from_stack pages sp =
      let d = sp.pd (page_directory_of faultaddress) in
      let e = sp.tables (to_kvaddr d.addr_page_table) (page_table_of faultaddress) in
      let offset' = (offset + faultaddress % 1048576) % word in
      let hit : Run (Status × Option ℕ × Space) = (do
        entries ←
            Map.update (touched write) (from_paddr sp.frames.base e.physical_frame_number)
              sp.frames.entries
        done (
          success,
          some (tlb_word e),
          record sp { frames = record (sp.frames) { entries = entries } },
        )) in
      let missing =
        read_page faultaddress memSize fileSize offset' permission write from_stack pages false
          (e.swapped == 1) e.physical_frame_number sp in
      let no_table =
        read_page faultaddress memSize fileSize offset' permission write from_stack pages true false
          0 sp in
      if d.exist == 1 then (if e.exist == 1 then hit else missing) else no_table
