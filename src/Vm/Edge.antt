-- ===== src/Vm/Edge.antt =====
-- Faults that the code does not provide for.
use ece.Common.{
  ℕ, zero, suc, ◌+◌, ◌*◌, ◌/◌, ◌%◌, ◌≤◌, ◌<◌, ◌≡◌, ◌≢◌, ◌⊎◌, inl, inr, refl, ap, ◌∙◌, arith, Bool,
  true, false, ◌&&◌, some, List, [], ◌∷◌, length, ltb, leb, le→ltb_false, le→leb, lt→leb_false,
  ◌==◌, ==_false, ==_iff, Bool-cases, Run, done, fault, Fault, read, write, Status,
}
use ece.Coremap.{Entry, Coremap, word, page_size, from_paddr}
use ece.Coremap as Map
use ece.Coremap.Valid.{Valid}
use ece.Coremap.One.{AllocatedOne, refused, given, allocate_one-Allocated}
use ece.Kheap.Pages.{getppages_one}
use ece.Vm.{
  Space, to_kvaddr, of_kvaddr, page_directory_of, page_table_of, read_in, read_page, tlb_handling,
}
use ece.Vm.Exits.{vm_fault_known}
use ece.Vm.Regions.{
  AddrSpace, heap_start, user_stack, top, fault_read, Machine, segmentation_handler, fault_in,
  vm_fault,
}

past_end :
    (f : Entry → Entry) (i : ℕ) (es : List Entry)
    → length es ≤ i
    → Map.update f i es ≡ fault Fault.wild
past_end f i es le = rw (read_past es i le)
  where
    read_past : (es : List Entry) (i : ℕ) → length es ≤ i → read es i ≡ fault Fault.wild
    read_past [] i le = refl
    read_past (e ∷ es) zero le = absurd (omega arith)
    read_past (e ∷ es) (suc i) le = read_past es i (omega arith)

none_left :
    (cm : Coremap) {run : Run (ℕ × Coremap)}
    → cm.num_free ≡ 0
    → AllocatedOne 0 cm run
    → run ≡ done (0, cm)
none_left cm z (refused _) = refl
none_left cm z (given c e cm' g f below base entries num ram v block) = absurd (omega (arith, num))

module _ (evict_page : Space → Run (ℕ × Space))
    (swap_pagein : ℕ → Bool → ℕ → ℕ → ℕ → Bool → ℕ → Space → Run (Status × Space)) where
  read_page_no_frame :
      (f mem file offset permission : ℕ) (write from_stack : Bool) (pages : ℕ) (alloc swap : Bool)
      (index : ℕ) (sp : Space)
      → Valid sp.frames
      → 0 < sp.frames.base
      → sp.frames.num_free ≡ 0
      → read_page evict_page swap_pagein f mem file offset permission write from_stack pages alloc
          swap index sp
        ≡ fault Fault.wild
  unfolding read_page
  read_page_no_frame f mem file offset permission write from_stack pages alloc swap index sp valid
        above z =
      let run =
        getppages_one 0 sp.frames
        ∙ none_left sp.frames z (allocate_one-Allocated 0 sp.frames valid) in
      let far : length sp.frames.entries ≤ from_paddr sp.frames.base (of_kvaddr (to_kvaddr 0)) =
        omega (arith, valid.fits) in
      let wild =
        past_end read_in (from_paddr sp.frames.base (of_kvaddr (to_kvaddr 0))) sp.frames.entries
          far in
      rw (run, wild)

  -- Where no frame is free, the fault for a page that is not in the page table stops the machine
  -- outside the map of the frames: getppages answers 0, to which kseg0 is added before the test for
  -- 0, so that no page is evicted. The map is valid and does not start at address 0.
  pub tlb_handling_no_frame :
      (f mem file offset permission : ℕ) (write from_stack : Bool) (pages : ℕ) (sp : Space)
      → Valid sp.frames
      → 0 < sp.frames.base
      → sp.frames.num_free ≡ 0
      → ((sp.pd (page_directory_of f)).exist ≢ 1)
        ⊎ ((sp.tables
              (to_kvaddr (sp.pd (page_directory_of f)).addr_page_table)
              (page_table_of f)).exist
            ≢ 1)
      → tlb_handling evict_page swap_pagein f mem file offset permission write from_stack pages sp
        ≡ fault Fault.wild
  unfolding tlb_handling
  tlb_handling_no_frame f mem file offset permission write from_stack pages sp valid above z
        absent =
      let d = sp.pd (page_directory_of f) in
      let e = sp.tables (to_kvaddr d.addr_page_table) (page_table_of f) in
      let no_frame : (alloc swap : Bool) (index : ℕ) → _ = λ alloc swap index.
        read_page_no_frame f mem file ((offset + f % 1048576) % word) permission write from_stack
          pages alloc swap index sp valid above z in
      elim (Bool-cases (d.exist == 1)) [
        | inr no_table ↦ rw no_table (no_frame true false 0)
        | inl table ↦
            let missing : (e.exist == 1) ≡ false = elim absent [
              | inl ne ↦ absurd (ne ((==_iff d.exist 1).0 table))
              | inr ne ↦ ==_false e.exist 1 ne
            ] in
            rw (table, missing) (no_frame false (e.swapped == 1) e.physical_frame_number)
      ]

module _ {T : Type 0} (tlb_load : ℕ → ℕ → T → T)
    (thread_exit : Space → Machine T → Run (Space × Machine T))
    (evict_page : Space → Run (ℕ × Space))
    (swap_pagein : ℕ → Bool → ℕ → ℕ → ℕ → Bool → ℕ → Space → Run (Status × Space)) where
  outside_all :
      (f : ℕ) (s : AddrSpace)
      → (f < heap_start s) ⊎ (user_stack ≤ f)
      → (f < s.second.vbase) ⊎ (top s.second ≤ f)
      → ((leb (heap_start s) f && ltb f user_stack) ≡ false)
        × ((leb s.second.vbase f && ltb f (top s.second)) ≡ false)
  outside_all f s heap second =
      (outside (heap_start s) f user_stack heap, outside s.second.vbase f (top s.second) second)
    where
      outside : (low f high : ℕ) → (f < low) ⊎ (high ≤ f) → (leb low f && ltb f high) ≡ false
      outside low f high (inl lt) = rw (lt→leb_false low f lt) refl
      outside low f high (inr ge) = elim (Bool-cases (leb low f)) [
        | inl a ↦ rw (a, le→ltb_false f high ge) refl
        | inr a ↦ rw a refl
      ]

  fault_in-top :
      (f : ℕ) (s : AddrSpace) (sp : Space) (m : Machine T)
      → f ≡ top s.first
      → s.first.vbase ≤ f
      → (f < heap_start s) ⊎ (user_stack ≤ f)
      → (f < s.second.vbase) ⊎ (top s.second ≤ f)
      → fault_in tlb_load thread_exit evict_page swap_pagein fault_read f s sp m
        ≡ fault Fault.uninitialised
  unfolding fault_in segmentation_handler
  fault_in-top f s sp m at above heap second =
      let (no_heap, no_second) = outside_all f s heap second in
      rw (le→leb s.first.vbase f above, le→leb f (top s.first) (omega arith))
        (rw
          (
            no_heap,
            le→leb s.first.vbase f above,
            le→ltb_false f (top s.first) (omega arith),
            no_second,
          )
          refl)

  -- The page that starts where segment 1 ends passes segmentation_handler, which takes it as a part of
  -- the segment, but belongs to no region of vm_fault. Where it lies outside the second segment
  -- and the range from the heap to the stack, a read of it goes on with variables that were never assigned.
  pub vm_fault-top :
      (f : ℕ) (s : AddrSpace) (sp : Space) (m : Machine T)
      → f % 4096 ≡ 0
      → f ≡ top s.first
      → s.first.vbase ≤ f
      → (f < heap_start s) ⊎ (user_stack ≤ f)
      → (f < s.second.vbase) ⊎ (top s.second ≤ f)
      → vm_fault tlb_load thread_exit evict_page swap_pagein fault_read f (some s) sp m
        ≡ fault Fault.uninitialised
  vm_fault-top f s sp m page at above heap second =
      let whole : f / page_size * page_size ≡ f = omega arith in
      vm_fault_known tlb_load thread_exit evict_page swap_pagein fault_read f s sp m (λ e. cc e)
      ∙ ap (λ t. fault_in tlb_load thread_exit evict_page swap_pagein fault_read t s sp m) whole
      ∙ fault_in-top f s sp m at above heap second
