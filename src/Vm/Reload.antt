-- ===== src/Vm/Reload.antt =====
-- A TLB entry that was lost is loaded again from the page table.
use ece.Common.{
  ℕ, ◌+◌, ◌*◌, ◌%◌, ◌≤◌, ◌<◌, ◌≡◌, ◌⊎◌, inl, inr, refl, sym, ap, subst, ◌∙◌, arith, Bool, true,
  false, some, length, ◌==◌, ==_true, ==_iff, Bool-cases, Run, done, write, Status, success,
  >>=-eq-done,
}
use ece.Coremap.{Entry, Coremap, word, from_paddr}
use ece.Coremap as Map
use ece.Kheap.Pages.{kseg0}
use ece.Vm.{
  PageTableEntry, Space, field, to_kvaddr, of_kvaddr, page_directory_of, page_table_of, mapped,
  tlb_word, touched, tlb_handling,
}
use ece.Vm.Loaded.{Loaded, read_page_done}
use ece.Vm.Mapped.{update_done, update_runs, LowMemory, words_agree, taken_then, taken_else}

module _ (evict_page : Space → Run (ℕ × Space))
    (swap_pagein : ℕ → Bool → ℕ → ℕ → ℕ → Bool → ℕ → Space → Run (Status × Space)) where
  -- A page that is in the page table is found.
  tlb_handling_hit :
      (f mem file offset permission : ℕ) (write from_stack : Bool) (pages : ℕ) (sp : Space)
      → (sp.pd (page_directory_of f)).exist ≡ 1
      → (e : PageTableEntry)
      → sp.tables (to_kvaddr (sp.pd (page_directory_of f)).addr_page_table) (page_table_of f) ≡ e
      → e.exist ≡ 1
      → from_paddr sp.frames.base e.physical_frame_number < length sp.frames.entries
      → (sp' : Space) × (tlb_handling evict_page swap_pagein f mem file offset permission write
            from_stack pages sp
          ≡ done (success, some (tlb_word e), sp'))
  unfolding tlb_handling
  tlb_handling_hit f mem file offset permission write from_stack pages sp exist e entry present
        inside =
      let (es, run) =
        update_runs (touched write) (from_paddr sp.frames.base e.physical_frame_number)
          sp.frames.entries inside in
      (
        record sp { frames = record (sp.frames) { entries = es } },
        rw (
          entry,
          ==_true (sp.pd (page_directory_of f)).exist 1 exist,
          ==_true e.exist 1 present,
          run,
        ),
      )

  hit_done :
      (f mem file offset permission : ℕ) (write from_stack : Bool) (pages : ℕ)
      (mem' file' offset' permission' : ℕ) (write' from_stack' : Bool) (pages' : ℕ) (sp sp' : Space)
      (lo : ℕ)
      → (sp.pd (page_directory_of f)).exist ≡ 1
      → (sp.tables
          (to_kvaddr (sp.pd (page_directory_of f)).addr_page_table)
          (page_table_of f)).exist
        ≡ 1
      → tlb_handling evict_page swap_pagein f mem file offset permission write from_stack pages sp
        ≡ done (success, some lo, sp')
      → (sp'' : Space) × (tlb_handling evict_page swap_pagein f mem' file' offset' permission'
            write' from_stack' pages' sp'
          ≡ done (success, some lo, sp''))
  unfolding tlb_handling
  hit_done f mem file offset permission write from_stack pages mem' file' offset' permission' write'
        from_stack' pages' sp sp' lo exist present h =
      let e =
        sp.tables (to_kvaddr (sp.pd (page_directory_of f)).addr_page_table) (page_table_of f) in
      let h₁ = taken_then (e.exist == 1) _ (==_true e.exist 1 present) (
        taken_then ((sp.pd (page_directory_of f)).exist == 1) _
          (==_true (sp.pd (page_directory_of f)).exist 1 exist) h) in
      let (es, run, h₂) =
        >>=-eq-done
          (Map.update (touched write) (from_paddr sp.frames.base e.physical_frame_number)
            sp.frames.entries)
          _ h₁ in
      let (inside, size) =
        update_done (touched write) (from_paddr sp.frames.base e.physical_frame_number)
          sp.frames.entries es run in
      let same : record sp { frames = record (sp.frames) { entries = es } } ≡ sp' = cc h₂ in
      let word : tlb_word e ≡ lo = cc h₂ in
      let (sp'', again) =
        tlb_handling_hit f mem' file' offset' permission' write' from_stack' pages'
          (record sp { frames = record (sp.frames) { entries = es } }) exist e refl present
          (omega (arith, inside, size)) in
      (
        sp'',
        subst
            (λ t.
              tlb_handling evict_page swap_pagein f mem' file' offset' permission' write'
                from_stack' pages' t
              ≡ done (success, some lo, sp''))
            same (again ∙ ap (λ t. done (success, some t, sp'')) word),
      )

  Loaded-hit :
      (f mem file offset permission : ℕ) (write from_stack : Bool) (pages base size lo : ℕ)
      (sp' : Space)
      → Loaded f base size lo sp'
      → (sp'' : Space) × (tlb_handling evict_page swap_pagein f mem file offset permission write
            from_stack pages sp'
          ≡ done (success, some lo, sp''))
  Loaded-hit f mem file offset permission write from_stack pages base size lo sp'
        (c, flag, lt, word, m) =
      let frame : (kseg0 + 4096 * (c + base)) % field ≡ of_kvaddr (kseg0 + 4096 * (c + base)) =
        omega arith in
      let inside : from_paddr sp'.frames.base ((kseg0 + 4096 * (c + base)) % field)
          < length sp'.frames.entries =
        rw (frame, m.same_base, m.same_size) m.inside in
      let (sp'', again) =
        tlb_handling_hit f mem file offset permission write from_stack pages sp' m.exist
          (mapped (kseg0 + 4096 * (c + base)) flag) m.entry refl inside in
      (
        sp'',
        again ∙ ap (λ t. done (success, some t, sp'')) (words_agree (c + base) lt flag ∙ sym word),
      )

  -- The second fault after one on the heap or the stack.
  stack_done :
      (f mem file offset permission : ℕ) (write : Bool) (pages : ℕ)
      (mem' file' offset' permission' : ℕ) (write' from_stack' : Bool) (pages' : ℕ) (sp sp' : Space)
      (lo : ℕ)
      → LowMemory sp
      → 2 ≤ sp.frames.num_free
      → tlb_handling evict_page swap_pagein f mem file offset permission write true pages sp
        ≡ done (success, some lo, sp')
      → (sp'' : Space) × (tlb_handling evict_page swap_pagein f mem' file' offset' permission'
            write' from_stack' pages' sp'
          ≡ done (success, some lo, sp''))
  unfolding tlb_handling
  stack_done f mem file offset permission write pages mem' file' offset' permission' write'
        from_stack' pages' sp sp' lo memory two h =
      let d = sp.pd (page_directory_of f) in
      let e = sp.tables (to_kvaddr d.addr_page_table) (page_table_of f) in
      let again : Loaded f sp.frames.base (length sp.frames.entries) lo sp' → _ =
        Loaded-hit f mem' file' offset' permission' write' from_stack' pages' sp.frames.base
          (length sp.frames.entries) lo sp' in
      elim (Bool-cases (d.exist == 1)) [
        | inl table ↦ elim (Bool-cases (e.exist == 1)) [
          | inl present ↦
              hit_done f mem file offset permission write true pages mem' file' offset' permission'
                write' from_stack' pages' sp sp' lo ((==_iff d.exist 1).0 table)
                ((==_iff e.exist 1).0 present) h
          | inr absent ↦ again (
              read_page_done evict_page swap_pagein f mem file ((offset + f % 1048576) % word)
                permission write pages false (e.swapped == 1) e.physical_frame_number sp sp' lo
                memory two
                (taken_else (e.exist == 1) _ absent (taken_then (d.exist == 1) _ table h)))
        ]
        | inr no_table ↦ again (
            read_page_done evict_page swap_pagein f mem file ((offset + f % 1048576) % word)
              permission write pages true false 0 sp sp' lo memory two
              (taken_else (d.exist == 1) _ no_table h))
      ]

  -- On a machine of at most 1 MB, whose map of the frames is valid and does not start at address 0,
  -- where a TLB fault was handled with success, for a page that is in the page table, or for a page
  -- of the heap or the stack with two frames free or more, a second fault at the address finds the
  -- page in the page table and gives the TLB the same word, whatever its other arguments are.
  pub tlb_handling-tlb_handling :
      (f mem file offset permission : ℕ) (write from_stack : Bool) (pages : ℕ)
      (mem' file' offset' permission' : ℕ) (write' from_stack' : Bool) (pages' : ℕ) (sp sp' : Space)
      (lo : ℕ)
      → LowMemory sp
      → (((sp.pd (page_directory_of f)).exist ≡ 1)
          × ((sp.tables
                (to_kvaddr (sp.pd (page_directory_of f)).addr_page_table)
                (page_table_of f)).exist
              ≡ 1))
        ⊎ ((from_stack ≡ true) × (2 ≤ sp.frames.num_free))
      → tlb_handling evict_page swap_pagein f mem file offset permission write from_stack pages sp
        ≡ done (success, some lo, sp')
      → (sp'' : Space) × (tlb_handling evict_page swap_pagein f mem' file' offset' permission'
            write' from_stack' pages' sp'
          ≡ done (success, some lo, sp''))
  tlb_handling-tlb_handling f mem file offset permission write from_stack pages mem' file' offset'
        permission' write' from_stack' pages' sp sp' lo memory (inl (exist, present)) h =
      hit_done f mem file offset permission write from_stack pages mem' file' offset' permission'
        write' from_stack' pages' sp sp' lo exist present h
  tlb_handling-tlb_handling f mem file offset permission write from_stack pages mem' file' offset'
        permission' write' from_stack' pages' sp sp' lo memory (inr (stack, two)) h =
      stack_done f mem file offset permission write pages mem' file' offset' permission' write'
        from_stack' pages' sp sp' lo memory two
        (subst
          (λ t.
            tlb_handling evict_page swap_pagein f mem file offset permission write t pages sp
            ≡ done (success, some lo, sp'))
          stack h)
