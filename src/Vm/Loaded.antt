-- ===== src/Vm/Loaded.antt =====
-- A page of the stack that is given a frame is mapped to it, and the word for the TLB fits.
use ece.Common.{
  ℕ, ◌+◌, ◌*◌, ◌≤◌, ◌<◌, ◌≡◌, sym, ap, subst, ◌∙◌, arith, Bool, true, false, some, length,
  length-set, ◌==◌, ==_false, if◌then◌else◌, Run, done, Status, success, >>=-eq-done,
}
use ece.Coremap.{Entry, Coremap, word, from_paddr}
use ece.Coremap as Map
use ece.Coremap.Scan.{state_at-lt, state_at_get}
use ece.Coremap.Valid.{Valid}
use ece.Coremap.One.{AllocatedOne, refused, given, allocate_one-Allocated}
use ece.Kheap.Pages.{kseg0, getppages, getppages_one}
use ece.Kheap.Subpage.{large_kmalloc}
use ece.Vm.{
  Space, field, to_kvaddr, of_kvaddr, page_directory_of, install, alloc_in, map_page_table,
  fresh_word, read_in, map_loaded, read_page,
}
use ece.Vm.Mapped.{update_done, Mapped, install_done, low_table, LowMemory, taken_else, Mapped-move}
use ece.Vm.Table.{read_in-Valid, table_got}

-- A page that was given a frame: the frame, and what `*tlb_entry_lo` holds.
abbrev pub Loaded : ℕ → ℕ → ℕ → ℕ → Space → Type 0
Loaded f base size lo sp' =
    (c : ℕ) × (flag : ℕ) × (c + base < 256)
    × (lo ≡ fresh_word (kseg0 + 4096 * (c + base)) flag)
    × Mapped (kseg0 + 4096 * (c + base)) f flag base size sp'

-- The frame that getppages gave.
frame_got :
    (cm₀ : Coremap) {run : Run (ℕ × Coremap)} (pa : ℕ) (cm : Coremap)
    → 0 < cm₀.num_free
    → AllocatedOne 0 cm₀ run
    → run ≡ done (pa, cm)
    → (c : ℕ) × (c < length cm₀.entries)
      × (pa ≡ 4096 * (c + cm₀.base))
      × Valid cm
      × (cm.base ≡ cm₀.base)
      × (length cm.entries ≡ length cm₀.entries)
      × (cm.num_free + 1 ≡ cm₀.num_free)
frame_got cm₀ pa cm pos (refused z) e = absurd (omega arith)
frame_got cm₀ pa cm pos (given c e cm' g fr below base entries num ram v block) h =
    let same : cm' ≡ cm = cc h in
    (
      c,
      state_at-lt cm₀.entries c (state_at_get cm₀.entries c g),
      cc h,
      subst Valid same v,
      ap (λ t. t.base) (sym same) ∙ base,
      ap (λ t. length t.entries) (sym same) ∙ ap length entries ∙ length-set cm₀.entries c _,
      subst (λ t. t.num_free + 1 ≡ cm₀.num_free) same num,
    )

Loaded-move :
    (f base size base' size' lo : ℕ) (sp : Space)
    → base ≡ base'
    → size ≡ size'
    → Loaded f base size lo sp
    → Loaded f base' size' lo sp
Loaded-move f base size base' size' lo sp e e' l =
    subst (λ t. Loaded f t size' lo sp) e (subst (λ t. Loaded f base t lo sp) e' l)

module _ (evict_page : Space → Run (ℕ × Space))
    (swap_pagein : ℕ → Bool → ℕ → ℕ → ℕ → Bool → ℕ → Space → Run (Status × Space)) where
  map_page_table_done :
      (paddr f flag : ℕ) (alloc : Bool) (sp sp' : Space)
      → LowMemory sp
      → 0 < sp.frames.num_free
      → map_page_table evict_page paddr f flag alloc sp ≡ done (success, sp')
      → Mapped paddr f flag sp.frames.base (length sp.frames.entries) sp'
  unfolding map_page_table
  map_page_table_done paddr f flag false sp sp' memory pos h =
      let fit = memory.fields (page_directory_of f) in
      install_done paddr f flag (to_kvaddr (sp.pd (page_directory_of f)).addr_page_table) sp sp'
        success (omega arith) h
  map_page_table_done paddr f flag true sp sp' memory pos h =
      let (c, cm, lt, base, size, run) = table_got evict_page sp memory pos in
      let pte : ℕ = kseg0 + 4096 * (c + sp.frames.base) in
      let ((a, sp₁), run', h') = >>=-eq-done (large_kmalloc alloc_in evict_page 4096 sp) _ h in
      let address : pte ≡ a = cc (run, run') in
      let map : record sp { frames = cm } ≡ sp₁ = cc (run, run') in
      let got : install paddr f flag a sp₁ ≡ done (success, sp') =
        taken_else (a == 0) _ (==_false a 0 (λ q. omega arith)) h' in
      Mapped-move (ap (λ t. t.frames.base) (sym map) ∙ base)
        (ap (λ t. length t.frames.entries) (sym map) ∙ size)
        (install_done paddr f flag a sp₁ sp' success (low_table a (omega arith) (omega arith)) got)

  map_loaded_done :
      (c f flag lo : ℕ) (alloc : Bool) (sp sp' : Space)
      → c + sp.frames.base < 256
      → LowMemory sp
      → 0 < sp.frames.num_free
      → map_loaded evict_page swap_pagein (kseg0 + 4096 * (c + sp.frames.base)) f flag alloc sp
        ≡ done (success, some lo, sp')
      → Loaded f sp.frames.base (length sp.frames.entries) lo sp'
  unfolding map_loaded
  map_loaded_done c f flag lo alloc sp sp' lt memory pos h =
      let paddr : ℕ = kseg0 + 4096 * (c + sp.frames.base) in
      let ((result, sp₂), run, h') =
        >>=-eq-done (map_page_table evict_page paddr f flag alloc sp) _ h in
      let ok : result ≡ success = cc h' in
      let word : fresh_word paddr flag ≡ lo = cc h' in
      let same : sp₂ ≡ sp' = cc h' in
      (
        c,
        flag,
        lt,
        sym word,
        subst (λ t. Mapped paddr f flag sp.frames.base (length sp.frames.entries) t) same
            (map_page_table_done paddr f flag alloc sp sp₂ memory pos
              (run ∙ ap (λ t. done (t, sp₂)) ok)),
      )

  pub read_page_done :
      (f mem file offset permission : ℕ) (write : Bool) (pages : ℕ) (alloc swap : Bool) (index : ℕ)
      (sp sp' : Space) (lo : ℕ)
      → LowMemory sp
      → 2 ≤ sp.frames.num_free
      → read_page evict_page swap_pagein f mem file offset permission write true pages alloc swap
          index sp
        ≡ done (success, some lo, sp')
      → Loaded f sp.frames.base (length sp.frames.entries) lo sp'
  unfolding read_page
  read_page_done f mem file offset permission write pages alloc swap index sp sp' lo memory two h =
      let ((pa, cm), run, h₁) = >>=-eq-done (getppages 1 0 sp.frames) _ h in
      let (c, lt, at, valid, base, size, num) =
        frame_got sp.frames pa cm (omega arith) (allocate_one-Allocated 0 sp.frames memory.valid)
          (sym (getppages_one 0 sp.frames) ∙ run) in
      let some_address = ==_false (to_kvaddr pa) 0 (λ q. omega (arith, memory.low)) in
      let ((paddr, sp₁), run₂, h₂) =
        >>=-eq-done
          (if to_kvaddr pa == 0
            then evict_page (record sp { frames = cm })
            else done (to_kvaddr pa, record sp { frames = cm }))
          _ h₁ in
      let got : done (to_kvaddr pa, record sp { frames = cm }) ≡ done (paddr, sp₁) =
        taken_else (to_kvaddr pa == 0) _ some_address run₂ in
      let address : to_kvaddr pa ≡ paddr = cc got in
      let map : record sp { frames = cm } ≡ sp₁ = cc got in
      let index' : ℕ = from_paddr sp₁.frames.base (of_kvaddr paddr) in
      let (es, run₃, h₃) = >>=-eq-done (Map.update read_in index' sp₁.frames.entries) _ h₂ in
      let (inside, size') = update_done read_in index' sp₁.frames.entries es run₃ in
      let base₁ : sp₁.frames.base ≡ sp.frames.base = ap (λ t. t.frames.base) (sym map) ∙ base in
      let size₁ : length sp₁.frames.entries ≡ length sp.frames.entries =
        ap (λ t. length t.frames.entries) (sym map) ∙ size in
      let num₁ : sp₁.frames.num_free + 1 ≡ sp.frames.num_free =
        ap (λ t. t.frames.num_free + 1) (sym map) ∙ num in
      let valid₁ : Valid sp₁.frames = subst (λ t. Valid t.frames) map valid in
      let sp₂ : Space = record sp₁ { frames = record (sp₁.frames) { entries = es } } in
      let memory₂ : LowMemory sp₂ = record {
        valid = read_in-Valid sp₁.frames index' valid₁ run₃;
        above = omega (arith, memory.above);
        low = omega (arith, memory.low);
        fields = λ i. subst (λ t. (t.pd i).addr_page_table < field) map (memory.fields i);
      } in
      let here : paddr ≡ kseg0 + 4096 * (c + sp₁.frames.base) = omega (arith, memory.low) in
      let (c', flag, lt', word, m) =
        map_loaded_done c f 6 lo alloc sp₂ sp' (omega (arith, memory.low)) memory₂ (omega arith) (
          subst
            (λ t. map_loaded evict_page swap_pagein t f 6 alloc sp₂ ≡ done (success, some lo, sp'))
            here h₃) in
      Loaded-move f _ _ _ _ lo sp' base₁ (size' ∙ size₁) (c', flag, lt', word, m)
