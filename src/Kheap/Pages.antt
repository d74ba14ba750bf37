-- ===== src/Kheap/Pages.antt =====
-- getppages, alloc_kpages and free_kpages of os161/kern/vm/addrspace.c: whole pages for the heap, out
-- of the map of the frames. splhigh and splx bracket getppages.
use ece.Common.{
  ℕ, ◌+◌, ◌-◌, ◌*◌, ◌%◌, ◌≤◌, ◌<◌, ◌≡◌, ◌≢◌, ◌⊎◌, inl, inr, refl, sym, ap, subst, ◌∙◌, arith, some,
  length, length-set, get_elem?, get_elem?-set_ne, ltb, ◌==◌, ==_false, dec_lt, if◌then◌else◌, Run,
  done, ◌>>=◌,
}
use ece.Coremap.{
  free, Coremap, word, taken, started, to_paddr, allocate_one, allocate_multiple, free_frames,
}
use ece.Coremap.Scan.{state_at, state_at_get, state_at_same, state_at-lt}
use ece.Coremap.Valid.{Valid, Block}
use ece.Coremap.One.{AllocatedOne, refused, given, allocate_one-Allocated}
use ece.Coremap.Free.{free_frames-Freed}
use ece.Kheap.Valid.{PageSource}

-- PADDR_TO_KVADDR adds this, and KVADDR_TO_PADDR takes it off.
abbrev pub kseg0 : ℕ
kseg0 = 0x8000_0000

unfoldable pub getppages : ℕ → ℕ → Coremap → Run (ℕ × Coremap)
getppages npages kernel cm =
    if ltb 1 npages then allocate_multiple npages kernel cm else allocate_one kernel cm

pub getppages_one : (kernel : ℕ) (cm : Coremap) → getppages 1 kernel cm ≡ allocate_one kernel cm
unfolding getppages
getppages_one kernel cm = refl

unfoldable pub alloc_kpages : ℕ → Coremap → Run (ℕ × Coremap)
unfolding getppages
alloc_kpages npages cm = do
  (pa, cm') ← getppages npages 1 cm
  if pa == 0 then done (0, cm') else done ((pa + kseg0) % word, cm')

pub free_kpages : ℕ → Coremap → Run Coremap
free_kpages addr cm = free_frames ((addr + word - kseg0) % word) cm

-- The frames lie in the memory that kseg0 maps, above address 0.
pub record Sane (cm : Coremap) : Type 0 where
  pub valid : Valid cm
  pub above : 0 < cm.base
  pub mapped : cm.base + length cm.entries ≤ 131072

-- The heap has the page at `a`.
abbrev pub Owns : Coremap → ℕ → Type 0
Owns cm a = (c : ℕ) × (a ≡ kseg0 + 4096 * (c + cm.base)) × Block cm c 1

-- A block of one frame depends on its own entry.
Block-same :
    (cm cm' : Coremap) (c : ℕ)
    → cm'.base ≡ cm.base
    → length cm'.entries ≡ length cm.entries
    → get_elem? cm'.entries c ≡ get_elem? cm.entries c
    → Block cm c 1
    → Block cm' c 1
Block-same cm cm' c base size same b = record {
  inside = omega (arith, b.inside);
  some_frames = b.some_frames;
  head = λ e g. b.head e (sym same ∙ g) ∙ ap (λ t. to_paddr t c) (sym base);
  sized = λ j e low high g.
      let q : j ≡ c = omega arith in
      b.sized c e (omega arith) (omega arith) (sym same ∙ ap (get_elem? cm'.entries) (sym q) ∙ g);
  all_used = λ j low high.
      let q : j ≡ c = omega arith in
      ap (state_at cm'.entries) q
      ∙ state_at_same cm.entries cm'.entries c same
      ∙ b.all_used c (omega arith) (omega arith);
}

-- How a request for one page ends.
pub data GotPage (cm : Coremap) : Run (ℕ × Coremap) → Type 0 where
  no_page : cm.num_free ≡ 0 → GotPage cm (done (0, cm))
  a_page :
      (c : ℕ) (cm' : Coremap)
      → Sane cm'
      → c < length cm.entries
      → cm'.base ≡ cm.base
      → length cm'.entries ≡ length cm.entries
      → state_at cm.entries c ≡ some free
      → Block cm' c 1
      → ((b : ℕ) → Owns cm b → Owns cm' b)
      → GotPage cm (done (kseg0 + 4096 * (c + cm.base), cm'))

module _ (cm : Coremap) (sane : Sane cm) where
  Owns-kept :
      (c : ℕ) (cm' : Coremap)
      → cm'.base ≡ cm.base
      → length cm'.entries ≡ length cm.entries
      → ((j : ℕ) → j ≢ c → get_elem? cm'.entries j ≡ get_elem? cm.entries j)
      → (b : ℕ) → b ≢ kseg0 + 4096 * (c + cm.base)
      → Owns cm b
      → Owns cm' b
  Owns-kept c cm' base size others b ne (d, at, block) =
      let apart : d ≢ c = λ q. ne (omega arith) in
      (d, omega arith, Block-same cm cm' d base size (others d apart) block)

  -- A frame that is free is no page of the heap.
  not_owned : (c : ℕ) → state_at cm.entries c ≡ some free → ¬ Owns cm (kseg0 + 4096 * (c + cm.base))
  not_owned c f (d, at, block) =
      let q : d ≡ c = omega arith in
      let u = block.all_used d (omega arith) (omega arith) in
      cc (f, ap (state_at cm.entries) (sym q) ∙ u)

  pub alloc_kpages-GotPage : GotPage cm (alloc_kpages 1 cm)
  unfolding alloc_kpages getppages
  alloc_kpages-GotPage = ends (allocate_one-Allocated 1 cm sane.valid)
    where
      ends :
          {run : Run (ℕ × Coremap)}
          → AllocatedOne 1 cm run
          → GotPage cm (
              run >>= λ (pa, cm').
              if pa == 0 then done (0, cm') else done ((pa + kseg0) % word, cm'))
      ends (refused z) = no_page z
      ends (given c e cm' g f below base entries num ram v block) =
          let lt = state_at-lt cm.entries c (state_at_get cm.entries c g) in
          let some_page = ==_false (4096 * (c + cm.base)) 0 (λ q. omega (arith, sane.above)) in
          let size : length cm'.entries ≡ length cm.entries =
            ap length entries ∙ length-set cm.entries c (taken 1 1 (started e)) in
          let at : (4096 * (c + cm.base) + kseg0) % word ≡ kseg0 + 4096 * (c + cm.base) =
            omega (arith, sane.mapped) in
          let is_free : state_at cm.entries c ≡ some free =
            state_at_get cm.entries c g ∙ ap some f in
          rw (some_page, at)
            (a_page c cm'
              (record {
                valid = v;
                above = omega (arith, sane.above);
                mapped = omega (arith, sane.mapped);
              })
              lt base size is_free block
              (λ b own.
                Owns-kept c cm' base size
                  (λ j ne.
                    ap (λ t. get_elem? t j) entries
                    ∙ get_elem?-set_ne cm.entries _ (λ q. ne (sym q)))
                  b (λ q. not_owned c is_free (subst (Owns cm) q own)) own))

  -- Where a frame is free there is a page.
  pub GotPage-some :
      {run : Run (ℕ × Coremap)}
      → 0 < cm.num_free
      → GotPage cm run
      → (c : ℕ) × (cm' : Coremap) × (c < length cm.entries)
        × (cm'.base ≡ cm.base)
        × (length cm'.entries ≡ length cm.entries)
        × (run ≡ done (kseg0 + 4096 * (c + cm.base), cm'))
  GotPage-some pos (no_page z) = absurd (omega arith)
  GotPage-some pos (a_page c cm' sane' lt base size f block more) = (c, cm', lt, base, size, refl)

  pub GotPage-cases :
      {run : Run (ℕ × Coremap)}
      → GotPage cm run
      → (a : ℕ) × (cm' : Coremap) × (run ≡ done (a, cm'))
        × Sane cm'
        × ((b : ℕ) → Owns cm b → Owns cm' b)
        × ((a ≡ 0) ⊎ ((0 < a) × (a % 4096 ≡ 0) × (a + 4096 < word) × (¬ Owns cm a) × Owns cm' a))
  GotPage-cases (no_page z) = (0, cm, refl, sane, λ b own. own, inl refl)
  GotPage-cases (a_page c cm' sane' lt base size f block more) = (
    kseg0 + 4096 * (c + cm.base),
    cm',
    refl,
    sane',
    more,
    inr (
      omega arith,
      omega arith,
      omega (arith, sane.mapped),
      not_owned c f,
      (c, ap (λ t. kseg0 + 4096 * (c + t)) (sym base), block),
    ),
  )

  pub free_kpages_lem :
      (a : ℕ)
      → Owns cm a
      → (cm' : Coremap) × (free_kpages a cm ≡ done cm')
        × Sane cm'
        × ((b : ℕ) → Owns cm b → b ≢ a → Owns cm' b)
        × (¬ Owns cm' a)
  unfolding free_kpages
  free_kpages_lem a (c, at, block) =
      let (cm', run, freed) = free_frames-Freed cm c 1 sane.valid block in
      let addr : (a + word - kseg0) % word ≡ 4096 * (c + cm.base) =
        omega (arith, sane.mapped, block.inside) in
      (
        cm',
        rw (addr, run),
        record {
          valid = freed.valid;
          above = omega (arith, sane.above, freed.same_base);
          mapped = omega (arith, sane.mapped, freed.same_base, freed.same_length);
        },
        λ b own ne.
            Owns-kept c cm' freed.same_base freed.same_length
              (λ j out. freed.others j (place j c out)) b (λ q. ne (q ∙ sym at)) own,
        λ (d, at', block').
            let same : d ≡ c = omega (arith, freed.same_base) in
            let now = freed.now_free d (omega arith) (omega arith) in
            let still = block'.all_used d (omega arith) (omega arith) in cc (now, still),
      )
    where
      place : (j c : ℕ) → j ≢ c → (j < c) ⊎ (c + 1 ≤ j)
      place j c ne = elim (dec_lt j c) [ yes lt ↦ inl lt | no ge ↦ inr (omega arith) ]

-- The two as the heap's allocator of pages.
abbrev pub page_source : PageSource alloc_kpages free_kpages
page_source = record {
  Sane = Sane;
  Owns = Owns;
  alloc_law = λ cm sane. GotPage-cases cm sane (alloc_kpages-GotPage cm sane);
  free_law = λ cm a sane own. free_kpages_lem cm sane a own;
}
