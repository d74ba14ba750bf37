-- ===== src/Kheap/Tests.antt =====
-- A heap with one page of two blocks, of which the first is in use.
use ece.Common.{
  ℕ, zero, suc, ◌*◌, ◌/◌, ◌≡◌, ◌≢◌, ◌⊎◌, ◌↔◌, inl, inr, refl, sym, ap, arith, true, false, some,
  List, [], ◌∷◌, replicate, get_elem?, ◌∙◌, ==_true, ==_false, ℕ_discrete, Run, done,
}
use ece.Coremap.{Coremap, Entry, to_paddr, blank, taken, started}
use ece.Kheap.{PageRef, Heap, mkpab, update, type_of, blocktype, type_from, find_page, take}
use ece.Kheap.Chain.{In}
use ece.Kheap.Valid.{PageOk, Valid, Distinct}
use ece.Kheap.Live.{Live, In-update}
use ece.Kheap.Served.{Served}
use ece.Kheap.Subpage.{kmalloc, kfree, subpage_kmalloc}
use ece.Kheap.Pages.{Sane, Owns, alloc_kpages, free_kpages, page_source}
use ece.Kheap.Small.{kmalloc-Served, kfree-Live, kfree-kmalloc}

-- two frames, of which the first is the heap's
abbrev frames : Coremap
frames = record {
  base = 3;
  num_free = 1;
  entries = taken 1 1 (started (blank (to_paddr 3 0))) ∷ blank (to_paddr 3 1) ∷ [];
  ram = λ _. 7;
}

frames-located :
    (i : ℕ) (e : Entry) → get_elem? frames.entries i ≡ some e → e.self_addr ≡ to_paddr 3 i
frames-located zero e h =
    let q : taken 1 1 (started (blank (to_paddr 3 0))) ≡ e = cc h in ap (λ x. x.self_addr) (sym q)
frames-located (suc zero) e h =
    let q : blank (to_paddr 3 1) ≡ e = cc h in ap (λ x. x.self_addr) (sym q)
frames-located (suc (suc i)) e h = cc

frames-Sane : Sane frames
frames-Sane = record {
  valid = record { counted = refl; located = frames-located; fits = omega arith };
  above = omega arith;
  mapped = omega arith;
}

page_owned : Owns frames 0x8000_3000
page_owned = (
  0,
  refl,
  record {
    inside = omega arith;
    some_frames = omega arith;
    head = λ e h.
        let q : taken 1 1 (started (blank (to_paddr 3 0))) ≡ e = cc h in
        ap (λ x. x.start_addr) (sym q);
    sized = λ j e low high h.
        let zero_at : j ≡ 0 = omega arith in
        let q : taken 1 1 (started (blank (to_paddr 3 0))) ≡ e = cc (h, zero_at) in
        ap (λ x. x.frames) (sym q);
    all_used = λ j low high. let zero_at : j ≡ 0 = omega arith in rw zero_at refl;
  },
)

abbrev page_ref : PageRef
page_ref = record {
  pageaddr_and_blocktype = mkpab 0x8000_3000 7;
  freelist_offset = 2048;
  nfree = 1;
}

abbrev heap : Heap
heap = record {
  refs = λ _. page_ref;
  inuse = (true ∷ replicate 31 false) ∷ replicate 7 (replicate 32 false);
  sizebases = update (λ _. []) 7 (0 ∷ []);
  allbase = 0 ∷ [];
  mem = λ _. 0;
}

abbrev free_at : ℕ → List ℕ
free_at i = 2048 ∷ []

abbrev used_at : ℕ → List ℕ
used_at i = 0 ∷ []

page-PageOk : PageOk heap.mem page_ref (2048 ∷ []) (0 ∷ [])
page-PageOk = record {
  typed = omega arith;
  positive = omega arith;
  fits = omega arith;
  offset = refl;
  count = refl;
  chain = (refl, tt);
  free_blocks = (omega arith, refl, tt, tt);
  used_blocks = (omega arith, refl, tt, tt);
  apart = λ o i j. elim i [ inl q ↦ elim j [ inl r ↦ omega arith | inr r ↦ r ] | inr q ↦ q ];
  total = refl;
}

only : (i : ℕ) → In i heap.allbase → 0 ≡ i
only i (inl q) = q
only i (inr k) = elim k [ ]

heap-sized : (b i : ℕ) → In i (heap.sizebases b) → In i heap.allbase × (type_of (heap.refs i) ≡ b)
heap-sized b i j = elim (In-update (λ _. []) 7 (0 ∷ []) b i j) [
  | inl (e, k) ↦ (k, sym e)
  | inr (ne, k) ↦ absurd k
]

heap-once_sized : (b : ℕ) → Distinct (heap.sizebases b)
heap-once_sized b = elim (ℕ_discrete b 7) [
  | yes e ↦ rw (==_true b 7 e) (tt, tt)
  | no ne ↦ rw (==_false b 7 ne) tt
]

heap-Valid : Valid (Owns frames) heap free_at used_at
heap-Valid = record {
  pages = λ i j. page-PageOk;
  one_page = λ i j k l e. sym (only i k) ∙ only j l;
  once = (tt, tt);
  sized = heap-sized;
  once_sized = heap-once_sized;
  whole = (refl, (refl, (refl, (refl, (refl, (refl, (refl, (refl, tt))))))));
  eight = refl;
  marked = λ i j. let e = only i j in rw (← e) refl;
  owned = λ i j. page_owned;
}

-- evictPage finds no page
abbrev no_page : Coremap → Run (ℕ × Coremap)
no_page cm = done (0, cm)

kmalloc-Served_example :
    Served Sane Owns 100 heap used_at (kmalloc alloc_kpages free_kpages no_page 100 heap frames)
kmalloc-Served_example =
    kmalloc-Served page_source no_page 100 frames heap free_at used_at frames-Sane heap-Valid
      (omega arith)

kfree-Live_example :
    (h' : Heap) × (s' : Coremap) × (free' : ℕ → List ℕ) × (used' : ℕ → List ℕ) × (kfree alloc_kpages
        free_kpages 0x8000_3000 heap frames
      ≡ done (h', s'))
    × Sane s'
    × Valid (Owns s') h' free' used'
    × ((a m : ℕ) → Live h' used' a m ↔ (Live heap used_at a m × (a ≢ 0x8000_3000)))
    × (((a : ℕ) × (m : ℕ) × Live h' used' a m × (a / 4096 ≡ 0x8000_3000 / 4096))
        ⊎ (¬ Owns s' (0x8000_3000 / 4096 * 4096)))
kfree-Live_example =
    kfree-Live page_source no_page frames heap free_at used_at 0x8000_3000 2048 frames-Sane
      heap-Valid (0, 0, inl refl, inl refl, refl, refl)

-- the heap after its free block was handed out
abbrev full_heap : Heap
full_heap = record heap {
  refs = update heap.refs 0 (record page_ref { freelist_offset = 65535; nfree = 0 });
}

full_heap_run :
    kmalloc alloc_kpages free_kpages no_page 1500 heap frames
    ≡ done (0x8000_3800, full_heap, frames)
unfolding kmalloc subpage_kmalloc blocktype type_from find_page take
full_heap_run = refl

kfree-kmalloc_example :
    (h'' : Heap) × (s'' : Coremap) × (free'' : ℕ → List ℕ) × (used'' : ℕ → List ℕ) × (kfree
        alloc_kpages free_kpages 0x8000_3800 full_heap frames
      ≡ done (h'', s''))
    × Sane s''
    × Valid (Owns s'') h'' free'' used''
    × ((a m : ℕ) → Live h'' used'' a m ↔ Live heap used_at a m)
kfree-kmalloc_example =
    kfree-kmalloc page_source no_page 1500 0x8000_3800 frames frames heap full_heap free_at used_at
      frames-Sane heap-Valid (omega arith) full_heap_run (omega arith)
