-- ===== src/Coremap/Tests.antt =====
-- Maps of a few frames.
use ece.Common.{
  ℕ, zero, suc, ◌+◌, ◌*◌, ◌≤◌, ◌≡◌, refl, arith, some, [], ◌∷◌, length, get_elem?, done, fault,
  Fault,
}
use ece.Coremap.{
  Entry, Coremap, to_paddr, blank, taken, started, bootstrap, allocate_one, allocate_multiple,
  free_frames, scan,
}
use ece.Coremap.Valid.{Valid, Block}
use ece.Coremap.Boot.{bootstrap-Valid}
use ece.Coremap.One.{AllocatedOne, allocate_one-Allocated}
use ece.Coremap.Many.{AllocatedMany, allocate_multiple-Allocated}
use ece.Coremap.Free.{Freed, free_frames-Freed}

bootstrap-Valid_example :
    (cm : Coremap) × (bootstrap 8192 28672 (λ _. 7) ≡ done cm)
    × Valid cm
    × (cm.num_free ≡ length cm.entries)
    × (4096 * (cm.base + length cm.entries) ≡ 28672)
    × (8192 + length cm.entries * 56 ≤ 4096 * cm.base)
bootstrap-Valid_example = bootstrap-Valid 8192 28672 (λ _. 7) refl refl (omega arith) (omega arith)

-- three frames, of which the middle one is in use
abbrev fragmented : Coremap
fragmented = record {
  base = 3;
  num_free = 2;
  entries =
      blank (to_paddr 3 0) ∷ taken 1 1 (started (blank (to_paddr 3 1))) ∷ blank (to_paddr 3 2) ∷ [];
  ram = λ _. 7;
}

fragmented-located :
    (i : ℕ) (e : Entry) → get_elem? fragmented.entries i ≡ some e → e.self_addr ≡ to_paddr 3 i
fragmented-located zero e h = let q : blank (to_paddr 3 0) ≡ e = cc h in rw (← q) refl
fragmented-located (suc zero) e h =
    let q : taken 1 1 (started (blank (to_paddr 3 1))) ≡ e = cc h in rw (← q) refl
fragmented-located (suc (suc zero)) e h = let q : blank (to_paddr 3 2) ≡ e = cc h in rw (← q) refl
fragmented-located (suc (suc (suc i))) e h = cc

fragmented-Valid : Valid fragmented
fragmented-Valid = record { counted = refl; located = fragmented-located; fits = omega arith }

fragmented-Block : Block fragmented 1 1
fragmented-Block = record {
  inside = omega arith;
  some_frames = omega arith;
  head = λ e h. let q : taken 1 1 (started (blank (to_paddr 3 1))) ≡ e = cc h in rw (← q) refl;
  sized = λ j e low high h.
      let one : j ≡ 1 = omega arith in
      let q : taken 1 1 (started (blank (to_paddr 3 1))) ≡ e = cc (h, one) in rw (← q) refl;
  all_used = λ j low high. let one : j ≡ 1 = omega arith in rw one refl;
}

allocate_one-Allocated_example : AllocatedOne 0 fragmented (allocate_one 0 fragmented)
allocate_one-Allocated_example = allocate_one-Allocated 0 fragmented fragmented-Valid

allocate_multiple-Allocated_example :
    AllocatedMany 2 1 fragmented (allocate_multiple 2 1 fragmented)
allocate_multiple-Allocated_example =
    allocate_multiple-Allocated 2 1 fragmented (omega arith) fragmented-Valid

-- Two frames are free, but not side by side: the loops end on the last frame, and the block that
-- starts there leaves the map.
fragmented_run : allocate_multiple 2 1 fragmented ≡ fault Fault.wild
unfolding allocate_multiple scan
fragmented_run = refl

free_frames-Freed_example :
    (cm' : Coremap) × (free_frames (4096 * (1 + fragmented.base)) fragmented ≡ done cm')
    × Freed 1 1 fragmented cm'
free_frames-Freed_example = free_frames-Freed fragmented 1 1 fragmented-Valid fragmented-Block

-- the map after the first frame was taken
abbrev first_taken : Coremap
first_taken = record fragmented {
  num_free = 1;
  entries =
      taken 1 0 (started (blank (to_paddr 3 0)))
      ∷ taken 1 1 (started (blank (to_paddr 3 1)))
      ∷ blank (to_paddr 3 2)
      ∷ [];
}

first_taken_run : allocate_one 0 fragmented ≡ done (12288, first_taken)
unfolding allocate_one
first_taken_run = refl
