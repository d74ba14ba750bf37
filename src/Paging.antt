-- ===== src/Paging.antt =====
-- os161/kern/vm/bitmap_disk.c, the map of the swap slots, and the choice of the page to evict in
-- os161/kern/vm/page_replacement.c: ref_bit_counter and the first loop of evictPage. `none` in a
-- cell of the map is an entry that was never written.
pub mod Slots
pub mod Victim
mod Tests
use ece.Common.{
  ℕ, zero, suc, ◌+◌, ◌-◌, ◌*◌, ◌%◌, ◌^◌, Bool, true, false, Option, none, some, List, [], ◌∷◌,
  replicate, ltb, ◌==◌, if◌then◌else◌, Run, done, fault, Fault, read, write, pointer, ◌>>=◌, ◌>>◌,
}
use ece.Coremap.{Entry, word}

-- num_bitmap_entries, num_bitmap_free and swap_map, whose entries are their field `exist`
pub record SwapMap : Type 0 where
  pub num_entries : ℕ
  pub num_free : ℕ
  pub exist : List (Option ℕ)

-- the loop of bitmapCreate: its index is always 0
pub clear_first : ℕ → List (Option ℕ) → Run (List (Option ℕ))
clear_first zero b = done b
clear_first (suc rounds) b = write b 0 (some 0) >>= clear_first rounds

-- bitmapCreate, for an allocation that succeeds
pub bitmap_create : ℕ → Run SwapMap
bitmap_create nbits = do
  b ← clear_first nbits (replicate nbits none)
  done (record { num_entries = nbits; num_free = nbits; exist = b })

-- the loop of bitmapDiskAllocatePage; `none` is an unassigned candidate
pub slot_from : ℕ → ℕ → List (Option ℕ) → Run (Option ℕ)
slot_from zero i b = done none
slot_from (suc rounds) i b = do
  cell ← read b i
  exist ← pointer cell
  let next = slot_from rounds (i + 1) b
  if exist == 1 then next else done (some i)

pub allocate_page : SwapMap → Run (ℕ × SwapMap)
allocate_page m =
    let take : ℕ → Run (ℕ × SwapMap) = λ c. (do
      b ← write m.exist c (some 1)
      done (c, record m { num_free = m.num_free - 1; exist = b })) in
    let pick = (do
      candidate ← slot_from m.num_entries 0 m.exist
      elim candidate [ none ↦ fault Fault.uninitialised | some c ↦ take c ]) in
    if m.num_free == 0 then fault Fault.panicked else pick

-- one round of ref_bit_counter
abbrev pub aged : Entry → Entry
aged e = record e {
  counter =
      if e.reference == 0
      then (e.counter + 1) % word
      else (if e.reference == 1 then 0 else e.counter);
  reference = 0;
}

pub ref_bit_counter : List Entry → List Entry
ref_bit_counter [] = []
ref_bit_counter (e ∷ es) = aged e ∷ ref_bit_counter es

-- the first loop of evictPage, with `max` and `evict_index`, which is unassigned at first
pub victim_from : ℕ → ℕ → Option ℕ → List Entry → Option ℕ
victim_from i most evict_index [] = evict_index
victim_from i most evict_index (e ∷ es) =
    let next = victim_from (i + 1) most evict_index es in
    let better = victim_from (i + 1) e.counter (some i) es in
    if e.is_kernel == 1 then next else (if ltb most e.counter then better else next)

pub victim : List Entry → Option ℕ
victim es = victim_from 0 0 none es
