-- ===== src/Uio/Tests.antt =====
-- A block of the kernel of 20 bytes at 100.
use ece.Common.{
  min, ℕ, ◌+◌, ◌%◌, ◌^◌, ◌≤◌, ◌<◌, ◌≡◌, ◌⊎◌, inr, refl, arith, ltb, le→ltb_false, if◌then◌else◌,
  Status, success, done,
}
use ece.Uio.{Memory, Uio, uio_read, mk_kuio, mk_kuio_pd, memmove, uiomove, uiomovezeros}
use ece.Uio.Copy.{memmove_lem}
use ece.Uio.Move.{target, origin, Kernel, uiomove_lem}
use ece.Uio.Zeros.{Zeroed, uiomovezeros-Zeroed}

-- every byte is its address, up to 200
abbrev bytes : Memory
bytes x = if ltb x 200 then x else 0

memmove_lem_example :
    ((i : ℕ) → i < 10 → memmove 12 9 10 bytes (12 + i) ≡ bytes (9 + i))
    × ((x : ℕ) → (x < 12) ⊎ (12 + 10 ≤ x) → memmove 12 9 10 bytes x ≡ bytes x)
memmove_lem_example = memmove_lem 12 9 10 bytes

abbrev no_copy : ℕ → ℕ → ℕ → Memory → Status × Memory
no_copy from to size mem = (success, mem)

abbrev block : Uio
block = mk_kuio 100 20 0 uio_read

block-Kernel : Kernel block
unfolding mk_kuio mk_kuio_pd
block-Kernel = record {
  system = refl;
  no_space = refl;
  whole = refl;
  fits = omega arith;
  below_top = omega arith;
  offset_fits = omega arith;
}

block_reads : block.rw_ ≡ uio_read
unfolding mk_kuio mk_kuio_pd
block_reads = refl

block_apart : (200 + 16 ≤ block.base) ⊎ (block.base + block.len ≤ 200)
unfolding mk_kuio mk_kuio_pd
block_apart = inr (omega arith)

uiomove_lem_example :
    (u' : Uio) × (mem' : Memory) × (uiomove 0 no_copy no_copy 10 30 block bytes
      ≡ done (success, u', mem'))
    × ((i : ℕ)
        → i < min 30 block.len
        → mem' (target block.rw_ 10 block.base + i) ≡ bytes (origin block.rw_ 10 block.base + i))
    × ((x : ℕ)
        → (x < target block.rw_ 10 block.base)
          ⊎ (target block.rw_ 10 block.base + min 30 block.len ≤ x)
        → mem' x ≡ bytes x)
    × (u'.base ≡ block.base + min 30 block.len)
    × (u'.offset ≡ (block.offset + min 30 block.len) % 2 ^ 32)
    × (u'.len + min 30 block.len ≡ block.len)
    × (u'.resid + min 30 block.len ≡ block.resid)
    × (u'.segflg ≡ block.segflg)
    × (u'.rw_ ≡ block.rw_)
    × (u'.space ≡ block.space)
uiomove_lem_example = uiomove_lem 0 no_copy no_copy 10 30 block bytes block-Kernel

no_bytes : (i : ℕ) → i < 16 → bytes (200 + i) ≡ 0
no_bytes i lt = rw (le→ltb_false (200 + i) 200 (omega arith)) refl

uiomovezeros-Zeroed_example :
    Zeroed 30 block bytes (uiomovezeros 0 no_copy no_copy 200 30 block bytes)
uiomovezeros-Zeroed_example =
    uiomovezeros-Zeroed 0 no_copy no_copy 200 30 block bytes block-Kernel block_reads block_apart
      no_bytes
