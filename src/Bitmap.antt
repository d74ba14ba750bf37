-- ===== src/Bitmap.antt =====
-- os161/kern/lib/bitmap.c: an array of bits in bytes. A byte is the list of its eight bits, the
-- lowest first, so that a mask with one bit names a place in it. `v` has the DIVROUNDUP(nbits, 8)
-- bytes that bitmap_create allocates.
pub mod Bits
pub mod Create
pub mod Alloc
pub mod Mark
mod Tests
use ece.Common.{
  ℕ, zero, suc, ◌+◌, ◌-◌, ◌*◌, ◌/◌, ◌%◌, Bool, true, false, ◌&&◌, not, Option, none, some, List, [],
  ◌∷◌, length, get_elem?, set, replicate, ltb, ◌==◌, if◌then◌else◌, Run, done, fault, Fault, assert,
  read, write, Status, success, enospc, ◌>>=◌, ◌>>◌,
}

abbrev pub Byte : Type 0
Byte = List Bool

pub record Bitmap : Type 0 where
  pub nbits : ℕ
  pub v : List Byte

-- `!= WORD_ALLBITS` fails
abbrev pub all_bits : Byte → Bool
all_bits [] = true
all_bits (b ∷ bs) = b && all_bits bs

-- DIVROUNDUP(nbits, BITS_PER_WORD), on 32 bits
abbrev pub words_for : ℕ → ℕ
words_for nbits = (nbits + 7) % 4294967296 / 8

-- the loop that marks the leftover bits, from `j` on
abbrev pub mark_rest : ℕ → ℕ → Byte → Byte
mark_rest zero j w = w
mark_rest (suc rounds) j w = mark_rest rounds (j + 1) (set w j true)

pub create : (ℕ → Bool) → ℕ → Run (Option Bitmap)
create kmalloc nbits =
    let words = words_for nbits in
    let ix = words - 1 in
    let overbits = nbits - ix * 8 in
    let v = replicate words (replicate 8 false) in
    let leftover : Run (Option Bitmap) = (do
      assert (nbits / 8 == words - 1)
      assert (ltb 0 overbits && ltb overbits 8)
      w ← read v ix
      v' ← write v ix (mark_rest (8 - overbits) overbits w)
      done (some (record { nbits = nbits; v = v' }))) in
    let made =
      if ltb (nbits / 8) words then leftover else done (some (record { nbits = nbits; v = v })) in
    if kmalloc 8 then (if kmalloc words then made else done none) else done none

-- the inner loop of bitmap_alloc, from `offset` on
abbrev pub clear_from : ℕ → Byte → Option ℕ
clear_from offset [] = none
clear_from offset (b ∷ bs) = if b then clear_from (offset + 1) bs else some offset

-- the outer loop, from the byte `ix` on
pub alloc_from : ℕ → ℕ → List Byte → Run (Status × Option ℕ × List Byte)
alloc_from nbits ix [] = done (enospc, none, [])
alloc_from nbits ix (w ∷ ws) =
    let rest = (do
      (result, index, ws') ← alloc_from nbits (ix + 1) ws
      done (result, index, w ∷ ws')) in
    let here : Run (Status × Option ℕ × List Byte) = elim (clear_from 0 w) [
      | none ↦ fault Fault.assertion
      | some offset ↦ (do
        assert (ltb (ix * 8 + offset) nbits)
        done (success, some (ix * 8 + offset), set w offset true ∷ ws))
    ] in
    if all_bits w then rest else here

-- The status, the index where there is one, and the bitmap.
pub alloc : Bitmap → Run (Status × Option ℕ × Bitmap)
alloc b = do (result, index, v) ← alloc_from b.nbits 0 b.v; done (result, index, record b { v = v })

-- `(v[ix] & mask) != 0`, for the byte and the mask of bitmap_translate
pub isset : Bitmap → ℕ → Run Bool
isset b index = do w ← read b.v (index / 8); read w (index % 8)

abbrev pub assign_bit : Bitmap → ℕ → Bool → Run Bitmap
assign_bit b index bit = do
  w ← read b.v (index / 8)
  v ← write b.v (index / 8) (set w (index % 8) bit)
  done (record b { v = v })

pub mark : Bitmap → ℕ → Run Bitmap
mark b index = do
  assert (ltb index b.nbits)
  used ← isset b index
  assert (not used)
  assign_bit b index true

pub unmark : Bitmap → ℕ → Run Bitmap
unmark b index = do
  assert (ltb index b.nbits)
  used ← isset b index
  assert used
  assign_bit b index false
