-- ===== src/Uio.antt =====
-- os161/kern/userprog/uio.c with memmove and memcpy of os161/lib/libc. Memory is its bytes by
-- address; the copies of bytes do not wrap at its top, the fields of a uio do. copyin and copyout
-- are parameters.
pub mod Copy
pub mod Move
pub mod Zeros
mod Tests
use ece.Common.{
  ℕ, zero, suc, ◌+◌, ◌-◌, ◌*◌, ◌/◌, ◌%◌, Bool, true, false, ◌&&◌, ltb, leb, ◌==◌, if◌then◌else◌,
  Run, done, fault, Fault, assert, Status, success, failed, ◌>>=◌, ◌>>◌,
}
use ece.Coremap.{word}

abbrev pub Memory : Type 0
Memory = ℕ → ℕ

-- The `size` bytes at `s`, all read first, go to `d`: what an assignment of a char or a long does.
abbrev pub assign : ℕ → ℕ → ℕ → Memory → Memory
assign size d s mem x = if leb d x && ltb x (d + size) then mem (s + (x - d)) else mem x

-- the loops of memcpy, over units of `size` bytes
pub copy_up : ℕ → ℕ → ℕ → ℕ → Memory → Memory
copy_up size zero d s mem = mem
copy_up size (suc n) d s mem = copy_up size n (d + size) (s + size) (assign size d s mem)

-- the loops of memmove, from the index `i` down
pub copy_down : ℕ → ℕ → ℕ → ℕ → Memory → Memory
copy_down size zero d s mem = mem
copy_down size (suc i) d s mem =
    copy_down size i d s (assign size (d + i * size) (s + i * size) mem)

-- Are the blocks aligned, and whole words?
abbrev pub by_words : ℕ → ℕ → ℕ → Bool
by_words dst src len = (dst % 4 == 0) && ((src % 4 == 0) && (len % 4 == 0))

pub memcpy : ℕ → ℕ → ℕ → Memory → Memory
memcpy dst src len mem =
    if by_words dst src len then copy_up 4 (len / 4) dst src mem else copy_up 1 len dst src mem

pub memmove : ℕ → ℕ → ℕ → Memory → Memory
memmove dst src len mem =
    let down =
      if by_words dst src len
      then copy_down 4 (len / 4) dst src mem
      else copy_down 1 len dst src mem in
    if ltb dst src then memcpy dst src len mem else down

pub data Direction : Type 0 where
  uio_read uio_write : Direction

pub data Segment : Type 0 where
  uio_userspace uio_sysspace uio_userispace : Segment

-- `base` is iov_kbase or iov_ubase, and `space` 0 is NULL.
pub record Uio : Type 0 where
  pub base : ℕ
  pub len : ℕ
  pub offset : ℕ
  pub resid : ℕ
  pub segflg : Segment
  pub rw_ : Direction
  pub space : ℕ

abbrev pub reading : Direction → Bool
reading uio_read = true
reading uio_write = false

-- mk_kuio_pd, and mk_kuio
pub mk_kuio_pd : ℕ → ℕ → ℕ → ℕ → Direction → Uio
mk_kuio_pd kbuf mem file pos direction = record {
  base = kbuf;
  len = mem;
  offset = pos;
  resid = file;
  segflg = Segment.uio_sysspace;
  rw_ = direction;
  space = 0;
}

pub mk_kuio : ℕ → ℕ → ℕ → Direction → Uio
unfolding mk_kuio_pd
mk_kuio kbuf len pos direction = mk_kuio_pd kbuf len len pos direction

-- what the loop of uiomove does to the uio after `size` bytes
abbrev pub advanced : ℕ → Uio → Uio
advanced size u = record u {
  base = (u.base + size) % word;
  len = u.len - size;
  resid = (u.resid + word - size) % word;
  offset = (u.offset + size) % word;
}

-- the bytes that one round of uiomove moves
abbrev pub amount : ℕ → Uio → ℕ
amount n u = if ltb n u.len then n else u.len

module _ (vmspace : ℕ) (copyout copyin : ℕ → ℕ → ℕ → Memory → Status × Memory) where
  -- the switch of uiomove: `size` bytes between `ptr` and the buffer of the uio
  abbrev pub transfer : Segment → Direction → ℕ → ℕ → ℕ → Memory → Status × Memory
  transfer uio_sysspace uio_read ptr base size mem = (success, memmove base ptr size mem)
  transfer uio_sysspace uio_write ptr base size mem = (success, memmove ptr base size mem)
  transfer uio_userspace uio_read ptr base size mem = copyout ptr base size mem
  transfer uio_userspace uio_write ptr base size mem = copyin base ptr size mem
  transfer uio_userispace uio_read ptr base size mem = copyout ptr base size mem
  transfer uio_userispace uio_write ptr base size mem = copyin base ptr size mem

  -- the loop of uiomove
  pub move_from : ℕ → ℕ → ℕ → Uio → Memory → Run (Status × Uio × Memory)
  move_from zero ptr n u mem = fault Fault.spinning
  move_from (suc fuel) ptr n u mem =
      let size = amount n u in
      let (result, mem') = transfer u.segflg u.rw_ ptr u.base size mem in
      let rest = move_from fuel ((ptr + size) % word) (n - size) (advanced size u) mem' in
      let go : Run (Status × Uio × Memory) =
        if failed result then done (result, u, mem') else rest in
      if ltb 0 n && ltb 0 u.resid
      then (if size == 0 then fault Fault.panicked else go)
      else done (success, u, mem)

  abbrev pub space_matches : Uio → Bool
  space_matches u = elim u.segflg [ uio_sysspace ↦ u.space == 0 | _ ↦ u.space == vmspace ]

  pub uiomove : ℕ → ℕ → Uio → Memory → Run (Status × Uio × Memory)
  unfolding move_from
  uiomove ptr n u mem = do assert (space_matches u); move_from (n + 1) ptr n u mem

  -- the loop of uiomovezeros, where `buffer` is the address of 16 bytes that are 0
  pub zeros_from : ℕ → ℕ → ℕ → Uio → Memory → Run (Status × Uio × Memory)
  unfolding uiomove
  zeros_from zero buffer n u mem = fault Fault.spinning
  zeros_from (suc fuel) buffer n u mem =
      let amt = if ltb n 16 then n else 16 in
      let step : Run (Status × Uio × Memory) = (do
        (result, u', mem') ← uiomove buffer amt u mem
        if failed result
            then done (result, u', mem')
            else zeros_from fuel buffer (n - amt) u' mem') in
      if ltb 0 n then step else done (success, u, mem)

  pub uiomovezeros : ℕ → ℕ → Uio → Memory → Run (Status × Uio × Memory)
  unfolding zeros_from
  uiomovezeros buffer n u mem = do assert (reading u.rw_); zeros_from (n + 1) buffer n u mem
