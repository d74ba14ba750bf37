-- ===== src/Array.antt =====
-- os161/kern/lib/array.c: a growable array of pointers. `A` is what its cells hold; a cell that was
-- allocated and never written is `none`. A routine that updates `*a` returns the new array.
-- `kmalloc bytes` says whether the allocation of that many bytes succeeds.
pub mod Cells
pub mod Valid
pub mod Resize
pub mod Access
pub mod Sequence
pub mod Refine
pub mod Filled
mod Tests
use ece.Common.{
  ℕ, zero, suc, ◌+◌, ◌-◌, ◌*◌, Bool, ◌&&◌, Option, none, some, List, [], ltb, leb, ◌==◌,
  if◌then◌else◌, Run, done, fault, Fault, assert, Status, success, enomem, ◌>>=◌, ◌>>◌, read, write,
  int_limit, pointer_bytes, fresh_cells, failed,
}

-- `struct array`. `v` is `none` for NULL.
pub record Array {ℓ} (A : Type ℓ) : Type ℓ where
  pub num : ℕ
  pub max : ℕ
  pub v : Option (List (Option A))

module _ {ℓ} {A : Type ℓ} where
  -- the cells behind a pointer: none behind NULL
  abbrev pub cells : Option (List (Option A)) → List (Option A)
  cells none = []
  cells (some c) = c

  abbrev pub getnum : Array A → ℕ
  getnum a = a.num

  pub getguy : Array A → ℕ → Run (Option A)
  getguy a index = do assert (leb a.num a.max); assert (ltb index a.num); read (cells a.v) index

  pub setguy : Array A → ℕ → A → Run (Array A)
  setguy a index ptr = do
    assert (leb a.num a.max)
    assert (ltb index a.num)
    c ← write (cells a.v) index (some ptr)
    done (record a { v = some c })

  -- for (i = 0; i < a->num; i++) newv[i] = a->v[i];
  pub copy : ℕ → ℕ → List (Option A) → List (Option A) → Run (List (Option A))
  copy zero i old new = done new
  copy (suc rounds) i old new = do
    x ← read old i
    new' ← write new i x
    copy rounds (i + 1) old new'

  -- The word loop of memcpy, which memmove calls where the destination lies below the source.
  pub memcpy : ℕ → ℕ → ℕ → List (Option A) → Run (List (Option A))
  memcpy zero dst src c = done c
  memcpy (suc words) dst src c = do
    x ← read c src
    c' ← write c dst x
    memcpy words (dst + 1) (src + 1) c'

  pub remove : Array A → ℕ → Run (Array A)
  remove a index = do
    assert (leb a.num a.max)
    assert (ltb index a.num)
    let nmove = a.num - (index + 1)
    c ← memcpy nmove index (index + 1) (cells a.v)
    done (record a { v = some c; num = a.num - 1 })

  -- the `else if` of `array_setsize`: an emptied array gives a large block back
  pub release : Array A → ℕ → Run (Array A)
  release a nguys =
      if (nguys == 0) && ltb 16 a.max
      then elim a.v [
        | none ↦ fault Fault.assertion
        | some c ↦ done (record a { v = none; max = 0 })
      ]
      else done a

-- while (nguys > newmax) newmax = (newmax + 1) * 2;
pub grow_max : ℕ → ℕ → ℕ → Run ℕ
grow_max zero nguys newmax = fault Fault.spinning
grow_max (suc fuel) nguys newmax =
    let next = (newmax + 1) * 2 in
    let rest = grow_max fuel nguys next in
    let step = if ltb next int_limit then rest else fault Fault.overflow in
    if ltb newmax nguys then step else done newmax

module _ {ℓ} {A : Type ℓ} (kmalloc : ℕ → Bool) where
  -- `sizeof(struct array)` is three words. `none` is NULL.
  pub create : Option (Array A)
  create = if kmalloc 12 then some (record { num = 0; max = 0; v = none }) else none

  pub preallocate : Array A → ℕ → Run (Status × Array A)
  preallocate a nguys = do
    assert (leb a.num a.max)
    newmax ← grow_max (nguys + 1) nguys a.max
    let bytes = pointer_bytes newmax
    let copied = do
      newv ← copy a.num 0 (cells a.v) (fresh_cells bytes)
      done (success, record a { max = newmax; v = some newv })
    if kmalloc bytes then copied else done (enomem, a)

  pub setsize : Array A → ℕ → Run (Status × Array A)
  setsize a nguys = do
    assert (leb a.num a.max)
    let released = do a' ← release a nguys; done (success, a')
    (result, a') ← if ltb a.max nguys then preallocate a nguys else released
    if failed result then done (result, a') else done (success, record a' { num = nguys })

  pub add : Array A → A → Run (Status × Array A)
  add a guy = do
    let ix = a.num
    (result, a') ← setsize a (ix + 1)
    let stored = do c ← write (cells a'.v) ix (some guy); done (success, record a' { v = some c })
    if failed result then done (result, a') else stored
