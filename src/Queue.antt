-- ===== src/Queue.antt =====
-- os161/kern/lib/queue.c: a ring of pointers that doubles when it is full. `A` is what its cells
-- hold; a cell that was allocated and never written is `none`, and using what is read from one
-- faults. `kmalloc bytes` says whether the allocation of that many bytes succeeds.
pub mod Holds
pub mod Grow
pub mod Calls
pub mod Fifo
pub mod Refine
mod Tests
use ece.Common.{
  pointer, ℕ, zero, suc, ◌+◌, ◌*◌, ◌%◌, Bool, Option, none, some, List, ltb, ◌==◌, if◌then◌else◌,
  not, Run, done, fault, Fault, assert, Status, success, enomem, failed, ◌>>=◌, ◌>>◌, read, write,
  int_limit, pointer_bytes, fresh_cells,
}

-- `struct queue`
pub record Queue {ℓ} (A : Type ℓ) : Type ℓ where
  pub size : ℕ
  pub nextwrite : ℕ
  pub nextread : ℕ
  pub slots : List (Option A)

-- while (nsize < targetsize) { nsize *= 2; assert(nsize > 0); }
pub double : ℕ → ℕ → ℕ → Run ℕ
double zero targetsize nsize = fault Fault.spinning
double (suc fuel) targetsize nsize =
    let next = nsize * 2 in
    let rest = double fuel targetsize next in
    let checked = assert (ltb 0 next) >> rest in
    let step = if ltb next int_limit then checked else fault Fault.overflow in
    if ltb nsize targetsize then step else done nsize

module _ {ℓ} {A : Type ℓ} where
  -- for (i = onr; i != onw; i = (i + 1) % osize) { result = q_addtail(q, olddata[i]); ... }
  pub requeue :
      (Queue A → A → Run (Status × Queue A))
      → ℕ
      → List (Option A)
      → ℕ
      → ℕ
      → ℕ
      → Queue A
      → Run (Queue A)
  requeue addtail zero olddata i onw osize q = fault Fault.spinning
  requeue addtail (suc fuel) olddata i onw osize q =
      let again = (do
        cell ← read olddata i
        x ← pointer cell
        (result, q') ← addtail q x
        assert (not (failed result))
        requeue addtail fuel olddata ((i + 1) % osize) onw osize q') in
      if i == onw then done q else again

  pub empty : Queue A → Bool
  empty q = q.nextwrite == q.nextread

  pub remhead : Queue A → Run (A × Queue A)
  unfolding empty
  remhead q = do
    assert (ltb 0 q.size)
    assert (not (empty q))
    cell ← read q.slots q.nextread
    ret ← pointer cell
    done (ret, record q { nextread = (q.nextread + 1) % q.size })

  -- The queue is gone after it: nothing is returned.
  pub destroy : Queue A → Run (Unit {0})
  unfolding empty
  destroy q = assert (empty q)

  pub getguy : Queue A → ℕ → Run (Option A)
  getguy q index = do assert (ltb index q.size); read q.slots index

module _ {ℓ} {A : Type ℓ} (kmalloc : ℕ → Bool) where
  -- `sizeof(struct queue)` is four words. `none` is NULL.
  pub create : ℕ → Option (Queue A)
  create size =
      let bytes = pointer_bytes size in
      let q : Queue A = record {
        size = size;
        nextwrite = 0;
        nextread = 0;
        slots = fresh_cells bytes;
      } in
      if kmalloc 16 then (if kmalloc bytes then some q else none) else none

  -- `q_grow`, which calls `q_addtail` on the enlarged queue
  pub grow : (Queue A → A → Run (Status × Queue A)) → Queue A → ℕ → Run (Status × Queue A)
  grow addtail q targetsize = do
    nsize ← double (targetsize + 1) targetsize q.size
    let bytes = pointer_bytes nsize
    let q0 : Queue A = record {
      size = nsize;
      nextwrite = 0;
      nextread = 0;
      slots = fresh_cells bytes;
    }
    let moved = do
      q' ← requeue addtail (q.size + 1) q.slots q.nextread q.nextwrite q.size q0
      done (success, q')
    if kmalloc bytes then moved else done (enomem, q)

  -- `q_addtail` and `q_grow` call one another: the first argument bounds how deep.
  pub addtail_deep : ℕ → Queue A → A → Run (Status × Queue A)
  addtail_deep zero q ptr = fault Fault.spinning
  addtail_deep (suc depth) q ptr = do
    assert (ltb 0 q.size)
    let nextnext = (q.nextwrite + 1) % q.size
    (result, q') ←
        if nextnext == q.nextread
        then grow (addtail_deep depth) q (q.size + 1)
        else done (success, q)
    let stored = do
      slots ← write q'.slots q'.nextwrite (some ptr)
      done (success, record q' { slots = slots; nextwrite = (q'.nextwrite + 1) % q'.size })
    if failed result then done (result, q') else stored

  -- The calls made while growing find room, so two levels are enough.
  pub addtail : Queue A → A → Run (Status × Queue A)
  unfolding addtail_deep
  addtail q ptr = addtail_deep 2 q ptr

  pub preallocate : Queue A → ℕ → Run (Status × Queue A)
  preallocate q size = do
    assert (ltb 0 q.size)
    if ltb q.size size then grow (addtail_deep 1) q size else done (success, q)
