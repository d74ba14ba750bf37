-- ===== src/Copyinout.antt =====
-- os161/kern/lib/copyinout.c: copies between a process and the kernel. `trapped dst src len mem` is
-- the memory at the fatal fault of a memcpy, where the hardware meets one: it brings the call back
-- to setjmp through copyfail.
pub mod Check
mod Tests
use ece.Common.{
  ℕ, ◌+◌, ◌-◌, ◌%◌, Bool, Option, none, some, ltb, leb, ◌==◌, if◌then◌else◌, Status, success,
  efault, failed,
}
use ece.Coremap.{word}
use ece.Uio.{Memory, memcpy}

abbrev pub user_top : ℕ
user_top = 0x8000_0000

-- copycheck: the status and `*stoplen`
pub copycheck : ℕ → ℕ → Status × ℕ
copycheck userptr len =
    let top = (userptr + len + word - 1) % word in
    if ltb top userptr
    then (efault, len)
    else (if leb user_top userptr
        then (efault, len)
        else (if leb user_top top then (success, user_top - userptr) else (success, len)))

module _ (trapped : ℕ → ℕ → ℕ → Memory → Option Memory) where
  -- setjmp and the memcpy that it protects
  abbrev pub protected : ℕ → ℕ → ℕ → Memory → Status × Memory
  protected dst src len mem = elim (trapped dst src len mem) [
    | some mem' ↦ (efault, mem')
    | none ↦ (success, memcpy dst src len mem)
  ]

  pub copyin : ℕ → ℕ → ℕ → Memory → Status × Memory
  unfolding copycheck
  copyin usersrc dest len mem =
      let (result, stoplen) = copycheck usersrc len in
      if failed result
      then (result, mem)
      else (if stoplen == len then protected dest usersrc len mem else (efault, mem))

  pub copyout : ℕ → ℕ → ℕ → Memory → Status × Memory
  unfolding copycheck
  copyout src userdest len mem =
      let (result, stoplen) = copycheck userdest len in
      if failed result
      then (result, mem)
      else (if stoplen == len then protected userdest src len mem else (efault, mem))
