-- ===== src/Process.antt =====
-- os161/kern/thread/process.c, os161/kern/userprog/sys_waitpid.c and sys__exit.c: the table of
-- processes, whose indices are the process ids. A slot is `none` where it holds NULL. Threads and
-- semaphores stand in it by address, and enter here only as these parameters: `sem`, what
-- sem_create returns (`none` for NULL), and `has_sleepers`, what thread_hassleepers answers.
-- `kmalloc bytes` says whether the allocation of that many bytes succeeds. The calls of P and V
-- are steps of os161/kern/thread/synch.c: `waitpid` is given by what it does before P and after it.
pub mod Slots
pub mod Allocate
pub mod Release
pub mod Exit
mod Tests
use ece.Common.{
  ℕ, zero, suc, ◌+◌, ◌-◌, Bool, true, false, ◌||◌, not, Option, none, some, ltb, ◌==◌,
  if◌then◌else◌, Run, done, fault, Fault, assert, Status, success, einval, eagain, efault, failed,
  ◌>>=◌, ◌>>◌, pointer, ℤ, pos, negsuc,
}
use ece.Array
use ece.Array.{Array}

-- PID_MAX of include/kern/limits.h
abbrev pub pid_max : ℕ
pid_max = 255

-- `struct process`
pub record Process : Type 0 where
  pub parent_pid : ℕ
  pub exited : Bool
  pub exit_code : ℤ
  pub exit_lock : Option ℕ
  pub mythread : ℕ

-- what `pid_table` points to
abbrev pub Table : Type 0
Table = Array (Option Process)

-- array_getguy, where the pointer that it returns is used
abbrev pub slot : Table → ℕ → Run (Option Process)
slot t i = Array.getguy t i >>= pointer

-- the loop of `no_hole_in_array`
pub hole_from : ℕ → ℕ → Table → Run Bool
hole_from zero i t = done false
hole_from (suc rounds) i t = do
  guy ← slot t i
  elim guy [ none ↦ done true | some _ ↦ hole_from rounds (i + 1) t ]

-- In spite of its name it answers whether there is a hole.
pub no_hole_in_array : Table → Run Bool
unfolding hole_from
no_hole_in_array t = hole_from (Array.getnum t) 0 t

-- the loop of `findProcessId`
pub find_from : ℕ → ℕ → Table → Run ℕ
find_from zero i t = done i
find_from (suc rounds) i t = do
  guy ← slot t i
  elim guy [ none ↦ done i | some _ ↦ find_from rounds (i + 1) t ]

pub find_process_id : Table → Run ℕ
unfolding find_from
find_process_id t = find_from (Array.getnum t) 0 t

module _ (kmalloc : ℕ → Bool) (sem : Option ℕ) where
  -- `sizeof(struct process)` is five words.
  pub process_create : ℕ → ℕ → Option Process
  process_create parentid thread =
      let node : Process = record {
        parent_pid = parentid;
        exited = false;
        exit_code = negsuc 0;
        exit_lock = sem;
        mythread = thread;
      } in
      if kmalloc 20 then some node else none

  -- A node or a panic: the two tests for NULL in `allocatePid`.
  pub created : ℕ → ℕ → Run Process
  unfolding process_create
  created parentid thread = elim (process_create parentid thread) [
    | none ↦ fault Fault.panicked
    | some p ↦ done p
  ]

  -- The status, what `*childpid` receives, and the table.
  pub allocate_pid : ℕ → ℕ → Table → Run (Status × Option ℕ × Table)
  unfolding created
  allocate_pid curpid thread t = do
    hole ← if ltb pid_max (Array.getnum t) then no_hole_in_array t else done true
    let place = (do
      new_process_id ← find_process_id t
      let at_end = (do
        new_process ← created curpid thread
        (result, t') ← Array.add kmalloc t (some new_process)
        if failed result then done (result, none, t') else done (success, some new_process_id, t'))
      let in_hole = (do
        new_process ← created curpid thread
        t' ← Array.setguy t new_process_id (some new_process)
        done (success, some new_process_id, t'))
      if new_process_id == Array.getnum t then at_end else in_hole)
    if hole then place else done (eagain, none, t)

module _ (has_sleepers : ℕ → Bool) where
  -- the assertions of sem_destroy
  pub sem_destroy : Option ℕ → Run (Unit {0})
  sem_destroy none = fault Fault.assertion
  sem_destroy (some sem) = assert (not (has_sleepers sem))

  pub process_exit : Process → Run (Unit {0})
  unfolding sem_destroy
  process_exit p = sem_destroy p.exit_lock

  pub free_pid : ℤ → Table → Run (Status × Table)
  free_pid (negsuc n) t = done (einval, t)
  free_pid (pos pid) t =
      let free = (do
        guy ← slot t pid
        let clear =
            λ (p : Process). (do t' ← Array.setguy t pid none; process_exit p; done (success, t'))
        elim guy [ none ↦ fault Fault.panicked | some p ↦ clear p ]) in
      if ltb pid_max pid || (pid == 0) || ltb (Array.getnum t) (pid - 1)
      then done (einval, t)
      else free

  -- `waitpid` from the return of P on: the status, the exit code and the id that go through the
  -- pointers, and the table. The node is read in the slot where it stood before P.
  pub waitpid_collect : ℕ → Table → Run (Status × ℤ × ℕ × Table)
  waitpid_collect pid t = do
    guy ← slot t pid
    let collect = λ (p : Process). (do
      (result, t') ← free_pid (pos pid) t
      done (result, p.exit_code, pid, t'))
    elim guy [ none ↦ fault Fault.wild | some p ↦ collect p ]

-- `status` values that `waitpid` refuses
abbrev pub bad_pointer : ℕ → Bool
bad_pointer status = (status == 0) || (status == 0x8000_0000) || (status == 0x4000_0000)

-- `waitpid` up to P: the errors, or the child whose `exit_lock` it waits on.
pub waitpid_check : ℕ → ℤ → ℕ → ℕ → Table → Run (Status × Option Process)
waitpid_check curpid (negsuc n) status options t = done (einval, none)
waitpid_check curpid (pos pid) status options t =
    let look = (do
      guy ← slot t pid
      elim guy [
        | none ↦ done (einval, none)
        | some p ↦ if p.parent_pid == curpid then done (success, some p) else done (einval, none)
      ]) in
    let checked = if bad_pointer status then done (efault, none) else look in
    if ltb pid_max pid || (pid == 0) || not (ltb pid (Array.getnum t)) || not (options == 0)
    then done (einval, none)
    else checked

-- `_exit` up to thread_exit: the table, and the semaphore that V is called on.
pub exit_process : ℕ → ℤ → Table → Run (Option ℕ × Table)
exit_process curpid exitcode t = do
  guy ← slot t curpid
  let leave = λ (p : Process). (do
    t' ← Array.setguy t curpid (some (record p { exit_code = exitcode; exited = true }))
    done (p.exit_lock, t'))
  elim guy [ none ↦ fault Fault.wild | some p ↦ leave p ]
