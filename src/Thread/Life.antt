-- ===== src/Thread/Life.antt =====
-- os161/kern/thread/thread.c and scheduler.c: threads that start and end, and how the other threads
-- are dropped when the kernel panics. `World` adds `numthreads` to the lists, and `owned t` says
-- whether thread `t` still holds an address space or a current directory, which thread_exit gives
-- up and thread_destroy asserts are gone.
pub mod Room
mod Tests
use ece.Common.{
  ℕ, zero, suc, ◌+◌, ◌-◌, Bool, true, false, not, ◌&&◌, Option, none, some, ltb, ◌==◌,
  if◌then◌else◌, Run, done, fault, Fault, assert, Status, success, enomem, failed, ◌>>=◌, ◌>>◌,
  pointer,
}
use ece.Array
use ece.Array.{Array}
use ece.Queue
use ece.Queue.{Queue}
use ece.Thread.{System, ThreadState, make_runnable, mi_switch}

pub record World : Type 0 where
  pub system : System
  pub numthreads : ℕ
  pub owned : ℕ → Bool

-- the loop of scheduler_killall
pub drop_from : ℕ → Queue ℕ → Run (Queue ℕ)
drop_from zero q = fault Fault.spinning
drop_from (suc fuel) q =
    let again = (do (t, q') ← Queue.remhead q; drop_from fuel q') in
    if Queue.empty q then done q else again

pub scheduler_killall : System → Run System
scheduler_killall s = do
  q ← drop_from (s.runqueue.size + 1) s.runqueue
  done (record s { runqueue = q })

-- scheduler_shutdown: the queue is destroyed, and nothing is returned.
pub scheduler_shutdown : System → Run (Unit {0})
scheduler_shutdown s = do s' ← scheduler_killall s; Queue.destroy s'.runqueue

module _ (kmalloc : ℕ → Bool) where
  -- scheduler_bootstrap
  pub scheduler_bootstrap : Run (Queue ℕ)
  scheduler_bootstrap = elim (Queue.create {A = ℕ} kmalloc 32) [
    | none ↦ fault Fault.panicked
    | some q ↦ done q
  ]

  -- scheduler_preallocate
  pub scheduler_preallocate : System → ℕ → Run (Status × System)
  scheduler_preallocate s nthreads = do
    (result, q) ← Queue.preallocate kmalloc s.runqueue nthreads
    done (result, record s { runqueue = q })

  -- thread_killall, whose loop only prints
  pub thread_killall : System → Run System
  thread_killall s = do
    (result, sleepers) ← Array.setsize kmalloc s.sleepers 0
    assert (not (failed result))
    done (record s { sleepers = sleepers })

  pub thread_panic : System → Run System
  thread_panic s = thread_killall s >>= scheduler_killall

  -- The assertions of exorcise and thread_destroy on one zombie.
  abbrev pub may_destroy : World → ℕ → Bool
  may_destroy w z =
      let current : Bool = elim w.system.curthread [ none ↦ false | some t ↦ t == z ] in
      not current && not (w.owned z)

  -- the loop of exorcise
  pub exorcise_from : ℕ → ℕ → World → Run (Unit {0})
  exorcise_from zero i w = done tt
  exorcise_from (suc rounds) i w = do
    z ← Array.getguy w.system.zombies i >>= pointer
    assert (may_destroy w z)
    exorcise_from rounds (i + 1) w

  pub exorcise : World → Run World
  exorcise w = do
    exorcise_from (Array.getnum w.system.zombies) 0 w
    (result, zombies) ← Array.setsize kmalloc w.system.zombies 0
    assert (not (failed result))
    done (record w { system = record w.system { zombies = zombies } })

  -- The end of thread_fork, with interrupts off: the room for one thread more, and the new thread
  -- `newguy` made runnable.
  pub fork_room : ℕ → World → Run (Status × World)
  fork_room newguy w =
      let n = w.numthreads + 1 in
      let s = w.system in
      let run : System → Run (Status × World) = λ s₃. (do
        (result, s₄) ← make_runnable kmalloc s₃ newguy
        let count = if failed result then w.numthreads else w.numthreads + 1
        done (result, record w { system = s₄; numthreads = count })) in
      let queue : System → Run (Status × World) = λ s₂. (do
        (result, s₃) ← scheduler_preallocate s₂ n
        if failed result then done (result, record w { system = s₃ }) else run s₃) in
      let dead : System → Run (Status × World) = λ s₁. (do
        (result, a) ← Array.preallocate kmalloc s₁.zombies n
        let s₂ : System = record s₁ { zombies = a }
        if failed result then done (result, record w { system = s₂ }) else queue s₂) in
      (do
        (result, a) ← Array.preallocate kmalloc s.sleepers n
        let s₁ : System = record s { sleepers = a }
        if failed result then done (result, record w { system = s₁ }) else dead s₁)
