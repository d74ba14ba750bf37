-- ===== src/Thread.antt =====
-- os161/kern/thread/thread.c and scheduler.c: which threads sleep, which are runnable, which one
-- runs. Threads are named by numbers, sleep addresses too, with 0 for NULL. Each routine runs with
-- interrupts off, as its assertion on `curspl` demands. `kmalloc bytes` says whether the
-- allocation of that many bytes succeeds.
pub mod Lists
pub mod Wakeup
pub mod Switch
pub mod Life
mod Tests
use ece.Common.{
  ℕ, zero, suc, ◌+◌, Bool, true, false, not, Option, none, some, List, [], ◌∷◌, ltb, ◌==◌,
  if◌then◌else◌, Run, done, fault, Fault, assert, Status, failed, ◌>>=◌, ◌>>◌, pointer,
}
use ece.Array
use ece.Array.{Array}
use ece.Queue
use ece.Queue.{Queue}

-- The file's globals, with the field `t_sleepaddr` of every thread. `wake_one` is
-- `cv_wakeup_one_thread`.
pub record System : Type 0 where
  pub sleepers : Array ℕ
  pub zombies : Array ℕ
  pub runqueue : Queue ℕ
  pub sleepaddr : ℕ → ℕ
  pub curthread : Option ℕ
  pub wake_one : Bool

-- `threadstate_t`, for the states that `mi_switch` is called with
pub data ThreadState : Type 0 where
  ready sleep zombie : ThreadState

-- `t_sleepaddr` of one thread assigned
abbrev pub assign : (ℕ → ℕ) → ℕ → ℕ → ℕ → ℕ
assign f t addr u = if t == u then addr else f u

module _ (kmalloc : ℕ → Bool) where
  pub make_runnable : System → ℕ → Run (Status × System)
  make_runnable s t = do
    (result, q) ← Queue.addtail kmalloc s.runqueue t
    done (result, record s { runqueue = q })

  -- the loop of `thread_wakeup`
  pub wake_from : ℕ → ℕ → ℕ → System → Run System
  unfolding make_runnable
  wake_from zero i addr s = fault Fault.spinning
  wake_from (suc fuel) i addr s =
      let next = wake_from fuel (i + 1) addr s in
      let body = (do
        t ← Array.getguy s.sleepers i >>= pointer
        let wake = (do
          sleepers ← Array.remove s.sleepers i
          (result, s') ← make_runnable (record s { sleepers = sleepers }) t
          assert (not (failed result))
          let again = wake_from fuel i addr s'
          if s'.wake_one then done s' else again)
        if s.sleepaddr t == addr then wake else next) in
      if ltb i (Array.getnum s.sleepers) then body else done s

  pub thread_wakeup : ℕ → System → Run System
  unfolding wake_from
  thread_wakeup addr s = wake_from (Array.getnum s.sleepers + 1) 0 addr s

  -- `mi_switch` up to its call of the scheduler: the running thread goes on its list.
  pub stash : ThreadState → ℕ → System → Run System
  unfolding make_runnable
  stash ThreadState.ready cur s = do
    (result, s') ← make_runnable s cur
    assert (not (failed result))
    done s'
  stash ThreadState.sleep cur s = do
    (result, sleepers) ← Array.add kmalloc s.sleepers cur
    assert (not (failed result))
    done (record s { sleepers = sleepers })
  stash ThreadState.zombie cur s = do
    (result, zombies) ← Array.add kmalloc s.zombies cur
    assert (not (failed result))
    done (record s { zombies = zombies })

-- the loop of `thread_hassleepers`
pub sleeper_from : ℕ → ℕ → ℕ → System → Run Bool
sleeper_from zero i addr s = done false
sleeper_from (suc rounds) i addr s = do
  t ← Array.getguy s.sleepers i >>= pointer
  let rest = sleeper_from rounds (i + 1) addr s
  if s.sleepaddr t == addr then done true else rest

pub thread_hassleepers : ℕ → System → Run Bool
unfolding sleeper_from
thread_hassleepers addr s = sleeper_from (Array.getnum s.sleepers) 0 addr s

-- The scheduler. Each `cpu_idle` waits for an interrupt, whose handler may make threads runnable:
-- `idle` lists what those handlers do. A machine that idles past the list never leaves the loop.
pub scheduler : List (System → Run System) → System → Run (ℕ × System)
scheduler [] s =
    let pick = (do (t, q) ← Queue.remhead s.runqueue; done (t, record s { runqueue = q })) in
    if Queue.empty s.runqueue then fault Fault.spinning else pick
scheduler (interrupt ∷ idle) s =
    let pick = (do (t, q) ← Queue.remhead s.runqueue; done (t, record s { runqueue = q })) in
    let wait = interrupt s >>= scheduler idle in if Queue.empty s.runqueue then wait else pick

module _ (kmalloc : ℕ → Bool) (idle : List (System → Run System)) where
  -- `mi_switch` up to the flush of the TLB: the next thread is the current one.
  pub mi_switch : ThreadState → System → Run System
  unfolding stash scheduler
  mi_switch nextstate s =
      let switch = λ (cur : ℕ). (do
        s₁ ← stash kmalloc nextstate cur (record s { curthread = none })
        (next, s₂) ← scheduler idle s₁
        done (record s₂ { curthread = some next })) in
      elim s.curthread [ none ↦ done s | some cur ↦ switch cur ]

  -- `thread_sleep` up to the switch, which ends in another thread.
  pub thread_sleep : ℕ → System → Run System
  unfolding mi_switch
  thread_sleep addr s =
      let go = λ (cur : ℕ).
        mi_switch ThreadState.sleep (record s { sleepaddr = assign s.sleepaddr cur addr }) in
      elim s.curthread [ none ↦ fault Fault.wild | some cur ↦ go cur ]

  pub thread_yield : System → Run System
  unfolding mi_switch
  thread_yield s = mi_switch ThreadState.ready s

-- The end of `thread_sleep`, when the thread that called it runs again.
pub thread_resumed : ℕ → System → System
thread_resumed t s = record s { sleepaddr = assign s.sleepaddr t 0 }
