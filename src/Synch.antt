-- ===== src/Synch.antt =====
-- os161/kern/thread/synch.c. Interrupts are off from the start of each routine to its end or to
-- thread_sleep, so that each such stretch is one step, and the steps of the threads interleave. A
-- thread is a number, with the place where it stands in a routine. thread_wakeup makes every sleeper
-- of its address runnable, or the first with `cv_wakeup_one_thread` set: Thread.Wakeup.
pub mod Semaphore
pub mod Monitor
use ece.Common.{
  ℕ, Option, none, some, Bool, leb, if◌then◌else◌, Run, done, fault, Fault, assert, ◌>>=◌, ◌>>◌,
  ◌==◌,
}

-- The place of one thread assigned.
abbrev pub place {ℓ} : {A : Type ℓ} → (ℕ → A) → ℕ → A → ℕ → A
place f i p j = if i == j then p else f j
