-- ===== src/Synch/Semaphore.antt =====
-- Semaphores: P and V by any number of threads.
pub mod Invariant
mod Tests
use ece.Common.{
  ℕ, ◌+◌, ◌-◌, ◌<◌, ◌≡◌, ltb, ◌==◌, if◌then◌else◌, Run, done, fault, Fault, assert, ◌>>=◌, ◌>>◌,
  int_limit,
}
use ece.Synch.{place}

-- Where a thread stands: outside P, at the test of the loop in P, or in thread_sleep there.
pub data Place : Type 0 where
  idle ready asleep : Place

-- `struct semaphore` with its threads. `taken` and `given` count the calls of P that returned and
-- the calls of V.
pub record Semaphore : Type 0 where
  pub count : ℕ
  pub taken : ℕ
  pub given : ℕ
  pub at : ℕ → Place

-- the threads after a thread_wakeup
abbrev pub rouse : Place → Place
rouse Place.asleep = Place.ready
rouse p = p

-- sem_create, with no thread inside yet
abbrev pub create : ℕ → Semaphore
create initial_count = record { count = initial_count; taken = 0; given = 0; at = λ _. Place.idle }

-- The loop of P in thread `i`, from its test on: it sleeps, or it takes one and leaves.
pub p_loop : ℕ → Semaphore → Run Semaphore
p_loop i s =
    let sleeping : Semaphore = record s { at = place s.at i Place.asleep } in
    let take = (do
      assert (ltb 0 s.count)
      done (record s { count = s.count - 1; taken = s.taken + 1; at = place s.at i Place.idle })) in
    if s.count == 0 then done sleeping else take

-- V. The count is an `int`: one that overflows is a fault.
pub v : Semaphore → Run Semaphore
v s =
    let up = (do
      assert (ltb 0 (s.count + 1))
      done (record s { count = s.count + 1; given = s.given + 1; at = λ j. rouse (s.at j) })) in
    if ltb (s.count + 1) int_limit then up else fault Fault.overflow

-- One step of one thread.
pub data Step (s : Semaphore) : Semaphore → Type 0 where
  call_p : {s' : Semaphore} (i : ℕ) → s.at i ≡ Place.idle → p_loop i s ≡ done s' → Step s s'
  resume : {s' : Semaphore} (i : ℕ) → s.at i ≡ Place.ready → p_loop i s ≡ done s' → Step s s'
  call_v : {s' : Semaphore} (i : ℕ) → s.at i ≡ Place.idle → v s ≡ done s' → Step s s'

pub data Reach (initial_count : ℕ) : Semaphore → Type 0 where
  start : Reach initial_count (create initial_count)
  later : {s t : Semaphore} → Reach initial_count s → Step s t → Reach initial_count t
