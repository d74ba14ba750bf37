-- ===== src/Synch/Monitor.antt =====
-- One lock and one condition variable, used by any number of threads.
pub mod Invariant
pub mod Broadcast
mod Tests
use ece.Common.{
  ℕ, ◌+◌, ◌-◌, ◌≡◌, ◌≢◌, Bool, true, false, ◌==◌, if◌then◌else◌, Run, done, fault, Fault, assert,
  ◌>>=◌, ◌>>◌,
}
use ece.Synch.{place}

-- Where a thread stands: outside, at the test of the loop in lock_acquire, asleep there, past it
-- with the lock, asleep in cv_wait, or at the test of the loop there.
pub data Place : Type 0 where
  idle want lock_asleep critical cv_asleep cv_ready : Place

-- `struct lock` and `struct cv` with their threads. `passed` counts how often a thread left the
-- loop of cv_wait.
pub record Monitor : Type 0 where
  pub count : ℕ
  pub signal : Bool
  pub passed : ℕ
  pub at : ℕ → Place

-- lock_create and cv_create, with no thread inside yet
abbrev pub create : Monitor
create = record { count = 1; signal = false; passed = 0; at = λ _. Place.idle }

-- the threads after thread_wakeup(lock), and after thread_wakeup(cv)
abbrev pub rouse_lock : Place → Place
rouse_lock Place.lock_asleep = Place.want
rouse_lock p = p

abbrev pub rouse_cv : Place → Place
rouse_cv Place.cv_asleep = Place.cv_ready
rouse_cv p = p

-- The loop of lock_acquire in thread `i`, from its test on.
pub acquire : ℕ → Monitor → Run Monitor
acquire i m =
    let sleeping : Monitor = record m { at = place m.at i Place.lock_asleep } in
    let take = (do
      assert (m.count == 1)
      done (record m { count = m.count - 1; at = place m.at i Place.critical })) in
    if m.count == 0 then done sleeping else take

-- lock_release, and the first statements of cv_wait: the lock is given up and its sleepers woken.
pub give_up : Monitor → Run Monitor
give_up m = do
  assert (m.count + 1 == 1)
  done (record m { count = m.count + 1; at = λ j. rouse_lock (m.at j) })

pub release : ℕ → Monitor → Run Monitor
unfolding give_up
release i m = do m' ← give_up m; done (record m' { at = place m'.at i Place.idle })

-- The loop of cv_wait, from its test on.
pub wait_loop : ℕ → Monitor → Run Monitor
unfolding acquire
wait_loop i m =
    let sleeping : Monitor = record m { at = place m.at i Place.cv_asleep } in
    let pass = acquire i (record m { signal = false; passed = m.passed + 1 }) in
    if m.signal then pass else done sleeping

-- cv_wait up to its first thread_sleep, or to its end where it does not sleep
pub wait : ℕ → Monitor → Run Monitor
unfolding give_up wait_loop
wait i m = give_up m >>= wait_loop i

-- cv_signal, where thread_wakeup finds the thread `w` first, or nobody.
pub signal_to : ℕ → Monitor → Monitor
signal_to w m = record m { signal = true; at = place m.at w (rouse_cv (m.at w)) }

pub signal_nobody : Monitor → Monitor
signal_nobody m = record m { signal = true }

pub broadcast : Monitor → Monitor
broadcast m = record m { signal = true; at = λ j. rouse_cv (m.at j) }

-- The steps that leave the condition variable alone, or wait on it. A thread releases the lock, or
-- waits, only while it holds the lock: the rule that include/synch.h sets and the code does not
-- check.
pub data Quiet (m : Monitor) : Monitor → Type 0 where
  call_acquire : {m' : Monitor} (i : ℕ) → m.at i ≡ Place.idle → acquire i m ≡ done m' → Quiet m m'
  retry : {m' : Monitor} (i : ℕ) → m.at i ≡ Place.want → acquire i m ≡ done m' → Quiet m m'
  call_release :
      {m' : Monitor} (i : ℕ) → m.at i ≡ Place.critical → release i m ≡ done m' → Quiet m m'
  call_wait : {m' : Monitor} (i : ℕ) → m.at i ≡ Place.critical → wait i m ≡ done m' → Quiet m m'
  recheck : {m' : Monitor} (i : ℕ) → m.at i ≡ Place.cv_ready → wait_loop i m ≡ done m' → Quiet m m'

-- Any thread may signal or broadcast: the code does not ask for the lock there either.
pub data Step (m : Monitor) : Monitor → Type 0 where
  quiet : {m' : Monitor} → Quiet m m' → Step m m'
  call_signal : (w : ℕ) → m.at w ≡ Place.cv_asleep → Step m (signal_to w m)
  call_signal_nobody : ((j : ℕ) → m.at j ≢ Place.cv_asleep) → Step m (signal_nobody m)
  call_broadcast : Step m (broadcast m)

pub data Reach : Monitor → Type 0 where
  start : Reach create
  later : {m m' : Monitor} → Reach m → Step m m' → Reach m'
