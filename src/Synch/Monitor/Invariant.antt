-- ===== src/Synch/Monitor/Invariant.antt =====
-- The lock excludes, loses no wakeup, and its assertions hold.
use ece.Common.{ℕ, ◌≤◌, ◌≡◌, arith, done}
use ece.Synch.Monitor.{
  lock_asleep, critical, Monitor, acquire, give_up, release, wait_loop, wait, signal_to,
  signal_nobody, broadcast, Quiet, call_acquire, retry, call_release, call_wait, recheck, Step,
  quiet, call_signal, call_signal_nobody, call_broadcast, Reach, start, later,
}

pub record Inv (m : Monitor) : Type 0 where
  pub small : m.count ≤ 1
  pub free : (i : ℕ) → m.at i ≡ critical → m.count ≡ 0
  pub unique : (i j : ℕ) → m.at i ≡ critical → m.at j ≡ critical → i ≡ j
  pub awake : (i : ℕ) → m.at i ≡ lock_asleep → m.count ≡ 0

module _ {m m' : Monitor} (inv : Inv m) (i : ℕ) where
  acquire-Inv : acquire i m ≡ done m' → Inv m'
  unfolding acquire
  acquire-Inv e = record {
    small = ground arith;
    free = λ j h. ground (arith, inv.free j);
    unique = λ j k h g. ground (arith, inv.unique j k, inv.free j, inv.free k);
    awake = λ j h. ground (arith, inv.awake j);
  }

  release-Inv : m.at i ≡ critical → release i m ≡ done m' → Inv m'
  unfolding release give_up
  release-Inv at e = record {
    small = ground arith;
    free = λ j h. ground (arith, inv.unique i j);
    unique = λ j k h g. ground (arith, inv.unique j k);
    awake = λ j h. ground (arith, inv.awake j);
  }

  wait_loop-Inv : wait_loop i m ≡ done m' → Inv m'
  unfolding wait_loop acquire
  wait_loop-Inv e = record {
    small = ground arith;
    free = λ j h. ground (arith, inv.free j);
    unique = λ j k h g. ground (arith, inv.unique j k, inv.free j, inv.free k);
    awake = λ j h. ground (arith, inv.awake j);
  }

  wait-Inv : m.at i ≡ critical → wait i m ≡ done m' → Inv m'
  unfolding wait give_up wait_loop acquire
  wait-Inv at e = record {
    small = ground arith;
    free = λ j h. ground (arith, inv.unique i j);
    unique = λ j k h g. ground (arith, inv.unique j k, inv.unique i j, inv.unique i k);
    awake = λ j h. ground (arith, inv.awake j);
  }

signal_to-Inv : {m : Monitor} (w : ℕ) → Inv m → Inv (signal_to w m)
unfolding signal_to
signal_to-Inv w inv = record {
  small = inv.small;
  free = λ j h. ground (arith, inv.free j);
  unique = λ j k h g. ground (arith, inv.unique j k);
  awake = λ j h. ground (arith, inv.awake j);
}

broadcast-Inv : {m : Monitor} → Inv m → Inv (broadcast m)
unfolding broadcast
broadcast-Inv inv = record {
  small = inv.small;
  free = λ j h. ground (arith, inv.free j);
  unique = λ j k h g. ground (arith, inv.unique j k);
  awake = λ j h. ground (arith, inv.awake j);
}

Quiet-Inv : {m m' : Monitor} → Quiet m m' → Inv m → Inv m'
Quiet-Inv (call_acquire i at e) inv = acquire-Inv inv i e
Quiet-Inv (retry i at e) inv = acquire-Inv inv i e
Quiet-Inv (call_release i at e) inv = release-Inv inv i at e
Quiet-Inv (call_wait i at e) inv = wait-Inv inv i at e
Quiet-Inv (recheck i at e) inv = wait_loop-Inv inv i e

Step-Inv : {m m' : Monitor} → Step m m' → Inv m → Inv m'
unfolding signal_nobody
Step-Inv (quiet q) inv = Quiet-Inv q inv
Step-Inv (call_signal w at) inv = signal_to-Inv w inv
Step-Inv (call_signal_nobody none) inv = record {
  small = inv.small;
  free = inv.free;
  unique = inv.unique;
  awake = inv.awake;
}
Step-Inv call_broadcast inv = broadcast-Inv inv

pub Reach-Inv : {m : Monitor} → Reach m → Inv m
Reach-Inv start = record {
  small = omega arith;
  free = λ i h. cc;
  unique = λ i j h g. cc;
  awake = λ i h. cc;
}
Reach-Inv (later r st) = Step-Inv st (Reach-Inv r)

-- In every reachable state at most one thread is past lock_acquire without having released the
-- lock, in cv_wait or by lock_release.
pub mutual_exclusion :
    {m : Monitor} → Reach m → (i j : ℕ) → m.at i ≡ critical → m.at j ≡ critical → i ≡ j
mutual_exclusion r = (Reach-Inv r).unique

-- In every reachable state in which a thread sleeps in lock_acquire the count of the lock is 0: no
-- wakeup is lost.
pub lock_wakeup : {m : Monitor} → Reach m → (i : ℕ) → m.at i ≡ lock_asleep → m.count ≡ 0
lock_wakeup r = (Reach-Inv r).awake
