-- ===== src/Synch/Monitor/Broadcast.antt =====
-- How many threads a signal or a broadcast lets through the loop of cv_wait.
use ece.Common.{==_true, ==_false, ℕ, ◌+◌, ◌-◌, ◌≤◌, ◌≡◌, refl, arith, false, done, if◌then◌else◌}
use ece.Synch.{place}
use ece.Synch.Monitor.{
  critical, Monitor, rouse_lock, acquire, give_up, release, wait_loop, wait, signal_nobody,
  broadcast, Quiet, call_acquire, retry, call_release, call_wait, recheck,
}

-- what is left to let through: `signal`, as the number that it is in the code
abbrev pub pending : Monitor → ℕ
pending m = if m.signal then 1 else 0

-- Any number of steps with no signal and no broadcast.
pub data Quietly (m : Monitor) : Monitor → Type 0 where
  here : Quietly m m
  after : {m' m'' : Monitor} → Quietly m m' → Quiet m' m'' → Quietly m m''

abbrev Kept : Monitor → Monitor → Type 0
Kept m m' = m'.passed + pending m' ≡ m.passed + pending m

Quiet-Kept : {m m' : Monitor} → Quiet m m' → Kept m m'
unfolding acquire release wait_loop wait give_up
Quiet-Kept (call_acquire i at e) = ground arith
Quiet-Kept (retry i at e) = ground arith
Quiet-Kept (call_release i at e) = ground arith
Quiet-Kept (call_wait i at e) = ground arith
Quiet-Kept (recheck i at e) = ground arith

Quietly-Kept : {m m' : Monitor} → Quietly m m' → Kept m m'
Quietly-Kept here = refl
Quietly-Kept (after r q) = omega (arith, Quietly-Kept r, Quiet-Kept q)

-- After a broadcast at most one thread leaves the loop of cv_wait until the next signal or
-- broadcast, however many were asleep: the others find `signal` at 0 and sleep again.
pub broadcast_passes_one :
    (m : Monitor) {m' : Monitor} → Quietly (broadcast m) m' → m'.passed ≤ m.passed + 1
unfolding broadcast
broadcast_passes_one m r = ground (arith, Quietly-Kept r)

-- A signal with nobody asleep is not lost: a thread that then calls cv_wait with the lock does not
-- wait, but passes at once and keeps the lock.
pub wait_after_signal :
    (i : ℕ) (m : Monitor)
    → m.at i ≡ critical
    → m.count ≡ 0
    → (m' : Monitor) × (wait i (signal_nobody m) ≡ done m')
      × (m'.at i ≡ critical)
      × (m'.passed ≡ m.passed + 1)
unfolding wait give_up wait_loop acquire signal_nobody
wait_after_signal i m at z = (
  record m {
    count = m.count + 1 - 1;
    signal = false;
    passed = m.passed + 1;
    at = place (λ j. rouse_lock (m.at j)) i critical;
  },
  rw (
    ==_true (m.count + 1) 1 (omega arith),
    ==_false (m.count + 1) 0 (omega arith),
    ==_true (m.count + 1) 1 (omega arith),
  ),
  rw (==_true i i refl),
  refl,
)
