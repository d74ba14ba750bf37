-- ===== src/Synch/Monitor/Tests.antt =====
-- Two threads wait on the condition variable, and a third broadcasts.
use ece.Common.{ℕ, ◌+◌, ◌≤◌, ◌≡◌, refl, false, done}
use ece.Synch.{place}
use ece.Synch.Monitor.{
  idle, lock_asleep, critical, cv_asleep, Monitor, create, rouse_cv, acquire, wait_loop, wait,
  signal_nobody, broadcast, call_acquire, recheck, quiet, Reach, start, later,
}
use ece.Synch.Monitor.Invariant.{mutual_exclusion, lock_wakeup}
use ece.Synch.Monitor.Broadcast.{Quietly, here, after, broadcast_passes_one, wait_after_signal}

-- The thread 1 holds the lock.
abbrev held : Monitor
held = record create { count = 0; at = place create.at 1 critical }

-- The thread 2 asks for it.
abbrev asked : Monitor
asked = record held { at = place held.at 2 lock_asleep }

held-Reach : Reach held
unfolding acquire
held-Reach = later start (quiet (call_acquire 1 refl refl))

asked-Reach : Reach asked
unfolding acquire
asked-Reach = later held-Reach (quiet (call_acquire 2 refl refl))

-- 1 and 2 sleep on the condition variable.
abbrev two_waiting : Monitor
two_waiting = record {
  count = 1;
  signal = false;
  passed = 0;
  at = place (place (λ _. idle) 1 cv_asleep) 2 cv_asleep;
}

-- After the broadcast 1 passes, and releases the lock; 2 sleeps again.
abbrev one_passed : Monitor
one_passed = record two_waiting {
  count = 0;
  passed = 1;
  at = place (place (λ j. rouse_cv (two_waiting.at j)) 1 critical) 2 cv_asleep;
}

mutual_exclusion_example : ◌≡◌ {A = ℕ} 1 1
mutual_exclusion_example = mutual_exclusion asked-Reach 1 1 refl refl

lock_wakeup_example : asked.count ≡ 0
lock_wakeup_example = lock_wakeup asked-Reach 2 refl

after_broadcast : Quietly (broadcast two_waiting) one_passed
unfolding broadcast wait_loop acquire
after_broadcast = after (after here (recheck 1 refl refl)) (recheck 2 refl refl)

broadcast_passes_one_example : one_passed.passed ≤ two_waiting.passed + 1
broadcast_passes_one_example = broadcast_passes_one two_waiting after_broadcast

wait_after_signal_example :
    (m' : Monitor) × (wait 1 (signal_nobody held) ≡ done m')
    × (m'.at 1 ≡ critical)
    × (m'.passed ≡ held.passed + 1)
wait_after_signal_example = wait_after_signal 1 held refl refl
