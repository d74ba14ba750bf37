-- ===== src/Synch/Semaphore/Tests.antt =====
-- A semaphore of count 1: the thread 3 takes it, the thread 4 sleeps, and V wakes the thread 4.
use ece.Common.{◌+◌, ◌≡◌, refl}
use ece.Synch.{place}
use ece.Synch.Semaphore.{
  idle, asleep, Semaphore, rouse, p_loop, v, call_p, call_v, Reach, start, later,
}
use ece.Synch.Semaphore.Invariant.{Reach-counts, no_lost_wakeup}

abbrev held : Semaphore
held = record { count = 0; taken = 1; given = 0; at = place (λ _. idle) 3 idle }

abbrev waited : Semaphore
waited = record held { at = place held.at 4 asleep }

abbrev signalled : Semaphore
signalled = record { count = 1; taken = 1; given = 1; at = λ j. rouse (waited.at j) }

signalled-Reach : Reach 1 signalled
unfolding p_loop v
signalled-Reach =
    later (later (later start (call_p 3 refl refl)) (call_p 4 refl refl)) (call_v 3 refl refl)

Reach-counts_example : signalled.count + signalled.taken ≡ 1 + signalled.given
Reach-counts_example = Reach-counts signalled-Reach

waited-Reach : Reach 1 waited
unfolding p_loop
waited-Reach = later (later start (call_p 3 refl refl)) (call_p 4 refl refl)

no_lost_wakeup_example : waited.count ≡ 0
no_lost_wakeup_example = no_lost_wakeup waited-Reach 4 refl
