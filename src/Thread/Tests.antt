-- ===== src/Thread/Tests.antt =====
-- The theorems on os161/kern/thread/thread.c at a system of five threads.
use ece.Common.{ℕ, ◌≡◌, refl, Bool, true, false, none, some, [], ◌∷◌, arith, done}
use ece.Thread.{System, assign, thread_wakeup, thread_sleep, thread_yield}
use ece.Thread.Wakeup.{Threads, Leaves, thread_wakeup_all}
use ece.Thread.Switch.{thread_yield_lem, thread_sleep_lem}

abbrev plenty : ℕ → Bool
plenty _ = true

-- 11 and 13 sleep on the address 50, and 12 on 60.
abbrev addresses : ℕ → ℕ
addresses = assign (assign (assign (λ _. 0) 11 50) 12 60) 13 50

-- 10 runs, and 14 is runnable.
abbrev system : Bool → System
system flag = record {
  sleepers = record { num = 3; max = 4; v = some (some 11 ∷ some 12 ∷ some 13 ∷ none ∷ []) };
  zombies = record { num = 0; max = 0; v = none };
  runqueue = record {
    size = 8;
    nextwrite = 1;
    nextread = 0;
    slots = some 14 ∷ none ∷ none ∷ none ∷ none ∷ none ∷ none ∷ none ∷ [];
  };
  sleepaddr = addresses;
  curthread = some 10;
  wake_one = flag;
}

system-Threads : (flag : Bool) → Threads (system flag) (11 ∷ 12 ∷ 13 ∷ []) (14 ∷ [])
system-Threads flag = record {
  sleeping = record { valid = omega arith; shows = refl };
  queued = record {
    block = refl;
    small = omega arith;
    read_in = omega arith;
    tail = refl;
    room = omega arith;
    live = (refl, tt);
  };
}

thread_wakeup_all_example :
    Leaves (system false) (12 ∷ []) (14 ∷ 11 ∷ 13 ∷ []) (thread_wakeup plenty 50 (system false))
thread_wakeup_all_example = thread_wakeup_all plenty 50 (system-Threads false) (omega arith) refl

thread_yield_lem_example :
    (s' : System) × (thread_yield plenty [] (system false) ≡ done s')
    × Threads s' (11 ∷ 12 ∷ 13 ∷ []) (10 ∷ [])
    × (s'.curthread ≡ some 14)
    × (s'.sleepaddr ≡ addresses)
thread_yield_lem_example =
    thread_yield_lem plenty [] 10 14 (14 ∷ []) (system-Threads false) refl (omega arith) refl

thread_sleep_lem_example :
    (s' : System) × (thread_sleep plenty [] 70 (system false) ≡ done s')
    × Threads s' (11 ∷ 12 ∷ 13 ∷ 10 ∷ []) []
    × (s'.curthread ≡ some 14)
    × (s'.sleepaddr ≡ assign addresses 10 70)
thread_sleep_lem_example =
    thread_sleep_lem plenty [] 70 10 14 (system-Threads false) refl (omega arith)
