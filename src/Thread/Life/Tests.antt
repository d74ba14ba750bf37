-- ===== src/Thread/Life/Tests.antt =====
-- A kernel with two sleepers and a runnable thread panics.
use ece.Common.{◌≡◌, refl, arith, false, [], ◌∷◌, some, none, done}
use ece.Thread.{System}
use ece.Thread.Wakeup.{Threads}
use ece.Thread.Life.{thread_panic}
use ece.Thread.Life.Room.{thread_panic_lem}

abbrev system : System
system = record {
  sleepers = record { num = 2; max = 2; v = some (some 11 ∷ some 12 ∷ []) };
  zombies = record { num = 0; max = 0; v = none };
  runqueue = record {
    size = 4;
    nextwrite = 1;
    nextread = 0;
    slots = some 14 ∷ none ∷ none ∷ none ∷ [];
  };
  sleepaddr = λ _. 50;
  curthread = some 10;
  wake_one = false;
}

system-Threads : Threads system (11 ∷ 12 ∷ []) (14 ∷ [])
system-Threads = record {
  sleeping = record { valid = omega arith; shows = refl };
  queued = record {
    block = refl;
    small = omega arith;
    read_in = omega arith;
    tail = refl;
    room = omega arith;
    live = (refl, tt);
  };
}

thread_panic_lem_example :
    (s' : System) × (thread_panic (λ _. false) system ≡ done s')
    × Threads s' [] []
    × (s'.curthread ≡ some 10)
thread_panic_lem_example = thread_panic_lem (λ _. false) system-Threads
