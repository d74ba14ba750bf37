-- ===== src/Queue/Tests.antt =====
-- Runs of os161/kern/lib/queue.c on small queues, and the theorems at such queues.
use ece.Common.{ℕ, ◌≡◌, refl, Bool, true, none, some, List, [], ◌∷◌, arith, done, success}
use ece.Queue.{Queue, grow, requeue, double, addtail}
use ece.Queue.Holds.{Holds}
use ece.Queue.Fifo
use ece.Queue.Fifo.{Op, put, take_out, ask_empty, Reply, status, element, answer}
use ece.Queue.Refine.{run, run_refines_fifo}

-- 5, 6 and 7 in a ring of four, round the end: it is full
abbrev full : Queue ℕ
full = record {
  size = 4;
  nextwrite = 1;
  nextread = 2;
  slots = some 7 ∷ none ∷ some 5 ∷ some 6 ∷ [];
}

abbrev plenty : ℕ → Bool
plenty _ = true

abbrev script : List (Op ℕ)
script = put 8 ∷ take_out ∷ take_out ∷ ask_empty ∷ take_out ∷ take_out ∷ take_out ∷ []

full-Holds : Holds full (5 ∷ 6 ∷ 7 ∷ [])
full-Holds = record {
  block = refl;
  small = omega arith;
  read_in = omega arith;
  tail = refl;
  room = omega arith;
  live = (refl, (refl, (refl, tt)));
}

addtail_grows :
    addtail plenty full 8
    ≡ done (
      success,
      record {
        size = 8;
        nextwrite = 4;
        nextread = 0;
        slots = some 5 ∷ some 6 ∷ some 7 ∷ some 8 ∷ none ∷ none ∷ none ∷ none ∷ [];
      },
    )
unfolding addtail grow requeue double
addtail_grows = refl

run_refines_fifo_example : run full script ≡ Fifo.run (5 ∷ 6 ∷ 7 ∷ []) script
run_refines_fifo_example =
    run_refines_fifo script (5 ∷ 6 ∷ 7 ∷ []) full-Holds (omega arith) (omega arith)
