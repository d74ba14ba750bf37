-- ===== src/Thread/Life/Room.antt =====
-- What a panic leaves on the lists of threads.
use ece.Common.{
  ℕ, zero, suc, ◌+◌, ◌<◌, ◌≡◌, refl, arith, Bool, List, [], ◌∷◌, length, done, success,
}
use ece.Array
use ece.Array.{Array}
use ece.Array.Filled.{Filled}
use ece.Array.Resize.{setsize_room}
use ece.Queue.{Queue}
use ece.Queue.Holds.{Holds}
use ece.Queue.Calls.{remhead_lem, empty_lem, nonempty_lem}
use ece.Thread.{System}
use ece.Thread.Wakeup.{Threads}
use ece.Thread.Life.{drop_from, scheduler_killall, thread_killall, thread_panic}

-- Every thread of the run queue is dropped.
drop_from_lem :
    (fuel : ℕ) {q : Queue ℕ} (ts : List ℕ)
    → length ts < fuel
    → Holds q ts
    → (q' : Queue ℕ) × (drop_from fuel q ≡ done q') × Holds q' []
unfolding drop_from
drop_from_lem zero ts h held = elim h [ ]
drop_from_lem (suc fuel) {q} [] h held = (q, rw (empty_lem held), held)
drop_from_lem (suc fuel) {q} (t ∷ ts) h held =
    let (q', e, held', same) = remhead_lem held in
    let (q'', run, none_left) = drop_from_lem fuel ts (omega arith) held' in
    (q'', rw (nonempty_lem held, e, run), none_left)

setsize_zero :
    (kmalloc : ℕ → Bool) {a : Array ℕ} {xs : List ℕ}
    → Filled a xs
    → (b : Array ℕ) × (Array.setsize kmalloc a 0 ≡ done (success, b)) × Filled b []
setsize_zero kmalloc {a} h =
    let (b, e, r) = setsize_room kmalloc 0 h.valid (omega arith) in
    (b, e, record { valid = r.valid; shows = rw (r.sized) refl })

-- After a panic no other thread sleeps or is runnable, so none runs again; the lists stay in order.
pub thread_panic_lem :
    (kmalloc : ℕ → Bool) {s : System} {asleep runnable : List ℕ}
    → Threads s asleep runnable
    → (s' : System) × (thread_panic kmalloc s ≡ done s')
      × Threads s' [] []
      × (s'.curthread ≡ s.curthread)
unfolding thread_panic thread_killall scheduler_killall
thread_panic_lem kmalloc {s} {asleep} {runnable} h =
    let (a, e, cleared) = setsize_zero kmalloc h.sleeping in
    let (q, run, none_left) =
      drop_from_lem (s.runqueue.size + 1) runnable (omega (arith, h.queued.room)) h.queued in
    (
      record s { sleepers = a; runqueue = q },
      rw (e, run),
      record { sleeping = cleared; queued = none_left },
      refl,
    )
