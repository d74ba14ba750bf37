-- ===== src/Thread/Switch.antt =====
-- thread_yield and thread_sleep up to the switch: who runs next, and where the old thread stands.
-- The arrays and the run queue have room, as thread_fork preallocates it.
use ece.Common.{
  ℕ, ◌+◌, ◌≤◌, ◌<◌, ◌≡◌, refl, subst, Bool, none, some, List, [], ◌∷◌, ◌++◌, length, Run, done,
}
use ece.Array.Filled.{add_room-Filled}
use ece.Queue.{Queue}
use ece.Queue.Holds.{Holds}
use ece.Queue.Calls.{addtail_fits, remhead_lem, nonempty_lem}
use ece.Thread.{
  System, assign, make_runnable, stash, scheduler, mi_switch, thread_sleep, thread_yield,
}
use ece.Thread.Wakeup.{Threads}

-- The scheduler picks the oldest runnable thread; no interrupt is waited for.
scheduler_lem :
    (idle : List (System → Run System)) {s : System} {asleep ts : List ℕ} {t : ℕ}
    → Threads s asleep (t ∷ ts)
    → (q : Queue ℕ) × (scheduler idle s ≡ done (t, record s { runqueue = q })) × Holds q ts
unfolding scheduler
scheduler_lem [] h =
    let (q, e, k, z) = remhead_lem h.queued in (q, rw (nonempty_lem h.queued, e), k)
scheduler_lem (interrupt ∷ idle) h =
    let (q, e, k, z) = remhead_lem h.queued in (q, rw (nonempty_lem h.queued, e), k)

module _ (kmalloc : ℕ → Bool) (idle : List (System → Run System)) {s : System}
    {asleep ts : List ℕ} where
  -- A thread that yields goes behind the other runnable threads, and the oldest of them, or else
  -- the thread itself, runs next. The run queue has room for it.
  pub thread_yield_lem :
      (cur t : ℕ) (runnable : List ℕ)
      → Threads s asleep runnable
      → s.curthread ≡ some cur
      → length runnable + 1 < s.runqueue.size
      → runnable ++ (cur ∷ []) ≡ t ∷ ts
      → (s' : System) × (thread_yield kmalloc idle s ≡ done s')
        × Threads s' asleep ts
        × (s'.curthread ≡ some t)
        × (s'.sleepaddr ≡ s.sleepaddr)
  unfolding thread_yield mi_switch stash make_runnable
  thread_yield_lem cur t runnable h c room e =
      let (q, a, k, z) = addtail_fits kmalloc cur h.queued room in
      let s₁ : System = record s { curthread = none; runqueue = q } in
      let h₁ : Threads s₁ asleep (t ∷ ts) = record {
        sleeping = h.sleeping;
        queued = subst (Holds q) e k;
      } in
      let (q₂, p, k₂) = scheduler_lem idle {s = s₁} h₁ in
      (
        record s₁ { runqueue = q₂; curthread = some t },
        rw (c, a, p),
        record { sleeping = h.sleeping; queued = k₂ },
        refl,
        refl,
      )

  -- A thread that sleeps on an address goes behind the other sleepers with that address, and the
  -- oldest runnable thread runs next. The sleepers' array has room for it.
  pub thread_sleep_lem :
      (addr cur t : ℕ)
      → Threads s asleep (t ∷ ts)
      → s.curthread ≡ some cur
      → length asleep + 1 ≤ s.sleepers.max
      → (s' : System) × (thread_sleep kmalloc idle addr s ≡ done s')
        × Threads s' (asleep ++ (cur ∷ [])) ts
        × (s'.curthread ≡ some t)
        × (s'.sleepaddr ≡ assign s.sleepaddr cur addr)
  unfolding thread_sleep mi_switch stash
  thread_sleep_lem addr cur t h c room =
      let (a, e, f) = add_room-Filled h.sleeping kmalloc cur room in
      let s₁ : System = record s {
        curthread = none;
        sleepers = a;
        sleepaddr = assign s.sleepaddr cur addr;
      } in
      let h₁ : Threads s₁ (asleep ++ (cur ∷ [])) (t ∷ ts) = record {
        sleeping = f;
        queued = h.queued;
      } in
      let (q₂, p, k₂) = scheduler_lem idle {s = s₁} h₁ in
      (
        record s₁ { runqueue = q₂; curthread = some t },
        rw (c, e, p),
        record { sleeping = f; queued = k₂ },
        refl,
        refl,
      )
