-- ===== src/Thread/Wakeup.antt =====
-- thread_wakeup and thread_hassleepers. The run queue has room for every sleeper, which is what
-- scheduler_preallocate is for.
use ece.Common.{
  ℕ, zero, suc, ◌+◌, ◌<◌, ◌≡◌, refl, ap, sym, subst, ◌∙◌, inl, inr, Bool, true, false, List, [],
  ◌∷◌, ◌++◌, append_assoc, append-nil, arith, length, length-append, get_elem?, remove_at, some,
  Run, done, success, ◌==◌, ltb, Bool-cases, lt→ltb, le→ltb_false,
}
use ece.Array
use ece.Array.{Array}
use ece.Array.Filled.{Filled, num_lem, getguy_filled, remove-Filled}
use ece.Queue.Holds.{Holds}
use ece.Queue.Calls.{addtail_fits}
use ece.Thread.{System, wake_from, thread_wakeup, make_runnable, sleeper_from, thread_hassleepers}
use ece.Thread.Lists.{on_addr, off_addr, any_on, get_elem?-middle, remove_at-middle}

-- the sleepers and the runnable threads of a system
pub record Threads (s : System) (asleep runnable : List ℕ) : Type 0 where
  pub sleeping : Filled s.sleepers asleep
  pub queued : Holds s.runqueue runnable

-- All else is as it was.
pub record Same (s s' : System) : Type 0 where
  pub zombies : s'.zombies ≡ s.zombies
  pub sleepaddr : s'.sleepaddr ≡ s.sleepaddr
  pub curthread : s'.curthread ≡ s.curthread
  pub wake_one : s'.wake_one ≡ s.wake_one
  pub size : s'.runqueue.size ≡ s.runqueue.size

-- the lists after a call
abbrev pub Leaves : System → List ℕ → List ℕ → Run System → Type 0
Leaves s asleep runnable r = (s' : System) × (r ≡ done s') × Threads s' asleep runnable × Same s s'

Same-refl : (s : System) → Same s s
Same-refl s = record {
  zombies = refl;
  sleepaddr = refl;
  curthread = refl;
  wake_one = refl;
  size = refl;
}

Same-trans : {s s' s'' : System} → Same s s' → Same s' s'' → Same s s''
Same-trans p q = record {
  zombies = q.zombies ∙ p.zombies;
  sleepaddr = q.sleepaddr ∙ p.sleepaddr;
  curthread = q.curthread ∙ p.curthread;
  wake_one = q.wake_one ∙ p.wake_one;
  size = q.size ∙ p.size;
}

-- The thread at index `i` of the sleepers, read.
sleeper_at :
    {s : System} (pre ts : List ℕ) {ys : List ℕ} (t i : ℕ)
    → Threads s (pre ++ (t ∷ ts)) ys
    → i ≡ length pre
    → (Array.getguy s.sleepers i ≡ done (some t)) × (ltb i (Array.getnum s.sleepers) ≡ true)
sleeper_at {s} pre ts t i h e =
    let less : i < length (pre ++ (t ∷ ts)) = omega (arith, length-append pre (t ∷ ts)) in
    let (u, g, m) = getguy_filled h.sleeping i less in
    let same : u ≡ t =
      let m' = ap (get_elem? (pre ++ (t ∷ ts))) e in let f = get_elem?-middle pre t ts in cc in
    (g ∙ ap (λ x. done (some x)) same, lt→ltb i s.sleepers.num (omega (arith, num_lem h.sleeping)))

module _ (kmalloc : ℕ → Bool) (addr : ℕ) where
  -- One thread is taken from the sleepers and made runnable.
  moved :
      {s : System} (pre ts : List ℕ) {ys : List ℕ} (t i : ℕ)
      → Threads s (pre ++ (t ∷ ts)) ys
      → i ≡ length pre
      → length ys + 1 < s.runqueue.size
      → (a : Array ℕ) × (s' : System) × (Array.remove s.sleepers i ≡ done a)
        × (make_runnable kmalloc (record s { sleepers = a }) t ≡ done (success, s'))
        × Threads s' (pre ++ ts) (ys ++ (t ∷ []))
        × Same s s'
  unfolding make_runnable
  moved {s} pre ts t i h e room =
      let (a, r, f) = remove-Filled h.sleeping i (omega (arith, length-append pre (t ∷ ts))) in
      let (q, m, k, z) = addtail_fits kmalloc t h.queued room in
      (
        a,
        record s { sleepers = a; runqueue = q },
        r,
        rw m,
        record {
          sleeping =
              subst (Filled a)
                (ap (λ j. remove_at j (pre ++ (t ∷ ts))) e ∙ remove_at-middle pre t ts) f;
          queued = k;
        },
        record { zombies = refl; sleepaddr = refl; curthread = refl; wake_one = refl; size = z },
      )

  -- The loop, with `pre` passed over already.
  wake_from_all :
      (at : ℕ → ℕ) (fuel i : ℕ) (pre rest : List ℕ) {s : System} {ys : List ℕ}
      → Threads s (pre ++ rest) ys
      → i ≡ length pre
      → length rest < fuel
      → length ys + length rest < s.runqueue.size
      → s.wake_one ≡ false
      → s.sleepaddr ≡ at
      → Leaves s
          (pre ++ off_addr at addr rest)
          (ys ++ on_addr at addr rest)
          (wake_from kmalloc fuel i addr s)
  unfolding wake_from
  wake_from_all at zero i pre rest h e f room all w = absurd (omega arith)
  wake_from_all at (suc fuel) i pre [] {s} {ys} h e f room all w = (
    s,
    rw (
        le→ltb_false i s.sleepers.num
          (omega (arith, num_lem h.sleeping, length-append {A = ℕ} pre []))),
    subst (Threads s (pre ++ [])) (sym (append-nil ys)) h,
    Same-refl s,
  )
  wake_from_all at (suc fuel) i pre (t ∷ ts) {s} {ys} h e f room all w =
      let (g, less) = sleeper_at pre ts t i h e in
      let test = ap (λ (f : ℕ → ℕ). f t == addr) w in
      elim (Bool-cases (at t == addr)) [
        | inl match ↦
            let (a, s₁, r, m, h₁, same) = moved pre ts t i h e (omega arith) in
            let (s₂, k, h₂, same') =
              wake_from_all at fuel i pre ts {s = s₁} h₁ e (omega arith)
                (omega (arith, length-append ys (t ∷ []), same.size)) (same.wake_one ∙ all)
                (same.sleepaddr ∙ w) in
            (
              s₂,
              rw (less, g, test ∙ match, r, m, same.wake_one ∙ all) k,
              rw match (
                  subst (Threads s₂ (pre ++ off_addr at addr ts))
                    (append_assoc ys (t ∷ []) (on_addr at addr ts)) h₂),
              Same-trans same same',
            )
        | inr differs ↦
            let on = subst (λ l. Threads s l ys) (sym (append_assoc pre (t ∷ []) ts)) h in
            let (s₂, k, h₂, same) =
              wake_from_all at fuel (i + 1) (pre ++ (t ∷ [])) ts {s = s} on
                (omega (arith, length-append pre (t ∷ []))) (omega arith) (omega arith) all w in
            (
              s₂,
              rw (less, g, test ∙ differs) k,
              rw differs (
                  subst (λ l. Threads s₂ l (ys ++ on_addr at addr ts))
                    (append_assoc pre (t ∷ []) (off_addr at addr ts)) h₂),
              same,
            )
      ]

  module _ {s : System} {asleep runnable : List ℕ} (h : Threads s asleep runnable) where
    -- Without the flag every thread that sleeps on the address becomes runnable, behind the others
    -- and in the order in which they went to sleep, and no other thread moves. The run queue has
    -- room for all sleepers.
    pub thread_wakeup_all :
        length runnable + length asleep < s.runqueue.size
        → s.wake_one ≡ false
        → Leaves s
            (off_addr s.sleepaddr addr asleep)
            (runnable ++ on_addr s.sleepaddr addr asleep)
            (thread_wakeup kmalloc addr s)
    unfolding thread_wakeup
    thread_wakeup_all room all =
        wake_from_all s.sleepaddr (s.sleepers.num + 1) 0 [] asleep h refl
          (omega (arith, num_lem h.sleeping)) room all refl

module _ (addr : ℕ) where
  sleeper_from_lem :
      (rounds i : ℕ) (pre rest : List ℕ) {s : System} {ys : List ℕ}
      → Threads s (pre ++ rest) ys
      → i ≡ length pre
      → rounds ≡ length rest
      → sleeper_from rounds i addr s ≡ done (any_on s.sleepaddr addr rest)
  unfolding sleeper_from
  sleeper_from_lem zero i pre [] h e n = refl
  sleeper_from_lem zero i pre (t ∷ ts) h e n = absurd (omega arith)
  sleeper_from_lem (suc rounds) i pre [] h e n = absurd (omega arith)
  sleeper_from_lem (suc rounds) i pre (t ∷ ts) {s} {ys} h e n =
      let (g, less) = sleeper_at pre ts t i h e in
      let on = subst (λ l. Threads s l ys) (sym (append_assoc pre (t ∷ []) ts)) h in
      let rest =
        sleeper_from_lem rounds (i + 1) (pre ++ (t ∷ [])) ts {s = s} on
          (omega (arith, length-append pre (t ∷ []))) (omega arith) in
      elim (Bool-cases (s.sleepaddr t == addr)) [
        | inl match ↦ rw (g, match)
        | inr differs ↦ rw (g, differs) rest
      ]

  -- `thread_hassleepers` tells whether some sleeper is on the address.
  thread_hassleepers_lem :
      {s : System} {asleep runnable : List ℕ}
      → Threads s asleep runnable
      → thread_hassleepers addr s ≡ done (any_on s.sleepaddr addr asleep)
  unfolding thread_hassleepers
  thread_hassleepers_lem {s} {asleep} h =
      sleeper_from_lem s.sleepers.num 0 [] asleep h refl (num_lem h.sleeping)
