-- ===== src/Synch/Semaphore/Invariant.antt =====
-- What holds of a semaphore in every reachable state.
use ece.Common.{
  ◌⊎◌, inl, inr, ℕ_discrete, ==_true, ==_false, lt→ltb, ℕ, ◌+◌, ◌-◌, ◌<◌, ◌≡◌, ◌≢◌, refl, arith,
  done,
}
use ece.Synch.{place}
use ece.Synch.Semaphore.{
  idle, asleep, Semaphore, p_loop, v, Step, call_p, resume, call_v, Reach, start, later,
}

pub record Inv (initial_count : ℕ) (s : Semaphore) : Type 0 where
  pub counted : s.count + s.taken ≡ initial_count + s.given
  pub awake : (i : ℕ) → 0 < s.count → s.at i ≢ asleep

module _ {initial_count : ℕ} {s s' : Semaphore} (inv : Inv initial_count s) where
  p_loop-Inv : (i : ℕ) → p_loop i s ≡ done s' → Inv initial_count s'
  unfolding p_loop
  p_loop-Inv i e = record {
    counted = ground (arith, inv.counted);
    awake = λ j h. ground (arith, inv.awake j);
  }

  v-Inv : v s ≡ done s' → Inv initial_count s'
  unfolding v
  v-Inv e = record { counted = ground (arith, inv.counted); awake = λ j h. ground arith }

Step-Inv : {k : ℕ} {s t : Semaphore} → Step s t → Inv k s → Inv k t
Step-Inv (call_p i at e) inv = p_loop-Inv inv i e
Step-Inv (resume i at e) inv = p_loop-Inv inv i e
Step-Inv (call_v i at e) inv = v-Inv inv e

Reach-Inv : {k : ℕ} {s : Semaphore} → Reach k s → Inv k s
Reach-Inv start = record { counted = omega arith; awake = λ i h e. cc }
Reach-Inv (later r st) = Step-Inv st (Reach-Inv r)

-- In every reachable state the count is what it began with, plus the calls of V, minus the calls of
-- P that returned, so P never returns more often than that.
pub Reach-counts : {k : ℕ} {s : Semaphore} → Reach k s → s.count + s.taken ≡ k + s.given
Reach-counts r = (Reach-Inv r).counted

-- In every reachable state in which a thread sleeps in P the count is 0: no wakeup is lost.
pub no_lost_wakeup : {k : ℕ} {s : Semaphore} → Reach k s → (i : ℕ) → s.at i ≡ asleep → s.count ≡ 0
no_lost_wakeup r i e = ground (arith, (Reach-Inv r).awake i)

-- At its test P either sleeps, where the count is 0, and changes nothing else, or takes one and
-- leaves: its assertion never fails.
p_loop_total :
    (i : ℕ) (s : Semaphore)
    → (s' : Semaphore) × (p_loop i s ≡ done s')
      × (((s.count ≡ 0) × (s' ≡ record s { at = place s.at i asleep }))
          ⊎ ((s'.count + 1 ≡ s.count) × (s'.taken ≡ s.taken + 1) × (s'.at ≡ place s.at i idle)))
unfolding p_loop
p_loop_total i s = elim (ℕ_discrete s.count 0) [
  | yes z ↦ (record s { at = place s.at i asleep }, rw (==_true s.count 0 z), inl (z, refl))
  | no pos ↦ (
    record s { count = s.count - 1; taken = s.taken + 1; at = place s.at i idle },
    rw (==_false s.count 0 pos, lt→ltb 0 s.count (omega arith)),
    inr (omega arith, refl, refl),
  )
]
