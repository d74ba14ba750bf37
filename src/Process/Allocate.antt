-- ===== src/Process/Allocate.antt =====
-- allocatePid: the lowest free id, and an error that is reported only for a full table.
use ece.Common.{
  ℕ, ◌+◌, ◌≤◌, ◌<◌, ◌≡◌, ◌≢◌, ◌∙◌, ◌⊎◌, inl, inr, Bool, true, false, Option, none, some, [], ◌∷◌,
  ◌++◌, arith, length, set, length-set, length-append, Run, done, Status, success, enomem, eagain,
  negsuc, Bool-cases, ltb, ==_true, ==_false, dec_lt, if◌then◌else◌,
}
use ece.Array
use ece.Array.Filled.{Filled, num_lem, setguy-Filled, add-Filled}
use ece.Process.{Process, Table, no_hole_in_array, pid_max, process_create, created, allocate_pid}
use ece.Process.Slots.{
  Slots, lookup, first_free, has_hole, first_free-le, first_free-lt, lookup-first_free,
  lookup-below, lookup-set_self, lookup-set_ne, lookup-snoc_self, lookup-snoc_ne, no_hole_lem,
  find_lem,
}

-- the node that `process_create` fills in
abbrev pub node : Option ℕ → ℕ → ℕ → Process
node sem parentid thread = record {
  parent_pid = parentid;
  exited = false;
  exit_code = negsuc 0;
  exit_lock = sem;
  mythread = thread;
}

-- `pid` was free and now names `p`; every lower id is taken, and no other id changes.
pub record Placed (ps : Slots) (pid : ℕ) (p : Process) (qs : Slots) : Type 0 where
  pub in_range : pid ≤ pid_max
  pub was_free : lookup ps pid ≡ none
  pub lowest : (j : ℕ) → j < pid → lookup ps j ≢ none
  pub placed : lookup qs pid ≡ some p
  pub others : (j : ℕ) → pid ≢ j → lookup qs j ≡ lookup ps j
  pub small : length qs ≤ pid_max + 1

pub data Allocated (kmalloc : ℕ → Bool) (t : Table) (ps : Slots) (p : Process)
    : Run (Status × Option ℕ × Table) → Type 0 where
  full :
      length ps ≡ pid_max + 1
      → has_hole ps ≡ false
      → Allocated kmalloc t ps p (done (eagain, none, t))
  out_of_memory :
      (bytes : ℕ) → kmalloc bytes ≡ false → Allocated kmalloc t ps p (done (enomem, none, t))
  given :
      (pid : ℕ) (t' : Table) (qs : Slots)
      → Filled t' qs
      → Placed ps pid p qs
      → Allocated kmalloc t ps p (done (success, some pid, t'))

module _ (kmalloc : ℕ → Bool) (sem : Option ℕ) (curpid thread : ℕ) where
  created_lem :
      kmalloc 20 ≡ true → created kmalloc sem curpid thread ≡ done (node sem curpid thread)
  unfolding created process_create
  created_lem h = rw (h, created, process_create)

  Placed-snoc :
      (ps : Slots) (p : Process)
      → first_free ps ≡ length ps
      → length ps ≤ pid_max
      → Placed ps (first_free ps) p (ps ++ (some p ∷ []))
  Placed-snoc ps p e small = record {
    in_range = omega arith;
    was_free = lookup-first_free ps;
    lowest = lookup-below ps;
    placed = rw e (lookup-snoc_self ps (some p));
    others = λ j ne. lookup-snoc_ne ps j (some p) (λ q. ne (e ∙ q));
    small = omega (arith, length-append ps (some p ∷ []));
  }

  Placed-set :
      (ps : Slots) (p : Process)
      → first_free ps < length ps
      → length ps ≤ pid_max + 1
      → Placed ps (first_free ps) p (set ps (first_free ps) (some p))
  Placed-set ps p lt small = record {
    in_range = omega arith;
    was_free = lookup-first_free ps;
    lowest = lookup-below ps;
    placed = lookup-set_self ps (first_free ps) (some p) lt;
    others = λ j ne. lookup-set_ne ps (first_free ps) j (some p) ne;
    small = omega (arith, length-set ps (first_free ps) (some p));
  }

  -- the first test of `allocatePid`: may it go on?
  abbrev room_test : Table → Run Bool
  room_test t = if ltb pid_max (Array.getnum t) then no_hole_in_array t else done true

  module _ (t : Table) (ps : Slots) (h : Filled t ps) (mem : kmalloc 20 ≡ true) where
    place :
        length ps ≤ pid_max + 1
        → room_test t ≡ done true
        → (first_free ps < length ps) ⊎ (length ps ≤ pid_max)
        → Allocated kmalloc t ps (node sem curpid thread) (allocate_pid kmalloc sem curpid thread t)
    unfolding allocate_pid
    place small test room = elim (dec_lt (first_free ps) (length ps)) [
      | yes lt ↦
          let (t', e, f) = setguy-Filled h (first_free ps) lt (some (node sem curpid thread)) in
          let inside = ==_false (first_free ps) t.num (λ q. omega (arith, num_lem h)) in
          rw (test, find_lem h, inside, created_lem mem, e)
            (given (first_free ps) t' _ f (Placed-set ps _ lt small))
      | no ge ↦
          let last : first_free ps ≡ length ps = omega (arith, first_free-le ps) in
          let at_end = ==_true (first_free ps) t.num (omega (arith, num_lem h)) in
          elim (add-Filled h kmalloc (some (node sem curpid thread)) (omega arith)) [
            | inl (bytes, refused, e) ↦
                rw (test, find_lem h, at_end, created_lem mem, e) (out_of_memory bytes refused)
            | inr (t', e, f) ↦
                rw (test, find_lem h, at_end, created_lem mem, e)
                  (given (first_free ps) t' _ f (Placed-snoc ps _ last (omega arith)))
          ]
    ]

  -- A table of at most PID_MAX + 1 slots gives the lowest free id, or EAGAIN where it has that
  -- many slots and all are taken, or ENOMEM where it cannot grow; the node's own memory is there.
  pub allocate_pid-Allocated :
      (t : Table) (ps : Slots)
      → Filled t ps
      → length ps ≤ pid_max + 1
      → kmalloc 20 ≡ true
      → Allocated kmalloc t ps (node sem curpid thread) (allocate_pid kmalloc sem curpid thread t)
  unfolding allocate_pid
  allocate_pid-Allocated t ps h small mem = elim (Bool-cases (ltb pid_max t.num)) [
    | inr short ↦ place t ps h mem small (rw short) (inr (ground (arith, num_lem h)))
    | inl long ↦ elim (Bool-cases (has_hole ps)) [
      | inl hole ↦
          place t ps h mem small (rw (long, no_hole_lem h, hole)) (inl (first_free-lt ps hole))
      | inr none_free ↦
          rw (long, no_hole_lem h, none_free) (full (ground (arith, num_lem h)) none_free)
    ]
  ]
