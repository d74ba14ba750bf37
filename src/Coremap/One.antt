-- ===== src/Coremap/One.antt =====
-- coremapAllocateOneFrame takes the lowest free frame.
use ece.Common.{
  ℕ, zero, suc, ◌+◌, ◌-◌, ◌*◌, ◌<◌, ◌≡◌, ◌⊎◌, inl, inr, refl, sym, ap, subst, arith, Option, none,
  some, List, [], ◌∷◌, length, length-set, set, get_elem?, get_elem?-set_self, ==_true, ==_false,
  ℕ_discrete, Run, done,
}
use ece.Coremap.{free, used, Entry, Coremap, candidate_from, taken, started, allocate_one}
use ece.Coremap.Scan.{state_at, state_at_get, state_at-lt, entry_at, state_cases}
use ece.Coremap.Frames.{count_free, free_of, count_free-set, update_lem, Updated-one}
use ece.Coremap.Valid.{Valid, Block, to_paddr_lem, Updated-Located}

pub data Candidate (es : List Entry) (i : ℕ) : Option ℕ → Type 0 where
  first_free :
      (k : ℕ)
      → state_at es k ≡ some free
      → ((j : ℕ) → j < k → state_at es j ≡ some used)
      → Candidate es i (some (i + k))
  all_used : count_free es ≡ 0 → Candidate es i none

below_cons :
    (e : Entry) (es : List Entry) (k : ℕ)
    → e.page_state ≡ used
    → ((j : ℕ) → j < k → state_at es j ≡ some used)
    → (j : ℕ) → j < suc k
    → state_at (e ∷ es) j ≡ some used
below_cons e es k u below zero lt = ap some u
below_cons e es k u below (suc j) lt = below j (omega arith)

Candidate-cons :
    (i : ℕ) (e : Entry) (es : List Entry) {r : Option ℕ}
    → e.page_state ≡ used
    → Candidate es (i + 1) r
    → Candidate (e ∷ es) i r
Candidate-cons i e es u (all_used z) = all_used (rw u (omega (arith, z)))
Candidate-cons i e es u (first_free k at below) =
    let z : i + 1 + k ≡ i + suc k = omega arith in
    subst (λ t. Candidate (e ∷ es) i (some t)) (sym z)
      (first_free (suc k) at (below_cons e es k u below))

candidate_from-Candidate : (i : ℕ) (es : List Entry) → Candidate es i (candidate_from i es)
candidate_from-Candidate i [] = all_used refl
candidate_from-Candidate i (e ∷ es) = elim (state_cases e.page_state) [
  | inl f ↦
      let z : i ≡ i + 0 = omega arith in
      simp f (
        subst (λ t. Candidate (e ∷ es) i (some t)) (sym z)
          (first_free 0 (ap some f) (λ j lt. absurd (omega arith))))
  | inr u ↦ simp u (Candidate-cons i e es u (candidate_from-Candidate (i + 1) es))
]

candidate_of :
    (es : List Entry) {r : Option ℕ}
    → Candidate es 0 r
    → (count_free es ≡ 0)
      ⊎ ((c : ℕ) × (e : Entry) × (get_elem? es c ≡ some e)
          × (e.page_state ≡ free)
          × ((j : ℕ) → j < c → state_at es j ≡ some used)
          × (r ≡ some c))
candidate_of es (all_used z) = inl z
candidate_of es (first_free k at below) =
    let (e, g, here) = entry_at es k (state_at-lt es k at) in
    let f : e.page_state ≡ free = cc (here, at) in inr (k, e, g, f, below, ap some (omega arith))

-- The lowest free frame is the candidate.
candidate_cases :
    (es : List Entry)
    → (count_free es ≡ 0)
      ⊎ ((c : ℕ) × (e : Entry) × (get_elem? es c ≡ some e)
          × (e.page_state ≡ free)
          × ((j : ℕ) → j < c → state_at es j ≡ some used)
          × (candidate_from 0 es ≡ some c))
candidate_cases es = candidate_of es (candidate_from-Candidate 0 es)

-- The outcome of an allocation of one frame, in the map `cm`.
pub data AllocatedOne (kernel : ℕ) (cm : Coremap) : Run (ℕ × Coremap) → Type 0 where
  refused : cm.num_free ≡ 0 → AllocatedOne kernel cm (done (0, cm))
  given :
      (c : ℕ) (e : Entry) (cm' : Coremap)
      → get_elem? cm.entries c ≡ some e
      → e.page_state ≡ free
      → ((j : ℕ) → j < c → state_at cm.entries j ≡ some used)
      → cm'.base ≡ cm.base
      → cm'.entries ≡ set cm.entries c (taken 1 kernel (started e))
      → cm'.num_free + 1 ≡ cm.num_free
      → cm'.ram ≡ cm.ram
      → Valid cm'
      → Block cm' c 1
      → AllocatedOne kernel cm (done (4096 * (c + cm.base), cm'))

module _ (kernel : ℕ) (cm : Coremap) (v : Valid cm) where
  -- the map after a frame was taken
  abbrev after : ℕ → Entry → Coremap
  after c e = record cm {
    num_free = cm.num_free - 1;
    entries = set cm.entries c (taken 1 kernel (started e));
  }

  module _ (c : ℕ) (e : Entry) (g : get_elem? cm.entries c ≡ some e) (f : e.page_state ≡ free) where
    lt : c < length cm.entries
    lt = state_at-lt cm.entries c (state_at_get cm.entries c g)

    counts : count_free (after c e).entries + 1 ≡ cm.num_free
    counts =
        let set_count = count_free-set cm.entries c e (taken 1 kernel (started e)) g in
        let one : free_of 1 e.page_state ≡ 1 = rw f in omega (arith, v.counted, set_count, one)

    after-Valid : Valid (after c e)
    after-Valid = record {
      counted = omega (arith, counts);
      located =
          Updated-Located cm.base (λ x. taken 1 kernel (started x)) 1 c cm.entries _
            (Updated-one (λ x. taken 1 kernel (started x)) c cm.entries e g lt) (λ x. refl)
            v.located;
      fits = omega (arith, v.fits, length-set cm.entries c (taken 1 kernel (started e)));
    }

    after-Block : Block (after c e) c 1
    after-Block =
        let self = get_elem?-set_self cm.entries c (taken 1 kernel (started e)) lt in
        record {
          inside = omega (arith, lt, length-set cm.entries c (taken 1 kernel (started e)));
          some_frames = omega arith;
          head = λ x h.
              let same : x ≡ taken 1 kernel (started e) = cc (self, h) in rw same (v.located c e g);
          sized = λ j x low high h.
              let q : c ≡ j = omega arith in
              let same : x ≡ taken 1 kernel (started e) = cc (self, h, q) in rw same refl;
          all_used = λ j low high. let q : c ≡ j = omega arith in rw (← q) (state_at_get _ c self);
        }

-- In a valid map the allocation refuses, with 0, exactly where no frame is free; else it takes the
-- lowest free frame, as a block of one, changes no other frame and no byte of memory, and keeps
-- the map valid.
pub allocate_one-Allocated :
    (kernel : ℕ) (cm : Coremap) → Valid cm → AllocatedOne kernel cm (allocate_one kernel cm)
unfolding allocate_one
allocate_one-Allocated kernel cm v = elim (ℕ_discrete cm.num_free 0) [
  | yes z ↦ rw (==_true cm.num_free 0 z) (refused z)
  | no pos ↦ elim (candidate_cases cm.entries) [
    | inl none_free ↦ absurd (pos (omega (arith, none_free, v.counted)))
    | inr (c, e, g, f, below, found) ↦
        let lt = state_at-lt cm.entries c (state_at_get cm.entries c g) in
        let run = update_lem (λ x. taken 1 kernel (started x)) c cm.entries e g lt in
        let addr = to_paddr_lem cm.base c (omega (arith, v.fits)) in
        rw (==_false cm.num_free 0 pos, found, run, addr)
          (given c e (after kernel cm v c e) g f below refl refl (omega arith) refl
            (after-Valid kernel cm v c e g f) (after-Block kernel cm v c e g f))
  ]
]
