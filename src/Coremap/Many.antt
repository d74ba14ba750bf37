-- ===== src/Coremap/Many.antt =====
-- coremapAllocateMultipleFrame: the lowest run of free frames, and what happens without one.
use ece.Common.{
  ℕ, zero, suc, ◌+◌, ◌-◌, ◌*◌, ◌≤◌, ◌<◌, ◌≡◌, ◌⊎◌, inl, inr, refl, sym, ap, ◌∙◌, arith, Option,
  none, some, List, [], ◌∷◌, length, length-set, set, get_elem?, get_elem?-set_self,
  get_elem?-set_ne, lt→ltb, le→ltb_false, dec_lt, ℕ_discrete, Option-cases, Run, done, fault, Fault,
  read,
}
use ece.Coremap.{free, used, Entry, Coremap, taken, started, update_frames, allocate_multiple}
use ece.Coremap.Scan.{
  state_at, state_at_get, state_at_same, state_at-lt, entry_at, frame_cases, FreeRun, NoneBelow,
  FreeRun-fits, Searched, lowest, missing, search_lem,
}
use ece.Coremap.Frames.{
  count_free, count_free-set, update_lem, Updated, Updated-one, Updated-value, update_frames_lem,
}
use ece.Coremap.Valid.{Valid, Block, to_paddr_lem, Updated-Located}

-- Frames in the map are a free run, or one of them is used.
run_or_used :
    (es : List Entry) (c n : ℕ)
    → c + n ≤ length es
    → FreeRun es c n ⊎ ((j : ℕ) × (c ≤ j) × (j < c + n) × (state_at es j ≡ some used))
run_or_used es c zero h = inl (λ j low high. absurd (omega arith))
run_or_used es c (suc n) h = elim (run_or_used es c n (omega arith)) [
  | inr (j, low, high, at) ↦ inr (j, low, omega arith, at)
  | inl run ↦ elim (frame_cases es (c + n) (omega arith)) [
    | inr (e, g, u) ↦ inr (c + n, omega arith, omega arith, state_at_get es (c + n) g ∙ ap some u)
    | inl (e, g, f) ↦
        let at : state_at es (c + n) ≡ some free = state_at_get es (c + n) g ∙ ap some f in
        inl (λ j low high. elim (dec_lt j (c + n)) [
          | yes lt ↦ run j low lt
          | no ge ↦ let q : j ≡ c + n = omega arith in rw q at
        ])
  ]
]

read_outside : (es : List Entry) (i : ℕ) → length es ≤ i → read es i ≡ fault Fault.wild
read_outside [] i h = refl
read_outside (e ∷ es) zero h = absurd (omega arith)
read_outside (e ∷ es) (suc i) h = read_outside es i (omega arith)

-- The loop that marks the frames runs out of the map.
update_frames_wild :
    (f : Entry → Entry) (k i : ℕ) (es : List Entry)
    → i ≤ length es
    → length es < i + k
    → update_frames f k i es ≡ fault Fault.wild
unfolding update_frames
update_frames_wild f zero i es le over = absurd (omega arith)
update_frames_wild f (suc k) i es le over = elim (dec_lt i (length es)) [
  | no ge ↦ rw (read_outside es i (omega arith))
  | yes lt ↦
      let (e, g, at) = entry_at es i lt in
      let run = update_lem f i es e g lt in
      rw run (
        update_frames_wild f k (i + 1) (set es i (f e)) (omega (arith, length-set es i (f e)))
          (omega (arith, length-set es i (f e))))
]

-- Writing `startAddr` changes no state.
started_state :
    (es : List Entry) (c : ℕ) (e : Entry)
    → get_elem? es c ≡ some e
    → (j : ℕ) → state_at (set es c (started e)) j ≡ state_at es j
started_state es c e g j = elim (ℕ_discrete c j) [
  | yes q ↦
      let self = get_elem?-set_self es c (started e) (state_at-lt es c (state_at_get es c g)) in
      rw (← q) (state_at_get (set es c (started e)) c self ∙ sym (state_at_get es c g))
  | no ne ↦ state_at_same es (set es c (started e)) j (get_elem?-set_ne es (started e) ne)
]

search_cases :
    (n : ℕ) (es : List Entry) {r : Run (Option ℕ)}
    → Searched n es r
    → ((c : ℕ) × (r ≡ done (some c)) × FreeRun es c n × NoneBelow es n c)
      ⊎ ((o : Option ℕ) × ((k : ℕ) → ¬ FreeRun es k n) × (r ≡ done o))
search_cases n es (lowest c run below) = inl (c, refl, run, below)
search_cases n es (missing o none_free) = inr (o, none_free, refl)

-- The outcome of an allocation of `n` frames in the map `cm`.
pub data AllocatedMany (n kernel : ℕ) (cm : Coremap) : Run (ℕ × Coremap) → Type 0 where
  refused : cm.num_free < n → AllocatedMany n kernel cm (done (0, cm))
  given :
      (c : ℕ) (cm' : Coremap)
      → FreeRun cm.entries c n
      → NoneBelow cm.entries n c
      → Block cm' c n
      → Valid cm'
      → cm'.base ≡ cm.base
      → cm'.ram ≡ cm.ram
      → cm'.num_free + n ≡ cm.num_free
      → ((j : ℕ) → (j < c) ⊎ (c + n ≤ j) → get_elem? cm'.entries j ≡ get_elem? cm.entries j)
      → AllocatedMany n kernel cm (done (4096 * (c + cm.base), cm'))
  taken_twice :
      (c j : ℕ) (cm' : Coremap)
      → n ≤ cm.num_free
      → ((k : ℕ) → ¬ FreeRun cm.entries k n)
      → c ≤ j
      → j < c + n
      → state_at cm.entries j ≡ some used
      → AllocatedMany n kernel cm (done (4096 * (c + cm.base), cm'))
  past_the_map :
      n ≤ cm.num_free
      → ((k : ℕ) → ¬ FreeRun cm.entries k n)
      → AllocatedMany n kernel cm (fault Fault.wild)
  unassigned :
      n ≤ cm.num_free
      → ((k : ℕ) → ¬ FreeRun cm.entries k n)
      → AllocatedMany n kernel cm (fault Fault.uninitialised)

module _ (n kernel : ℕ) (cm : Coremap) (v : Valid cm) (c : ℕ) (e : Entry)
    (g : get_elem? cm.entries c ≡ some e) where
  abbrev first : List Entry
  first = set cm.entries c (started e)

  lt : c < length cm.entries
  lt = state_at-lt cm.entries c (state_at_get cm.entries c g)

  abbrev after : List Entry → Coremap
  after es' = record cm { num_free = cm.num_free - n; entries = es' }

  module _ (es' : List Entry) (u : Updated (taken n kernel) n c first es')
      (run : FreeRun cm.entries c n) (large : 2 ≤ n) where
    counts : count_free es' + n ≡ cm.num_free
    counts =
        let marked =
          u.counted free used (λ j low high. started_state cm.entries c e g j ∙ run j low high)
            (λ x. refl) in
        omega (arith, v.counted, count_free-set cm.entries c e (started e) g, marked)

    after-Valid : Valid (after es')
    after-Valid =
        let once =
          Updated-Located cm.base started 1 c cm.entries first
            (Updated-one started c cm.entries e g lt) (λ x. refl) v.located in
        record {
          counted = omega (arith, counts);
          located = Updated-Located cm.base (taken n kernel) n c first es' u (λ x. refl) once;
          fits = omega (arith, v.fits, u.same_length, length-set cm.entries c (started e));
        }

    -- a frame of the block, after both loops
    marked : (j : ℕ) → c ≤ j → j < c + n → (x : Entry) × (get_elem? es' j ≡ some (taken n kernel x))
    marked j low high =
        let fits = FreeRun-fits n cm.entries large c run in
        let (x, h, h') =
          Updated-value (taken n kernel) n c first es' u
            (omega (arith, length-set cm.entries c (started e))) j low high in
        (x, h')

    after-Block : Block (after es') c n
    after-Block = record {
      inside = omega (
        arith,
        u.same_length,
        length-set cm.entries c (started e),
        FreeRun-fits n cm.entries large c run,
      );
      some_frames = omega arith;
      head = λ x h.
          let self = get_elem?-set_self cm.entries c (started e) lt in
          let same : taken n kernel (started e) ≡ x =
            cc (u.inside c (started e) (omega arith) (omega arith) self, h) in
          rw (← same) (v.located c e g);
      sized = λ j x low high h.
          let (y, at) = marked j low high in
          let same : taken n kernel y ≡ x = cc (at, h) in rw (← same) refl;
      all_used = λ j low high. let (y, at) = marked j low high in state_at_get es' j at;
    }

-- With two frames or more wanted, in a valid map: the allocation refuses, with 0, exactly where too
-- few frames are free. Else, where a run of free frames is long enough, it takes the lowest such
-- run as one block, changes no other entry and no byte of memory, and keeps the map valid. Where
-- none is, it does not refuse: it writes past the map, or uses an unassigned index, or gives an
-- address whose frames were not all free.
pub allocate_multiple-Allocated :
    (n kernel : ℕ) (cm : Coremap)
    → 2 ≤ n
    → Valid cm
    → AllocatedMany n kernel cm (allocate_multiple n kernel cm)
unfolding allocate_multiple
allocate_multiple-Allocated n kernel cm large v = elim (dec_lt cm.num_free n) [
  | yes few ↦ rw (lt→ltb cm.num_free n few) (refused few)
  | no enough ↦
      let test = le→ltb_false cm.num_free n (omega arith) in
      elim (search_cases n cm.entries (search_lem n cm.entries none large)) [
        | inl (c, found, run, below) ↦
            let lt = state_at-lt cm.entries c (run c (omega arith) (omega arith)) in
            let (e, g, at) = entry_at cm.entries c lt in
            let once = update_lem started c cm.entries e g lt in
            let fits = FreeRun-fits n cm.entries large c run in
            let same = length-set cm.entries c (started e) in
            let (es', marked, u) =
              update_frames_lem (taken n kernel) n c (set cm.entries c (started e)) (omega arith) in
            let addr = to_paddr_lem cm.base c (omega (arith, v.fits)) in
            rw (test, found, once, marked, addr)
              (given c _ run below (after-Block n kernel cm v c e g es' u run large)
                (after-Valid n kernel cm v c e g es' u run large) refl refl (omega arith)
                (λ j out.
                  u.outside j out
                  ∙ get_elem?-set_ne cm.entries (started e)
                      (λ q. elim out [ inl a ↦ omega arith | inr a ↦ omega arith ])))
        | inr (r, none_free, found) ↦ elim (Option-cases r) [
          | inl absent ↦ rw (test, found, absent) (unassigned (omega arith) none_free)
          | inr (c, there) ↦ elim (dec_lt c (length cm.entries)) [
            | no past ↦
                rw (test, found, there, read_outside cm.entries c (omega arith))
                  (past_the_map (omega arith) none_free)
            | yes lt ↦
                let (e, g, at) = entry_at cm.entries c lt in
                let once = update_lem started c cm.entries e g lt in
                let same = length-set cm.entries c (started e) in
                elim (dec_lt (length cm.entries) (c + n)) [
                  | yes over ↦
                      let wild =
                        update_frames_wild (taken n kernel) n c (set cm.entries c (started e))
                          (omega arith) (omega arith) in
                      rw (test, found, there, once, wild) (past_the_map (omega arith) none_free)
                  | no fits ↦
                      let (es', marked, u) =
                        update_frames_lem (taken n kernel) n c (set cm.entries c (started e))
                          (omega arith) in
                      let addr = to_paddr_lem cm.base c (omega (arith, v.fits)) in
                      elim (run_or_used cm.entries c n (omega arith)) [
                        | inl run ↦ absurd (none_free c run)
                        | inr (j, low, high, u') ↦
                            rw (test, found, there, once, marked, addr)
                              (taken_twice c j _ (omega arith) none_free low high u')
                      ]
                ]
          ]
        ]
      ]
]
