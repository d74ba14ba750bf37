-- ===== src/Coremap/Free.antt =====
-- coremapFree gives a block back, and undoes an allocation.
use ece.Common.{
  ℕ, ◌+◌, ◌*◌, ◌%◌, ◌≤◌, ◌<◌, ◌≡◌, ◌≢◌, ◌⊎◌, inl, inr, refl, sym, ap, subst, ◌∙◌, arith, some, List,
  length, get_elem?, get_elem?-set_ne, ==_true, ==_false, lt→ltb, dec_lt, ℕ_discrete, Run, done,
  read_of_get,
}
use ece.Coremap.{
  free, used, Entry, Coremap, word, from_paddr, cleared, update_frames, clear_pages, allocate_one,
  free_frames,
}
use ece.Coremap.Scan.{state_at, state_at_get, state_at_same, entry_at, FreeRun}
use ece.Coremap.Frames.{count_free, Updated, Updated-value, update_frames_lem, clear_pages_lem}
use ece.Coremap.Valid.{Valid, Block, to_paddr_lem, count_free-le, Updated-Located}
use ece.Coremap.One.{AllocatedOne, refused, given, allocate_one-Allocated}

-- `e'` is `e` with every field reset but selfAddr and fixed.
pub record Reset (e e' : Entry) : Type 0 where
  pub self_addr : e'.self_addr ≡ e.self_addr
  pub fixed : e'.fixed ≡ e.fixed
  pub page_state : e'.page_state ≡ free
  pub as_addr : e'.as_addr ≡ 0
  pub start_addr : e'.start_addr ≡ 0
  pub frames : e'.frames ≡ 0
  pub is_kernel : e'.is_kernel ≡ 0
  pub reference : e'.reference ≡ 0
  pub counter : e'.counter ≡ 0
  pub dirty : e'.dirty ≡ 0
  pub copy : e'.copy ≡ 0
  pub vaddr : e'.vaddr ≡ 0
  pub pd_addr : e'.pd_addr ≡ 0
  pub pt_addr : e'.pt_addr ≡ 0

cleared-Reset : (e : Entry) → Reset e (cleared e)
cleared-Reset e = record {
  self_addr = refl;
  fixed = refl;
  page_state = refl;
  as_addr = refl;
  start_addr = refl;
  frames = refl;
  is_kernel = refl;
  reference = refl;
  counter = refl;
  dirty = refl;
  copy = refl;
  vaddr = refl;
  pd_addr = refl;
  pt_addr = refl;
}

-- `cm'` is `cm` with the block of `n` frames at `c` given back.
pub record Freed (c n : ℕ) (cm cm' : Coremap) : Type 0 where
  pub valid : Valid cm'
  pub same_base : cm'.base ≡ cm.base
  pub num_free : cm'.num_free ≡ cm.num_free + n
  pub now_free : FreeRun cm'.entries c n
  pub same_length : length cm'.entries ≡ length cm.entries
  pub others : (j : ℕ) → (j < c) ⊎ (c + n ≤ j) → get_elem? cm'.entries j ≡ get_elem? cm.entries j
  pub reset :
      (j : ℕ)
      → c ≤ j
      → j < c + n
      → (e : Entry) × (e' : Entry) × (get_elem? cm.entries j ≡ some e)
        × (get_elem? cm'.entries j ≡ some e')
        × Reset e e'
  pub zeroed : (a : ℕ) → 4096 * (c + cm.base) ≤ a → a < 4096 * (c + cm.base + n) → cm'.ram a ≡ 0
  pub kept :
      (a : ℕ) → (a < 4096 * (c + cm.base)) ⊎ (4096 * (c + cm.base + n) ≤ a) → cm'.ram a ≡ cm.ram a

module _ (cm : Coremap) (c n : ℕ) (v : Valid cm) (b : Block cm c n) (es' : List Entry)
    (u : Updated cleared n c cm.entries es') where
  abbrev after : Coremap
  after = record cm {
    num_free = (cm.num_free + n) % word;
    entries = es';
    ram = clear_pages n (4096 * (c + cm.base)) cm.ram;
  }

  counts : count_free es' ≡ cm.num_free + n
  counts = omega (arith, v.counted, u.counted used free b.all_used (λ x. refl))

  no_wrap : (cm.num_free + n) % word ≡ cm.num_free + n
  no_wrap = omega (arith, counts, count_free-le es', u.same_length, v.fits)

  after-Freed : Freed c n cm after
  after-Freed = record {
    valid = record {
      counted = counts ∙ sym no_wrap;
      located = Updated-Located cm.base cleared n c cm.entries es' u (λ x. refl) v.located;
      fits = omega (arith, v.fits, u.same_length);
    };
    same_base = refl;
    num_free = no_wrap;
    now_free = λ j low high.
        let (e, g, g') = Updated-value cleared n c cm.entries es' u b.inside j low high in
        state_at_get es' j g';
    same_length = u.same_length;
    others = u.outside;
    reset = λ j low high.
        let (e, g, g') = Updated-value cleared n c cm.entries es' u b.inside j low high in
        (e, cleared e, g, g', cleared-Reset e);
    zeroed = λ a low high. elim (clear_pages_lem n (4096 * (c + cm.base)) cm.ram a) [
      | inl (l, h, z) ↦ z
      | inr (out, k) ↦ elim out [ inl x ↦ absurd (omega arith) | inr x ↦ absurd (omega arith) ]
    ];
    kept = λ a out. elim (clear_pages_lem n (4096 * (c + cm.base)) cm.ram a) [
      | inl (l, h, z) ↦ elim out [ inl x ↦ absurd (omega arith) | inr x ↦ absurd (omega arith) ]
      | inr (out', k) ↦ k
    ];
  }

-- A block of a valid map, given back by the address of its first frame: the call meets no failing
-- assertion, all its frames are free again with their fields reset, their memory is zero, no other
-- entry or byte changes, and the map stays valid.
pub free_frames-Freed :
    (cm : Coremap) (c n : ℕ)
    → Valid cm
    → Block cm c n
    → (cm' : Coremap) × (free_frames (4096 * (c + cm.base)) cm ≡ done cm') × Freed c n cm cm'
unfolding free_frames
free_frames-Freed cm c n v b =
    let (e, g, at) = entry_at cm.entries c (omega (arith, b.inside, b.some_frames)) in
    let lt = lt→ltb c (length cm.entries) (omega (arith, b.inside, b.some_frames)) in
    let addr = to_paddr_lem cm.base c (omega (arith, v.fits, b.inside, b.some_frames)) in
    let index : from_paddr cm.base (4096 * (c + cm.base)) ≡ c =
      omega (arith, v.fits, b.inside, b.some_frames) in
    let start = ==_true (4096 * (c + cm.base)) e.start_addr (sym addr ∙ sym (b.head e g)) in
    let sized : e.frames ≡ n = b.sized c e (omega arith) (omega (arith, b.some_frames)) g in
    let (es', run, u) = update_frames_lem cleared n c cm.entries b.inside in
    let get = read_of_get cm.entries c g in
    elim (ℕ_discrete n 1) [
      | yes one ↦
          let single = ==_true e.frames 1 (sized ∙ one) in
          let run1 = subst (λ t. update_frames cleared t c cm.entries ≡ done es') one run in
          (
            after cm c n v b es' u,
            rw (index, lt, get, single, start, run1, ← one),
            after-Freed cm c n v b es' u,
          )
      | no many ↦
          let not_one = ==_false e.frames 1 (λ q. many (sym sized ∙ q)) in
          let more = lt→ltb 1 e.frames (omega (arith, b.some_frames)) in
          (
            after cm c n v b es' u,
            rw (index, lt, get, not_one, more, start, sized, run),
            after-Freed cm c n v b es' u,
          )
    ]

-- What an allocation that returned `page` did.
given_cases :
    (kernel page : ℕ) (cm cm' : Coremap) {r : Run (ℕ × Coremap)}
    → 0 < cm.num_free
    → AllocatedOne kernel cm r
    → r ≡ done (page, cm')
    → (c : ℕ) × (page ≡ 4096 * (c + cm'.base))
      × Valid cm'
      × Block cm' c 1
      × (state_at cm.entries c ≡ some free)
      × (cm'.num_free + 1 ≡ cm.num_free)
      × ((j : ℕ) → j ≢ c → get_elem? cm'.entries j ≡ get_elem? cm.entries j)
given_cases kernel page cm cm' pos (refused z) h = absurd (omega arith)
given_cases kernel page cm cm' pos (given c e m g f below base entries num ram v b) h =
    let same : m ≡ cm' = cc h in
    let addr : 4096 * (c + cm.base) ≡ page = cc h in
    let here : cm'.base ≡ cm.base = ap (λ x. x.base) (sym same) ∙ base in
    let table = ap (λ x. x.entries) (sym same) ∙ entries in
    (
      c,
      rw here (sym addr),
      subst (λ x. Valid x) same v,
      subst (λ x. Block x c 1) same b,
      state_at_get cm.entries c g ∙ ap some f,
      subst (λ x. x.num_free + 1 ≡ cm.num_free) same num,
      λ j ne. rw table (get_elem?-set_ne cm.entries _ (λ q. ne (sym q))),
    )

-- A frame that coremapAllocateOneFrame gave is given back: the map counts as many free frames as
-- before the allocation, and the frame is free again.
free-allocate :
    (kernel page : ℕ) (cm cm' : Coremap)
    → Valid cm
    → 0 < cm.num_free
    → allocate_one kernel cm ≡ done (page, cm')
    → (cm'' : Coremap) × (free_frames page cm' ≡ done cm'')
      × Valid cm''
      × (cm''.num_free ≡ cm.num_free)
      × ((j : ℕ) → state_at cm''.entries j ≡ state_at cm.entries j)
free-allocate kernel page cm cm' v pos h =
    let (c, addr, v', b, was_free, num, others) =
      given_cases kernel page cm cm' pos (allocate_one-Allocated kernel cm v) h in
    let (cm'', run, freed) = free_frames-Freed cm' c 1 v' b in
    let states : (j : ℕ) → state_at cm''.entries j ≡ state_at cm.entries j = λ j.
      elim (ℕ_discrete j c) [
        | yes q ↦ freed.now_free j (omega arith) (omega arith) ∙ sym (rw q was_free)
        | no ne ↦
            let out : (j < c) ⊎ (c + 1 ≤ j) = elim (dec_lt j c) [
              | yes lt ↦ inl lt
              | no ge ↦ inr (omega arith)
            ] in
            state_at_same cm.entries cm''.entries j (freed.others j out ∙ others j ne)
      ] in
    (cm'', rw addr run, freed.valid, omega (arith, freed.num_free), states)
