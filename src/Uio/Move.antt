-- ===== src/Uio/Move.antt =====
-- uiomove between two blocks of the kernel.
use ece.Common.{
  min, ℕ, suc, ◌+◌, ◌-◌, ◌%◌, ◌^◌, ◌≤◌, ◌<◌, ◌≡◌, ◌≢◌, ◌⊎◌, inl, inr, refl, sym, ap, ◌∙◌, arith,
  true, false, ltb, lt→ltb, ltb→lt, le→ltb_false, dec_lt, ℕ_discrete, ==_false, Bool-cases, done,
  Status, success,
}
use ece.Coremap.{word}
use ece.Uio.{
  Memory, memmove, Direction, uio_read, uio_write, Segment, Uio, advanced, amount, move_from,
  uiomove, transfer, space_matches,
}
use ece.Uio.Copy.{memmove_lem}

-- where the bytes go, and where they come from
abbrev pub target : Direction → ℕ → ℕ → ℕ
target uio_read ptr base = base
target uio_write ptr base = ptr

abbrev pub origin : Direction → ℕ → ℕ → ℕ
origin uio_read ptr base = ptr
origin uio_write ptr base = base

-- A uio for one block of the kernel, as mk_kuio makes it, and as uiomove leaves it.
pub record Kernel (u : Uio) : Type 0 where
  pub system : u.segflg ≡ Segment.uio_sysspace
  pub no_space : u.space ≡ 0
  pub whole : u.len ≡ u.resid
  pub fits : u.resid < word
  pub below_top : u.base + u.len < word
  pub offset_fits : u.offset < word

amount_cases :
    (n : ℕ) (u : Uio) → ((amount n u ≡ n) × (n ≤ u.len)) ⊎ ((amount n u ≡ u.len) × (u.len ≤ n))
amount_cases n u = elim (dec_lt n u.len) [
  | yes lt ↦ inl (rw (lt→ltb n u.len lt) refl, omega arith)
  | no ge ↦ inr (rw (le→ltb_false n u.len (omega arith)) refl, omega arith)
]

pub amount-min : (n : ℕ) (u : Uio) → amount n u ≡ min n u.len
amount-min n u = elim (amount_cases n u) [ inl (e, fit) ↦ omega arith | inr (e, fit) ↦ omega arith ]

abbrev pub moved : Direction → ℕ → ℕ → ℕ → Memory → Memory
moved direction ptr base size mem =
    memmove (target direction ptr base) (origin direction ptr base) size mem

module _ (vmspace : ℕ) (copyout copyin : ℕ → ℕ → ℕ → Memory → Status × Memory) where
  transfer_kernel :
      (direction : Direction) (ptr base size : ℕ) (mem : Memory)
      → transfer vmspace copyout copyin Segment.uio_sysspace direction ptr base size mem
        ≡ (success, moved direction ptr base size mem)
  transfer_kernel uio_read ptr base size mem = refl
  transfer_kernel uio_write ptr base size mem = refl

  stops :
      (fuel ptr n : ℕ) (u : Uio) (mem : Memory)
      → (n ≡ 0) ⊎ (u.resid ≡ 0)
      → move_from vmspace copyout copyin (suc fuel) ptr n u mem ≡ done (success, u, mem)
  unfolding move_from
  stops fuel ptr n u mem (inl z) = rw (le→ltb_false 0 n (omega arith)) refl
  stops fuel ptr n u mem (inr z) = elim (Bool-cases (ltb 0 n)) [
    | inl a ↦ rw (a, le→ltb_false 0 u.resid (omega arith)) refl
    | inr a ↦ rw a refl
  ]

  -- After one round nothing is left to move.
  left : (n : ℕ) (u : Uio) → Kernel u → (n - amount n u ≡ 0) ⊎ ((advanced (amount n u) u).resid ≡ 0)
  left n u k = elim (Bool-cases (ltb n u.len)) [
    | inl a ↦ inl (rw a (omega arith))
    | inr a ↦ inr (rw a (omega (arith, k.whole, k.fits)))
  ]

  step :
      (fuel ptr n : ℕ) (u : Uio) (mem mem' : Memory)
      → 0 < n
      → 0 < u.resid
      → amount n u ≢ 0
      → transfer vmspace copyout copyin u.segflg u.rw_ ptr u.base (amount n u) mem ≡ (success, mem')
      → move_from vmspace copyout copyin (suc fuel) ptr n u mem
        ≡ move_from vmspace copyout copyin fuel
            ((ptr + amount n u) % word)
            (n - amount n u)
            (advanced (amount n u) u)
            mem'
  unfolding move_from
  step fuel ptr n u mem mem' more room some t =
      rw (lt→ltb 0 n more, lt→ltb 0 u.resid room, ==_false (amount n u) 0 some, t) refl

  some_bytes : (n : ℕ) (u : Uio) → Kernel u → 0 < n → 0 < u.resid → amount n u ≢ 0
  some_bytes n u k more room = elim (Bool-cases (ltb n u.len)) [
    | inl a ↦ rw a (λ q. omega arith)
    | inr a ↦ rw a (λ q. omega (arith, k.whole))
  ]

  round :
      (fuel ptr n : ℕ) (u : Uio) (mem : Memory)
      → Kernel u
      → 0 < n
      → 0 < u.resid
      → move_from vmspace copyout copyin (suc (suc fuel)) ptr n u mem
        ≡ done (success, advanced (amount n u) u, moved u.rw_ ptr u.base (amount n u) mem)
  round fuel ptr n u mem k more room =
      step (suc fuel) ptr n u mem (moved u.rw_ ptr u.base (amount n u) mem) more room
        (some_bytes n u k more room)
        (ap (λ t. transfer vmspace copyout copyin t u.rw_ ptr u.base (amount n u) mem) k.system
          ∙ transfer_kernel u.rw_ ptr u.base (amount n u) mem)
      ∙ stops fuel ((ptr + amount n u) % word) (n - amount n u) (advanced (amount n u) u)
          (moved u.rw_ ptr u.base (amount n u) mem) (left n u k)

  -- Nothing to move: the uio and memory stay.
  advanced_none : (u : Uio) → Kernel u → advanced 0 u ≡ u
  advanced_none u k =
      let a : (u.base + 0) % word ≡ u.base = omega (arith, k.below_top) in
      let b : u.len - 0 ≡ u.len = omega arith in
      let c : (u.resid + word - 0) % word ≡ u.resid = omega (arith, k.fits) in
      let d : (u.offset + 0) % word ≡ u.offset = omega (arith, k.offset_fits) in
      rw (a, b, c, d) refl

  matches : (u : Uio) → Kernel u → space_matches vmspace copyout copyin u ≡ true
  matches u k = rw (k.system, k.no_space) refl

  no_amount : (n : ℕ) (u : Uio) → Kernel u → (n ≡ 0) ⊎ (u.resid ≡ 0) → amount n u ≡ 0
  no_amount n u k nothing = elim (Bool-cases (ltb n u.len)) [
    | inl a ↦ rw a (elim nothing [ inl z ↦ z | inr z ↦ omega (arith, ltb→lt n u.len a, k.whole) ])
    | inr a ↦ rw a (elim nothing [ inl z ↦ not_less n u.len a z | inr z ↦ k.whole ∙ z ])
  ]
    where
      not_less : (n len : ℕ) → ltb n len ≡ false → n ≡ 0 → len ≡ 0
      not_less n len a z = elim (dec_lt n len) [
        | yes lt ↦ cc (lt→ltb n len lt, a)
        | no ge ↦ omega arith
      ]

  amount-le : (n : ℕ) (u : Uio) → amount n u ≤ u.len
  amount-le n u = elim (Bool-cases (ltb n u.len)) [
    | inl a ↦ rw a (omega (arith, ltb→lt n u.len a))
    | inr a ↦ rw a (omega arith)
  ]

  advanced-Kernel : (n : ℕ) (u : Uio) → Kernel u → Kernel (advanced (amount n u) u)
  advanced-Kernel n u k = record {
    system = k.system;
    no_space = k.no_space;
    whole = elim (Bool-cases (ltb n u.len)) [
      | inl a ↦ rw a (omega (arith, ltb→lt n u.len a, k.whole, k.fits))
      | inr a ↦ rw a (omega (arith, k.whole, k.fits))
    ];
    fits = omega arith;
    below_top = omega (arith, amount-le n u, k.below_top);
    offset_fits = omega arith;
  }

  any_left : (n : ℕ) (u : Uio) → ((n ≡ 0) ⊎ (u.resid ≡ 0)) ⊎ ((0 < n) × (0 < u.resid))
  any_left n u = elim (ℕ_discrete n 0) [
    | yes z ↦ inl (inl z)
    | no more ↦ elim (ℕ_discrete u.resid 0) [
      | yes z ↦ inl (inr z)
      | no room ↦ inr (omega arith, omega arith)
    ]
  ]

  pub uiomove-advanced :
      (ptr n : ℕ) (u : Uio) (mem : Memory)
      → Kernel u
      → (mem' : Memory) × (uiomove vmspace copyout copyin ptr n u mem
          ≡ done (success, advanced (amount n u) u, mem'))
        × ((i : ℕ)
            → i < amount n u
            → mem' (target u.rw_ ptr u.base + i) ≡ mem (origin u.rw_ ptr u.base + i))
        × ((x : ℕ)
            → (x < target u.rw_ ptr u.base) ⊎ (target u.rw_ ptr u.base + amount n u ≤ x)
            → mem' x ≡ mem x)
        × Kernel (advanced (amount n u) u)
  unfolding uiomove
  uiomove-advanced ptr n u mem k = elim (any_left n u) [
    | inl nothing ↦
        let none_moved = no_amount n u k nothing in
        let fuel : n + 1 ≡ suc n = omega arith in
        let same : advanced (amount n u) u ≡ u =
          ap (λ t. advanced t u) none_moved ∙ advanced_none u k in
        (
          mem,
          rw (matches u k, fuel)
              (stops n ptr n u mem nothing ∙ ap (λ t. done (success, t, mem)) (sym same)),
          λ i lt. absurd (omega arith),
          λ x out. refl,
          advanced-Kernel n u k,
        )
    | inr (more, room) ↦
        let (copied, kept) =
          memmove_lem (target u.rw_ ptr u.base) (origin u.rw_ ptr u.base) (amount n u) mem in
        let fuel : n + 1 ≡ suc (suc (n - 1)) = omega arith in
        (
          moved u.rw_ ptr u.base (amount n u) mem,
          rw (matches u k) (
              ap (λ t. move_from vmspace copyout copyin t ptr n u mem) fuel
              ∙ round (n - 1) ptr n u mem k more room),
          copied,
          kept,
          advanced-Kernel n u k,
        )
  ]

  -- For a block of the kernel below the top of memory, as mk_kuio makes it, uiomove returns 0 after
  -- at most one round. It moves as many bytes as are asked for, or as the block has where that is
  -- less: they are those that stood in the source before, however the two overlap, and no other
  -- byte changes. The uio goes on by as many bytes: its base and, modulo 2 ^ 32, its offset grow by
  -- them, its length and what is left shrink by them, its other fields stay.
  pub uiomove_lem :
      (ptr n : ℕ) (u : Uio) (mem : Memory)
      → Kernel u
      → (u' : Uio) × (mem' : Memory) × (uiomove vmspace copyout copyin ptr n u mem
          ≡ done (success, u', mem'))
        × ((i : ℕ)
            → i < min n u.len
            → mem' (target u.rw_ ptr u.base + i) ≡ mem (origin u.rw_ ptr u.base + i))
        × ((x : ℕ)
            → (x < target u.rw_ ptr u.base) ⊎ (target u.rw_ ptr u.base + min n u.len ≤ x)
            → mem' x ≡ mem x)
        × (u'.base ≡ u.base + min n u.len)
        × (u'.offset ≡ (u.offset + min n u.len) % 2 ^ 32)
        × (u'.len + min n u.len ≡ u.len)
        × (u'.resid + min n u.len ≡ u.resid)
        × (u'.segflg ≡ u.segflg)
        × (u'.rw_ ≡ u.rw_)
        × (u'.space ≡ u.space)
  uiomove_lem ptr n u mem k =
      let (mem', run, copied, kept, k') = uiomove-advanced ptr n u mem k in
      let few = amount-min n u in
      (
        advanced (amount n u) u,
        mem',
        run,
        λ i lt. copied i (omega arith),
        λ x out. kept x (elim out [ inl a ↦ inl a | inr a ↦ inr (omega arith) ]),
        omega (arith, k.below_top),
        omega arith,
        omega arith,
        omega (arith, k.whole, k.fits),
        refl,
        refl,
        refl,
      )
