-- ===== src/Uio/Zeros.antt =====
-- uiomovezeros fills a block of the kernel with zeros.
use ece.Common.{
  ℕ, zero, suc, ◌+◌, ◌-◌, ◌%◌, ◌≤◌, ◌<◌, ◌≡◌, ◌⊎◌, inl, inr, refl, sym, ap, subst, ◌∙◌, arith, true,
  ltb, lt→ltb, le→ltb_false, dec_lt, ℕ_discrete, if◌then◌else◌, Run, done, Status, success,
}
use ece.Coremap.{word}
use ece.Uio.{uiomove, Memory, uio_read, reading, Uio, advanced, amount, zeros_from, uiomovezeros}
use ece.Uio.Move.{target, origin, Kernel, amount-min, uiomove-advanced}

-- the bytes of one round of uiomovezeros
abbrev piece : ℕ → ℕ
piece n = if ltb n 16 then n else 16

piece_bounds : (n : ℕ) → 0 < n → (0 < piece n) × (piece n ≤ 16) × (piece n ≤ n)
piece_bounds n pos = elim (dec_lt n 16) [
  | yes lt ↦ rw (lt→ltb n 16 lt) (pos, omega arith, omega arith)
  | no ge ↦ rw (le→ltb_false n 16 (omega arith)) (omega arith, omega arith, omega arith)
]

-- The two rounds together move what one would.
pieces :
    (n : ℕ) (u : Uio)
    → piece n ≤ n
    → amount (piece n) u + amount (n - piece n) (advanced (amount (piece n) u) u) ≡ amount n u
pieces n u le = omega (
  arith,
  amount-min n u,
  amount-min (piece n) u,
  amount-min (n - piece n) (advanced (amount (piece n) u) u),
)

-- How uiomovezeros ends.
pub record Zeroed (n : ℕ) (u : Uio) (mem : Memory) (run : Run (Status × Uio × Memory))
    : Type 0 where
  pub after : Uio
  pub memory : Memory
  pub returns : run ≡ done (success, after, memory)
  pub zeroed : (i : ℕ) → i < amount n u → memory (u.base + i) ≡ 0
  pub kept : (x : ℕ) → (x < u.base) ⊎ (u.base + amount n u ≤ x) → memory x ≡ mem x

module _ (vmspace : ℕ) (copyout copyin : ℕ → ℕ → ℕ → Memory → Status × Memory) where
  -- One round: the next bytes of the block are 0, and the buffer still is.
  first_piece :
      (buffer n : ℕ) (u : Uio) (mem : Memory)
      → n ≤ 16
      → Kernel u
      → u.rw_ ≡ uio_read
      → (buffer + 16 ≤ u.base) ⊎ (u.base + u.len ≤ buffer)
      → ((i : ℕ) → i < 16 → mem (buffer + i) ≡ 0)
      → (mem' : Memory) × (uiomove vmspace copyout copyin buffer n u mem
          ≡ done (success, advanced (amount n u) u, mem'))
        × ((i : ℕ) → i < amount n u → mem' (u.base + i) ≡ 0)
        × ((x : ℕ) → (x < u.base) ⊎ (u.base + amount n u ≤ x) → mem' x ≡ mem x)
        × ((i : ℕ) → i < 16 → mem' (buffer + i) ≡ 0)
        × Kernel (advanced (amount n u) u)
  first_piece buffer n u mem small k reads apart zeros =
      let (mem', run, copied, kept, k') =
        uiomove-advanced vmspace copyout copyin buffer n u mem k in
      let to : target u.rw_ buffer u.base ≡ u.base = ap (λ t. target t buffer u.base) reads in
      let from : origin u.rw_ buffer u.base ≡ buffer = ap (λ t. origin t buffer u.base) reads in
      let few = amount-min n u in
      let outside : (x : ℕ) → (x < u.base) ⊎ (u.base + amount n u ≤ x) → mem' x ≡ mem x =
        λ x out. kept x (subst (λ t. (x < t) ⊎ (t + amount n u ≤ x)) (sym to) out) in
      (
        mem',
        run,
        λ i lt.
            ap (λ t. mem' (t + i)) (sym to)
            ∙ copied i lt
            ∙ ap (λ t. mem (t + i)) from
            ∙ zeros i (omega arith),
        outside,
        λ i lt.
            outside (buffer + i)
              (elim apart [ inl a ↦ inl (omega arith) | inr a ↦ inr (omega arith) ])
            ∙ zeros i lt,
        k',
      )

  zeros_from_lem :
      (fuel buffer n : ℕ) (u : Uio) (mem : Memory)
      → n < fuel
      → Kernel u
      → u.rw_ ≡ uio_read
      → (buffer + 16 ≤ u.base) ⊎ (u.base + u.len ≤ buffer)
      → ((i : ℕ) → i < 16 → mem (buffer + i) ≡ 0)
      → Zeroed n u mem (zeros_from vmspace copyout copyin fuel buffer n u mem)
  unfolding zeros_from
  zeros_from_lem zero buffer n u mem enough k reads apart zeros = absurd (omega arith)
  zeros_from_lem (suc fuel) buffer n u mem enough k reads apart zeros = elim (ℕ_discrete n 0) [
    | yes z ↦
        let none : amount n u ≡ 0 = omega (arith, amount-min n u) in
        record {
          after = u;
          memory = mem;
          returns = rw (le→ltb_false 0 n (omega arith)) refl;
          zeroed = λ i lt. absurd (omega arith);
          kept = λ x out. refl;
        }
    | no more ↦
        let (pos, small, le) = piece_bounds n (omega arith) in
        let m = amount (piece n) u in
        let few = amount-min (piece n) u in
        let base : (u.base + m) % word ≡ u.base + m = omega (arith, k.below_top) in
        let (mem₁, run, first, outside, zeros₁, k') =
          first_piece buffer (piece n) u mem small k reads apart zeros in
        let apart₁ : (buffer + 16 ≤ (u.base + m) % word)
            ⊎ ((u.base + m) % word + (u.len - m) ≤ buffer) =
          elim apart [ inl a ↦ inl (omega arith) | inr a ↦ inr (omega arith) ] in
        let rest =
          zeros_from_lem fuel buffer (n - piece n) (advanced m u) mem₁ (omega arith) k' reads apart₁
            zeros₁ in
        let sum = pieces n u le in
        record {
          after = rest.after;
          memory = rest.memory;
          returns = rw (lt→ltb 0 n (omega arith), run) rest.returns;
          zeroed = λ i lt. elim (dec_lt i m) [
            | yes low ↦ rest.kept (u.base + i) (inl (omega arith)) ∙ first i low
            | no high ↦
                let at : u.base + i ≡ (u.base + m) % word + (i - m) = omega arith in
                ap (rest.memory) at ∙ rest.zeroed (i - m) (omega arith)
          ];
          kept = λ x out.
              rest.kept x (elim out [ inl a ↦ inl (omega arith) | inr a ↦ inr (omega arith) ])
              ∙ outside x (elim out [ inl a ↦ inl a | inr a ↦ inr (omega arith) ]);
        }
  ]

  -- For a block of the kernel below the top of memory that is read into, and 16 bytes of zeros outside it, uiomovezeros
  -- returns 0: its loop ends, also where more bytes are asked for than the block has. As many
  -- bytes of the block as are asked for, or all of them, are then 0, and no other byte changes.
  pub uiomovezeros-Zeroed :
      (buffer n : ℕ) (u : Uio) (mem : Memory)
      → Kernel u
      → u.rw_ ≡ uio_read
      → (buffer + 16 ≤ u.base) ⊎ (u.base + u.len ≤ buffer)
      → ((i : ℕ) → i < 16 → mem (buffer + i) ≡ 0)
      → Zeroed n u mem (uiomovezeros vmspace copyout copyin buffer n u mem)
  unfolding uiomovezeros
  uiomovezeros-Zeroed buffer n u mem k reads apart zeros =
      let mode : reading u.rw_ ≡ true = ap reading reads in
      rw mode (zeros_from_lem (n + 1) buffer n u mem (omega arith) k reads apart zeros)
