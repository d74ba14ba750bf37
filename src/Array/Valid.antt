-- ===== src/Array/Valid.antt =====
-- The representation invariant of `struct array`, and what growing gives.
use ece.Common.{
  ℕ, zero, suc, ◌+◌, ◌-◌, ◌*◌, ◌/◌, ◌^◌, ◌≤◌, ◌<◌, ◌≡◌, refl, ◌⊎◌, inl, inr, Bool, false, Option,
  none, some, List, arith, length, take, length-replicate, Run, done, Status, success, enomem,
  pointer_bytes, fresh_cells, int_limit, Bool-cases, ltb, ltb→lt, lt→ltb, le→leb,
}
use ece.Array.{Array, cells, grow_max, preallocate}
use ece.Array.Cells.{copy_lem}

-- With fewer cells than this no `size_t` product of the file wraps.
abbrev pub max_cells : ℕ
max_cells = 2 ^ 30

pub record IsValid {ℓ} {A : Type ℓ} (a : Array A) : Type ℓ where
  pub fits : a.num ≤ a.max
  pub block : a.max ≡ length (cells a.v)
  pub small : a.max < max_cells

-- The elements that a client sees.
abbrev pub contents {ℓ} : {A : Type ℓ} → Array A → List (Option A)
contents a = take a.num (cells a.v)

-- The doubling loop ends within `nguys + 1` rounds, at a size that holds `nguys` and is no more
-- than twice that or the old one.
pub grow_max_lem :
    (fuel nguys m : ℕ)
    → nguys - m < fuel
    → nguys < 2 ^ 29
    → m < max_cells
    → (r : ℕ) × (grow_max fuel nguys m ≡ done r) × (nguys ≤ r) × (m ≤ r) × (r < max_cells)
unfolding grow_max
grow_max_lem zero nguys m f n h = absurd (omega arith)
grow_max_lem (suc fuel) nguys m f n h = elim (Bool-cases (ltb m nguys)) [
  | inl more ↦
      let lt = ltb→lt m nguys more in
      let next = (m + 1) * 2 in
      let (r, q, big, up, top) = grow_max_lem fuel nguys next (omega arith) n (omega arith) in
      (r, rw (more, lt→ltb next int_limit (omega arith)) q, big, omega arith, top)
  | inr enough ↦ (m, rw enough, ground arith, omega arith, h)
]

-- What a grown array keeps.
pub record Grown {ℓ} {A : Type ℓ} (a : Array A) (nguys : ℕ) (a' : Array A) : Type ℓ where
  pub valid : IsValid a'
  pub num_kept : a'.num ≡ a.num
  pub kept : take a.num (cells a'.v) ≡ contents a
  pub room : nguys ≤ a'.max

-- Refused by the allocator, with the array as it was, or done.
abbrev pub Attempt {ℓ} :
    {A : Type ℓ} → (ℕ → Bool) → Array A → (Array A → Type ℓ) → Run (Status × Array A) → Type ℓ
Attempt {A} kmalloc a Q r =
    ((bytes : ℕ) × (kmalloc bytes ≡ false) × (r ≡ done (enomem, a)))
    ⊎ ((a' : Array A) × (r ≡ done (success, a')) × Q a')

module _ {ℓ} {A : Type ℓ} (kmalloc : ℕ → Bool) {a : Array A} where
  pub preallocate-Grown :
      (nguys : ℕ)
      → IsValid a
      → nguys < 2 ^ 29
      → Attempt kmalloc a (Grown a nguys) (preallocate kmalloc a nguys)
  unfolding preallocate
  preallocate-Grown nguys v small =
      let (m, g, big, up, top) = grow_max_lem (nguys + 1) nguys a.max (omega arith) small v.small in
      let len : length (fresh_cells {A = A} (pointer_bytes m)) ≡ m =
        omega (arith, length-replicate {A = Option A} (pointer_bytes m / 4) none) in
      let (c, q, lc, t) =
        copy_lem a.num 0 a.num (cells a.v) (fresh_cells (pointer_bytes m)) (omega arith)
          (omega (arith, v.fits, v.block)) (omega (arith, v.fits)) refl in
      elim (Bool-cases (kmalloc (pointer_bytes m))) [
        | inl yes_given ↦ inr (
          record a { max = m; v = some c },
          rw (le→leb a.num a.max v.fits, g, yes_given, q),
          record {
            valid = record { fits = omega (arith, v.fits); block = omega arith; small = top };
            num_kept = refl;
            kept = t;
            room = big;
          },
        )
        | inr refused ↦ inl (pointer_bytes m, refused, rw (le→leb a.num a.max v.fits, g, refused))
      ]
