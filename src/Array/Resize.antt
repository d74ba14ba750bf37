-- ===== src/Array/Resize.antt =====
-- array_setsize and array_add: what a resized array keeps, and how allocation can fail.
use ece.Common.{
  success, le→ltb_false, ◌==◌, ◌&&◌, ℕ, suc, ◌+◌, ◌^◌, ◌≤◌, ◌<◌, ◌≡◌, refl, ap, sym, ◌∙◌, inl, inr,
  min, Bool, Option, none, some, List, [], ◌∷◌, ◌++◌, arith, length, set, take, length-set,
  take-suc-set, write-lt, done, Bool-cases, Option-cases, ltb, ltb→lt, le→leb,
}
use ece.Array.{Array, cells, release, setsize, add}
use ece.Array.Valid.{IsValid, contents, Attempt, preallocate-Grown}

pub record Resized {ℓ} {A : Type ℓ} (a : Array A) (nguys : ℕ) (a' : Array A) : Type ℓ where
  pub valid : IsValid a'
  pub sized : a'.num ≡ nguys
  pub kept : take (min nguys a.num) (cells a'.v) ≡ take (min nguys a.num) (cells a.v)

-- `x` appended to what `a` held
abbrev pub Added {ℓ} : {A : Type ℓ} → Array A → A → Array A → Type ℓ
Added a x a' = IsValid a' × (contents a' ≡ contents a ++ (some x ∷ [])) × (a'.num ≡ a.num + 1)

module _ {ℓ} {A : Type ℓ} {a : Array A} where
  -- The assertion of `array_setsize` on the block that it frees.
  block_of : IsValid a → 16 < a.max → (c : List (Option A)) × (a.v ≡ some c)
  block_of v h = elim (Option-cases a.v) [
    | inl e ↦ absurd (ground (arith, v.block))
    | inr held ↦ held
  ]

  release_lem :
      (nguys : ℕ)
      → IsValid a
      → nguys ≤ a.max
      → (a' : Array A) × (release a nguys ≡ done a') × Resized a nguys (record a' { num = nguys })
  unfolding release
  release_lem nguys v h = elim (Bool-cases ((nguys == 0) && ltb 16 a.max)) [
    | inl drop ↦
        let zero_size : nguys ≡ 0 = ground arith in
        let (c, e) = block_of v (ground arith) in
        let none_kept : min nguys a.num ≡ 0 = omega arith in
        (
          record a { v = none; max = 0 },
          rw (drop, e),
          record {
            valid = record { fits = omega arith; block = refl; small = omega arith };
            sized = refl;
            kept = rw none_kept;
          },
        )
    | inr keep ↦ (
      a,
      rw keep,
      record {
        valid = record { fits = h; block = v.block; small = v.small };
        sized = refl;
        kept = refl;
      },
    )
  ]

module _ {ℓ} {A : Type ℓ} (kmalloc : ℕ → Bool) {a : Array A} where
  -- A request for a new size fails only when the allocator refuses, and then changes nothing;
  -- otherwise the array has that size and keeps the elements below both sizes.
  pub setsize-Resized :
      (nguys : ℕ)
      → IsValid a
      → nguys < 2 ^ 29
      → Attempt kmalloc a (Resized a nguys) (setsize kmalloc a nguys)
  unfolding setsize
  setsize-Resized nguys v small = elim (Bool-cases (ltb a.max nguys)) [
    | inl more ↦ elim (preallocate-Grown kmalloc nguys v small) [
      | inl (bytes, refused, e) ↦ inl (bytes, refused, rw (le→leb a.num a.max v.fits, more, e))
      | inr (b, e, g) ↦
          let lt = ltb→lt a.max nguys more in
          let all : min nguys a.num ≡ a.num = omega (arith, v.fits) in
          inr (
            record b { num = nguys },
            rw (le→leb a.num a.max v.fits, more, e),
            record {
              valid = record { fits = g.room; block = g.valid.block; small = g.valid.small };
              sized = refl;
              kept = rw all g.kept;
            },
          )
    ]
    | inr fits ↦
        let (b, e, r) = release_lem nguys v (ground arith) in
        inr (record b { num = nguys }, rw (le→leb a.num a.max v.fits, fits, e), r)
  ]

  -- Within the block nothing is allocated.
  pub setsize_room :
      (nguys : ℕ)
      → IsValid a
      → nguys ≤ a.max
      → (b : Array A) × (setsize kmalloc a nguys ≡ done (success, b)) × Resized a nguys b
  unfolding setsize
  setsize_room nguys v h =
      let (b, e, r) = release_lem nguys v h in
      (record b { num = nguys }, rw (le→leb a.num a.max v.fits, le→ltb_false a.max nguys h, e), r)

  -- The pointer stored once the size is there.
  add_stored :
      (x : A) {b : Array A}
      → setsize kmalloc a (a.num + 1) ≡ done (success, b)
      → Resized a (a.num + 1) b
      → (a' : Array A) × (add kmalloc a x ≡ done (success, a')) × Added a x a'
  unfolding add
  add_stored x {b} e r =
      let inside : a.num < length (cells b.v) =
        omega (arith, r.sized, r.valid.fits, r.valid.block) in
      let one : b.num ≡ suc a.num = omega (arith, r.sized) in
      let below : min (a.num + 1) a.num ≡ a.num = omega arith in
      let same : take a.num (cells b.v) ≡ take a.num (cells a.v) = rw below at r.kept in
      let c = set (cells b.v) a.num (some x) in
      (
        record b { v = some c },
        rw (e, write-lt (cells b.v) a.num (some x) inside),
        (
          record {
            fits = r.valid.fits;
            block = r.valid.block ∙ sym (length-set (cells b.v) a.num (some x));
            small = r.valid.small;
          },
          rw one
              (take-suc-set a.num (cells b.v) (some x) inside ∙ ap (λ t. t ++ (some x ∷ [])) same),
          r.sized,
        ),
      )

  -- `array_add` within the block cannot fail: what array_preallocate is called for.
  pub add_room :
      (x : A)
      → IsValid a
      → a.num + 1 ≤ a.max
      → (a' : Array A) × (add kmalloc a x ≡ done (success, a')) × Added a x a'
  add_room x v h = let (b, e, r) = setsize_room (a.num + 1) v h in add_stored x e r

  -- `array_add` appends its pointer, or fails with ENOMEM where the allocator refuses and then
  -- changes nothing.
  pub add-Added :
      (x : A) → IsValid a → a.num + 1 < 2 ^ 29 → Attempt kmalloc a (Added a x) (add kmalloc a x)
  unfolding add
  add-Added x v small = elim (setsize-Resized (a.num + 1) v small) [
    | inl (bytes, refused, e) ↦ inl (bytes, refused, rw e)
    | inr (b, e, r) ↦ inr (add_stored x e r)
  ]
