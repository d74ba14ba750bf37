-- ===== src/Array/Cells.antt =====
-- The loops of os161/kern/lib/array.c over the cells: copying into a new block, and moving down.
use ece.Common.{
  ℕ, zero, suc, ◌+◌, ◌≤◌, ◌<◌, ◌≡◌, refl, ap, sym, ◌∙◌, Option, some, List, [], ◌∷◌, ◌++◌, arith,
  length, get_elem?, set, take, take-suc, take-suc-set, length-set, remove_at, read-lt, write-lt,
  read, write, done, >>=-eq-done,
}
use ece.Array.{copy, memcpy}

module _ {ℓ} {A : Type ℓ} where
  take-copied :
      (i : ℕ) (old new : List (Option A)) {x : Option A}
      → i < length new
      → get_elem? old i ≡ some x
      → take i new ≡ take i old
      → take (i + 1) (set new i x) ≡ take (i + 1) old
  take-copied i old new {x} h e p =
      let one : i + 1 ≡ suc i = omega arith in
      rw one (take-suc-set i new x h ∙ ap (λ t. t ++ (x ∷ [])) p ∙ sym (take-suc i old e))

  -- The copied block agrees with the old one on the cells counted so far.
  pub copy_lem :
      (rounds i n : ℕ) (old new : List (Option A))
      → i + rounds ≡ n
      → n ≤ length old
      → n ≤ length new
      → take i new ≡ take i old
      → (c : List (Option A)) × (copy rounds i old new ≡ done c)
        × (length c ≡ length new)
        × (take n c ≡ take n old)
  unfolding copy
  copy_lem zero i n old new e ho hn p = let e' : n ≡ i = omega arith in (new, refl, refl, rw e' p)
  copy_lem (suc rounds) i n old new e ho hn p =
      let (x, r, g) = read-lt old i (omega arith) in
      let w = write-lt new i x (omega arith) in
      let (c, q, len, t) =
        copy_lem rounds (i + 1) n old (set new i x) (omega arith) ho
          (omega (arith, length-set new i x)) (take-copied i old new (omega arith) g p) in
      (c, rw (r, w) q, len ∙ length-set new i x, t)

  -- A step above the first cell leaves the first cell alone.
  memcpy-cons :
      (words dst src : ℕ) (x : Option A) (c : List (Option A)) {c' : List (Option A)}
      → memcpy words dst src c ≡ done c'
      → memcpy words (suc dst) (suc src) (x ∷ c) ≡ done (x ∷ c')
  unfolding memcpy
  memcpy-cons zero dst src x c h = cc
  memcpy-cons (suc words) dst src x c h =
      let (y, r, h') = >>=-eq-done (read c src) _ h in
      let (d, w, t) = >>=-eq-done (write c dst y) _ h' in
      let w' : write (x ∷ c) (suc dst) y ≡ done (x ∷ d) = ground arith in
      let e₁ : suc dst + 1 ≡ suc (dst + 1) = omega arith in
      let e₂ : suc src + 1 ≡ suc (src + 1) = omega arith in
      rw (r, w', e₁, e₂) (memcpy-cons words (dst + 1) (src + 1) x d t)

  -- Moving `words` cells down by one takes the cell at `i` out.
  pub memcpy_down :
      (words i n : ℕ) (c : List (Option A))
      → i + words ≡ n
      → n < length c
      → (c' : List (Option A)) × (memcpy words i (i + 1) c ≡ done c')
        × (length c' ≡ length c)
        × (take n c' ≡ remove_at i (take (suc n) c))
  unfolding memcpy
  memcpy_down words i n [] e h = elim h [ ]
  memcpy_down zero zero n (x ∷ c) e h = let e' : n ≡ 0 = omega arith in (x ∷ c, refl, refl, rw e')
  memcpy_down (suc words) zero n (x ∷ []) e h = absurd (omega arith)
  memcpy_down (suc words) zero zero (x ∷ y ∷ c) e h = absurd (omega arith)
  memcpy_down (suc words) zero (suc n) (x ∷ y ∷ c) e h =
      let (c', q, len, t) = memcpy_down words zero n (y ∷ c) (omega arith) (omega arith) in
      (
        y ∷ c',
        rw (write-lt (x ∷ y ∷ c) 0 y (omega arith)) (memcpy-cons words 0 1 y (y ∷ c) q),
        ap suc len,
        ap (λ l. y ∷ l) t,
      )
  memcpy_down words (suc i) zero (x ∷ c) e h = absurd (omega arith)
  memcpy_down words (suc i) (suc n) (x ∷ c) e h =
      let (c', q, len, t) = memcpy_down words i n c (omega arith) (omega arith) in
      let e₁ : suc i + 1 ≡ suc (i + 1) = omega arith in
      (x ∷ c', rw e₁ (memcpy-cons words i (i + 1) x c q), ap suc len, ap (λ l. x ∷ l) t)
