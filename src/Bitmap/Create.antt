-- ===== src/Bitmap/Create.antt =====
-- bitmap_create: what a new bitmap looks like.
use ece.Common.{
  ℕ, zero, suc, ◌+◌, ◌-◌, ◌*◌, ◌/◌, ◌%◌, ◌≤◌, ◌<◌, ◌≡◌, ◌≢◌, ◌⊎◌, inl, inr, refl, subst, ap, ◌∙◌,
  arith, Bool, true, false, some, List, [], ◌∷◌, length, get_elem?, set, replicate,
  length-replicate, get_elem?-set_self, get_elem?-set_ne, get_elem?-append_lt, length-set, lt→ltb,
  le→ltb_false, ==_true, dec_lt, ℕ_discrete, done, read, write, write-lt,
}
use ece.Bitmap.{Byte, Bitmap, words_for, mark_rest, create}
use ece.Bitmap.Bits.{bits, Whole, Valid, get_elem?-append_ge}

get_elem?-replicate : (n k : ℕ) → k < n → get_elem? (replicate n false) k ≡ some false
get_elem?-replicate zero k lt = elim lt [ ]
get_elem?-replicate (suc n) zero lt = refl
get_elem?-replicate (suc n) (suc k) lt = get_elem?-replicate n k (omega arith)

-- The loop over the leftover bits sets them and no other.
mark_rest_lem :
    (rounds j : ℕ) (w : Byte) (k : ℕ)
    → j + rounds ≡ length w
    → ((k < j) × (get_elem? (mark_rest rounds j w) k ≡ get_elem? w k))
      ⊎ ((j ≤ k) × (k < length w → get_elem? (mark_rest rounds j w) k ≡ some true))
mark_rest_lem zero j w k e = elim (dec_lt k j) [
  | yes lt ↦ inl (lt, refl)
  | no ge ↦ inr (omega arith, λ lt. absurd (omega arith))
]
mark_rest_lem (suc rounds) j w k e =
    let n = length-set w j true in
    elim (mark_rest_lem rounds (j + 1) (set w j true) k (omega arith)) [
      | inr (ge, h) ↦ inr (omega arith, λ lt. h (omega arith))
      | inl (lt, h) ↦ elim (ℕ_discrete j k) [
        | yes q ↦ inr (
          omega arith,
          λ lt'.
              h
              ∙ subst (λ t. get_elem? (set w j true) t ≡ some true) q
                  (get_elem?-set_self w j true (omega arith)),
        )
        | no ne ↦ inl (omega arith, h ∙ get_elem?-set_ne w true ne)
      ]
    ]

length-mark_rest : (rounds j : ℕ) (w : Byte) → length (mark_rest rounds j w) ≡ length w
length-mark_rest zero j w = refl
length-mark_rest (suc rounds) j w =
    length-mark_rest rounds (j + 1) (set w j true) ∙ length-set w j true

-- `n` clear bytes before the byte `w`
abbrev clear_then : ℕ → Byte → List Byte
clear_then zero w = w ∷ []
clear_then (suc n) w = replicate 8 false ∷ clear_then n w

set-replicate :
    (n : ℕ) (x w : Byte) → set (replicate (suc n) (replicate 8 false)) n w ≡ clear_then n w
set-replicate zero x w = refl
set-replicate (suc n) x w = ap (λ t. replicate 8 false ∷ t) (set-replicate n x w)

clear_then_below :
    (n : ℕ) (w : Byte) (k : ℕ) → k < 8 * n → get_elem? (bits (clear_then n w)) k ≡ some false
clear_then_below zero w k lt = absurd (omega arith)
clear_then_below (suc n) w k lt = elim (dec_lt k 8) [
  | yes low ↦
      get_elem?-append_lt (replicate 8 false) (bits (clear_then n w)) k low
      ∙ get_elem?-replicate 8 k low
  | no ge ↦
      let z : 8 + (k - 8) ≡ k = omega arith in
      subst (λ t. get_elem? (bits (clear_then (suc n) w)) t ≡ some false) z
        (get_elem?-append_ge (replicate 8 false) (bits (clear_then n w)) (k - 8)
          ∙ clear_then_below n w (k - 8) (omega arith))
]

clear_then_last :
    (n : ℕ) (w : Byte) (j : ℕ)
    → j < length w
    → get_elem? (bits (clear_then n w)) (8 * n + j) ≡ get_elem? w j
clear_then_last zero w j lt =
    let z : 8 * 0 + j ≡ j = omega arith in rw z (get_elem?-append_lt w [] j lt)
clear_then_last (suc n) w j lt =
    let z : 8 * suc n + j ≡ 8 + (8 * n + j) = omega arith in
    rw z (
      get_elem?-append_ge (replicate 8 false) (bits (clear_then n w)) (8 * n + j)
      ∙ clear_then_last n w j lt)

clear_then-Whole : (n : ℕ) (w : Byte) → length w ≡ 8 → Whole (clear_then n w)
clear_then-Whole zero w e = (e, tt)
clear_then-Whole (suc n) w e = (refl, clear_then-Whole n w e)

length-clear_then : (n : ℕ) (w : Byte) → length (clear_then n w) ≡ n + 1
length-clear_then zero w = refl
length-clear_then (suc n) w = omega (arith, length-clear_then n w)

bits-replicate :
    (n k : ℕ) → k < 8 * n → get_elem? (bits (replicate n (replicate 8 false))) k ≡ some false
bits-replicate zero k lt = absurd (omega arith)
bits-replicate (suc n) k lt = elim (dec_lt k 8) [
  | yes low ↦
      get_elem?-append_lt (replicate 8 false) (bits (replicate n (replicate 8 false))) k low
      ∙ get_elem?-replicate 8 k low
  | no ge ↦
      let z : 8 + (k - 8) ≡ k = omega arith in
      subst (λ t. get_elem? (bits (replicate (suc n) (replicate 8 false))) t ≡ some false) z
        (get_elem?-append_ge (replicate 8 false) (bits (replicate n (replicate 8 false))) (k - 8)
          ∙ bits-replicate n (k - 8) (omega arith))
]

replicate-Whole : (n : ℕ) → Whole (replicate n (replicate 8 false))
replicate-Whole zero = tt
replicate-Whole (suc n) = (refl, replicate-Whole n)

-- A bitmap as bitmap_create leaves it.
pub record Fresh (nbits : ℕ) (b : Bitmap) : Type 0 where
  pub size : b.nbits ≡ nbits
  pub valid : Valid b
  pub all_clear : (k : ℕ) → k < nbits → get_elem? (bits b.v) k ≡ some false

-- A size that fills its bytes.
whole_Fresh :
    (nbits : ℕ)
    → nbits % 8 ≡ 0
    → Fresh nbits (record { nbits = nbits; v = replicate (nbits / 8) (replicate 8 false) })
whole_Fresh nbits h =
    let n = length-replicate {A = Byte} (nbits / 8) (replicate 8 false) in
    record {
      size = refl;
      valid = record {
        whole = replicate-Whole (nbits / 8);
        words = omega arith;
        rest_used = λ k ge lt. absurd (omega arith);
      };
      all_clear = λ k lt. bits-replicate (nbits / 8) k (omega arith);
    }

abbrev last_byte : ℕ → Byte
last_byte over = mark_rest (8 - over) over (replicate 8 false)

-- The bit `j` of the last byte, in the one list.
last_bit :
    (q over k : ℕ) {v : Bool}
    → 8 * q ≤ k
    → k - 8 * q < 8
    → get_elem? (last_byte over) (k - 8 * q) ≡ some v
    → over ≤ 8
    → get_elem? (bits (clear_then q (last_byte over))) k ≡ some v
last_bit q over k {v} ge lt h small =
    let z : 8 * q + (k - 8 * q) ≡ k = omega arith in
    let eight = length-mark_rest (8 - over) over (replicate 8 false) in
    subst (λ t. get_elem? (bits (clear_then q (last_byte over))) t ≡ some v) z
      (clear_then_last q (last_byte over) (k - 8 * q) (omega (arith, eight)) ∙ h)

-- A size with leftover bits.
leftover_Fresh :
    (nbits : ℕ)
    → nbits % 8 ≢ 0
    → Fresh nbits (record { nbits = nbits; v = clear_then (nbits / 8) (last_byte (nbits % 8)) })
leftover_Fresh nbits h =
    let over = nbits % 8 in
    let eight = length-mark_rest (8 - over) over (replicate 8 false) in
    let n = length-clear_then (nbits / 8) (last_byte over) in
    record {
      size = refl;
      valid = record {
        whole = clear_then-Whole (nbits / 8) (last_byte over) eight;
        words = omega arith;
        rest_used = λ k ge lt.
            elim (mark_rest_lem (8 - over) over (replicate 8 false) (k - 8 * (nbits / 8))
              (omega arith)) [
                | inl (low, e) ↦ absurd (omega arith)
                | inr (high, set_bit) ↦
                    last_bit (nbits / 8) over k (omega arith) (omega arith) (set_bit (omega arith))
                      (omega arith)
              ];
      };
      all_clear = λ k lt. elim (dec_lt k (8 * (nbits / 8))) [
        | yes low ↦ clear_then_below (nbits / 8) (last_byte over) k low
        | no ge ↦
            elim (mark_rest_lem (8 - over) over (replicate 8 false) (k - 8 * (nbits / 8))
              (omega arith)) [
                | inr (high, set_bit) ↦ absurd (omega arith)
                | inl (low, e) ↦
                    last_bit (nbits / 8) over k (omega arith) (omega arith)
                      (e ∙ get_elem?-replicate 8 (k - 8 * (nbits / 8)) (omega arith)) (omega arith)
              ]
      ];
    }

read-replicate : (n : ℕ) → read (replicate (suc n) (replicate 8 false)) n ≡ done (replicate 8 false)
read-replicate zero = refl
read-replicate (suc n) = read-replicate n

write-replicate :
    (n : ℕ) (w : Byte) → write (replicate (suc n) (replicate 8 false)) n w ≡ done (clear_then n w)
write-replicate n w =
    let size = length-replicate {A = Byte} (suc n) (replicate 8 false) in
    write-lt (replicate (suc n) (replicate 8 false)) n w (omega arith)
    ∙ ap done (set-replicate n w w)

-- Of fewer than 2 ^ 32 - 7 bits, where both allocations succeed, bitmap_create gives a valid bitmap of that size with every bit
-- clear: its assertions hold, and the leftover bits of the last byte are set.
pub create-Fresh :
    (kmalloc : ℕ → Bool) (nbits : ℕ)
    → nbits < 4294967289
    → kmalloc 8 ≡ true
    → kmalloc (words_for nbits) ≡ true
    → (b : Bitmap) × (create kmalloc nbits ≡ done (some b)) × Fresh nbits b
unfolding create
create-Fresh kmalloc nbits small header block = elim (ℕ_discrete (nbits % 8) 0) [
  | yes full ↦
      let words : words_for nbits ≡ nbits / 8 = omega arith in
      let test = le→ltb_false (nbits / 8) (nbits / 8) (omega arith) in
      (
        record { nbits = nbits; v = replicate (nbits / 8) (replicate 8 false) },
        rw (header, block, words, test),
        whole_Fresh nbits full,
      )
  | no left ↦
      let words : words_for nbits ≡ suc (nbits / 8) = omega arith in
      let index : suc (nbits / 8) - 1 ≡ nbits / 8 = omega arith in
      let over : nbits - nbits / 8 * 8 ≡ nbits % 8 = omega arith in
      (
        record { nbits = nbits; v = clear_then (nbits / 8) (last_byte (nbits % 8)) },
        rw (
          header,
          block,
          words,
          lt→ltb (nbits / 8) (suc (nbits / 8)) (omega arith),
          index,
          over,
          ==_true (nbits / 8) (nbits / 8) refl,
          lt→ltb 0 (nbits % 8) (omega arith),
          lt→ltb (nbits % 8) 8 (omega arith),
          read-replicate (nbits / 8),
          write-replicate (nbits / 8) (last_byte (nbits % 8)),
        ),
        leftover_Fresh nbits left,
      )
]
