-- ===== src/Bitmap/Alloc.antt =====
-- bitmap_alloc takes the lowest clear bit.
use ece.Common.{
  ℕ, zero, suc, ◌+◌, ◌-◌, ◌*◌, ◌<◌, ◌≡◌, inl, inr, refl, sym, subst, ap, ◌∙◌, arith, Bool, true,
  false, Option, none, some, List, [], ◌∷◌, ◌++◌, length, get_elem?, set, length-append,
  get_elem?-append_lt, get_elem?-none, get_elem?-set_ne, length-set, lt→ltb, Bool-cases, dec_lt,
  Run, done, Status, success, enospc, ◌>>=◌,
}
use ece.Bitmap.{Byte, Bitmap, all_bits, clear_from, alloc_from, alloc}
use ece.Bitmap.Bits.{
  bits, Whole, Valid, length-bits, get_elem?-append_ge, set-append_lt, set-append_ge,
}

all_bits_lem : (w : Byte) → all_bits w ≡ true → (j : ℕ) → j < length w → get_elem? w j ≡ some true
all_bits_lem [] h j lt = elim lt [ ]
all_bits_lem (true ∷ w) h zero lt = refl
all_bits_lem (true ∷ w) h (suc j) lt = all_bits_lem w h j (omega arith)
all_bits_lem (false ∷ w) h j lt = cc

-- `k` is the place of the lowest clear bit.
abbrev pub Lowest : List Bool → ℕ → Type 0
Lowest bs k = (get_elem? bs k ≡ some false) × ((j : ℕ) → j < k → get_elem? bs j ≡ some true)

Lowest-at : (bs : List Bool) (k : ℕ) → Lowest bs k → get_elem? bs k ≡ some false
Lowest-at bs k (at, below) = at

Lowest-cons : (bs : List Bool) (k : ℕ) → Lowest bs k → Lowest (true ∷ bs) (suc k)
Lowest-cons bs k (at, below) = (at, λ j. below_cons bs k below j)
  where
    below_cons :
        (bs : List Bool) (k : ℕ)
        → ((j : ℕ) → j < k → get_elem? bs j ≡ some true)
        → (j : ℕ) → j < suc k
        → get_elem? (true ∷ bs) j ≡ some true
    below_cons bs k below zero lt = refl
    below_cons bs k below (suc j) lt = below j (omega arith)

pub clear_from_lem :
    (offset : ℕ) (w : Byte)
    → all_bits w ≡ false
    → (k : ℕ) × (clear_from offset w ≡ some (offset + k)) × Lowest w k
clear_from_lem offset [] h = cc
clear_from_lem offset (false ∷ w) h =
    (0, ap some (omega arith), (refl, λ j lt. absurd (omega arith)))
clear_from_lem offset (true ∷ w) h =
    let (k, e, low) = clear_from_lem (offset + 1) w h in
    (suc k, e ∙ ap some (omega arith), Lowest-cons w k low)

Lowest-append_lt :
    (w : Byte) (bs : List Bool) (k : ℕ) → Lowest w k → k < length w → Lowest (w ++ bs) k
Lowest-append_lt w bs k (at, below) lt = (
  get_elem?-append_lt w bs k lt ∙ at,
  λ j low. get_elem?-append_lt w bs j (omega arith) ∙ below j low,
)

Lowest-append_ge :
    (w : Byte) (bs : List Bool) (k : ℕ)
    → ((j : ℕ) → j < length w → get_elem? w j ≡ some true)
    → Lowest bs k
    → Lowest (w ++ bs) (length w + k)
Lowest-append_ge w bs k full (at, below) = (
  get_elem?-append_ge w bs k ∙ at,
  λ j low. elim (dec_lt j (length w)) [
    | yes lt ↦ get_elem?-append_lt w bs j lt ∙ full j lt
    | no ge ↦
        let z : j ≡ length w + (j - length w) = omega arith in
        subst (λ t. get_elem? (w ++ bs) t ≡ some true) (sym z)
          (get_elem?-append_ge w bs (j - length w) ∙ below (j - length w) (omega arith))
  ],
)

-- How the loops end, from the byte `ix` on.
data Found (ix : ℕ) (ws : List Byte) : Run (Status × Option ℕ × List Byte) → Type 0 where
  full :
      ((j : ℕ) → j < length (bits ws) → get_elem? (bits ws) j ≡ some true)
      → Found ix ws (done (enospc, none, ws))
  found :
      (k index : ℕ) (ws' : List Byte)
      → index ≡ ix * 8 + k
      → Lowest (bits ws) k
      → bits ws' ≡ set (bits ws) k true
      → Whole ws'
      → length ws' ≡ length ws
      → Found ix ws (done (success, some index, ws'))

get_elem?-lt : (bs : List Bool) (k : ℕ) {v : Bool} → get_elem? bs k ≡ some v → k < length bs
get_elem?-lt bs k h = elim (dec_lt k (length bs)) [
  | yes lt ↦ lt
  | no ge ↦ cc (get_elem?-none bs k (omega arith), h)
]

Found-cons :
    (ix : ℕ) (w : Byte) (ws : List Byte) {r : Run (Status × Option ℕ × List Byte)}
    → length w ≡ 8
    → ((j : ℕ) → j < length w → get_elem? w j ≡ some true)
    → Found (ix + 1) ws r
    → Found ix (w ∷ ws) (r >>= λ (result, index, ws'). done (result, index, w ∷ ws'))
Found-cons ix w ws e all (full rest) = full (λ j lt. elim (dec_lt j (length w)) [
  | yes low ↦ get_elem?-append_lt w (bits ws) j low ∙ all j low
  | no ge ↦
      let z : j ≡ length w + (j - length w) = omega arith in
      subst (λ t. get_elem? (w ++ bits ws) t ≡ some true) (sym z)
        (get_elem?-append_ge w (bits ws) (j - length w)
          ∙ rest (j - length w) (omega (arith, length-append w (bits ws))))
])
Found-cons ix w ws e all (found k index ws' place low written whole same) =
    found (length w + k) index (w ∷ ws') (omega arith) (Lowest-append_ge w (bits ws) k all low)
      (ap (λ t. w ++ t) written ∙ sym (set-append_ge w (bits ws) k true)) (e, whole) (ap suc same)

alloc_from-Found :
    (nbits ix : ℕ) (ws : List Byte)
    → Whole ws
    → ((k : ℕ) → get_elem? (bits ws) k ≡ some false → ix * 8 + k < nbits)
    → Found ix ws (alloc_from nbits ix ws)
unfolding alloc_from
alloc_from-Found nbits ix [] h inside = full (λ j lt. elim lt [ ])
alloc_from-Found nbits ix (w ∷ ws) (e, h) inside = elim (Bool-cases (all_bits w)) [
  | inl all ↦
      let below : (k : ℕ) → get_elem? (bits ws) k ≡ some false → (ix + 1) * 8 + k < nbits =
        λ k at. omega (arith, inside (length w + k) (get_elem?-append_ge w (bits ws) k ∙ at)) in
      rw all
        (Found-cons ix w ws e (all_bits_lem w all) (alloc_from-Found nbits (ix + 1) ws h below))
  | inr some_clear ↦
      let (k, first, low) = clear_from_lem 0 w some_clear in
      let lt = get_elem?-lt w k (Lowest-at w k low) in
      let z : 0 + k ≡ k = omega arith in
      let within = Lowest-append_lt w (bits ws) k low lt in
      let test = lt→ltb (ix * 8 + k) nbits (inside k (Lowest-at (w ++ bits ws) k within)) in
      rw (some_clear, first, z, test)
        (found k (ix * 8 + k) _ refl within (sym (set-append_lt w (bits ws) k true lt))
          (length-set w k true ∙ e, h) refl)
]

-- The outcome of bitmap_alloc.
pub data Allocated (b : Bitmap) : Run (Status × Option ℕ × Bitmap) → Type 0 where
  none_left :
      ((j : ℕ) → j < b.nbits → get_elem? (bits b.v) j ≡ some true)
      → Allocated b (done (enospc, none, b))
  given :
      (k : ℕ) (b' : Bitmap)
      → k < b.nbits
      → Lowest (bits b.v) k
      → bits b'.v ≡ set (bits b.v) k true
      → b'.nbits ≡ b.nbits
      → Valid b'
      → Allocated b (done (success, some k, b'))

module _ (b : Bitmap) (valid : Valid b) where
  inside : (k : ℕ) → get_elem? (bits b.v) k ≡ some false → 0 * 8 + k < b.nbits
  inside k at =
      let lt = get_elem?-lt (bits b.v) k at in
      elim (dec_lt k b.nbits) [
        | yes low ↦ omega arith
        | no ge ↦
            cc (valid.rest_used k (omega arith) (omega (arith, length-bits b.v valid.whole)), at)
      ]

  after-Valid :
      (k : ℕ) (v : List Byte)
      → k < b.nbits
      → bits v ≡ set (bits b.v) k true
      → Whole v
      → length v ≡ length b.v
      → Valid (record b { v = v })
  after-Valid k v lt written whole same = record {
    whole = whole;
    words = same ∙ valid.words;
    rest_used = λ j ge high.
        rw written (
          get_elem?-set_ne (bits b.v) true (λ q. omega arith) ∙ valid.rest_used j ge (omega arith));
  }

  Found-Allocated :
      {r : Run (Status × Option ℕ × List Byte)}
      → Found 0 b.v r
      → Allocated b (r >>= λ (result, index, v). done (result, index, record b { v = v }))
  Found-Allocated (full rest) =
      none_left (λ j lt. rest j (omega (arith, length-bits b.v valid.whole, valid.words)))
  Found-Allocated (found k index v place low written whole same) =
      let z : index ≡ k = omega arith in
      let lt : k < b.nbits = omega (arith, inside k (Lowest-at (bits b.v) k low)) in
      rw z (given k _ lt low written refl (after-Valid k v lt written whole same))

-- In a valid bitmap bitmap_alloc answers ENOSPC exactly where every bit is set, and then changes
-- nothing; else it gives the lowest clear bit, which it sets, and changes no other. Its assertions
-- hold.
pub alloc-Allocated : (b : Bitmap) → Valid b → Allocated b (alloc b)
unfolding alloc
alloc-Allocated b valid =
    Found-Allocated b valid (alloc_from-Found b.nbits 0 b.v valid.whole (inside b valid))
