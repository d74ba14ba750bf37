-- ===== src/Kheap/Refs.antt =====
-- allocpageref and freepageref: the bits of the pagerefs in use.
use ece.Common.{
  ℕ, zero, suc, ◌+◌, ◌*◌, ◌/◌, ◌%◌, ◌<◌, ◌≡◌, ◌≢◌, ◌⊎◌, inl, inr, refl, sym, ap, subst, ◌∙◌, arith,
  List, [], ◌∷◌, Bool, true, false, Option, none, some, length, get_elem?, set, length-set,
  get_elem?-set_self, get_elem?-set_ne, get_elem?-none, lt→ltb, dec_lt, Bool-cases, Run, done,
  read_of_get, write-lt, ◌>>=◌,
}
use ece.Bitmap.{all_bits}
use ece.Bitmap.Alloc.{clear_from_lem}
use ece.Kheap.{Heap, ref_from, allocpageref, freepageref}
use ece.Kheap.Valid.{bit_of, Whole}

-- `ws'` is `ws` with the bit `r` of the word `q` turned to `v`.
pub record Flipped (ws : List (List Bool)) (q r : ℕ) (v : Bool) (ws' : List (List Bool))
    : Type 0 where
  pub now : bit_of ws' q r ≡ some v
  pub others : (q' r' : ℕ) → (q' ≢ q) ⊎ (r' ≢ r) → bit_of ws' q' r' ≡ bit_of ws q' r'
  pub still_whole : Whole ws'
  pub same_length : length ws' ≡ length ws

pub word_at :
    (ws : List (List Bool)) (q r : ℕ) (b : Bool)
    → Whole ws
    → bit_of ws q r ≡ some b
    → (w : List Bool) × (get_elem? ws q ≡ some w)
      × (get_elem? w r ≡ some b)
      × (length w ≡ 32)
      × (q < length ws)
word_at [] q r b h e = cc
word_at (w ∷ ws) zero r b (full, h) e = (w, refl, e, full, omega arith)
word_at (w ∷ ws) (suc q) r b (full, h) e =
    let (x, g, at, n, lt) = word_at ws q r b h e in (x, g, at, n, omega arith)

bit-lt : (w : List Bool) (r : ℕ) {b : Bool} → get_elem? w r ≡ some b → r < length w
bit-lt w r h = elim (dec_lt r (length w)) [
  | yes lt ↦ lt
  | no ge ↦ cc (get_elem?-none w r (omega arith), h)
]

bit_of-set :
    (ws : List (List Bool)) (q r : ℕ) (v : Bool) (w : List Bool)
    → get_elem? ws q ≡ some w
    → (q' r' : ℕ) → (q' ≢ q) ⊎ (r' ≢ r)
    → bit_of (set ws q (set w r v)) q' r' ≡ bit_of ws q' r'
bit_of-set [] q r v w g q' r' ne = cc
bit_of-set (x ∷ ws) zero r v w g zero r' (inl ne) = absurd (ne refl)
bit_of-set (x ∷ ws) zero r v w g zero r' (inr ne) =
    let same : x ≡ w = cc g in
    get_elem?-set_ne w v (λ q. ne (sym q)) ∙ ap (λ t. get_elem? t r') (sym same)
bit_of-set (x ∷ ws) zero r v w g (suc q') r' ne = refl
bit_of-set (x ∷ ws) (suc q) r v w g zero r' ne = refl
bit_of-set (x ∷ ws) (suc q) r v w g (suc q') r' (inl ne) =
    bit_of-set ws q r v w g q' r' (inl (λ e. ne (ap suc e)))
bit_of-set (x ∷ ws) (suc q) r v w g (suc q') r' (inr ne) = bit_of-set ws q r v w g q' r' (inr ne)

bit_of-set_self :
    (ws : List (List Bool)) (q r : ℕ) (v b : Bool) (w : List Bool)
    → get_elem? ws q ≡ some w
    → get_elem? w r ≡ some b
    → bit_of (set ws q (set w r v)) q r ≡ some v
bit_of-set_self [] q r v b w g e = cc
bit_of-set_self (x ∷ ws) zero r v b w g e = get_elem?-set_self w r v (bit-lt w r e)
bit_of-set_self (x ∷ ws) (suc q) r v b w g e = bit_of-set_self ws q r v b w g e

Whole-set :
    (ws : List (List Bool)) (q r : ℕ) (v : Bool) (w : List Bool)
    → Whole ws
    → get_elem? ws q ≡ some w
    → Whole (set ws q (set w r v))
Whole-set [] q r v w h g = cc
Whole-set (x ∷ ws) zero r v w (full, h) g =
    let same : x ≡ w = cc g in (length-set w r v ∙ ap length (sym same) ∙ full, h)
Whole-set (x ∷ ws) (suc q) r v w (full, h) g = (full, Whole-set ws q r v w h g)

pub set-Flipped :
    (ws : List (List Bool)) (q r : ℕ) (v b : Bool) (w : List Bool)
    → Whole ws
    → get_elem? ws q ≡ some w
    → get_elem? w r ≡ some b
    → Flipped ws q r v (set ws q (set w r v))
set-Flipped ws q r v b w h g e = record {
  now = bit_of-set_self ws q r v b w g e;
  others = bit_of-set ws q r v w g;
  still_whole = Whole-set ws q r v w h g;
  same_length = length-set ws q (set w r v);
}

-- How the loop of allocpageref ends, from the word `i` on.
pub data Searched (i : ℕ) (ws : List (List Bool)) : Run (Option ℕ × List (List Bool)) → Type 0 where
  none_free : Searched i ws (done (none, ws))
  got :
      (q r : ℕ) (ws' : List (List Bool))
      → q < length ws
      → r < 32
      → bit_of ws q r ≡ some false
      → Flipped ws q r true ws'
      → Searched i ws (done (some ((i + q) * 32 + r), ws'))

Flipped-cons :
    (ws ws' : List (List Bool)) (q r : ℕ) (v : Bool) (w : List Bool)
    → length w ≡ 32
    → Flipped ws q r v ws'
    → Flipped (w ∷ ws) (suc q) r v (w ∷ ws')
Flipped-cons ws ws' q r v w full f = record {
  now = f.now;
  others = other;
  still_whole = (full, f.still_whole);
  same_length = ap suc f.same_length;
}
  where
    other : (q' r' : ℕ) → (q' ≢ suc q) ⊎ (r' ≢ r) → bit_of (w ∷ ws') q' r' ≡ bit_of (w ∷ ws) q' r'
    other zero r' ne = refl
    other (suc q') r' (inl ne) = f.others q' r' (inl (λ e. ne (ap suc e)))
    other (suc q') r' (inr ne) = f.others q' r' (inr ne)

Searched-cons :
    (i : ℕ) (ws : List (List Bool)) (w : List Bool) {run : Run (Option ℕ × List (List Bool))}
    → length w ≡ 32
    → Searched (i + 1) ws run
    → Searched i (w ∷ ws) (run >>= λ (r, ws'). done (r, w ∷ ws'))
Searched-cons i ws w full none_free = none_free
Searched-cons i ws w full (got q r ws' lt small clear f) =
    let z : (i + suc q) * 32 + r ≡ (i + 1 + q) * 32 + r = omega arith in
    subst (λ t. Searched i (w ∷ ws) (done (some t, w ∷ ws'))) z
      (got (suc q) r (w ∷ ws') (omega arith) small clear (Flipped-cons ws ws' q r true w full f))

ref_from-Searched : (i : ℕ) (ws : List (List Bool)) → Whole ws → Searched i ws (ref_from i ws)
unfolding ref_from
ref_from-Searched i [] h = none_free
ref_from-Searched i (w ∷ ws) (full, h) = elim (Bool-cases (all_bits w)) [
  | inl all ↦ rw all (Searched-cons i ws w full (ref_from-Searched (i + 1) ws h))
  | inr some_clear ↦
      let (k, first, (at, below)) = clear_from_lem 0 w some_clear in
      let z : 0 + k ≡ k = omega arith in
      let y : i * 32 + k ≡ (i + 0) * 32 + k = omega arith in
      rw (some_clear, first, z, y)
        (got 0 k (set w k true ∷ ws) (omega arith) (omega (arith, bit-lt w k at)) at
          (set-Flipped (w ∷ ws) 0 k true false w (full, h) refl at))
]

-- How allocpageref ends.
pub data RefGiven (h : Heap) : Run (Option ℕ × Heap) → Type 0 where
  exhausted : RefGiven h (done (none, h))
  given :
      (pr : ℕ) (inuse : List (List Bool))
      → pr < 256
      → bit_of h.inuse (pr / 32) (pr % 32) ≡ some false
      → Flipped h.inuse (pr / 32) (pr % 32) true inuse
      → RefGiven h (done (some pr, record h { inuse = inuse }))

pub allocpageref-RefGiven :
    (h : Heap) → Whole h.inuse → length h.inuse ≡ 8 → RefGiven h (allocpageref h)
unfolding allocpageref
allocpageref-RefGiven h whole eight = ends (ref_from-Searched 0 h.inuse whole)
  where
    ends :
        {run : Run (Option ℕ × List (List Bool))}
        → Searched 0 h.inuse run
        → RefGiven h (run >>= λ (r, inuse). done (r, record h { inuse = inuse }))
    ends none_free = exhausted
    ends (got q r ws' lt small clear f) =
        let quo : ((0 + q) * 32 + r) / 32 ≡ q = omega arith in
        let rem : ((0 + q) * 32 + r) % 32 ≡ r = omega arith in
        given ((0 + q) * 32 + r) ws' (omega (arith, eight))
          (subst (λ t. bit_of h.inuse t (((0 + q) * 32 + r) % 32) ≡ some false) (sym quo)
            (subst (λ t. bit_of h.inuse q t ≡ some false) (sym rem) clear))
          (subst (λ t. Flipped h.inuse t (((0 + q) * 32 + r) % 32) true ws') (sym quo)
            (subst (λ t. Flipped h.inuse q t true ws') (sym rem) f))

pub RefGiven-cases :
    (h : Heap) {run : Run (Option ℕ × Heap)}
    → RefGiven h run
    → (run ≡ done (none, h))
      ⊎ ((pr : ℕ) × (inuse : List (List Bool)) × (run ≡ done (some pr, record h { inuse = inuse }))
          × (pr < 256)
          × (bit_of h.inuse (pr / 32) (pr % 32) ≡ some false)
          × Flipped h.inuse (pr / 32) (pr % 32) true inuse)
RefGiven-cases h exhausted = inl refl
RefGiven-cases h (given pr inuse lt clear f) = inr (pr, inuse, refl, lt, clear, f)

-- freepageref of a pageref in use clears its bit.
pub freepageref_lem :
    (j : ℕ) (h : Heap)
    → Whole h.inuse
    → length h.inuse ≡ 8
    → bit_of h.inuse (j / 32) (j % 32) ≡ some true
    → (inuse : List (List Bool)) × (freepageref j h ≡ done (record h { inuse = inuse }))
      × Flipped h.inuse (j / 32) (j % 32) false inuse
unfolding freepageref
freepageref_lem j h whole eight marked =
    let (w, g, at, full, lt) = word_at h.inuse (j / 32) (j % 32) true whole marked in
    (
      set h.inuse (j / 32) (set w (j % 32) false),
      rw (
        lt→ltb j 256 (omega arith),
        read_of_get h.inuse (j / 32) g,
        read_of_get w (j % 32) at,
        write-lt h.inuse (j / 32) (set w (j % 32) false) lt,
      ),
      set-Flipped h.inuse (j / 32) (j % 32) false true w whole g at,
    )
