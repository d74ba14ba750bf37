-- ===== src/Bitmap/Bits.antt =====
-- The bitmap as one list of bits.
use ece.Common.{
  ℕ, zero, suc, ◌+◌, ◌*◌, ◌/◌, ◌≤◌, ◌<◌, ◌≡◌, refl, sym, ap, ◌∙◌, arith, Bool, true, some, List, [],
  ◌∷◌, ◌++◌, length, get_elem?, set, length-append, get_elem?-append_lt, length-set,
}
use ece.Bitmap.{Byte, Bitmap}

abbrev pub bits : List Byte → List Bool
bits [] = []
bits (w ∷ ws) = w ++ bits ws

-- every byte has eight bits
abbrev pub Whole : List Byte → Type 0
Whole [] = Unit {0}
Whole (w ∷ ws) = (length w ≡ 8) × Whole ws

pub record Valid (b : Bitmap) : Type 0 where
  pub whole : Whole b.v
  pub words : length b.v ≡ (b.nbits + 7) / 8
  pub rest_used : (k : ℕ) → b.nbits ≤ k → k < 8 * length b.v → get_elem? (bits b.v) k ≡ some true

pub length-bits : (ws : List Byte) → Whole ws → length (bits ws) ≡ 8 * length ws
length-bits [] h = refl
length-bits (w ∷ ws) (e, h) = omega (arith, length-append w (bits ws), length-bits ws h, e)

pub get_elem?-append_ge :
    (xs ys : List Bool) (i : ℕ) → get_elem? (xs ++ ys) (length xs + i) ≡ get_elem? ys i
get_elem?-append_ge [] ys i = let z : 0 + i ≡ i = omega arith in rw z refl
get_elem?-append_ge (x ∷ xs) ys i =
    let z : suc (length xs) + i ≡ suc (length xs + i) = omega arith in
    rw z (get_elem?-append_ge xs ys i)

pub set-append_lt :
    (xs ys : List Bool) (i : ℕ) (v : Bool) → i < length xs → set (xs ++ ys) i v ≡ set xs i v ++ ys
set-append_lt [] ys i v h = elim h [ ]
set-append_lt (x ∷ xs) ys zero v h = refl
set-append_lt (x ∷ xs) ys (suc i) v h = ap (λ t. x ∷ t) (set-append_lt xs ys i v (omega arith))

pub set-append_ge :
    (xs ys : List Bool) (i : ℕ) (v : Bool) → set (xs ++ ys) (length xs + i) v ≡ xs ++ set ys i v
set-append_ge [] ys i v = let z : 0 + i ≡ i = omega arith in rw z refl
set-append_ge (x ∷ xs) ys i v =
    let z : suc (length xs) + i ≡ suc (length xs + i) = omega arith in
    rw z (ap (λ t. x ∷ t) (set-append_ge xs ys i v))

-- The bit `r` of the byte `q`, in the one list.
pub record At (ws : List Byte) (q r : ℕ) (w : Byte) : Type 0 where
  pub byte : get_elem? ws q ≡ some w
  pub eight : length w ≡ 8
  pub same : get_elem? (bits ws) (8 * q + r) ≡ get_elem? w r
  pub written : (v : Bool) → bits (set ws q (set w r v)) ≡ set (bits ws) (8 * q + r) v
  pub still_whole : (v : Bool) → Whole (set ws q (set w r v))

pub byte_bit :
    (ws : List Byte) (q r : ℕ) → Whole ws → q < length ws → r < 8 → (w : Byte) × At ws q r w
byte_bit [] q r h lt small = elim lt [ ]
byte_bit (w ∷ ws) zero r (e, h) lt small =
    let z : 8 * 0 + r ≡ r = omega arith in
    (
      w,
      record {
        byte = refl;
        eight = e;
        same = rw z (get_elem?-append_lt w (bits ws) r (omega arith));
        written = λ v. rw z (sym (set-append_lt w (bits ws) r v (omega arith)));
        still_whole = λ v. (length-set w r v ∙ e, h);
      },
    )
byte_bit (w ∷ ws) (suc q) r (e, h) lt small =
    let (x, at) = byte_bit ws q r h (omega arith) small in
    let z : 8 * suc q + r ≡ length w + (8 * q + r) = omega arith in
    (
      x,
      record {
        byte = at.byte;
        eight = at.eight;
        same = rw z (get_elem?-append_ge w (bits ws) (8 * q + r) ∙ at.same);
        written = λ v.
            rw z (ap (λ t. w ++ t) (at.written v) ∙ sym (set-append_ge w (bits ws) (8 * q + r) v));
        still_whole = λ v. (e, at.still_whole v);
      },
    )
