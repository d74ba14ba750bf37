-- ===== src/Bitmap/Mark.antt =====
-- bitmap_mark, bitmap_unmark and bitmap_isset, on the one list of bits.
use ece.Common.{
  ℕ, ◌+◌, ◌*◌, ◌/◌, ◌%◌, ◌≤◌, ◌<◌, ◌≡◌, ◌⊎◌, inl, inr, refl, sym, subst, ap, ◌∙◌, arith, Bool, true,
  false, some, get_elem?, set, get_elem?-set_ne, length-set, lt→ltb, le→ltb_false, Bool-cases,
  dec_lt, Run, done, fault, Fault, read-lt, read_of_get, write-lt,
}
use ece.Bitmap.{Byte, Bitmap, isset, assign_bit, mark, unmark}
use ece.Bitmap.Bits.{bits, Valid, At, byte_bit, length-bits}

module _ (b : Bitmap) (valid : Valid b) (index : ℕ) (lt : index < b.nbits) where
  abbrev Place : Byte → Type 0
  Place w = At b.v (index / 8) (index % 8) w

  place : (w : Byte) × Place w
  place =
      byte_bit b.v (index / 8) (index % 8) valid.whole (omega (arith, valid.words)) (omega arith)

  split : 8 * (index / 8) + index % 8 ≡ index
  split = omega arith

  -- the bitmap with that bit written
  abbrev after : Byte → Bool → Bitmap
  after w bit = record b { v = set b.v (index / 8) (set w (index % 8) bit) }

  after-bits : (w : Byte) → Place w → (bit : Bool) → bits (after w bit).v ≡ set (bits b.v) index bit
  after-bits w at bit =
      subst (λ t. bits (after w bit).v ≡ set (bits b.v) t bit) split (at.written bit)

  after-Valid : (w : Byte) → Place w → (bit : Bool) → Valid (after w bit)
  after-Valid w at bit =
      let same = length-set b.v (index / 8) (set w (index % 8) bit) in
      record {
        whole = at.still_whole bit;
        words = same ∙ valid.words;
        rest_used = λ j ge high. rw (after-bits w at bit) (
            get_elem?-set_ne (bits b.v) bit (λ q. omega arith)
            ∙ valid.rest_used j ge (omega arith));
      }

  -- `bitmap_isset` reads the bit.
  pub isset_lem : (bit : Bool) → get_elem? (bits b.v) index ≡ some bit → isset b index ≡ done bit
  unfolding isset
  isset_lem bit h =
      let (w, at) = place in
      let here : get_elem? w (index % 8) ≡ some bit =
        sym at.same ∙ subst (λ t. get_elem? (bits b.v) t ≡ some bit) (sym split) h in
      rw (read_of_get b.v (index / 8) at.byte) (read_of_get w (index % 8) here)

  assign_bit_lem :
      (bit : Bool)
      → (b' : Bitmap) × (assign_bit b index bit ≡ done b')
        × (bits b'.v ≡ set (bits b.v) index bit)
        × (b'.nbits ≡ b.nbits)
        × Valid b'
  assign_bit_lem bit =
      let (w, at) = place in
      let written = write-lt b.v (index / 8) (set w (index % 8) bit) (omega (arith, valid.words)) in
      (
        after w bit,
        rw (read_of_get b.v (index / 8) at.byte, written),
        after-bits w at bit,
        refl,
        after-Valid w at bit,
      )

-- The outcome of bitmap_mark or bitmap_unmark, which is to turn the bit `index` from `old` to
-- `new`.
pub data Turned (b : Bitmap) (index : ℕ) (old new : Bool) : Run Bitmap → Type 0 where
  out_of_range : b.nbits ≤ index → Turned b index old new (fault Fault.assertion)
  wrong_bit :
      index < b.nbits
      → get_elem? (bits b.v) index ≡ some new
      → Turned b index old new (fault Fault.assertion)
  turned :
      (b' : Bitmap)
      → index < b.nbits
      → get_elem? (bits b.v) index ≡ some old
      → bits b'.v ≡ set (bits b.v) index new
      → b'.nbits ≡ b.nbits
      → Valid b'
      → Turned b index old new (done b')

bit_cases :
    (b : Bitmap) (index : ℕ)
    → Valid b
    → index < b.nbits
    → (get_elem? (bits b.v) index ≡ some true) ⊎ (get_elem? (bits b.v) index ≡ some false)
bit_cases b index valid lt =
    let (bit, r, g) =
      read-lt (bits b.v) index (omega (arith, length-bits b.v valid.whole, valid.words)) in
    elim (Bool-cases bit) [ inl t ↦ inl (g ∙ ap some t) | inr f ↦ inr (g ∙ ap some f) ]

-- In a valid bitmap bitmap_mark sets a clear bit below the size, and changes no other; past the
-- size, and on a bit that is set, it stops on its assertion.
pub mark-Turned : (b : Bitmap) (index : ℕ) → Valid b → Turned b index false true (mark b index)
unfolding mark
mark-Turned b index valid = elim (dec_lt index b.nbits) [
  | no ge ↦ rw (le→ltb_false index b.nbits (omega arith)) (out_of_range (omega arith))
  | yes lt ↦
      let test = lt→ltb index b.nbits lt in
      elim (bit_cases b index valid lt) [
        | inl set ↦ rw (test, isset_lem b valid index lt true set) (wrong_bit lt set)
        | inr clear ↦
            let (b', e, written, size, valid') = assign_bit_lem b valid index lt true in
            rw (test, isset_lem b valid index lt false clear, e)
              (turned b' lt clear written size valid')
      ]
]

-- In a valid bitmap bitmap_unmark clears a set bit below the size, and changes no other; past the
-- size, and on a bit that is clear, it stops on its assertion.
unmark-Turned : (b : Bitmap) (index : ℕ) → Valid b → Turned b index true false (unmark b index)
unfolding unmark
unmark-Turned b index valid = elim (dec_lt index b.nbits) [
  | no ge ↦ rw (le→ltb_false index b.nbits (omega arith)) (out_of_range (omega arith))
  | yes lt ↦
      let test = lt→ltb index b.nbits lt in
      elim (bit_cases b index valid lt) [
        | inr clear ↦ rw (test, isset_lem b valid index lt false clear) (wrong_bit lt clear)
        | inl set ↦
            let (b', e, written, size, valid') = assign_bit_lem b valid index lt false in
            rw (test, isset_lem b valid index lt true set, e) (turned b' lt set written size valid')
      ]
]
