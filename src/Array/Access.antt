-- ===== src/Array/Access.antt =====
-- array_getguy, array_setguy and array_remove against the list of elements that a client sees.
use ece.Common.{
  ℕ, suc, ◌+◌, ◌-◌, ◌≤◌, ◌<◌, ◌≡◌, refl, sym, ◌∙◌, Option, some, arith, length, get_elem?, set,
  take, get_elem?-take, subst, length-set, take-set, length-take, remove_at, read-lt, write-lt,
  done, fault, Fault, le→leb, lt→ltb, le→ltb_false,
}
use ece.Array.{Array, cells, getguy, setguy, remove}
use ece.Array.Valid.{IsValid, contents}
use ece.Array.Cells.{memcpy_down}

module _ {ℓ} {A : Type ℓ} {a : Array A} (v : IsValid a) where
  -- `array_getnum` is the length of the contents.
  pub length-contents : length (contents a) ≡ a.num
  length-contents = omega (arith, length-take a.num (cells a.v), v.fits, v.block)

  module _ (index : ℕ) where
    pub getguy_lem :
        index < a.num
        → (x : Option A) × (getguy a index ≡ done x) × (get_elem? (contents a) index ≡ some x)
    unfolding getguy
    getguy_lem h =
        let (x, r, g) = read-lt (cells a.v) index (omega (arith, v.fits, v.block)) in
        (
          x,
          rw (le→leb a.num a.max v.fits, lt→ltb index a.num h) r,
          get_elem?-take a.num (cells a.v) index h ∙ g,
        )

    pub getguy_outside : a.num ≤ index → getguy a index ≡ fault Fault.assertion
    unfolding getguy
    getguy_outside h = rw (le→leb a.num a.max v.fits, le→ltb_false index a.num h)

    pub setguy_lem :
        (x : A)
        → index < a.num
        → (a' : Array A) × (setguy a index x ≡ done a')
          × IsValid a'
          × (contents a' ≡ set (contents a) index (some x))
          × (a'.num ≡ a.num)
    unfolding setguy
    setguy_lem x h = (
      record a { v = some (set (cells a.v) index (some x)) },
      rw (
        le→leb a.num a.max v.fits,
        lt→ltb index a.num h,
        write-lt (cells a.v) index (some x) (omega (arith, v.fits, v.block)),
      ),
      record {
        fits = v.fits;
        block = v.block ∙ sym (length-set (cells a.v) index (some x));
        small = v.small;
      },
      take-set a.num (cells a.v) index (some x),
      refl,
    )

    pub setguy_outside : (x : A) → a.num ≤ index → setguy a index x ≡ fault Fault.assertion
    unfolding setguy
    setguy_outside x h = rw (le→leb a.num a.max v.fits, le→ltb_false index a.num h)

    pub remove_lem :
        index < a.num
        → (a' : Array A) × (remove a index ≡ done a')
          × IsValid a'
          × (contents a' ≡ remove_at index (contents a))
          × (a'.num + 1 ≡ a.num)
    unfolding remove
    remove_lem h =
        let k = a.num - (index + 1) in
        let (c, q, len, t) =
          memcpy_down k index (a.num - 1) (cells a.v) (omega arith)
            (omega (arith, v.fits, v.block)) in
        let whole : suc (a.num - 1) ≡ a.num = omega arith in
        (
          record a { v = some c; num = a.num - 1 },
          rw (le→leb a.num a.max v.fits, lt→ltb index a.num h, q),
          record { fits = omega (arith, v.fits); block = omega (arith, v.block); small = v.small },
          subst (λ k. take (a.num - 1) c ≡ remove_at index (take k (cells a.v))) whole t,
          omega arith,
        )

    pub remove_outside : a.num ≤ index → remove a index ≡ fault Fault.assertion
    unfolding remove
    remove_outside h = rw (le→leb a.num a.max v.fits, le→ltb_false index a.num h)
