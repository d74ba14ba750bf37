-- ===== src/Bitmap/Tests.antt =====
-- A bitmap of ten bits: two bytes, with six leftover bits that are set.
use ece.Common.{
  ℕ, zero, suc, ◌+◌, ◌-◌, ◌<◌, ◌≡◌, refl, arith, subst, true, false, some, [], ◌∷◌, get_elem?, done,
}
use ece.Bitmap.{Bitmap, create, alloc, mark}
use ece.Bitmap.Bits.{bits, Valid}
use ece.Bitmap.Create.{Fresh, create-Fresh}
use ece.Bitmap.Alloc.{Allocated, alloc-Allocated}
use ece.Bitmap.Mark.{Turned, mark-Turned}

abbrev ten : Bitmap
ten = record {
  nbits = 10;
  v =
      (true ∷ true ∷ true ∷ false ∷ true ∷ true ∷ true ∷ true ∷ [])
      ∷ (true ∷ false ∷ true ∷ true ∷ true ∷ true ∷ true ∷ true ∷ [])
      ∷ [];
}

ten_rest : (k : ℕ) → k < 6 → get_elem? (bits ten.v) (10 + k) ≡ some true
ten_rest zero h = refl
ten_rest (suc zero) h = refl
ten_rest (suc (suc zero)) h = refl
ten_rest (suc (suc (suc zero))) h = refl
ten_rest (suc (suc (suc (suc zero)))) h = refl
ten_rest (suc (suc (suc (suc (suc zero))))) h = refl
ten_rest (suc (suc (suc (suc (suc (suc k)))))) h = absurd (omega arith)

ten-Valid : Valid ten
ten-Valid = record {
  whole = (refl, (refl, tt));
  words = refl;
  rest_used = λ k ge lt.
      let z : 10 + (k - 10) ≡ k = omega arith in
      subst (λ t. get_elem? (bits ten.v) t ≡ some true) z (ten_rest (k - 10) (omega arith));
}

alloc-Allocated_example : Allocated ten (alloc ten)
alloc-Allocated_example = alloc-Allocated ten ten-Valid

mark-Turned_example : Turned ten 9 false true (mark ten 9)
mark-Turned_example = mark-Turned ten 9 ten-Valid

-- A new bitmap of ten bits has them clear.
ten_created :
    create (λ _. true) 10
    ≡ done (
        some (record {
          nbits = 10;
          v =
              (false ∷ false ∷ false ∷ false ∷ false ∷ false ∷ false ∷ false ∷ [])
              ∷ (false ∷ false ∷ true ∷ true ∷ true ∷ true ∷ true ∷ true ∷ [])
              ∷ [];
        }))
unfolding create
ten_created = refl

create-Fresh_example : (b : Bitmap) × (create (λ _. true) 10 ≡ done (some b)) × Fresh 10 b
create-Fresh_example = create-Fresh (λ _. true) 10 (omega arith) refl refl
