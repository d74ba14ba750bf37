-- ===== src/Array/Tests.antt =====
-- Runs of os161/kern/lib/array.c on small arrays, and the theorems at such arrays.
use ece.Common.{
  ℕ, ◌≡◌, refl, Bool, true, none, some, List, [], ◌∷◌, arith, ltb, done, fault, Fault, success,
}
use ece.Array.{
  Array, getguy, setguy, remove, setsize, preallocate, add, release, copy, memcpy, grow_max,
}
use ece.Array.Valid.{IsValid, contents}
use ece.Array.Sequence
use ece.Array.Sequence.{
  Op, append, delete, assign, fetch, count, Reply, status, returned, element, number,
}
use ece.Array.Refine.{run, perform, run_refines_sequence}

-- three pointers in a block of four
abbrev three : Array ℕ
three = record { num = 3; max = 4; v = some (some 7 ∷ some 8 ∷ some 9 ∷ none ∷ []) }

abbrev plenty : ℕ → Bool
plenty _ = true

-- an allocator with blocks of less than 24 bytes only
abbrev scarce : ℕ → Bool
scarce bytes = ltb bytes 24

abbrev script : List (Op ℕ)
script = append 1 ∷ append 2 ∷ delete 0 ∷ assign 1 5 ∷ fetch 1 ∷ count ∷ fetch 4 ∷ []

three-IsValid : IsValid three
three-IsValid = omega arith

remove_first :
    remove three 0
    ≡ done (record { num = 2; max = 4; v = some (some 8 ∷ some 9 ∷ some 9 ∷ none ∷ []) })
unfolding remove memcpy
remove_first = refl

-- The fifth pointer makes a block of ten.
add_grows :
    add plenty (record three { num = 4 }) 1
    ≡ done (
      success,
      record {
        num = 5;
        max = 10;
        v = some (some 7 ∷ some 8 ∷ some 9 ∷ none ∷ some 1 ∷ none ∷ none ∷ none ∷ none ∷ none ∷ []);
      },
    )
unfolding add setsize preallocate grow_max copy
add_grows = refl

script_stops : run three script ≡ fault Fault.assertion
unfolding run perform add setsize preallocate release grow_max copy remove memcpy getguy setguy
script_stops = refl

run_refines_sequence_example : run three script ≡ Sequence.run (contents three) script
run_refines_sequence_example = run_refines_sequence script three-IsValid (omega arith)
