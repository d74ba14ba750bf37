-- ===== src/Paging/Slots.antt =====
-- The map of the swap slots, as bitmapCreate leaves it.
use ece.Common.{
  ℕ, zero, suc, ◌-◌, ◌≤◌, ◌≡◌, refl, arith, Option, none, some, List, ◌∷◌, ==_false, replicate, Run,
  done, fault, Fault, write-lt, ◌>>=◌,
}
use ece.Paging.{SwapMap, clear_first, bitmap_create, slot_from, allocate_page}

clear_first_lem :
    (rounds : ℕ) (b : List (Option ℕ)) → clear_first rounds (some 0 ∷ b) ≡ done (some 0 ∷ b)
unfolding clear_first
clear_first_lem zero b = refl
clear_first_lem (suc rounds) b =
    rw (write-lt (some 0 ∷ b) 0 (some 0) (omega arith)) (clear_first_lem rounds b)

-- the two allocations
abbrev pub twice : ℕ → Run (ℕ × SwapMap)
twice nbits = do m ← bitmap_create nbits; (first, m') ← allocate_page m; allocate_page m'

created_lem :
    (n : ℕ)
    → bitmap_create (suc (suc n))
      ≡ done (record {
        num_entries = suc (suc n);
        num_free = suc (suc n);
        exist = some 0 ∷ none ∷ replicate n none;
      })
unfolding bitmap_create clear_first
created_lem n = rw (
  write-lt {A = Option ℕ} (none ∷ none ∷ replicate n none) 0 (some 0) (omega arith),
  write-lt {A = Option ℕ} (some 0 ∷ none ∷ replicate n none) 0 (some 0) (omega arith),
  clear_first_lem n (none ∷ replicate n none),
)

-- On a swap area of two pages or more the second allocation reads an entry that was never written,
-- since bitmapCreate clears the first entry only.
pub twice-uninitialised : (nbits : ℕ) → 2 ≤ nbits → twice nbits ≡ fault Fault.uninitialised
unfolding allocate_page slot_from
twice-uninitialised zero h = elim h [ ]
twice-uninitialised (suc zero) h = absurd (omega arith)
twice-uninitialised (suc (suc n)) h =
    let more = ==_false (suc (suc n)) 0 (λ q. omega arith) in
    let one = ==_false (suc (suc n) - 1) 0 (λ q. omega arith) in
    let mark =
      write-lt {A = Option ℕ} (some 0 ∷ none ∷ replicate n none) 0 (some 1) (omega arith) in
    rw (created_lem n, more, mark, one)
