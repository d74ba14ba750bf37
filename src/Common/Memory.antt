-- ===== src/Common/Memory.antt =====
-- Reads and writes of the cells of one object, with a fault outside it.
use Prim.Native.Nat.{ℕ, zero, suc, ◌*◌, ◌/◌, ◌%◌, ◌^◌, ◌<◌}
use mathlib.Core.Path.{◌≡◌, refl}
use mathlib.Core.Option.{Option, none, some}
use mathlib.Core.List.{List, [], ◌∷◌}
use native.Mathlib.Omega.{arith}
use ece.Common.Tests.{ltb, if◌then◌else◌}
use ece.Common.Lists.{length, get_elem?, set, replicate}
use ece.Common.Outcome.{Run, done, fault, Fault}

module _ {ℓ} {A : Type ℓ} where
  abbrev pub read : List A → ℕ → Run A
  read [] i = fault Fault.wild
  read (x ∷ xs) zero = done x
  read (x ∷ xs) (suc i) = read xs i

  abbrev pub write : List A → ℕ → A → Run (List A)
  write xs i v = if ltb i (length xs) then done (set xs i v) else fault Fault.wild

  pub read-lt :
      (xs : List A) (i : ℕ)
      → i < length xs
      → (x : A) × (read xs i ≡ done x) × (get_elem? xs i ≡ some x)
  read-lt [] i h = elim h [ ]
  read-lt (x ∷ xs) zero h = (x, refl, refl)
  read-lt (x ∷ xs) (suc i) h = read-lt xs i (omega arith)

  pub read_of_get : (xs : List A) (i : ℕ) {x : A} → get_elem? xs i ≡ some x → read xs i ≡ done x
  read_of_get [] i h = cc
  read_of_get (x ∷ xs) zero h = cc
  read_of_get (x ∷ xs) (suc i) h = read_of_get xs i h

  pub write-lt : (xs : List A) (i : ℕ) (v : A) → i < length xs → write xs i v ≡ done (set xs i v)
  write-lt xs i v h = ground arith

-- The largest `int` is one less.
abbrev pub int_limit : ℕ
int_limit = 2 ^ 31

-- `n * sizeof(void *)` as a `size_t`
abbrev pub pointer_bytes : ℕ → ℕ
pointer_bytes n = n * 4 % 2 ^ 32

-- A fresh block of that many bytes, as cells of pointers: `none` is a cell never written.
abbrev pub fresh_cells {ℓ} : {A : Type ℓ} → ℕ → List (Option A)
fresh_cells bytes = replicate (bytes / 4) none

-- The pointer in a cell, where it is used.
abbrev pub pointer {ℓ} : {A : Type ℓ} → Option A → Run A
pointer none = fault Fault.uninitialised
pointer (some x) = done x
