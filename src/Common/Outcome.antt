-- ===== src/Common/Outcome.antt =====
-- How a kernel routine ends: it returns, or the machine stops in it.
use mathlib.Core.Path.{◌≡◌, refl}
use mathlib.Core.Bool.{Bool, true, false}

-- The ways to stop. A C `int` that overflows and a read of a variable that was never assigned are
-- undefined in C; `wild` is an access outside the object that a pointer points into, or through
-- NULL; `spinning` is a loop or a recursion that outlasts the fuel given to it.
pub data Fault : Type 0 where
  assertion panicked overflow uninitialised wild spinning : Fault

pub data Run {ℓ} (A : Type ℓ) : Type ℓ where
  done : A → Run A
  fault : Fault → Run A

infixl 5 ◌>>=◌ ◌>>◌
abbrev pub ◌>>=◌ {ℓ κ} : {A : Type ℓ} {B : Type κ} → Run A → (A → Run B) → Run B
done a >>= f = f a
fault e >>= f = fault e

abbrev pub ◌>>◌ {ℓ} : {B : Type ℓ} → Run (Unit {0}) → Run B → Run B
m >> k = m >>= λ _. k

-- `assert(b)` of include/lib.h
abbrev pub assert : Bool → Run (Unit {0})
assert true = done tt
assert false = fault Fault.assertion

-- Inversion of a successful bind, for proofs where the parts stay shut.
pub >>=-eq-done {ℓ κ} :
    {A : Type ℓ} {B : Type κ} (m : Run A) (f : A → Run B) {b : B}
    → (m >>= f) ≡ done b
    → (a : A) × (m ≡ done a) × (f a ≡ done b)
>>=-eq-done (done a) f h = (a, refl, h)
>>=-eq-done (fault e) f h = cc

-- What the kernel's routines return in an `int`: 0, or a code of include/kern/errno.h.
pub data Status : Type 0 where
  success enomem einval eagain enospc efault : Status

-- `if (result)`
abbrev pub failed : Status → Bool
failed success = false
failed _ = true
