-- ===== src/Array/Sequence.antt =====
-- What include/array.h promises: a sequence of pointers, a call with an index outside it stopping
-- the kernel. `none` is an element that was never written.
use ece.Common.{
  ℕ, Option, some, List, [], ◌∷◌, ◌++◌, ltb, Run, done, assert, ◌>>=◌, ◌>>◌, length, set, remove_at,
  read, Status, success,
}

pub data Op {ℓ} (A : Type ℓ) : Type ℓ where
  append : A → Op A
  delete : ℕ → Op A
  assign : ℕ → A → Op A
  fetch : ℕ → Op A
  count : Op A

pub data Reply {ℓ} (A : Type ℓ) : Type ℓ where
  status : Status → Reply A
  returned : Reply A
  element : Option A → Reply A
  number : ℕ → Reply A

module _ {ℓ} {A : Type ℓ} where
  unfoldable pub perform : List (Option A) → Op A → Run (Reply A × List (Option A))
  perform c (append x) = done (status success, c ++ (some x ∷ []))
  perform c (delete i) = do assert (ltb i (length c)); done (returned, remove_at i c)
  perform c (assign i x) = do assert (ltb i (length c)); done (returned, set c i (some x))
  perform c (fetch i) = do assert (ltb i (length c)); x ← read c i; done (element x, c)
  perform c count = done (number (length c), c)

  unfoldable pub run : List (Option A) → List (Op A) → Run (List (Reply A))
  run c [] = done []
  run c (op ∷ ops) = do (r, c') ← perform c op; rs ← run c' ops; done (r ∷ rs)
