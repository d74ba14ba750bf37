-- ===== src/Queue/Fifo.antt =====
-- What include/queue.h promises: pointers come out in the order in which they went in, and taking
-- one from an empty queue stops the kernel.
use ece.Common.{
  Bool, true, false, List, [], ◌∷◌, ◌++◌, Run, done, fault, Fault, ◌>>=◌, Status, success,
}

pub data Op {ℓ} (A : Type ℓ) : Type ℓ where
  put : A → Op A
  take_out : Op A
  ask_empty : Op A

pub data Reply {ℓ} (A : Type ℓ) : Type ℓ where
  status : Status → Reply A
  element : A → Reply A
  answer : Bool → Reply A

module _ {ℓ} {A : Type ℓ} where
  unfoldable pub perform : List A → Op A → Run (Reply A × List A)
  perform xs (put x) = done (status success, xs ++ (x ∷ []))
  perform [] take_out = fault Fault.assertion
  perform (x ∷ xs) take_out = done (element x, xs)
  perform [] ask_empty = done (answer true, [])
  perform (x ∷ xs) ask_empty = done (answer false, x ∷ xs)

  unfoldable pub run : List A → List (Op A) → Run (List (Reply A))
  run xs [] = done []
  run xs (op ∷ ops) = do (r, ys) ← perform xs op; rs ← run ys ops; done (r ∷ rs)
