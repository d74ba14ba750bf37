-- ===== src/Array/Refine.antt =====
-- With memory to spare, an array answers every sequence of calls as the sequence of its contents.
use ece.Common.{
  ℕ, ◌+◌, ◌^◌, ◌≤◌, ◌<◌, ◌≡◌, refl, inl, inr, true, false, Option, List, [], ◌∷◌, arith, length,
  ltb, Run, done, fault, Fault, ◌>>=◌, lt→ltb, le→ltb_false, dec_lt, read_of_get, success,
}
use ece.Array.{Array, getnum, getguy, setguy, remove, add}
use ece.Array.Valid.{IsValid, contents}
use ece.Array.Resize.{add-Added}
use ece.Array.Access.{
  length-contents, getguy_lem, getguy_outside, setguy_lem, setguy_outside, remove_lem,
  remove_outside,
}
use ece.Array.Sequence
use ece.Array.Sequence.{
  Op, append, delete, assign, fetch, count, Reply, status, returned, element, number,
}

module _ {ℓ} {A : Type ℓ} where
  -- The calls on the array itself, with an allocator that never refuses.
  unfoldable pub perform : Array A → Op A → Run (Reply A × Array A)
  perform a (append x) = do (s, a') ← add (λ _. true) a x; done (status s, a')
  perform a (delete i) = do a' ← remove a i; done (returned, a')
  perform a (assign i x) = do a' ← setguy a i x; done (returned, a')
  perform a (fetch i) = do x ← getguy a i; done (element x, a)
  perform a count = done (number (getnum a), a)

  unfoldable pub run : Array A → List (Op A) → Run (List (Reply A))
  run a [] = done []
  run a (op ∷ ops) = do (r, a') ← perform a op; rs ← run a' ops; done (r ∷ rs)

  -- One call: both stop, or both go on with the same reply and matching states.
  data Agrees (n : ℕ) : Run (Reply A × Array A) → Run (Reply A × List (Option A)) → Type ℓ where
    stops : (e : Fault) → Agrees n (fault e) (fault e)
    goes :
        (r : Reply A) (a : Array A)
        → IsValid a
        → a.num ≤ n + 1
        → Agrees n (done (r, a)) (done (r, contents a))

  agree_by :
      (n : ℕ) {m : Run (Reply A × Array A)} {s : Run (Reply A × List (Option A))} (r : Reply A)
      (a : Array A)
      → m ≡ done (r, a)
      → s ≡ done (r, contents a)
      → IsValid a
      → a.num ≤ n + 1
      → Agrees n m s
  agree_by n r a p q v h = rw (p, q) (goes r a v h)

  stop_by :
      (n : ℕ) {m : Run (Reply A × Array A)} {s : Run (Reply A × List (Option A))} (e : Fault)
      → m ≡ fault e
      → s ≡ fault e
      → Agrees n m s
  stop_by n e p q = rw (p, q) (stops e)

  module _ {a : Array A} (v : IsValid a) (i : ℕ) where
    inside : i < a.num → ltb i (length (contents a)) ≡ true
    inside h = rw (length-contents v) (lt→ltb i a.num h)

    outside : a.num ≤ i → ltb i (length (contents a)) ≡ false
    outside h = rw (length-contents v) (le→ltb_false i a.num h)

  perform-Agrees :
      (op : Op A) {a : Array A}
      → IsValid a
      → a.num + 1 < 2 ^ 29
      → Agrees a.num (perform a op) (Sequence.perform (contents a) op)
  unfolding perform Sequence.perform
  perform-Agrees (append x) {a} v h = elim (add-Added (λ _. true) x v h) [
    | inl (bytes, refused, e) ↦ absurd (cc)
    | inr (a', e, added) ↦
        agree_by a.num (status success) a' (rw e) (rw (added.1)) added.0 (omega (arith, added.2))
  ]
  perform-Agrees (delete i) {a} v h = elim (dec_lt i a.num) [
    | yes lt ↦
        let (a', e, v', c, n) = remove_lem v i lt in
        agree_by a.num returned a' (rw e) (rw (inside v i lt, c)) v' (omega arith)
    | no ge ↦
        stop_by a.num Fault.assertion (rw (remove_outside v i (omega arith)))
          (rw (outside v i (omega arith)))
  ]
  perform-Agrees (assign i x) {a} v h = elim (dec_lt i a.num) [
    | yes lt ↦
        let (a', e, v', c, n) = setguy_lem v i x lt in
        agree_by a.num returned a' (rw e) (rw (inside v i lt, c)) v' (omega arith)
    | no ge ↦
        stop_by a.num Fault.assertion (rw (setguy_outside v i x (omega arith)))
          (rw (outside v i (omega arith)))
  ]
  perform-Agrees (fetch i) {a} v h = elim (dec_lt i a.num) [
    | yes lt ↦
        let (x, e, g) = getguy_lem v i lt in
        agree_by a.num (element x) a (rw e) (rw (inside v i lt, read_of_get (contents a) i g)) v
          (omega arith)
    | no ge ↦
        stop_by a.num Fault.assertion (rw (getguy_outside v i (omega arith)))
          (rw (outside v i (omega arith)))
  ]
  perform-Agrees count {a} v h =
      agree_by a.num (number a.num) a refl (rw (length-contents v)) v (omega arith)

  -- The replies of one call, then those of the rest.
  run_step :
      (n : ℕ) (ops : List (Op A)) {m : Run (Reply A × Array A)}
      {s : Run (Reply A × List (Option A))}
      → Agrees n m s
      → ((b : Array A) → IsValid b → b.num ≤ n + 1 → run b ops ≡ Sequence.run (contents b) ops)
      → (m >>= λ p. run p.1 ops >>= λ rs. done (p.0 ∷ rs))
        ≡ (s >>= λ p. Sequence.run p.1 ops >>= λ rs. done (p.0 ∷ rs))
  run_step n ops (stops e) ih = refl
  run_step n ops (goes r a v h) ih = rw (ih a v h)

  -- Every sequence of calls of array_add, array_remove, array_setguy, array_getguy and array_getnum
  -- gets the replies that the sequence of the elements gives, and stops on an assertion exactly where
  -- that does. The elements at the start and the calls are together fewer than 2 ^ 29, and memory
  -- never runs out.
  pub run_refines_sequence :
      (ops : List (Op A)) {a : Array A}
      → IsValid a
      → a.num + length ops < 2 ^ 29
      → run a ops ≡ Sequence.run (contents a) ops
  unfolding run Sequence.run
  run_refines_sequence [] v h = refl
  run_refines_sequence (op ∷ ops) {a} v h =
      run_step a.num ops (perform-Agrees op v (omega arith))
        (λ b v' h'. run_refines_sequence ops v' (omega arith))
