-- ===== src/Queue/Refine.antt =====
-- With memory to spare, a queue answers every sequence of calls as the list of what it holds.
use ece.Common.{
  ℕ, ◌+◌, ◌^◌, ◌≤◌, ◌<◌, ◌≡◌, refl, inl, inr, true, false, ◌++◌, List, [], ◌∷◌, arith, length,
  length-append, Run, done, fault, Fault, ◌>>=◌, success,
}
use ece.Queue.{Queue, empty, remhead, addtail}
use ece.Queue.Holds.{Holds}
use ece.Queue.Calls.{addtail-Added, remhead_lem, remhead_empty, empty_lem, nonempty_lem}
use ece.Queue.Fifo
use ece.Queue.Fifo.{Op, put, take_out, ask_empty, Reply, status, element, answer}

module _ {ℓ} {A : Type ℓ} where
  -- The calls on the queue itself, with an allocator that never refuses.
  pub perform : Queue A → Op A → Run (Reply A × Queue A)
  perform q (put x) = do (s, q') ← addtail (λ _. true) q x; done (status s, q')
  perform q take_out = do (x, q') ← remhead q; done (element x, q')
  perform q ask_empty = done (answer (empty q), q)

  pub run : Queue A → List (Op A) → Run (List (Reply A))
  run q [] = done []
  run q (op ∷ ops) = do (r, q') ← perform q op; rs ← run q' ops; done (r ∷ rs)

  -- One call: both stop, or both go on with the same reply and matching states.
  data Agrees (n : ℕ) : Run (Reply A × Queue A) → Run (Reply A × List A) → Type ℓ where
    stops : (e : Fault) → Agrees n (fault e) (fault e)
    goes :
        (r : Reply A) (q : Queue A) (xs : List A)
        → Holds q xs
        → q.size < 2 ^ 28
        → length xs ≤ n + 1
        → Agrees n (done (r, q)) (done (r, xs))

  agree_by :
      (n : ℕ) {m : Run (Reply A × Queue A)} (r : Reply A) (q : Queue A) (xs : List A)
      → m ≡ done (r, q)
      → Holds q xs
      → q.size < 2 ^ 28
      → length xs ≤ n + 1
      → Agrees n m (done (r, xs))
  agree_by n r q xs e h small less = rw e (goes r q xs h small less)

  perform-Agrees :
      (op : Op A) (xs : List A) {q : Queue A}
      → Holds q xs
      → q.size < 2 ^ 28
      → length xs + 1 < 2 ^ 27
      → Agrees (length xs) (perform q op) (Fifo.perform xs op)
  unfolding perform Fifo.perform
  perform-Agrees (put x) xs h small less = elim (addtail-Added (λ _. true) x h small) [
    | inl (bytes, refused, e) ↦ absurd (cc)
    | inr (b, e, added) ↦
        agree_by (length xs) (status success) b (xs ++ (x ∷ [])) (rw e) added.held
          (omega (arith, added.tight)) (omega (arith, length-append xs (x ∷ [])))
  ]
  perform-Agrees take_out [] h small less = rw (remhead_empty h) (stops Fault.assertion)
  perform-Agrees take_out (x ∷ xs) h small less =
      let (b, e, h', s) = remhead_lem h in
      agree_by (length (x ∷ xs)) (element x) b xs (rw e) h' (omega (arith, s)) (omega arith)
  perform-Agrees ask_empty [] {q} h small less =
      agree_by 0 (answer true) q [] (rw (empty_lem h)) h small (omega arith)
  perform-Agrees ask_empty (x ∷ xs) {q} h small less =
      agree_by (length (x ∷ xs)) (answer false) q (x ∷ xs) (rw (nonempty_lem h)) h small
        (omega arith)

  run_step :
      (n : ℕ) (ops : List (Op A)) {m : Run (Reply A × Queue A)} {s : Run (Reply A × List A)}
      → Agrees n m s
      → ((q : Queue A) (xs : List A)
          → Holds q xs
          → q.size < 2 ^ 28
          → length xs ≤ n + 1
          → run q ops ≡ Fifo.run xs ops)
      → (m >>= λ p. run p.1 ops >>= λ rs. done (p.0 ∷ rs))
        ≡ (s >>= λ p. Fifo.run p.1 ops >>= λ rs. done (p.0 ∷ rs))
  run_step n ops (stops e) ih = refl
  run_step n ops (goes r q xs h small less) ih = rw (ih q xs h small less)

  -- Every sequence of calls of q_addtail, q_remhead and q_empty on a queue of size below 2 ^ 28 gets
  -- the replies that the list of its pointers gives, and stops on an assertion exactly where that
  -- does. The pointers at the start and the calls are together fewer than 2 ^ 27, and memory never
  -- runs out.
  pub run_refines_fifo :
      (ops : List (Op A)) (xs : List A) {q : Queue A}
      → Holds q xs
      → q.size < 2 ^ 28
      → length xs + length ops < 2 ^ 27
      → run q ops ≡ Fifo.run xs ops
  unfolding run Fifo.run
  run_refines_fifo [] xs h small less = refl
  run_refines_fifo (op ∷ ops) xs h small less =
      run_step (length xs) ops (perform-Agrees op xs h small (omega arith))
        (λ b ys h' small' less'. run_refines_fifo ops ys h' small' (omega arith))
