-- ===== src/Queue/Grow.antt =====
-- q_addtail with room, and q_grow, which calls it for each pointer that the old ring held.
use ece.Common.{
  ℕ, zero, suc, ◌+◌, ◌-◌, ◌*◌, ◌/◌, ◌%◌, ◌^◌, ◌≤◌, ◌<◌, ◌≡◌, refl, sym, subst, ◌∙◌, ◌⊎◌, inl, inr,
  Bool, false, Option, none, some, List, [], ◌∷◌, ◌++◌, append_assoc, append-nil, arith, length,
  length-append, set, read_of_get, write-lt, Run, done, Status, success, enomem, ltb, ◌==◌, ltb→lt,
  lt→ltb, ==_false, ==_true, Bool-cases, pointer_bytes, fresh_cells, length-replicate, int_limit,
}
use native.Mathlib.Nat.{mod-eq_of_lt}
use ece.Queue.{Queue, double, requeue, grow, addtail_deep}
use ece.Queue.Holds.{
  Live, Holds, max_size, Holds-inside, Holds-snoc, Holds-next, round_ne, round_suc,
}

-- The doubling loop ends within `target + 1` rounds, at a size that holds `target`.
double_lem :
    (fuel target n : ℕ)
    → target - n < fuel
    → target ≤ 2 ^ 28
    → 0 < n
    → n ≤ max_size
    → (r : ℕ) × (double fuel target n ≡ done r)
      × (target ≤ r)
      × (n ≤ r)
      × (r ≤ max_size)
      × ((r ≤ n) ⊎ (r + 2 ≤ 2 * target))
unfolding double
double_lem zero target n f t pos h = absurd (omega arith)
double_lem (suc fuel) target n f t pos h = elim (Bool-cases (ltb n target)) [
  | inl more ↦
      let lt = ltb→lt n target more in
      let (r, q, big, up, top, tight) =
        double_lem fuel target (n * 2) (omega arith) t (omega arith) (omega arith) in
      (
        r,
        rw (more, lt→ltb (n * 2) int_limit (omega arith), lt→ltb 0 (n * 2) (omega arith)) q,
        big,
        omega arith,
        top,
        inr (omega arith),
      )
  | inr enough ↦ (n, rw enough, ground arith, omega arith, h, inl (omega arith))
]

module _ {ℓ} {A : Type ℓ} where
  -- What adding `x` gives.
  abbrev pub Stored : Queue A → List A → A → Run (Status × Queue A) → Type ℓ
  Stored q xs x r =
      (q' : Queue A) × (r ≡ done (success, q')) × Holds q' (xs ++ (x ∷ [])) × (q'.size ≡ q.size)

  -- a way of adding that works where there is room
  abbrev pub AddsWithRoom : (Queue A → A → Run (Status × Queue A)) → Type ℓ
  AddsWithRoom add =
      (q : Queue A) (xs : List A) (x : A)
      → Holds q xs
      → length xs + 1 < q.size
      → Stored q xs x (add q x)

  module _ (kmalloc : ℕ → Bool) where
    -- With room, one level of the recursion is enough, and nothing is allocated.
    pub addtail_room : (depth : ℕ) → AddsWithRoom (addtail_deep kmalloc (suc depth))
    unfolding addtail_deep
    addtail_room depth q xs x h less =
        let space : ((q.nextwrite + 1) % q.size) == q.nextread ≡ false = ==_false _ _ (λ p.
          round_ne {k = suc (length xs)} h.read_in (omega arith) (omega arith)
            (sym (Holds-next h) ∙ p)) in
        (
          record q {
            slots = set q.slots q.nextwrite (some x);
            nextwrite = (q.nextwrite + 1) % q.size;
          },
          rw (
            lt→ltb 0 q.size (omega arith),
            space,
            write-lt q.slots q.nextwrite (some x) (Holds-inside h),
          ),
          Holds-snoc x h less,
          refl,
        )

  -- The loop of `q_grow` moves every pointer over, in order.
  requeue_lem :
      (add : Queue A → A → Run (Status × Queue A))
      → AddsWithRoom add
      → (fuel : ℕ) (old : List (Option A)) (i onw osize : ℕ) (q : Queue A) (ys xs : List A)
      → length xs < fuel
      → i < osize
      → length xs < osize
      → onw ≡ (i + length xs) % osize
      → Live old osize i xs
      → Holds q ys
      → length ys + length xs < q.size
      → (q' : Queue A) × (requeue add fuel old i onw osize q ≡ done q')
        × Holds q' (ys ++ xs)
        × (q'.size ≡ q.size)
  unfolding requeue
  requeue_lem add adds zero old i onw osize q ys xs f hi hx e l h room = absurd (omega arith)
  requeue_lem add adds (suc fuel) old i onw osize q ys [] f hi hx e l h room =
      let z : i ≡ onw = omega (arith, mod-eq_of_lt {n = i + 0} {m = osize} (omega arith)) in
      (q, rw (==_true i onw z), rw append-nil h, refl)
  requeue_lem add adds (suc fuel) old i onw osize q ys (x ∷ xs) f hi hx e l h room =
      let far : i == onw ≡ false =
        ==_false i onw (λ p. round_ne {k = suc (length xs)} hi (omega arith) hx (sym e ∙ sym p)) in
      let (q₁, a, h₁, s₁) = adds q ys x h (omega arith) in
      let (q₂, r, h₂, s₂) =
        requeue_lem add adds fuel old ((i + 1) % osize) onw osize q₁ (ys ++ (x ∷ [])) xs
          (omega arith) (omega arith) (omega arith) (e ∙ round_suc osize i (length xs)) l.1 h₁
          (omega (arith, s₁, length-append ys (x ∷ []))) in
      (
        q₂,
        rw (far, read_of_get old i l.0, a) r,
        subst (Holds q₂) (append_assoc ys (x ∷ []) xs) h₂,
        s₂ ∙ s₁,
      )

module _ {ℓ} {A : Type ℓ} (kmalloc : ℕ → Bool) where
  -- Refused by the allocator, with the queue as it was, or done.
  abbrev pub Attempt : Queue A → (Queue A → Type ℓ) → Run (Status × Queue A) → Type ℓ
  Attempt q Q r =
      ((bytes : ℕ) × (kmalloc bytes ≡ false) × (r ≡ done (enomem, q)))
      ⊎ ((q' : Queue A) × (r ≡ done (success, q')) × Q q')

  pub record Grown (q : Queue A) (xs : List A) (target : ℕ) (q' : Queue A) : Type ℓ where
    pub held : Holds q' xs
    pub wide : target ≤ q'.size
    pub wider : q.size ≤ q'.size
    pub tight : (q'.size ≤ q.size) ⊎ (q'.size + 2 ≤ 2 * target)

  -- a ring just allocated
  abbrev pub fresh : ℕ → Queue A
  fresh m = record { size = m; nextwrite = 0; nextread = 0; slots = fresh_cells (pointer_bytes m) }

  pub fresh-Holds : (m : ℕ) → 0 < m → m ≤ max_size → Holds (fresh m) []
  fresh-Holds m pos top = record {
    block = omega (arith, length-replicate {A = Option A} (pointer_bytes m / 4) none);
    small = top;
    read_in = pos;
    tail = omega (arith, mod-eq_of_lt {n = 0 + 0} {m = m} pos);
    room = pos;
    live = tt;
  }

  pub grow-Grown :
      (depth : ℕ) {q : Queue A} {xs : List A} (target : ℕ)
      → Holds q xs
      → target ≤ 2 ^ 28
      → Attempt q (Grown q xs target) (grow kmalloc (addtail_deep kmalloc (suc depth)) q target)
  unfolding grow
  grow-Grown depth {q} {xs} target h small =
      let (m, d, big, up, top, tight) =
        double_lem (target + 1) target q.size (omega arith) small (omega (arith, h.room)) h.small in
      let (q', r, h', s) =
        requeue_lem (addtail_deep kmalloc (suc depth)) (addtail_room kmalloc depth) (q.size + 1)
          q.slots q.nextread q.nextwrite q.size (fresh m) [] xs (omega (arith, h.room)) h.read_in
          h.room h.tail h.live (fresh-Holds m (omega (arith, h.room)) top)
          (omega (arith, h.room)) in
      elim (Bool-cases (kmalloc (pointer_bytes m))) [
        | inl given ↦ inr (
          q',
          rw (d, given, r),
          record { held = h'; wide = rw s big; wider = rw s up; tight = rw s tight },
        )
        | inr refused ↦ inl (pointer_bytes m, refused, rw (d, refused))
      ]
