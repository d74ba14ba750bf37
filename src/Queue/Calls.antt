-- ===== src/Queue/Calls.antt =====
-- What each routine of a `struct queue` does to the pointers that it holds.
use ece.Common.{
  ℕ, suc, ◌+◌, ◌*◌, ◌⊎◌, ◌%◌, ◌^◌, ◌≤◌, ◌<◌, ◌≡◌, refl, inl, inr, Bool, true, false, some, List, [],
  ◌∷◌, ◌++◌, arith, length, set, read_of_get, write-lt, done, fault, Fault, lt→ltb, ◌==◌, ==_true,
  ==_false, dec_lt, Bool-cases, ltb, pointer_bytes,
}
use ece.Queue.{Queue, create, empty, remhead, addtail, preallocate}
use ece.Queue.Holds.{
  Holds, Holds-inside, Holds-snoc, Holds-tail, Holds-empty, Holds-ne, Holds-full, max_size,
}
use ece.Queue.Grow.{Attempt, Stored, Grown, grow-Grown, addtail_room, fresh, fresh-Holds}

module _ {ℓ} {A : Type ℓ} where
  pub empty_lem : {q : Queue A} → Holds q [] → empty q ≡ true
  unfolding empty
  empty_lem {q} h = ==_true q.nextwrite q.nextread (Holds-empty h)

  pub nonempty_lem : {q : Queue A} {x : A} {xs : List A} → Holds q (x ∷ xs) → empty q ≡ false
  unfolding empty
  nonempty_lem {q} h = ==_false q.nextwrite q.nextread (Holds-ne h)

  -- `q_remhead` returns the oldest pointer and keeps the others, in order.
  pub remhead_lem :
      {q : Queue A} {x : A} {xs : List A}
      → Holds q (x ∷ xs)
      → (q' : Queue A) × (remhead q ≡ done (x, q')) × Holds q' xs × (q'.size ≡ q.size)
  unfolding remhead
  remhead_lem {q} h = (
    record q { nextread = (q.nextread + 1) % q.size },
    rw (
      lt→ltb 0 q.size (omega (arith, h.room)),
      ==_false q.nextwrite q.nextread (Holds-ne h),
      read_of_get q.slots q.nextread (h.live.0),
    ),
    Holds-tail h,
    refl,
  )

  pub remhead_empty : {q : Queue A} → Holds q [] → remhead q ≡ fault Fault.assertion
  unfolding remhead
  remhead_empty {q} h =
      rw (lt→ltb 0 q.size (omega (arith, h.room)), ==_true q.nextwrite q.nextread (Holds-empty h))

-- `x` behind the others, in a ring that is no smaller, and at most twice what it must hold where it
-- grew
pub record Added {ℓ} {A : Type ℓ} (q : Queue A) (xs : List A) (x : A) (q' : Queue A) : Type ℓ where
  pub held : Holds q' (xs ++ (x ∷ []))
  pub wider : q.size ≤ q'.size
  pub tight : (q'.size ≤ q.size) ⊎ (q'.size ≤ 2 * (length xs + 1))

module _ {ℓ} {A : Type ℓ} (kmalloc : ℕ → Bool) where
  -- With room nothing is allocated, and the ring keeps its size.
  pub addtail_fits :
      {q : Queue A} {xs : List A} (x : A)
      → Holds q xs
      → length xs + 1 < q.size
      → Stored q xs x (addtail kmalloc q x)
  unfolding addtail
  addtail_fits {q} {xs} x h room = addtail_room kmalloc 1 q xs x h room

  -- `q_addtail` adds its pointer behind the others, growing the ring where it is full; it fails
  -- only where the allocator refuses, and then changes nothing.
  pub addtail-Added :
      {q : Queue A} {xs : List A} (x : A)
      → Holds q xs
      → q.size < 2 ^ 28
      → Attempt kmalloc q (Added q xs x) (addtail kmalloc q x)
  unfolding addtail
  addtail-Added {q} {xs} x h small = elim (dec_lt (length xs + 1) q.size) [
    | yes room ↦
        let (q', e, h', s) = addtail_room kmalloc 1 q xs x h room in
        inr (q', e, record { held = h'; wider = omega (arith, s); tight = inl (omega (arith, s)) })
    | no full ↦
        let filled : suc (length xs) ≡ q.size = omega (arith, h.room) in
        let meets : ((q.nextwrite + 1) % q.size) == q.nextread ≡ true =
          ==_true _ _ (Holds-full h filled) in
        elim (grow-Grown kmalloc 0 (q.size + 1) h (omega arith)) [
          | inl (bytes, refused, e) ↦
              inl (bytes, refused, rw (lt→ltb 0 q.size (omega (arith, h.room)), meets, e))
          | inr (b, e, g) ↦ inr (
            record b {
              slots = set b.slots b.nextwrite (some x);
              nextwrite = (b.nextwrite + 1) % b.size;
            },
            rw (
              lt→ltb 0 q.size (omega (arith, h.room)),
              meets,
              e,
              write-lt b.slots b.nextwrite (some x) (Holds-inside g.held),
            ),
            record {
              held = Holds-snoc x g.held (omega (arith, g.wide));
              wider = g.wider;
              tight = elim g.tight [ inl same ↦ inl same | inr double ↦ inr (omega arith) ];
            },
          )
        ]
  ]

  -- `q_preallocate`, for at most 2 ^ 28 pointers, leaves the queue's pointers in their order in a
  -- ring of at least that size and no smaller than before; it fails only where the allocator
  -- refuses, and then changes nothing.
  preallocate-Grown :
      {q : Queue A} {xs : List A} (size : ℕ)
      → Holds q xs
      → size ≤ 2 ^ 28
      → Attempt kmalloc q (Grown kmalloc q xs size) (preallocate kmalloc q size)
  unfolding preallocate
  preallocate-Grown {q} {xs} size h small = elim (Bool-cases (ltb q.size size)) [
    | inl more ↦ elim (grow-Grown kmalloc 0 size h small) [
      | inl (bytes, refused, e) ↦
          inl (bytes, refused, rw (lt→ltb 0 q.size (omega (arith, h.room)), more) e)
      | inr (b, e, g) ↦ inr (b, rw (lt→ltb 0 q.size (omega (arith, h.room)), more) e, g)
    ]
    | inr enough ↦ inr (
      q,
      rw (lt→ltb 0 q.size (omega (arith, h.room)), enough),
      record { held = h; wide = ground arith; wider = omega arith; tight = inl (omega arith) },
    )
  ]

  -- A queue of any positive size starts out empty, if the allocator gives its two blocks.
  pub create-Holds :
      (size : ℕ)
      → 0 < size
      → size ≤ max_size
      → kmalloc 16 ≡ true
      → kmalloc (pointer_bytes size) ≡ true
      → (q : Queue A) × (create kmalloc size ≡ some q) × Holds q []
  unfolding create
  create-Holds size pos top header block =
      (fresh kmalloc size, rw (header, block), fresh-Holds kmalloc size pos top)
