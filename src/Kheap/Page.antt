-- ===== src/Kheap/Page.antt =====
-- One block taken from a page, and one put back.
use ece.Common.{
  ℕ, suc, ◌+◌, ◌-◌, ◌*◌, ◌/◌, ◌%◌, ◌≤◌, ◌<◌, ◌≡◌, ◌≢◌, ◌⊎◌, inl, inr, refl, sym, subst, ◌∙◌, arith,
  List, [], ◌∷◌, length, ◌==◌, ==_false, lt→ltb, if◌then◌else◌, done,
}
use ece.Coremap.{word, page_size}
use ece.Kheap.{
  PageRef, Heap, size_of, page_of, type_of, unlink, update, take, put_back, invalid_offset,
  fill_deadbeef,
}
use ece.Kheap.Chain.{
  In, next_word, head_offset, Blocks, Chain-agree, Blocks-small, Blocks-whole, NotIn-ne,
  update_self, update_ne, fill_outside, apart_blocks,
}
use ece.Kheap.Valid.{
  PageOk, size_facts, In-unlink, Blocks-unlink, Blocks-Distinct, NotIn-unlink_self, length-unlink,
  NotIn-of, NotIn-not,
}

-- the pageref after its first free block was taken
abbrev pub taken : PageRef → List ℕ → PageRef
taken r fs = record r { nfree = length fs; freelist_offset = head_offset fs }

module _ {mem : ℕ → ℕ} {r : PageRef} {o : ℕ} {fs us : List ℕ} (ok : PageOk mem r (o ∷ fs) us) where
  pub taken-PageOk : PageOk mem (taken r fs) fs (o ∷ us)
  taken-PageOk =
      let (small, whole, apart, rest) = ok.free_blocks in
      record {
        typed = ok.typed;
        positive = ok.positive;
        fits = ok.fits;
        offset = refl;
        count = refl;
        chain = ok.chain.1;
        free_blocks = rest;
        used_blocks = (small, whole, NotIn-of o us (λ i. ok.apart o (inl refl) i), ok.used_blocks);
        apart = λ x i.
            λ j. elim j [ inl q ↦ NotIn-ne o fs apart x i (sym q) | inr k ↦ ok.apart x (inr i) k ];
        total = omega (arith, ok.total);
      }

-- A block is taken without a failing assertion, and memory stays as it is.
pub take_lem :
    (pr : ℕ) (h : Heap) (o : ℕ) (fs us : List ℕ)
    → PageOk h.mem (h.refs pr) (o ∷ fs) us
    → take pr h
      ≡ done (page_of (h.refs pr) + o, record h { refs = update h.refs pr (taken (h.refs pr) fs) })
unfolding take
take_lem pr h o [] us ok =
    let (small, whole, apart, rest) = ok.free_blocks in
    let none_left : ((h.refs pr).nfree + 65535) % 65536 ≡ 0 = omega (arith, ok.count) in
    rw (ok.offset, lt→ltb o page_size small, ok.chain.0, none_left)
take_lem pr h o (p ∷ fs) us ok =
    let (small, whole, apart, (small', part, away, rest)) = ok.free_blocks in
    let (low, high, two, most, exact, words) = size_facts (type_of (h.refs pr)) ok.typed in
    let left : ((h.refs pr).nfree + 65535) % 65536 ≡ suc (length fs) =
      omega (arith, ok.count, ok.total) in
    let link : h.mem (page_of (h.refs pr) + o) ≡ page_of (h.refs pr) + p = ok.chain.0 in
    let linked = ==_false (page_of (h.refs pr) + p) 0 (λ q. omega (arith, ok.positive)) in
    let next : (page_of (h.refs pr) + p + word - page_of (h.refs pr)) % word ≡ p = omega arith in
    rw (
      ok.offset,
      lt→ltb o page_size small,
      link,
      linked,
      left,
      lt→ltb 0 (suc (length fs)) (omega arith),
      next,
      lt→ltb p page_size small',
    )

-- The link that put_back writes.
link_word :
    (page off size : ℕ) (fs : List ℕ)
    → Blocks size fs
    → off ≡ head_offset fs
    → (if off == invalid_offset then 0 else page + off) ≡ next_word page fs
link_word page off size [] b e = rw e
link_word page off size (o ∷ fs) (small, whole, apart, rest) e =
    rw (e, ==_false o invalid_offset (λ q. omega arith))

-- A block in use is put back: it is the first free block of its page.
module _ (pr o : ℕ) (h : Heap) (fs us : List ℕ) (ok : PageOk h.mem (h.refs pr) fs us)
    (i : In o us) where
  abbrev back : PageRef
  back = record (h.refs pr) { freelist_offset = o; nfree = suc (length fs) }

  few : suc (length fs) ≤ 256
  few =
      let (low, high, two, most, exact, words) = size_facts (type_of (h.refs pr)) ok.typed in
      omega (arith, ok.total, length-unlink o us i)

  -- Words of the page other than the block's are kept, and so is every other page.
  pub put_back-keeps :
      (x : ℕ)
      → (x < page_of (h.refs pr) + o)
        ⊎ (page_of (h.refs pr) + o + size_of (type_of (h.refs pr)) ≤ x)
      → (put_back pr o h).mem x ≡ h.mem x
  unfolding put_back
  put_back-keeps x out =
      let (low, high, two, most, exact, words) = size_facts (type_of (h.refs pr)) ok.typed in
      let ne : x ≢ page_of (h.refs pr) + o =
        λ q. elim out [ inl a ↦ omega arith | inr a ↦ omega arith ] in
      let past : (x < page_of (h.refs pr) + o)
          ⊎ (page_of (h.refs pr) + o + size_of (type_of (h.refs pr)) / 4 * 4 ≤ x) =
        elim out [ inl a ↦ inl a | inr a ↦ inr (omega arith) ] in
      update_ne (fill_deadbeef (size_of (type_of (h.refs pr)) / 4) (page_of (h.refs pr) + o) h.mem)
        (page_of (h.refs pr) + o) _ x ne
      ∙ fill_outside (size_of (type_of (h.refs pr)) / 4) (page_of (h.refs pr) + o) h.mem x past

  pub put_back-link :
      (put_back pr o h).mem (page_of (h.refs pr) + o) ≡ next_word (page_of (h.refs pr)) fs
  unfolding put_back
  put_back-link =
      update_self
        (fill_deadbeef (size_of (type_of (h.refs pr)) / 4) (page_of (h.refs pr) + o) h.mem)
        (page_of (h.refs pr) + o) _
      ∙ link_word (page_of (h.refs pr)) (h.refs pr).freelist_offset (size_of (type_of (h.refs pr)))
          fs ok.free_blocks ok.offset

  small : o < 4096
  small = Blocks-small (size_of (type_of (h.refs pr))) us ok.used_blocks o i

  whole : o % size_of (type_of (h.refs pr)) ≡ 0
  whole = Blocks-whole (size_of (type_of (h.refs pr))) us ok.used_blocks o i

  -- The other free blocks lie elsewhere.
  others :
      (x : ℕ)
      → In x fs
      → (page_of (h.refs pr) + x < page_of (h.refs pr) + o)
        ⊎ (page_of (h.refs pr) + o + size_of (type_of (h.refs pr)) ≤ page_of (h.refs pr) + x)
  others x j =
      let (low, high, two, most, exact, words) = size_facts (type_of (h.refs pr)) ok.typed in
      let part = Blocks-whole (size_of (type_of (h.refs pr))) fs ok.free_blocks x j in
      elim (apart_blocks (size_of (type_of (h.refs pr))) o x (omega arith) whole part
        (λ q. ok.apart x j (subst (λ t. In t us) (sym q) i))) [
          | inl a ↦ inl (omega arith)
          | inr a ↦ inr (omega arith)
        ]

  pub put_back-PageOk : PageOk (put_back pr o h).mem back (o ∷ fs) (unlink o us)
  put_back-PageOk = record {
    typed = ok.typed;
    positive = ok.positive;
    fits = ok.fits;
    offset = refl;
    count = refl;
    chain = (
      put_back-link,
      Chain-agree h.mem (put_back pr o h).mem (page_of (h.refs pr)) (size_of (type_of (h.refs pr)))
          fs ok.free_blocks (λ x j. put_back-keeps (page_of (h.refs pr) + x) (others x j)) ok.chain,
    );
    free_blocks = (small, whole, NotIn-of o fs (λ j. ok.apart o j i), ok.free_blocks);
    used_blocks = Blocks-unlink (size_of (type_of (h.refs pr))) o us ok.used_blocks;
    apart = λ x j k. elim j [
      | inl q ↦
          NotIn-not o (unlink o us)
            (NotIn-unlink_self o us
              (Blocks-Distinct (size_of (type_of (h.refs pr))) us ok.used_blocks))
            (subst (λ t. In t (unlink o us)) (sym q) k)
      | inr j' ↦ ok.apart x j' (In-unlink o us x k)
    ];
    total = omega (arith, ok.total, length-unlink o us i);
  }

  pub put_back-refs : (put_back pr o h).refs ≡ update h.refs pr back
  unfolding put_back
  put_back-refs =
      let next : ((h.refs pr).nfree + 1) % 65536 ≡ suc (length fs) = omega (arith, ok.count, few) in
      rw next
