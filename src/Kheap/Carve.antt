-- ===== src/Kheap/Carve.antt =====
-- A fresh page cut into blocks: all of them are free, the last one first.
use ece.Common.{
  ℕ, zero, suc, ◌+◌, ◌-◌, ◌*◌, ◌/◌, ◌%◌, ◌≤◌, ◌<◌, ◌≡◌, ◌⊎◌, inl, inr, refl, sym, ap, subst, ◌∙◌,
  arith, List, [], ◌∷◌, length, ==_false, done,
}
use ece.Coremap.{word}
use ece.Kheap.{PageRef, Heap, size_of, page_of, type_of, update, carve, add_page, mkpab}
use ece.Kheap.Chain.{In, head_offset, Chain, Blocks, Chain-agree, update_self, update_ne}
use ece.Kheap.Valid.{PageOk, size_facts, NotIn-of}

-- the offsets of the first `n` blocks, the last one first
abbrev pub offsets : ℕ → ℕ → List ℕ
offsets size zero = []
offsets size (suc n) = (n * size) ∷ offsets size n

pub length-offsets : (size n : ℕ) → length (offsets size n) ≡ n
length-offsets size zero = refl
length-offsets size (suc n) = ap suc (length-offsets size n)

head-offsets : (size n : ℕ) → 0 < n → head_offset (offsets size n) ≡ (n - 1) * size
head-offsets size zero pos = elim pos [ ]
head-offsets size (suc n) pos = let back : suc n - 1 ≡ n = omega arith in rw back refl

In-offsets : (size n o : ℕ) → In o (offsets size n) → (k : ℕ) × (k < n) × (o ≡ k * size)
In-offsets size zero o i = absurd i
In-offsets size (suc n) o (inl q) = (n, omega arith, sym q)
In-offsets size (suc n) o (inr i) = let (k, lt, e) = In-offsets size n o i in (k, omega arith, e)

mul_lt : (size k n : ℕ) → 0 < size → k < n → k * size < n * size
mul_lt size k n pos lt = grind arith

mul_mod : (size k : ℕ) → 0 < size → (k * size) % size ≡ 0
mul_mod size k pos = grind arith

offsets-Blocks : (size n : ℕ) → 0 < size → n * size ≤ 4096 → Blocks size (offsets size n)
offsets-Blocks size zero pos fits = tt
offsets-Blocks size (suc n) pos fits =
    let less = mul_lt size n (suc n) pos (omega arith) in
    (
      omega arith,
      mul_mod size n pos,
      NotIn-of (n * size) (offsets size n) (λ i.
          let (k, lt, e) = In-offsets size n (n * size) i in omega (arith, mul_lt size k n pos lt)),
      offsets-Blocks size n pos (omega arith),
    )

-- The loop extends the chain of the first `i` blocks to all of them, and writes no other page.
carve_lem :
    (rounds i size page : ℕ) (mem : ℕ → ℕ)
    → 0 < size
    → 0 < i
    → (i + rounds) * size ≤ 4096
    → Chain mem page (offsets size i)
    → (mem' : ℕ → ℕ) × (carve rounds i size page mem ≡ done mem')
      × Chain mem' page (offsets size (i + rounds))
      × ((x : ℕ) → (x < page) ⊎ (page + 4096 ≤ x) → mem' x ≡ mem x)
unfolding carve
carve_lem zero i size page mem pos more fits c =
    let z : i ≡ i + 0 = omega arith in
    (mem, refl, subst (λ t. Chain mem page (offsets size t)) z c, λ x h. refl)
carve_lem (suc rounds) (suc i) size page mem pos more fits c =
    let next = update mem (page + suc i * size) (page + i * size) in
    let less = mul_lt size (suc i) (suc i + suc rounds) pos (omega arith) in
    let before = mul_lt size i (suc i) pos (omega arith) in
    let fit : suc i * size < 4096 = omega arith in
    let sum : suc (suc i) + rounds ≡ suc i + suc rounds = omega arith in
    let fits' : (suc (suc i) + rounds) * size ≤ 4096 =
      subst (λ t. t * size ≤ 4096) (sym sum) fits in
    let kept : (o : ℕ) → In o (offsets size (suc i)) → next (page + o) ≡ mem (page + o) = λ o j.
      let (k, lt, e) = In-offsets size (suc i) o j in
      update_ne mem (page + suc i * size) (page + i * size) (page + o)
        (λ q. omega (arith, mul_lt size k (suc i) pos lt)) in
    let chain : Chain next page (offsets size (suc (suc i))) = (
      update_self mem (page + suc i * size) (page + i * size),
      Chain-agree mem next page size (offsets size (suc i))
          (offsets-Blocks size (suc i) pos (omega arith)) kept c,
    ) in
    let (mem', run, all, outside) =
      carve_lem rounds (suc (suc i)) size page next pos (omega arith) fits' chain in
    let differ = ==_false (page + suc i * size) (page + i * size) (λ q. omega arith) in
    let back : suc i - 1 ≡ i = omega arith in
    let forth : suc i + 1 ≡ suc (suc i) = omega arith in
    (
      mem',
      rw (back, differ, forth) run,
      subst (λ t. Chain mem' page (offsets size t)) sum all,
      λ x out.
          outside x out
          ∙ update_ne mem (page + suc i * size) (page + i * size) x
              (λ q. elim out [ inl a ↦ omega arith | inr a ↦ omega arith ]),
    )
carve_lem (suc rounds) zero size page mem pos more fits c = absurd (omega arith)

-- The pageref of a fresh page.
abbrev pub fresh_ref : ℕ → ℕ → PageRef
fresh_ref blktype page = record {
  pageaddr_and_blocktype = mkpab page blktype;
  freelist_offset = (4096 / size_of blktype - 1) * size_of blktype;
  nfree = 4096 / size_of blktype;
}

module _ (blktype page : ℕ) (typed : blktype < 8) (aligned : page % 4096 ≡ 0) where
  pub page_of-fresh_ref : page_of (fresh_ref blktype page) ≡ page
  page_of-fresh_ref = omega arith

  pub type_of-fresh_ref : type_of (fresh_ref blktype page) ≡ blktype
  type_of-fresh_ref = omega arith

  fresh-PageOk :
      (mem : ℕ → ℕ)
      → Chain mem page (offsets (size_of blktype) (4096 / size_of blktype))
      → 0 < page
      → page + 4096 < word
      → PageOk mem (fresh_ref blktype page) (offsets (size_of blktype) (4096 / size_of blktype)) []
  fresh-PageOk mem c pos fits =
      let (low, high, two, most, exact, words) = size_facts blktype typed in
      let blocks =
        offsets-Blocks (size_of blktype) (4096 / size_of blktype) (omega arith) (omega arith) in
      let count = length-offsets (size_of blktype) (4096 / size_of blktype) in
      record {
        typed = omega arith;
        positive = omega (arith, page_of-fresh_ref);
        fits = omega (arith, page_of-fresh_ref);
        offset = sym (head-offsets (size_of blktype) (4096 / size_of blktype) (omega arith));
        count = sym count;
        chain =
            subst (λ t. Chain mem t (offsets (size_of blktype) (4096 / size_of blktype)))
              (sym page_of-fresh_ref) c;
        free_blocks =
            subst (λ t. Blocks (size_of t) (offsets (size_of blktype) (4096 / size_of blktype)))
              (sym type_of-fresh_ref) blocks;
        used_blocks = tt;
        apart = λ o i j. j;
        total =
            subst
              (λ t.
                length (offsets (size_of blktype) (4096 / size_of blktype)) + 0 ≡ 4096 / size_of t)
              (sym type_of-fresh_ref) (omega arith);
      }

  -- A page is added without a failing assertion: all its blocks are free, and no other page is
  -- written.
  pub add_page_lem :
      (pr : ℕ) (h : Heap)
      → 0 < page
      → page + 4096 < word
      → (mem' : ℕ → ℕ) × (add_page blktype pr page h
          ≡ done (record h {
            refs = update h.refs pr (fresh_ref blktype page);
            sizebases = update h.sizebases blktype (pr ∷ h.sizebases blktype);
            allbase = pr ∷ h.allbase;
            mem = mem';
          }))
        × PageOk mem'
            (fresh_ref blktype page)
            (offsets (size_of blktype) (4096 / size_of blktype))
            []
        × ((x : ℕ) → (x < page) ⊎ (page + 4096 ≤ x) → mem' x ≡ h.mem x)
  unfolding add_page
  add_page_lem pr h pos fits =
      let (low, high, two, most, exact, words) = size_facts blktype typed in
      let size = size_of blktype in
      let n = 4096 / size_of blktype in
      let sum : 1 + (n - 1) ≡ n = omega arith in
      let start : Chain (update h.mem page 0) page (offsets size 1) = (
        let here : page + 0 * size ≡ page = omega arith in rw here (update_self h.mem page 0),
        tt,
      ) in
      let (mem', run, all, outside) =
        carve_lem (n - 1) 1 size page (update h.mem page 0) (omega arith) (omega arith)
          (omega (arith, subst (λ t. t * size ≤ 4096) (sym sum) (omega arith))) start in
      (
        mem',
        rw run,
        fresh-PageOk mem' (subst (λ t. Chain mem' page (offsets size t)) sum all) pos fits,
        λ x out.
            outside x out
            ∙ update_ne h.mem page 0 x
                (λ q. elim out [ inl a ↦ omega arith | inr a ↦ omega arith ]),
      )
