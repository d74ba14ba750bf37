-- ===== src/Kheap/Frame.antt =====
-- The invariant of the heap after a change of the blocks of one page.
use ece.Common.{
  ℕ, ◌+◌, ◌/◌, ◌%◌, ◌≤◌, ◌<◌, ◌≡◌, ◌≢◌, ◌⊎◌, inl, inr, sym, ap, subst, ◌∙◌, arith, List, ==_true,
  ==_false, ℕ_discrete, dec_lt,
}
use ece.Kheap.{PageRef, Heap, size_of, page_of, type_of, update}
use ece.Kheap.Chain.{In, Chain-agree, Blocks-small}
use ece.Kheap.Valid.{PageOk, Valid}

-- Memory that agrees on a page keeps it.
pub PageOk-agree :
    (mem mem' : ℕ → ℕ) (r : PageRef) (fs us : List ℕ)
    → ((x : ℕ) → page_of r ≤ x → x < page_of r + 4096 → mem' x ≡ mem x)
    → PageOk mem r fs us
    → PageOk mem' r fs us
PageOk-agree mem mem' r fs us same ok = record {
  typed = ok.typed;
  positive = ok.positive;
  fits = ok.fits;
  offset = ok.offset;
  count = ok.count;
  free_blocks = ok.free_blocks;
  used_blocks = ok.used_blocks;
  apart = ok.apart;
  total = ok.total;
  chain =
      Chain-agree mem mem' (page_of r) (size_of (type_of r)) fs ok.free_blocks
        (λ o i.
          same (page_of r + o) (omega arith)
            (omega (arith, Blocks-small (size_of (type_of r)) fs ok.free_blocks o i)))
        ok.chain;
}

-- Pages of different addresses do not overlap.
pub pages_apart :
    (r r' : PageRef) (x : ℕ)
    → page_of r ≢ page_of r'
    → page_of r ≤ x
    → x < page_of r + 4096
    → (x < page_of r') ⊎ (page_of r' + 4096 ≤ x)
pages_apart r r' x ne ge lt = elim (dec_lt x (page_of r')) [
  | yes low ↦ inl low
  | no high ↦ inr (omega arith)
]

-- Different bits stand in different places.
pub place_ne : (i j : ℕ) → i ≢ j → (i / 32 ≢ j / 32) ⊎ (i % 32 ≢ j % 32)
place_ne i j ne = elim (ℕ_discrete (i / 32) (j / 32)) [
  | yes e ↦ inr (λ q. ne (omega arith))
  | no d ↦ inl d
]

module _ {owns : ℕ → Type 0} {h : Heap} {free used : ℕ → List ℕ}
    (valid : Valid owns h free used) where
  -- The page of `pr` has other free blocks, and no other page is written.
  module _ (pr off nf : ℕ) (mem' : ℕ → ℕ) (fs us : List ℕ) (known : In pr h.allbase)
      (kept : (x : ℕ)
        → (x < page_of (h.refs pr)) ⊎ (page_of (h.refs pr) + 4096 ≤ x)
        → mem' x ≡ h.mem x) where
    abbrev pub changed_ref : PageRef
    changed_ref = record (h.refs pr) { freelist_offset = off; nfree = nf }

    pub changed_page : (i : ℕ) → page_of (update h.refs pr changed_ref i) ≡ page_of (h.refs i)
    changed_page i = elim (ℕ_discrete i pr) [
      | yes e ↦ rw (==_true i pr e) (ap (λ t. page_of (h.refs t)) (sym e))
      | no ne ↦ rw (==_false i pr ne)
    ]

    pub changed_type : (i : ℕ) → type_of (update h.refs pr changed_ref i) ≡ type_of (h.refs i)
    changed_type i = elim (ℕ_discrete i pr) [
      | yes e ↦ rw (==_true i pr e) (ap (λ t. type_of (h.refs t)) (sym e))
      | no ne ↦ rw (==_false i pr ne)
    ]

    changed_pages :
        PageOk mem' changed_ref fs us
        → (i : ℕ) → In i h.allbase
        → PageOk mem' (update h.refs pr changed_ref i) (update free pr fs i) (update used pr us i)
    changed_pages ok i j = elim (ℕ_discrete i pr) [
      | yes e ↦ rw (==_true i pr e) ok
      | no ne ↦ rw (==_false i pr ne) (
          PageOk-agree h.mem mem' (h.refs i) (free i) (used i)
            (λ x ge lt. kept x (
              pages_apart (h.refs i) (h.refs pr) x (λ q. ne (valid.one_page i pr j known q)) ge lt))
            (valid.pages i j))
    ]

    pub changed-Valid :
        PageOk mem' changed_ref fs us
        → Valid owns
            (record h { refs = update h.refs pr changed_ref; mem = mem' })
            (update free pr fs)
            (update used pr us)
    changed-Valid ok = record {
      pages = changed_pages ok;
      one_page = λ i j k l e. valid.one_page i j k l (sym (changed_page i) ∙ e ∙ changed_page j);
      once = valid.once;
      sized = λ b i j. ((valid.sized b i j).0, changed_type i ∙ (valid.sized b i j).1);
      once_sized = valid.once_sized;
      whole = valid.whole;
      eight = valid.eight;
      marked = valid.marked;
      owned = λ i j. subst owns (sym (changed_page i)) (valid.owned i j);
    }
