-- ===== src/Kheap/Live.antt =====
-- The blocks in use of a heap, by their addresses and sizes.
use ece.Common.{
  ℕ, zero, suc, ◌+◌, ◌%◌, ◌≤◌, ◌<◌, ◌≡◌, ◌≢◌, ◌⊎◌, inl, inr, refl, sym, ap, ap₂, subst, ◌∙◌, arith,
  List, ℕ_discrete, dec_lt,
}
use ece.Kheap.{Heap, size_of, page_of, type_of, update}
use ece.Kheap.Chain.{In, Blocks-small, Blocks-whole, apart_blocks, update_self, update_ne}
use ece.Kheap.Valid.{Valid, size_facts}

-- A block of `n` bytes at `a` is in use.
abbrev pub Live : Heap → (ℕ → List ℕ) → ℕ → ℕ → Type 0
Live h used a n =
    (i : ℕ) × (o : ℕ) × In i h.allbase
    × In o (used i)
    × (a ≡ page_of (h.refs i) + o)
    × (n ≡ size_of (type_of (h.refs i)))

abbrev pub Apart : ℕ → ℕ → ℕ → ℕ → Type 0
Apart a n b m = (a + n ≤ b) ⊎ (b + m ≤ a)

-- A block lies within its page.
pub within_page : (t o : ℕ) → t < 8 → o < 4096 → o % size_of t ≡ 0 → o + size_of t ≤ 4096
within_page t o typed small whole =
    let (low, high, two, most, exact, words) = size_facts t typed in
    elim (apart_blocks (size_of t) o 4096 (omega arith) whole (whole_page t typed)
      (λ q. omega arith)) [ inl lt ↦ absurd (omega arith) | inr le ↦ le ]
  where
    whole_page : (t : ℕ) → t < 8 → 4096 % size_of t ≡ 0
    whole_page zero h = refl
    whole_page (suc zero) h = refl
    whole_page (suc (suc zero)) h = refl
    whole_page (suc (suc (suc zero))) h = refl
    whole_page (suc (suc (suc (suc zero)))) h = refl
    whole_page (suc (suc (suc (suc (suc zero))))) h = refl
    whole_page (suc (suc (suc (suc (suc (suc zero)))))) h = refl
    whole_page (suc (suc (suc (suc (suc (suc (suc zero))))))) h = refl
    whole_page (suc (suc (suc (suc (suc (suc (suc (suc t)))))))) h = absurd (omega arith)

Apart-offsets :
    (size o p : ℕ) → 0 < size → o % size ≡ 0 → p % size ≡ 0 → p ≢ o → Apart o size p size
Apart-offsets size o p pos whole whole' ne = elim (apart_blocks size o p pos whole whole' ne) [
  | inl lt ↦ elim (apart_blocks size p o pos whole' whole (λ q. ne (sym q))) [
    | inl gt ↦ absurd (omega arith)
    | inr le ↦ inr le
  ]
  | inr le ↦ inl le
]

module _ {owns : ℕ → Type 0} {h : Heap} {free used : ℕ → List ℕ}
    (valid : Valid owns h free used) where
  pub live_small :
      (i o : ℕ)
      → In i h.allbase
      → In o (used i)
      → (o < 4096)
        × (o % size_of (type_of (h.refs i)) ≡ 0)
        × (o + size_of (type_of (h.refs i)) ≤ 4096)
  live_small i o j k =
      let ok = valid.pages i j in
      let small = Blocks-small (size_of (type_of (h.refs i))) (used i) ok.used_blocks o k in
      let whole = Blocks-whole (size_of (type_of (h.refs i))) (used i) ok.used_blocks o k in
      (small, whole, within_page (type_of (h.refs i)) o ok.typed small whole)

  -- Two blocks in use are the same or do not overlap.
  pub Live-Apart :
      (a n b m : ℕ) → Live h used a n → Live h used b m → ((a ≡ b) × (n ≡ m)) ⊎ Apart a n b m
  Live-Apart a n b m (i, o, known, mine, at, size) (j, p, known', mine', at', size') =
      let (small, whole, inside) = live_small i o known mine in
      let (small', whole', inside') = live_small j p known' mine' in
      elim (ℕ_discrete i j) [
        | yes e ↦ elim (ℕ_discrete p o) [
          | yes q ↦ inl (
            at ∙ ap₂ (λ x y. page_of (h.refs x) + y) e (sym q) ∙ sym at',
            size ∙ ap (λ x. size_of (type_of (h.refs x))) e ∙ sym size',
          )
          | no ne ↦
              let page : page_of (h.refs i) ≡ page_of (h.refs j) = ap (λ x. page_of (h.refs x)) e in
              let same : size_of (type_of (h.refs i)) ≡ size_of (type_of (h.refs j)) =
                ap (λ x. size_of (type_of (h.refs x))) e in
              let (low, high, two, most, exact, words) =
                size_facts (type_of (h.refs i)) (valid.pages i known).typed in
              elim (Apart-offsets (size_of (type_of (h.refs i))) o p (omega arith) whole
                (subst (λ t. p % t ≡ 0) (sym same) whole') ne) [
                  | inl le ↦ inr (inl (omega arith))
                  | inr le ↦ inr (inr (omega arith))
                ]
        ]
        | no ne ↦
            let far : page_of (h.refs i) ≢ page_of (h.refs j) =
              λ q. ne (valid.one_page i j known known' q) in
            elim (dec_lt (page_of (h.refs i)) (page_of (h.refs j))) [
              | yes lt ↦ inr (inl (omega arith))
              | no ge ↦ inr (inr (omega arith))
            ]
      ]

-- Blocks in use that a change of the heap keeps.
pub Live-map :
    (h h' : Heap) (used used' : ℕ → List ℕ) (a n : ℕ)
    → ((i o : ℕ)
        → In i h.allbase
        → In o (used i)
        → a ≡ page_of (h.refs i) + o
        → In i h'.allbase
          × In o (used' i)
          × (page_of (h'.refs i) ≡ page_of (h.refs i))
          × (type_of (h'.refs i) ≡ type_of (h.refs i)))
    → Live h used a n
    → Live h' used' a n
Live-map h h' used used' a n keep (i, o, known, mine, at, size) =
    let (known', mine', page, type) = keep i o known mine at in
    (i, o, known', mine', at ∙ ap (λ t. t + o) (sym page), size ∙ ap size_of (sym type))

-- the blocks in use after a change of those of one page
pub In-update :
    (used : ℕ → List ℕ) (pr : ℕ) (us : List ℕ) (i o : ℕ)
    → In o (update used pr us i)
    → ((i ≡ pr) × In o us) ⊎ ((i ≢ pr) × In o (used i))
In-update used pr us i o j = elim (ℕ_discrete i pr) [
  | yes e ↦ inl (e, subst (In o) (ap (update used pr us) e ∙ update_self used pr us) j)
  | no ne ↦ inr (ne, subst (In o) (update_ne used pr us i ne) j)
]

pub update-In :
    (used : ℕ → List ℕ) (pr : ℕ) (us : List ℕ) (i o : ℕ)
    → ((i ≡ pr) × In o us) ⊎ ((i ≢ pr) × In o (used i))
    → In o (update used pr us i)
update-In used pr us i o (inl (e, j)) =
    subst (In o) (sym (ap (update used pr us) e ∙ update_self used pr us)) j
update-In used pr us i o (inr (ne, j)) = subst (In o) (sym (update_ne used pr us i ne)) j
