-- ===== src/Kheap/Back.antt =====
-- A block in use is put back on the list of its page: the heap and the blocks in use then.
use ece.Common.{
  ℕ, suc, ◌+◌, ◌≤◌, ◌<◌, ◌≡◌, ◌≢◌, ◌⊎◌, ◌↔◌, inl, inr, ap, ap₂, subst, ◌∙◌, arith, List, ◌∷◌,
  length, ℕ_discrete,
}
use ece.Kheap.{Heap, size_of, page_of, type_of, unlink, update, put_back}
use ece.Kheap.Chain.{In}
use ece.Kheap.Valid.{Valid, In-unlink, In-unlink_ne, NotIn-not, NotIn-unlink_self, Blocks-Distinct}
use ece.Kheap.Page.{put_back-PageOk, put_back-keeps, put_back-refs}
use ece.Kheap.Frame.{changed-Valid, changed_page, changed_type}
use ece.Kheap.Live.{Live, live_small, Live-map, In-update, update-In}

module _ {owns : ℕ → Type 0} {h : Heap} {free used : ℕ → List ℕ} (valid : Valid owns h free used)
    (pr o : ℕ) (known : In pr h.allbase) (mine : In o (used pr)) where
  abbrev pub back : Heap
  back = record h {
    refs =
        update h.refs pr
          (record (h.refs pr) { freelist_offset = o; nfree = suc (length (free pr)) });
    mem = (put_back pr o h).mem;
  }

  pub put_back-back : put_back pr o h ≡ back
  unfolding put_back
  put_back-back =
      ap (λ t. record h { refs = t; mem = (put_back pr o h).mem })
        (put_back-refs pr o h (free pr) (used pr) (valid.pages pr known) mine)

  abbrev pub used_left : ℕ → List ℕ
  used_left = update used pr (unlink o (used pr))

  kept :
      (x : ℕ)
      → (x < page_of (h.refs pr)) ⊎ (page_of (h.refs pr) + 4096 ≤ x)
      → (put_back pr o h).mem x ≡ h.mem x
  kept x out =
      let (small, whole, inside) = live_small valid pr o known mine in
      put_back-keeps pr o h (free pr) (used pr) (valid.pages pr known) mine x
        (elim out [ inl a ↦ inl (omega arith) | inr a ↦ inr (omega arith) ])

  pub back-Valid : Valid owns back (update free pr (o ∷ free pr)) used_left
  back-Valid =
      changed-Valid valid pr o (suc (length (free pr))) (put_back pr o h).mem (o ∷ free pr)
        (unlink o (used pr)) known kept
        (put_back-PageOk pr o h (free pr) (used pr) (valid.pages pr known) mine)

  pub back_page : (i : ℕ) → page_of (back.refs i) ≡ page_of (h.refs i)
  back_page =
      changed_page valid pr o (suc (length (free pr))) (put_back pr o h).mem (o ∷ free pr)
        (unlink o (used pr)) known kept

  pub back_type : (i : ℕ) → type_of (back.refs i) ≡ type_of (h.refs i)
  back_type =
      changed_type valid pr o (suc (length (free pr))) (put_back pr o h).mem (o ∷ free pr)
        (unlink o (used pr)) known kept

  pub gone : ¬ In o (unlink o (used pr))
  gone = NotIn-not o (unlink o (used pr)) (
      NotIn-unlink_self o (used pr) (
        Blocks-Distinct (size_of (type_of (h.refs pr))) (used pr)
          (valid.pages pr known).used_blocks))

  pub back-Live :
      (a m : ℕ) → Live back used_left a m ↔ (Live h used a m × (a ≢ page_of (h.refs pr) + o))
  back-Live a m = (
    λ live. into live,
    λ (live, ne).
        Live-map h back used used_left a m
          (λ i x j k at. (
            j,
            update-In used pr (unlink o (used pr)) i x (left i x ne at k),
            back_page i,
            back_type i,
          ))
          live,
  )
    where
      left :
          (i x : ℕ)
          → a ≢ page_of (h.refs pr) + o
          → a ≡ page_of (h.refs i) + x
          → In x (used i)
          → ((i ≡ pr) × In x (unlink o (used pr))) ⊎ ((i ≢ pr) × In x (used i))
      left i x ne at k = elim (ℕ_discrete i pr) [
        | yes e ↦ inl (
          e,
          In-unlink_ne o (used pr) x (subst (λ t. In x (used t)) e k)
              (λ q. ne (at ∙ ap₂ (λ t y. page_of (h.refs t) + y) e q)),
        )
        | no apart ↦ inr (apart, k)
      ]

      into : Live back used_left a m → Live h used a m × (a ≢ page_of (h.refs pr) + o)
      into (i, x, j, k, at, size) = elim (In-update used pr (unlink o (used pr)) i x k) [
        | inl (e, k') ↦
            let at' : a ≡ page_of (h.refs pr) + x =
              at ∙ ap (λ t. t + x) (back_page i ∙ ap (λ t. page_of (h.refs t)) e) in
            let there = In-unlink o (used pr) x k' in
            (
              (
                pr,
                x,
                known,
                there,
                at',
                size ∙ ap size_of (back_type i ∙ ap (λ t. type_of (h.refs t)) e),
              ),
              λ q.
                  let same : x ≡ o = omega arith in
                  gone (subst (λ t. In t (unlink o (used pr))) same k'),
            )
        | inr (ne, k') ↦
            let at' : a ≡ page_of (h.refs i) + x = at ∙ ap (λ t. t + x) (back_page i) in
            (
              (i, x, j, k', at', size ∙ ap size_of (back_type i)),
              λ q.
                  let (small, whole, inside) = live_small valid i x j k' in
                  let (small', whole', inside') = live_small valid pr o known mine in
                  let page : page_of (h.refs i) ≡ page_of (h.refs pr) = omega arith in
                  ne (valid.one_page i pr j known page),
            )
      ]
