-- ===== src/Kheap/Alloc.antt =====
-- subpage_kmalloc: the block that is served is in no other's way.
use ece.Common.{
  ℕ, ◌+◌, ◌/◌, ◌%◌, ◌≤◌, ◌<◌, ◌≡◌, ◌≢◌, ◌⊎◌, ◌↔◌, inl, inr, refl, sym, ap, subst, ◌∙◌, arith, Bool,
  true, false, some, List, [], ◌∷◌, length, ==_false, Run, done, ◌>>=◌,
}
use ece.Coremap.{word}
use ece.Kheap.{Heap, size_of, page_of, type_of, update, take, add_page}
use ece.Kheap.Chain.{In, update_self, update_ne}
use ece.Kheap.Valid.{PageOk, bit_of, Valid, PageSource, size_facts}
use ece.Kheap.Refs.{Flipped, RefGiven-cases, allocpageref-RefGiven, freepageref_lem}
use ece.Kheap.Carve.{
  offsets, length-offsets, fresh_ref, add_page_lem, page_of-fresh_ref, type_of-fresh_ref,
}
use ece.Kheap.Frame.{place_ne}
use ece.Kheap.Added.{added-Valid}
use ece.Kheap.Live.{Live, Live-map, In-update, update-In}
use ece.Kheap.Subpage.{alloc_fresh, subpage_kmalloc}
use ece.Kheap.Served.{
  FoundPage-cases, find_page-FoundPage, blocktype_lem, Served, refused, Served-before, take-Served,
}

-- The first free block of a page that has some.
first_free :
    (n : ℕ) (fs : List ℕ) → n ≡ length fs → 0 < n → (o : ℕ) × (rest : List ℕ) × (fs ≡ o ∷ rest)
first_free n [] e pos = absurd (omega arith)
first_free n (o ∷ rest) e pos = (o, rest, refl)

module _ {S : Type 0} {alloc_kpages : ℕ → S → Run (ℕ × S)} {free_kpages : ℕ → S → Run S}
    (source : PageSource alloc_kpages free_kpages) (sz : ℕ) (s : S) (sane : source.Sane s)
    {h : Heap} {free used : ℕ → List ℕ} (valid : Valid (source.Owns s) h free used) where
  -- A fresh page serves its last block.
  module _ (blktype pr prpage : ℕ) (s' : S) (inuse : List (List Bool)) (typed : blktype < 8)
      (fit : sz ≤ size_of blktype) (clear : bit_of h.inuse (pr / 32) (pr % 32) ≡ some false)
      (flipped : Flipped h.inuse (pr / 32) (pr % 32) true inuse) (sane' : source.Sane s')
      (more : (b : ℕ) → source.Owns s b → source.Owns s' b) (pos : 0 < prpage)
      (aligned : prpage % 4096 ≡ 0) (fits : prpage + 4096 < word) (new : ¬ source.Owns s prpage)
      (own : source.Owns s' prpage) where
    abbrev blocks : List ℕ
    blocks = offsets (size_of blktype) (4096 / size_of blktype)

    page : page_of (fresh_ref blktype prpage) ≡ prpage
    page = page_of-fresh_ref blktype prpage typed aligned

    type : type_of (fresh_ref blktype prpage) ≡ blktype
    type = type_of-fresh_ref blktype prpage typed aligned

    fresh : (i : ℕ) → In i h.allbase → page_of (h.refs i) ≢ page_of (fresh_ref blktype prpage)
    fresh i j e = new (subst (source.Owns s) (e ∙ page) (valid.owned i j))

    module _ (mem' : ℕ → ℕ)
        (kept : (x : ℕ) → (x < prpage) ⊎ (prpage + 4096 ≤ x) → mem' x ≡ h.mem x) where
      abbrev with_page : Heap
      with_page = record {
        refs = update h.refs pr (fresh_ref blktype prpage);
        inuse = inuse;
        sizebases = update h.sizebases blktype (pr ∷ h.sizebases blktype);
        allbase = pr ∷ h.allbase;
        mem = mem';
      }

      with_page-Valid :
          PageOk mem' (fresh_ref blktype prpage) blocks []
          → Valid (source.Owns s') with_page (update free pr blocks) (update used pr [])
      with_page-Valid ok =
          subst
            (λ t.
              Valid (source.Owns s')
                (record with_page { sizebases = update h.sizebases t (pr ∷ h.sizebases t) })
                (update free pr blocks) (update used pr []))
            type
            (added-Valid valid (source.Owns s') pr (fresh_ref blktype prpage) mem' blocks [] inuse
              clear flipped more (subst (source.Owns s') (sym page) own) fresh
              (λ x out. kept x (subst (λ t. (x < t) ⊎ (t + 4096 ≤ x)) page out)) ok)

      not_pr : (i : ℕ) → In i h.allbase → i ≢ pr
      not_pr i j e =
          cc (subst (λ t. bit_of h.inuse (t / 32) (t % 32) ≡ some true) e (valid.marked i j), clear)

      with_page-same : (a m : ℕ) → Live h used a m ↔ Live with_page (update used pr []) a m
      with_page-same a m = (
        Live-map h with_page used (update used pr []) a m (λ i o j k at.
            let ne = not_pr i j in
            let e = update_ne h.refs pr (fresh_ref blktype prpage) i ne in
            (inr j, update-In used pr [] i o (inr (ne, k)), ap page_of e, ap type_of e)),
        λ live. back live,
      )
        where
          back : Live with_page (update used pr []) a m → Live h used a m
          back (i, o, j, k, at, size) = elim (In-update used pr [] i o k) [
            | inl (e, gone) ↦ absurd gone
            | inr (ne, k') ↦ elim j [
              | inl q ↦ absurd (ne (sym q))
              | inr j' ↦
                  let e = update_ne h.refs pr (fresh_ref blktype prpage) i ne in
                  (
                    i,
                    o,
                    j',
                    k',
                    at ∙ ap (λ t. page_of t + o) e,
                    size ∙ ap (λ t. size_of (type_of t)) e,
                  )
            ]
          ]

      fresh-Served :
          PageOk mem' (fresh_ref blktype prpage) blocks []
          → Served source.Sane source.Owns sz h used
              (do (p, h') ← take pr with_page; done (p, h', s'))
      fresh-Served ok =
          let (low, high, two, most, exact, words) = size_facts blktype typed in
          let (o, rest, e) =
            first_free (4096 / size_of blktype) blocks
              (sym (length-offsets (size_of blktype) (4096 / size_of blktype))) (omega arith) in
          Served-before source.Sane source.Owns sz h with_page used (update used pr [])
            with_page-same
            (take-Served source.Sane source.Owns sz s' sane' (with_page-Valid ok) pr o rest
              (inl refl) (update_self free pr blocks ∙ e)
              (subst (λ t. sz ≤ size_of (type_of t))
                (sym (update_self h.refs pr (fresh_ref blktype prpage)))
                (subst (λ t. sz ≤ size_of t) (sym type) fit)))

    use_page-Served : Served source.Sane source.Owns sz h used (do
      h₂ ← add_page blktype pr prpage (record h { inuse = inuse })
      (p, h₃) ← take pr h₂
      done (p, h₃, s'))
    use_page-Served =
        let (mem', run, ok, kept) =
          add_page_lem blktype prpage typed aligned pr (record h { inuse = inuse }) pos fits in
        rw run (fresh-Served mem' kept ok)

  -- The pageref of a page that was not had is given back.
  given_back :
      (pr : ℕ) (s' : S) (inuse inuse' : List (List Bool))
      → bit_of h.inuse (pr / 32) (pr % 32) ≡ some false
      → Flipped h.inuse (pr / 32) (pr % 32) true inuse
      → Flipped inuse (pr / 32) (pr % 32) false inuse'
      → ((b : ℕ) → source.Owns s b → source.Owns s' b)
      → Valid (source.Owns s') (record h { inuse = inuse' }) free used
  given_back pr s' inuse inuse' clear f g more = record {
    pages = valid.pages;
    one_page = valid.one_page;
    once = valid.once;
    sized = valid.sized;
    once_sized = valid.once_sized;
    whole = g.still_whole;
    eight = g.same_length ∙ f.same_length ∙ valid.eight;
    marked = λ i j.
        let ne : i ≢ pr = λ e.
          cc (
            subst (λ t. bit_of h.inuse (t / 32) (t % 32) ≡ some true) e (valid.marked i j),
            clear,
          ) in
        g.others (i / 32) (i % 32) (place_ne i pr ne)
        ∙ f.others (i / 32) (i % 32) (place_ne i pr ne)
        ∙ valid.marked i j;
    owned = λ i j. more _ (valid.owned i j);
  }

  alloc_fresh-Served :
      (blktype : ℕ)
      → blktype < 8
      → sz ≤ size_of blktype
      → Served source.Sane source.Owns sz h used (alloc_fresh alloc_kpages free_kpages blktype h s)
  unfolding alloc_fresh
  alloc_fresh-Served blktype typed fit =
      elim (RefGiven-cases h (allocpageref-RefGiven h valid.whole valid.eight)) [
        | inl none_left ↦ rw none_left (refused h s free used sane valid (λ a m. (λ l. l, λ l. l)))
        | inr (pr, inuse, got, lt, clear, f) ↦
            let (a, s', run, sane', more, which) = source.alloc_law s sane in
            elim which [
              | inl zero_page ↦
                  let (inuse', run', g) =
                    freepageref_lem pr (record h { inuse = inuse }) f.still_whole
                      (f.same_length ∙ valid.eight) f.now in
                  rw (got, run, zero_page, run')
                    (refused (record h { inuse = inuse' }) s' free used sane'
                      (given_back pr s' inuse inuse' clear f g more) (λ b m. (λ l. l, λ l. l)))
              | inr (pos, aligned, fits, new, own) ↦
                  let some_page = ==_false a 0 (λ q. omega arith) in
                  rw (got, run, some_page)
                    (use_page-Served blktype pr a s' inuse typed fit clear f sane' more pos aligned
                      fits new own)
            ]
      ]

-- In a valid heap subpage_kmalloc answers every request of at most 2048 bytes without a failing
-- assertion: with NULL, where the blocks in use stay as they were, or with a block of at least that
-- size that overlaps no block in use, and which is then the only new one. The heap stays valid.
pub subpage_kmalloc-Served :
    {S : Type 0} {alloc_kpages : ℕ → S → Run (ℕ × S)} {free_kpages : ℕ → S → Run S}
    (source : PageSource alloc_kpages free_kpages) (sz : ℕ) (s : S) (h : Heap)
    (free used : ℕ → List ℕ)
    → source.Sane s
    → Valid (source.Owns s) h free used
    → sz ≤ 2048
    → Served source.Sane source.Owns sz h used (subpage_kmalloc alloc_kpages free_kpages sz h s)
unfolding subpage_kmalloc
subpage_kmalloc-Served source sz s h free used sane valid le =
    let (blktype, sized, typed, fit) = blocktype_lem sz le in
    elim (FoundPage-cases blktype h.refs (h.sizebases blktype) (
      find_page-FoundPage blktype h.refs (h.sizebases blktype)
        (λ i j. (valid.sized blktype i j).1))) [
          | inl no_page ↦
              rw (sized, no_page) (alloc_fresh-Served source sz s sane valid blktype typed fit)
          | inr (pr, found, listed, pos) ↦
              let (known, type) = valid.sized blktype pr listed in
              let (o, rest, e) =
                first_free (h.refs pr).nfree (free pr) (valid.pages pr known).count pos in
              rw (sized, found)
                (take-Served source.Sane source.Owns sz s sane valid pr o rest known e
                  (subst (λ t. sz ≤ size_of t) (sym type) fit))
        ]
