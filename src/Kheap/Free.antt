-- ===== src/Kheap/Free.antt =====
-- subpage_kfree: a block in use is taken back.
use ece.Common.{
  ℕ, suc, ◌+◌, ◌-◌, ◌*◌, ◌/◌, ◌%◌, ◌≡◌, ◌≢◌, ◌⊎◌, ◌↔◌, inl, inr, refl, sym, ap, subst, ◌∙◌, arith,
  Bool, true, false, List, [], ◌∷◌, length, le→leb, lt→leb_false, ==_iff, ◌==◌, ==_true, lt→ltb,
  Bool-cases, Run, done, ◌>>=◌,
}
use ece.Kheap.{Heap, size_of, page_of, type_of, unlink, update, remove_lists, freepageref}
use ece.Kheap.Chain.{In, update_self}
use ece.Kheap.Valid.{Valid, PageSource, In-unlink, In-unlink_ne, length-unlink}
use ece.Kheap.Refs.{Flipped, freepageref_lem}
use ece.Kheap.Removed.{removed-Valid}
use ece.Kheap.Live.{Live, live_small, Live-map}
use ece.Kheap.Subpage.{free_block, subpage_kfree}
use ece.Kheap.Back.{back, put_back-back, used_left, back-Valid, back_page, back_type, back-Live}
use ece.Kheap.Search.{page_from_lem}

-- A block in use lies on the page of `p`, or the allocator has that page.
abbrev pub OnPageOr : (ℕ → Type 0) → Heap → (ℕ → List ℕ) → ℕ → Type 0
OnPageOr owns h used p =
    ((a : ℕ) × (m : ℕ) × Live h used a m × (a / 4096 ≡ p / 4096)) ⊎ (¬ owns (p / 4096 * 4096))

-- How taking back the block at `p` ends: the blocks in use are the ones there were without it.
module _ {S : Type 0} (Sane : S → Type 0) (Owns : S → ℕ → Type 0) (h : Heap) (used : ℕ → List ℕ)
    (p : ℕ) where
  abbrev pub Freed : Run (Heap × S) → Type 0
  Freed run =
      (h' : Heap) × (s' : S) × (free' : ℕ → List ℕ) × (used' : ℕ → List ℕ) × (run ≡ done (h', s'))
      × Sane s'
      × Valid (Owns s') h' free' used'
      × ((a m : ℕ) → Live h' used' a m ↔ (Live h used a m × (a ≢ p)))
      × OnPageOr (Owns s') h' used' p

module _ {S : Type 0} {alloc_kpages : ℕ → S → Run (ℕ × S)} {free_kpages : ℕ → S → Run S}
    (source : PageSource alloc_kpages free_kpages) (s : S) (sane : source.Sane s) {h : Heap}
    {free used : ℕ → List ℕ} (valid : Valid (source.Owns s) h free used) (pr o : ℕ)
    (known : In pr h.allbase) (mine : In o (used pr)) where
  abbrev taken_back : Heap
  taken_back = back valid pr o known mine

  -- The heap without the page.
  abbrev page_gone : List (List Bool) → Heap
  page_gone inuse = record taken_back {
    inuse = inuse;
    sizebases =
        update h.sizebases (type_of (h.refs pr)) (unlink pr (h.sizebases (type_of (h.refs pr))));
    allbase = unlink pr h.allbase;
  }

  valid_back :
      Valid
        (source.Owns s)
        taken_back
        (update free pr (o ∷ free pr))
        (used_left valid pr o known mine)
  valid_back = back-Valid valid pr o known mine

  page_gone-Valid :
      (s' : S) (inuse : List (List Bool))
      → Flipped h.inuse (pr / 32) (pr % 32) false inuse
      → ((b : ℕ) → source.Owns s b → b ≢ page_of (h.refs pr) → source.Owns s' b)
      → Valid
          (source.Owns s')
          (page_gone inuse)
          (update free pr (o ∷ free pr))
          (used_left valid pr o known mine)
  page_gone-Valid s' inuse f kept =
      subst
        (λ t.
          Valid (source.Owns s')
            (record (page_gone inuse) {
              sizebases = update h.sizebases t (unlink pr (h.sizebases t));
            })
            (update free pr (o ∷ free pr)) (used_left valid pr o known mine))
        (back_type valid pr o known mine pr)
        (removed-Valid valid_back (source.Owns s') pr known inuse f
          (λ a own ne. kept a own (λ q. ne (q ∙ sym (back_page valid pr o known mine pr)))))

  -- No block of the page is in use.
  none_used :
      length (free pr) + 1 ≡ 4096 / size_of (type_of (h.refs pr))
      → used_left valid pr o known mine pr ≡ []
  none_used all_free =
      let count = (valid.pages pr known).total in
      update_self used pr (unlink o (used pr))
      ∙ empty (unlink o (used pr)) (omega (arith, length-unlink o (used pr) mine))
    where
      empty : (xs : List ℕ) → length xs ≡ 0 → xs ≡ []
      empty [] e = refl
      empty (x ∷ xs) e = absurd (omega arith)

  page_gone-Live :
      (inuse : List (List Bool)) (a m : ℕ)
      → used_left valid pr o known mine pr ≡ []
      → Live (page_gone inuse) (used_left valid pr o known mine) a m
        ↔ Live taken_back (used_left valid pr o known mine) a m
  page_gone-Live inuse a m left = (
    Live-map (page_gone inuse) taken_back (used_left valid pr o known mine)
        (used_left valid pr o known mine) a m
        (λ i x j k at. (In-unlink pr h.allbase i j, k, refl, refl)),
    Live-map taken_back (page_gone inuse) (used_left valid pr o known mine)
        (used_left valid pr o known mine) a m
        (λ i x j k at. (
          In-unlink_ne pr h.allbase i j
              (λ e. subst (In x) (ap (used_left valid pr o known mine) e ∙ left) k),
          k,
          refl,
          refl,
        )),
  )

  -- Else a block in use is left on the page.
  one_left :
      length (free pr) + 1 ≢ 4096 / size_of (type_of (h.refs pr))
      → (a : ℕ) × (m : ℕ) × Live taken_back (used_left valid pr o known mine) a m
        × (a / 4096 ≡ (page_of (h.refs pr) + o) / 4096)
  one_left ne =
      let count = (valid.pages pr known).total in
      let (x, k) =
        some_in (unlink o (used pr)) (λ e. ne (omega (arith, length-unlink o (used pr) mine))) in
      let (small, whole, inside) = live_small valid pr o known mine in
      let (small', whole', inside') = live_small valid pr x known (In-unlink o (used pr) x k) in
      (
        page_of (h.refs pr) + x,
        size_of (type_of (taken_back.refs pr)),
        (
          pr,
          x,
          known,
          subst (In x) (sym (update_self used pr (unlink o (used pr)))) k,
          ap (λ t. t + x) (sym (back_page valid pr o known mine pr)),
          refl,
        ),
        omega arith,
      )
    where
      some_in : (xs : List ℕ) → length xs ≢ 0 → (x : ℕ) × In x xs
      some_in [] e = absurd (e refl)
      some_in (x ∷ xs) e = (x, inl refl)

  -- The page has no block in use: it leaves both lists, and its frame and pageref are given back.
  release :
      length (free pr) + 1 ≡ 4096 / size_of (type_of (h.refs pr))
      → Freed source.Sane source.Owns h used (page_of (h.refs pr) + o) (do
        h₂ ← remove_lists pr (type_of (h.refs pr)) taken_back
        s₁ ← free_kpages (page_of (h.refs pr)) s
        h₃ ← freepageref pr h₂
        done (h₃, s₁))
  unfolding remove_lists
  release all_free =
      let (s', run, sane', kept, gone) =
        source.free_law s (page_of (h.refs pr)) sane (valid.owned pr known) in
      let (inuse, run', f) =
        freepageref_lem pr (page_gone h.inuse) valid.whole valid.eight (valid.marked pr known) in
      let type = lt→ltb (type_of (h.refs pr)) 8 (valid.pages pr known).typed in
      (
        page_gone inuse,
        s',
        update free pr (o ∷ free pr),
        used_left valid pr o known mine,
        rw (type, run, run'),
        sane',
        page_gone-Valid s' inuse f kept,
        λ a m.
            let (there, here) = page_gone-Live inuse a m (none_used all_free) in
            let (out, into) = back-Live valid pr o known mine a m in
            (λ live. out (there live), λ live. here (into live)),
        inr (λ own.
            let (small, whole, inside) = live_small valid pr o known mine in
            let page : (page_of (h.refs pr) + o) / 4096 * 4096 ≡ page_of (h.refs pr) =
              omega arith in
            gone (subst (source.Owns s') page own)),
      )

  free_block-Freed :
      Freed source.Sane source.Owns h used
        (page_of (h.refs pr) + o)
        (free_block alloc_kpages free_kpages (page_of (h.refs pr) + o) pr h s)
  unfolding free_block
  free_block-Freed =
      let ok = valid.pages pr known in
      let (small, whole, inside) = live_small valid pr o known mine in
      let offset : page_of (h.refs pr) + o - page_of (h.refs pr) ≡ o = omega arith in
      let nfree : (taken_back.refs pr).nfree ≡ suc (length (free pr)) =
        ap (λ r. r.nfree) (update_self h.refs pr _) in
      let bound =
        le→leb (suc (length (free pr))) (4096 / size_of (type_of (h.refs pr)))
          (omega (arith, ok.total, length-unlink o (used pr) mine)) in
      rw
        (
          offset,
          lt→leb_false 4096 o small,
          ==_true (o % size_of (type_of (h.refs pr))) 0 whole,
          put_back-back valid pr o known mine,
          nfree,
          bound,
        )
        (elim (Bool-cases (suc (length (free pr)) == 4096 / size_of (type_of (h.refs pr)))) [
          | inl all ↦ rw all (
              release (
                omega (
                  arith,
                  (==_iff (suc (length (free pr))) (4096 / size_of (type_of (h.refs pr)))).0 all,
                )))
          | inr some_used ↦ rw some_used (
            taken_back,
            s,
            update free pr (o ∷ free pr),
            used_left valid pr o known mine,
            refl,
            sane,
            valid_back,
            back-Live valid pr o known mine,
            inl (
                one_left (λ e. cc (
                  some_used,
                  ==_true (suc (length (free pr))) (4096 / size_of (type_of (h.refs pr)))
                      (omega arith),
                ))),
          )
        ])

-- A block in use that is freed is taken back without a failing assertion: subpage_kfree answers 0,
-- and the blocks in use are then exactly the others. The heap stays valid. Either a block in use is
-- left on the page, or the page goes back to the allocator.
pub subpage_kfree-Freed :
    {S : Type 0} {alloc_kpages : ℕ → S → Run (ℕ × S)} {free_kpages : ℕ → S → Run S}
    (source : PageSource alloc_kpages free_kpages) (s : S) (h : Heap) (free used : ℕ → List ℕ)
    (p n : ℕ)
    → source.Sane s
    → Valid (source.Owns s) h free used
    → Live h used p n
    → (h' : Heap) × (s' : S) × (free' : ℕ → List ℕ) × (used' : ℕ → List ℕ) × (subpage_kfree
          alloc_kpages free_kpages p h s
        ≡ done (true, h', s'))
      × source.Sane s'
      × Valid (source.Owns s') h' free' used'
      × ((a m : ℕ) → Live h' used' a m ↔ (Live h used a m × (a ≢ p)))
      × (((a : ℕ) × (m : ℕ) × Live h' used' a m × (a / 4096 ≡ p / 4096))
          ⊎ (¬ source.Owns s' (p / 4096 * 4096)))
unfolding subpage_kfree
subpage_kfree-Freed {alloc_kpages = alloc_kpages} {free_kpages = free_kpages} source s h free used p
      n sane valid (pr, o, known, mine, at, size) =
    let (small, whole, inside) = live_small valid pr o known mine in
    let found =
      page_from_lem p pr h.refs h.allbase (λ i j. (valid.pages i j).typed)
        (λ i j e. valid.one_page i pr j known e) (λ i j. (valid.pages i j).fits) known (omega arith)
        (omega arith) in
    let (h', s', free', used', run, sane', valid', live, page) =
      subst
        (λ t. Freed source.Sane source.Owns h used t (free_block alloc_kpages free_kpages t pr h s))
        (sym at) (free_block-Freed source s sane valid pr o known mine) in
    (h', s', free', used', rw (found, run), sane', valid', live, page)
