-- ===== src/Kheap/Small.antt =====
-- kmalloc of less than 2048 bytes and kfree, as their callers see them.
use ece.Common.{
  ℕ, ◌*◌, ◌/◌, ◌<◌, ◌≡◌, ◌≢◌, ◌⊎◌, ◌↔◌, inl, inr, subst, arith, List, lt→leb_false, ==_false, Run,
  done,
}
use ece.Kheap.{Heap, type_of}
use ece.Kheap.Valid.{Valid, PageSource, size_facts}
use ece.Kheap.Live.{Live, Apart}
use ece.Kheap.Served.{Served, refused, served}
use ece.Kheap.Subpage.{kmalloc, kfree}
use ece.Kheap.Alloc.{subpage_kmalloc-Served}
use ece.Kheap.Free.{subpage_kfree-Freed}

module _ {S : Type 0} {alloc_kpages : ℕ → S → Run (ℕ × S)} {free_kpages : ℕ → S → Run S}
    (source : PageSource alloc_kpages free_kpages) (evict_page : S → Run (ℕ × S)) where
  -- Over any allocator of pages that keeps its laws, in a valid heap, kmalloc answers every request
  -- of less than 2048 bytes without a failing assertion: with NULL, where the blocks in use stay as
  -- they were, or with a block of at least that size that overlaps no block in use, and which is
  -- then the only new one. The heap stays valid.
  pub kmalloc-Served :
      (sz : ℕ) (s : S) (h : Heap) (free used : ℕ → List ℕ)
      → source.Sane s
      → Valid (source.Owns s) h free used
      → sz < 2048
      → Served source.Sane source.Owns sz h used
          (kmalloc alloc_kpages free_kpages evict_page sz h s)
  unfolding kmalloc
  kmalloc-Served sz s h free used sane valid lt =
      rw (lt→leb_false 2048 sz lt)
        (subpage_kmalloc-Served source sz s h free used sane valid (omega arith))

  -- Over any allocator of pages that keeps its laws, in a valid heap, kfree of a block in use meets
  -- no failing assertion, the blocks in use are then exactly the others, and the heap stays valid.
  -- Either a block in use is left on its page, or the allocator has the page back.
  pub kfree-Live :
      (s : S) (h : Heap) (free used : ℕ → List ℕ) (p n : ℕ)
      → source.Sane s
      → Valid (source.Owns s) h free used
      → Live h used p n
      → (h' : Heap) × (s' : S) × (free' : ℕ → List ℕ) × (used' : ℕ → List ℕ) × (kfree alloc_kpages
            free_kpages p h s
          ≡ done (h', s'))
        × source.Sane s'
        × Valid (source.Owns s') h' free' used'
        × ((a m : ℕ) → Live h' used' a m ↔ (Live h used a m × (a ≢ p)))
        × (((a : ℕ) × (m : ℕ) × Live h' used' a m × (a / 4096 ≡ p / 4096))
            ⊎ (¬ source.Owns s' (p / 4096 * 4096)))
  unfolding kfree
  kfree-Live s h free used p n sane valid live =
      let (h', s', free', used', run, sane', valid', left, page) =
        subpage_kfree-Freed source s h free used p n sane valid live in
      let (i, o, known, mine, at, size) = live in
      let some_block = ==_false p 0 (λ q. omega (arith, (valid.pages i known).positive)) in
      (h', s', free', used', rw (some_block, run), sane', valid', left, page)

  Served-cases :
      (sz p : ℕ) (s s' : S) (h h' : Heap) (used : ℕ → List ℕ) {run : Run (ℕ × Heap × S)}
      → Served source.Sane source.Owns sz h used run
      → run ≡ done (p, h', s')
      → 0 < p
      → (n : ℕ) × (free' : ℕ → List ℕ) × (used' : ℕ → List ℕ) × source.Sane s'
        × Valid (source.Owns s') h' free' used'
        × Live h' used' p n
        × ((a m : ℕ) → Live h used a m → Live h' used' a m × Apart a m p n)
        × ((a m : ℕ) → Live h' used' a m → (a ≡ p) ⊎ Live h used a m)
  Served-cases sz p s s' h h' used (refused h₁ s₁ free₁ used₁ sane valid keeps) e pos =
      let none : 0 ≡ p = cc e in absurd (omega arith)
  Served-cases sz p s s' h h' used (served p₁ n h₁ s₁ free₁ used₁ sane valid pos₁ fit live old new)
        e pos =
      let same : ◌≡◌ {A = ℕ × Heap × S} (p₁, h₁, s₁) (p, h', s') = cc e in
      subst
        (λ t.
          (n : ℕ) × (free' : ℕ → List ℕ) × (used' : ℕ → List ℕ) × source.Sane t.2
          × Valid (source.Owns t.2) t.1 free' used'
          × Live t.1 used' t.0 n
          × ((a m : ℕ) → Live h used a m → Live t.1 used' a m × Apart a m t.0 n)
          × ((a m : ℕ) → Live t.1 used' a m → (a ≡ t.0) ⊎ Live h used a m))
        same (n, free₁, used₁, sane, valid, live, old, new)

  -- Blocks in use have bytes.
  Live-positive :
      {owns : ℕ → Type 0} {h : Heap} {free used : ℕ → List ℕ} (a m : ℕ)
      → Valid owns h free used
      → Live h used a m
      → 0 < m
  Live-positive {h = h} a m valid (i, o, known, mine, at, size) =
      let (low, high, two, most, exact, words) =
        size_facts (type_of (h.refs i)) (valid.pages i known).typed in
      omega arith

  -- Over any allocator of pages that keeps its laws, in a valid heap, a block of less than 2048 bytes
  -- that kmalloc handed out is freed by kfree without a failing assertion, and the blocks in use are
  -- then the ones from before the kmalloc. The heap stays valid.
  pub kfree-kmalloc :
      (sz p : ℕ) (s s' : S) (h h' : Heap) (free used : ℕ → List ℕ)
      → source.Sane s
      → Valid (source.Owns s) h free used
      → sz < 2048
      → kmalloc alloc_kpages free_kpages evict_page sz h s ≡ done (p, h', s')
      → 0 < p
      → (h'' : Heap) × (s'' : S) × (free'' : ℕ → List ℕ) × (used'' : ℕ → List ℕ) × (kfree
            alloc_kpages free_kpages p h' s'
          ≡ done (h'', s''))
        × source.Sane s''
        × Valid (source.Owns s'') h'' free'' used''
        × ((a m : ℕ) → Live h'' used'' a m ↔ Live h used a m)
  kfree-kmalloc sz p s s' h h' free used sane valid lt run pos =
      let (n, free', used', sane', valid', live, old, new) =
        Served-cases sz p s s' h h' used (kmalloc-Served sz s h free used sane valid lt) run pos in
      let (h'', s'', free'', used'', run', sane'', valid'', left, page) =
        kfree-Live s' h' free' used' p n sane' valid' live in
      (
        h'',
        s'',
        free'',
        used'',
        run',
        sane'',
        valid'',
        λ a m. (
          λ l.
              let (there, ne) = (left a m).0 l in
              elim (new a m there) [ inl e ↦ absurd (ne e) | inr before ↦ before ],
          λ l.
              let (there, apart) = old a m l in
              (left a m).1 (
                there,
                λ e.
                    let some_bytes = Live-positive a m valid l in
                    let more_bytes = Live-positive p n valid' live in
                    elim apart [ inl x ↦ omega arith | inr x ↦ omega arith ],
              ),
        ),
      )
