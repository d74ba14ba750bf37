-- ===== src/Kheap/Subpage.antt =====
-- subpage_kmalloc, subpage_kfree, kmalloc and kfree of os161/kern/lib/kheap.c, over any allocator of
-- whole pages with state `S`: `alloc_kpages` answers an address or 0. `evict_page` stands for
-- evictPage.
use ece.Common.{
  ℕ, ◌+◌, ◌-◌, ◌/◌, ◌%◌, Bool, true, false, not, ◌||◌, none, some, leb, ◌==◌, if◌then◌else◌, Run,
  done, fault, Fault, assert, ◌>>=◌, ◌>>◌,
}
use ece.Coremap.{page_size, word}
use ece.Kheap.{
  Heap, size_of, page_of, type_of, allocpageref, freepageref, remove_lists, blocktype, take,
  find_page, add_page, page_from, put_back,
}

-- kmalloc of whole pages
unfoldable pub large_kmalloc :
    {S : Type 0} → (ℕ → S → Run (ℕ × S)) → (S → Run (ℕ × S)) → ℕ → S → Run (ℕ × S)
large_kmalloc alloc_kpages evict_page sz s = do
  (address, s') ← alloc_kpages ((sz + page_size - 1) % word / page_size) s
  if address == 0 then evict_page s' else done (address, s')

module _ {S : Type 0} (alloc_kpages : ℕ → S → Run (ℕ × S)) (free_kpages : ℕ → S → Run S) where
  -- No page of the size has a free block: a fresh page.
  unfoldable pub alloc_fresh : ℕ → Heap → S → Run (ℕ × Heap × S)
  alloc_fresh blktype h s =
      let got : ℕ → Heap → Run (ℕ × Heap × S) = λ pr h₁. (do
        (prpage, s₁) ← alloc_kpages 1 s
        let give_up : Run (ℕ × Heap × S) = do h₂ ← freepageref pr h₁; done (0, h₂, s₁)
        let use_page : Run (ℕ × Heap × S) = do
          h₂ ← add_page blktype pr prpage h₁
          (p, h₃) ← take pr h₂
          done (p, h₃, s₁)
        if prpage == 0 then give_up else use_page) in
      (do (r, h₁) ← allocpageref h; elim r [ none ↦ done (0, h₁, s) | some pr ↦ got pr h₁ ])

  unfoldable pub subpage_kmalloc : ℕ → Heap → S → Run (ℕ × Heap × S)
  unfolding alloc_fresh
  subpage_kmalloc sz h s =
      let from : ℕ → Run (ℕ × Heap × S) = λ pr. (do (p, h') ← take pr h; done (p, h', s)) in
      (do
        blktype ← blocktype sz
        found ← find_page blktype h.refs (h.sizebases blktype)
        elim found [ some pr ↦ from pr | none ↦ alloc_fresh blktype h s ])

  -- the end of subpage_kfree, once the page is known
  unfoldable pub free_block : ℕ → ℕ → Heap → S → Run (Heap × S)
  free_block ptr pr h s =
      let r = h.refs pr in
      let size = size_of (type_of r) in
      let offset = ptr - page_of r in
      let h₁ = put_back pr offset h in
      let nfree = (h₁.refs pr).nfree in
      let release : Run (Heap × S) = (do
        h₂ ← remove_lists pr (type_of r) h₁
        s₁ ← free_kpages (page_of r) s
        h₃ ← freepageref pr h₂
        done (h₃, s₁)) in
      let back : Run (Heap × S) = (do
        assert (leb nfree (page_size / size))
        if nfree == page_size / size then release else done (h₁, s)) in
      if leb page_size offset || not (offset % size == 0) then fault Fault.panicked else back

  -- `false` is the result -1: the address lies on no page of the heap.
  unfoldable pub subpage_kfree : ℕ → Heap → S → Run (Bool × Heap × S)
  unfolding free_block
  subpage_kfree ptr h s =
      let on : ℕ → Run (Bool × Heap × S) =
        λ pr. (do (h', s') ← free_block ptr pr h s; done (true, h', s')) in
      (do
        found ← page_from ptr h.refs h.allbase
        elim found [ none ↦ done (false, h, s) | some pr ↦ on pr ])

  unfoldable pub kmalloc : (S → Run (ℕ × S)) → ℕ → Heap → S → Run (ℕ × Heap × S)
  unfolding subpage_kmalloc large_kmalloc
  kmalloc evict_page sz h s =
      let large : Run (ℕ × Heap × S) = (do
        (address, s') ← large_kmalloc alloc_kpages evict_page sz s
        done (address, h, s')) in
      if leb 2048 sz then large else subpage_kmalloc sz h s

  unfoldable pub kfree : ℕ → Heap → S → Run (Heap × S)
  unfolding subpage_kfree
  kfree ptr h s =
      let large : Heap → S → Run (Heap × S) =
        λ h' s'. (do assert (ptr % page_size == 0); s'' ← free_kpages ptr s'; done (h', s'')) in
      let given : Run (Heap × S) = (do
        (ours, h', s') ← subpage_kfree ptr h s
        if ours then done (h', s') else large h' s') in
      if ptr == 0 then done (h, s) else given
