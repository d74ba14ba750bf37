-- ===== src/Kheap.antt =====
-- os161/kern/lib/kheap.c: the kernel's heap, whose pages are cut into blocks of one size. A pageref
-- is named by its index in `pagerefs`, the lists through next_samesize and next_all are given as
-- the indices in their order, and `mem` holds the words of the heap's pages by address, in which
-- the free blocks of a page are linked. 0 is NULL. The allocator of whole pages is a parameter,
-- which Kheap.Pages fills with the map of the frames.
pub mod Subpage
pub mod Chain
pub mod Valid
pub mod Page
pub mod Carve
pub mod Refs
pub mod Frame
pub mod Added
pub mod Removed
pub mod Live
pub mod Served
pub mod Alloc
pub mod Back
pub mod Search
pub mod Free
pub mod Pages
pub mod Small
mod Tests
use ece.Common.{
  ℕ, zero, suc, ◌+◌, ◌-◌, ◌*◌, ◌/◌, ◌%◌, Bool, true, false, not, Option, none, some, List, [], ◌∷◌,
  get_or, set, length, ltb, leb, ◌==◌, if◌then◌else◌, Run, done, fault, Fault, assert, read, write,
  ◌>>=◌, ◌>>◌,
}
use ece.Bitmap.{all_bits, clear_from}
use ece.Coremap.{page_size, word}

pub record PageRef : Type 0 where
  pub pageaddr_and_blocktype : ℕ
  pub freelist_offset : ℕ
  pub nfree : ℕ

-- `inuse` is pagerefs_inuse: eight words of 32 bits, each the list of its bits, the lowest first.
pub record Heap : Type 0 where
  pub refs : ℕ → PageRef
  pub inuse : List (List Bool)
  pub sizebases : ℕ → List ℕ
  pub allbase : List ℕ
  pub mem : ℕ → ℕ

abbrev pub sizes : List ℕ
sizes = 16 ∷ 32 ∷ 64 ∷ 128 ∷ 256 ∷ 512 ∷ 1024 ∷ 2048 ∷ []

abbrev pub nsizes : ℕ
nsizes = 8

abbrev pub size_of : ℕ → ℕ
size_of blktype = get_or sizes blktype 0

abbrev pub invalid_offset : ℕ
invalid_offset = 65535

-- PR_PAGEADDR, PR_BLOCKTYPE and MKPAB
abbrev pub page_of : PageRef → ℕ
page_of r = r.pageaddr_and_blocktype / page_size * page_size

abbrev pub type_of : PageRef → ℕ
type_of r = r.pageaddr_and_blocktype % page_size

abbrev pub mkpab : ℕ → ℕ → ℕ
mkpab pa blk = pa / page_size * page_size + blk % page_size

abbrev pub update {ℓ} : {A : Type ℓ} → (ℕ → A) → ℕ → A → ℕ → A
update f i v j = if j == i then v else f j

-- fill_deadbeef, for `words` words from `ptr` on
pub fill_deadbeef : ℕ → ℕ → (ℕ → ℕ) → ℕ → ℕ
fill_deadbeef zero ptr mem = mem
fill_deadbeef (suc words) ptr mem = fill_deadbeef words (ptr + 4) (update mem ptr 0xdead_beef)

-- the loop of allocpageref, from the word `i` on
pub ref_from : ℕ → List (List Bool) → Run (Option ℕ × List (List Bool))
ref_from i [] = done (none, [])
ref_from i (w ∷ ws) =
    let rest = (do (r, ws') ← ref_from (i + 1) ws; done (r, w ∷ ws')) in
    let here : Run (Option ℕ × List (List Bool)) = elim (clear_from 0 w) [
      | none ↦ fault Fault.assertion
      | some j ↦ done (some (i * 32 + j), set w j true ∷ ws)
    ] in
    if all_bits w then rest else here

pub allocpageref : Heap → Run (Option ℕ × Heap)
allocpageref h = do (r, inuse) ← ref_from 0 h.inuse; done (r, record h { inuse = inuse })

pub freepageref : ℕ → Heap → Run Heap
freepageref j h = do
  assert (ltb j 256)
  w ← read h.inuse (j / 32)
  bit ← read w (j % 32)
  assert bit
  inuse ← write h.inuse (j / 32) (set w (j % 32) false)
  done (record h { inuse = inuse })

-- The loops of remove_lists: the first that is `pr` is unlinked.
abbrev pub unlink : ℕ → List ℕ → List ℕ
unlink pr [] = []
unlink pr (x ∷ xs) = if x == pr then xs else x ∷ unlink pr xs

pub remove_lists : ℕ → ℕ → Heap → Run Heap
remove_lists pr blktype h = do
  assert (ltb blktype nsizes)
  done (record h {
    sizebases = update h.sizebases blktype (unlink pr (h.sizebases blktype));
    allbase = unlink pr h.allbase;
  })

-- the loop of blocktype, from `i` on
pub type_from : ℕ → ℕ → List ℕ → Run ℕ
type_from sz i [] = fault Fault.panicked
type_from sz i (s ∷ ss) = let rest = type_from sz (i + 1) ss in if leb sz s then done i else rest

pub blocktype : ℕ → Run ℕ
unfolding type_from
blocktype sz = type_from sz 0 sizes

-- `doalloc`: the first free block of the page is taken.
pub take : ℕ → Heap → Run (ℕ × Heap)
take pr h =
    let r = h.refs pr in
    let prpage = page_of r in
    let fla = prpage + r.freelist_offset in
    let next = h.mem fla in
    let nfree = (r.nfree + 65535) % 65536 in
    let with_offset : ℕ → Run (ℕ × Heap) = λ offset. done (
      fla,
      record h { refs = update h.refs pr (record r { nfree = nfree; freelist_offset = offset }) },
    ) in
    let more : Run (ℕ × Heap) = (do
      assert (ltb 0 nfree)
      assert (ltb ((next + word - prpage) % word) page_size)
      with_offset ((next + word - prpage) % word)) in
    let last : Run (ℕ × Heap) = (do assert (nfree == 0); with_offset invalid_offset) in
    (do assert (ltb r.freelist_offset page_size); if next == 0 then last else more)

-- the loop of subpage_kmalloc that looks for a page with a free block
pub find_page : ℕ → (ℕ → PageRef) → List ℕ → Run (Option ℕ)
find_page blktype refs [] = done none
find_page blktype refs (pr ∷ prs) =
    let rest = find_page blktype refs prs in
    (do
      assert (type_of (refs pr) == blktype)
      if ltb 0 (refs pr).nfree then done (some pr) else rest)

-- the loop that links the blocks of a fresh page, from the block `i` on
pub carve : ℕ → ℕ → ℕ → ℕ → (ℕ → ℕ) → Run (ℕ → ℕ)
carve zero i size fla mem = done mem
carve (suc rounds) i size fla mem = do
  assert (not (fla + i * size == fla + (i - 1) * size))
  carve rounds (i + 1) size fla (update mem (fla + i * size) (fla + (i - 1) * size))

-- A fresh page, cut up and put on both lists.
pub add_page : ℕ → ℕ → ℕ → Heap → Run Heap
unfolding carve
add_page blktype pr prpage h =
    let size = size_of blktype in
    let nfree = page_size / size in
    (do
      mem ← carve (nfree - 1) 1 size prpage (update h.mem prpage 0)
      let r : PageRef = record {
        pageaddr_and_blocktype = mkpab prpage blktype;
        freelist_offset = (nfree - 1) * size;
        nfree = nfree;
      }
      done (record h {
        refs = update h.refs pr r;
        sizebases = update h.sizebases blktype (pr ∷ h.sizebases blktype);
        allbase = pr ∷ h.allbase;
        mem = mem;
      }))

-- the loop of subpage_kfree: the page that `ptraddr` lies in
pub page_from : ℕ → (ℕ → PageRef) → List ℕ → Run (Option ℕ)
page_from ptraddr refs [] = done none
page_from ptraddr refs (pr ∷ prs) =
    let prpage = page_of (refs pr) in
    let rest = page_from ptraddr refs prs in
    (do
      assert (ltb (type_of (refs pr)) nsizes)
      if leb prpage ptraddr
          then (if ltb ptraddr ((prpage + page_size) % word) then done (some pr) else rest)
          else rest)

-- the block at `offset` goes first on the list of its page
pub put_back : ℕ → ℕ → Heap → Heap
unfolding fill_deadbeef
put_back pr offset h =
    let r = h.refs pr in
    let prpage = page_of r in
    let filled = fill_deadbeef (size_of (type_of r) / 4) (prpage + offset) h.mem in
    let next = if r.freelist_offset == invalid_offset then 0 else prpage + r.freelist_offset in
    record h {
      mem = update filled (prpage + offset) next;
      refs =
          update h.refs pr (record r { freelist_offset = offset; nfree = (r.nfree + 1) % 65536 });
    }
