-- ===== src/Vm/Table.antt =====
-- The page that map_page_table takes for a new table, on a machine with less than 1 MB.
use ece.Common.{
  ℕ, ◌+◌, ◌*◌, ◌<◌, ◌≡◌, refl, subst, List, arith, length, length-set, set, ==_false, Run, done,
}
use ece.Coremap.{Entry, Coremap}
use ece.Coremap as Map
use ece.Coremap.Scan.{entry_at}
use ece.Coremap.Frames.{count_free-set, update_lem, Updated-one}
use ece.Coremap.Valid.{Valid, Updated-Located}
use ece.Kheap.Pages.{kseg0, Sane, alloc_kpages-GotPage, GotPage-some}
use ece.Kheap.Subpage.{large_kmalloc}
use ece.Vm.{Space, read_in, alloc_in}
use ece.Vm.Mapped.{LowMemory, update_done}

-- Marking a page as read in keeps the map valid.
pub read_in-Valid :
    (cm : Coremap) (i : ℕ) {es : List Entry}
    → Valid cm
    → Map.update read_in i cm.entries ≡ done es
    → Valid (record cm { entries = es })
read_in-Valid cm i {es} valid run =
    let (lt, size) = update_done read_in i cm.entries es run in
    let (e, g, at) = entry_at cm.entries i lt in
    let same : set cm.entries i (read_in e) ≡ es =
      cc (update_lem read_in i cm.entries e g lt, run) in
    subst (λ t. Valid (record cm { entries = t })) same
      (record {
        counted = omega (arith, count_free-set cm.entries i e (read_in e) g, valid.counted);
        located =
            Updated-Located cm.base read_in 1 i cm.entries (set cm.entries i (read_in e))
              (Updated-one read_in i cm.entries e g lt) (λ x. refl) valid.located;
        fits = omega (arith, valid.fits, length-set cm.entries i (read_in e));
      })

-- Where a frame is free, kmalloc of a page gives one of the kernel's addresses below 1 MB.
pub table_got :
    (evict_page : Space → Run (ℕ × Space)) (sp : Space)
    → LowMemory sp
    → 0 < sp.frames.num_free
    → (c : ℕ) × (cm : Coremap) × (c + sp.frames.base < 256)
      × (cm.base ≡ sp.frames.base)
      × (length cm.entries ≡ length sp.frames.entries)
      × (large_kmalloc alloc_in evict_page 4096 sp
          ≡ done (kseg0 + 4096 * (c + sp.frames.base), record sp { frames = cm }))
unfolding large_kmalloc
table_got evict_page sp memory pos =
    let sane : Sane sp.frames = record {
      valid = memory.valid;
      above = memory.above;
      mapped = omega (arith, memory.low);
    } in
    let (c, cm, lt, base, size, run) =
      GotPage-some sp.frames sane pos (alloc_kpages-GotPage sp.frames sane) in
    let some_page = ==_false (kseg0 + 4096 * (c + sp.frames.base)) 0 (λ q. omega arith) in
    (c, cm, omega (arith, memory.low), base, size, rw (run, some_page))
