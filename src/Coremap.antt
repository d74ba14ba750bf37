-- ===== src/Coremap.antt =====
-- os161/kern/vm/coremap.c and include/coremap.h: the map of the physical frames. `length` of
-- `entries` is num_coremap_entries, `ram` the bytes of the memory by physical address. An address
-- that PADDR_TO_KVADDR maps is used as that physical address.
pub mod Scan
pub mod Frames
pub mod Valid
pub mod Boot
pub mod One
pub mod Many
pub mod Free
mod Tests
use ece.Common.{
  ℕ, zero, suc, ◌+◌, ◌-◌, ◌*◌, ◌/◌, ◌%◌, ◌^◌, Bool, true, false, Option, none, some, List, [], ◌∷◌,
  length, drop, ltb, ◌==◌, if◌then◌else◌, Run, done, fault, Fault, assert, read, write, ◌>>=◌, ◌>>◌,
}

-- `'H'` and `'P'`
pub data PageState : Type 0 where
  free used : PageState

-- `struct coremap_entry`; 0 is NULL in `as`
pub record Entry : Type 0 where
  pub self_addr : ℕ
  pub page_state : PageState
  pub as_addr : ℕ
  pub start_addr : ℕ
  pub frames : ℕ
  pub is_kernel : ℕ
  pub fixed : ℕ
  pub reference : ℕ
  pub counter : ℕ
  pub dirty : ℕ
  pub copy : ℕ
  pub vaddr : ℕ
  pub pd_addr : ℕ
  pub pt_addr : ℕ

pub record Coremap : Type 0 where
  pub base : ℕ
  pub num_free : ℕ
  pub entries : List Entry
  pub ram : ℕ → ℕ

-- PAGE_SIZE
abbrev pub page_size : ℕ
page_size = 4096

-- 2 ^ 32
abbrev pub word : ℕ
word = 4294967296

-- COREMAP_TO_PADDR and PADDR_TO_COREMAP
abbrev pub to_paddr : ℕ → ℕ → ℕ
to_paddr base i = page_size * (i + base) % word

abbrev pub from_paddr : ℕ → ℕ → ℕ
from_paddr base page = (page / page_size + word - base) % word

abbrev pub blank : ℕ → Entry
blank addr = record {
  self_addr = addr;
  page_state = PageState.free;
  as_addr = 0;
  start_addr = 0;
  frames = 0;
  is_kernel = 0;
  fixed = 0;
  reference = 0;
  counter = 0;
  dirty = 0;
  copy = 0;
  vaddr = 0;
  pd_addr = 0;
  pt_addr = 0;
}

-- the loop of coremap_bootstrap over the entries
abbrev pub initial : ℕ → ℕ → ℕ → List Entry
initial base zero i = []
initial base (suc n) i = blank (to_paddr base i) ∷ initial base n (i + 1)

-- coremap_bootstrap, where ram_getsize gives the two addresses. `sizeof(struct coremap_entry)` is
-- 14 words.
pub bootstrap : ℕ → ℕ → (ℕ → ℕ) → Run Coremap
bootstrap firstpaddr lastpaddr memory =
    let num_frame = (lastpaddr + word - firstpaddr) % word / page_size in
    let size = (num_frame * 56 % word + (page_size - 1)) % word / page_size * page_size in
    let base = (firstpaddr + size) % word / page_size in
    let num = (lastpaddr / page_size + word - base) % word in
    (do
      assert (size % page_size == 0)
      assert ((num + size / page_size) % word == num_frame)
      done (record { base = base; num_free = num; entries = initial base num 0; ram = memory }))

-- the first loop of coremapAllocateOneFrame; `none` is -1
abbrev pub candidate_from : ℕ → List Entry → Option ℕ
candidate_from i [] = none
candidate_from i (e ∷ es) = elim e.page_state [ used ↦ candidate_from (i + 1) es | free ↦ some i ]

-- `if(kernel == 1) ... else if(kernel == 0)`
abbrev pub kernel_flag : ℕ → ℕ → ℕ
kernel_flag kernel old = if kernel == 1 then 1 else (if kernel == 0 then 0 else old)

-- what both allocations do to an entry
abbrev pub taken : ℕ → ℕ → Entry → Entry
taken n kernel e = record e {
  page_state = PageState.used;
  frames = n;
  is_kernel = kernel_flag kernel e.is_kernel;
}

-- `startAddr = selfAddr`
abbrev pub started : Entry → Entry
started e = record e { start_addr = e.self_addr }

abbrev pub update : (Entry → Entry) → ℕ → List Entry → Run (List Entry)
update f i es = do e ← read es i; write es i (f e)

-- coremapAllocateOneFrame
unfoldable pub allocate_one : ℕ → Coremap → Run (ℕ × Coremap)
allocate_one kernel cm =
    let found : ℕ → Run (ℕ × Coremap) = λ c. (do
      es ← update (λ e. taken 1 kernel (started e)) c cm.entries
      done (to_paddr cm.base c, record cm { num_free = cm.num_free - 1; entries = es })) in
    let pick : Run (ℕ × Coremap) = elim (candidate_from 0 cm.entries) [
      | none ↦ fault Fault.wild
      | some c ↦ found c
    ] in
    if cm.num_free == 0 then done (0, cm) else pick

-- How the inner loop of coremapAllocateMultipleFrame ends: by its goto, by its break with `i = j`,
-- or past the last entry.
pub data Scanned : Type 0 where
  found ran_out : Scanned
  blocked : ℕ → Scanned

-- the inner loop, from `j` on
pub scan : ℕ → ℕ → ℕ → List Entry → Scanned
scan n j counter [] = Scanned.ran_out
scan n j counter (e ∷ es) =
    let longer = scan n (j + 1) (counter + 1) es in
    let same = scan n (j + 1) counter es in
    elim e.page_state [
      | free ↦ if n == counter + 2 then Scanned.found else longer
      | used ↦ if n == counter + 1 then same else Scanned.blocked j
    ]

-- The outer loop, with `candidate`, which C leaves uninitialised at first. It ends at the label
-- findMultipleFrame, by the goto or past the last entry.
pub search : ℕ → List Entry → ℕ → ℕ → Option ℕ → Run (Option ℕ)
search n es zero i candidate = fault Fault.spinning
search n es (suc fuel) i candidate =
    let next = search n es fuel (i + 1) candidate in
    let next_found = search n es fuel (i + 1) (some i) in
    let body = (do
      e ← read es i
      elim e.page_state [
        | used ↦ next
        | free ↦ elim (scan n (i + 1) 0 (drop (i + 1) es)) [
          | found ↦ done (some i)
          | ran_out ↦ next_found
          | blocked j ↦ search n es fuel (j + 1) (some i)
        ]
      ]) in
    if ltb i (length es) then body else done candidate

-- a loop that changes `rounds` entries from `i` on
pub update_frames : (Entry → Entry) → ℕ → ℕ → List Entry → Run (List Entry)
update_frames f zero i es = done es
update_frames f (suc rounds) i es = update f i es >>= update_frames f rounds (i + 1)

-- coremapAllocateMultipleFrame, for an `n` that is not negative
pub allocate_multiple : ℕ → ℕ → Coremap → Run (ℕ × Coremap)
unfolding search update_frames
allocate_multiple n kernel cm =
    let take : ℕ → Run (ℕ × Coremap) = λ c. (do
      es ← update started c cm.entries
      es' ← update_frames (taken n kernel) n c es
      done (to_paddr cm.base c, record cm { num_free = cm.num_free - n; entries = es' })) in
    let go = (do
      candidate ← search n cm.entries (length cm.entries + 1) 0 none
      elim candidate [ none ↦ fault Fault.uninitialised | some c ↦ take c ]) in
    if ltb cm.num_free n then done (0, cm) else go

-- what coremapFree does to an entry: `selfAddr` and `fixed` stay
abbrev pub cleared : Entry → Entry
cleared e = record (blank e.self_addr) { fixed = e.fixed }

-- `count` bytes from `a` on are set to 0
pub clear_bytes : ℕ → ℕ → (ℕ → ℕ) → ℕ → ℕ
clear_bytes zero a ram x = ram x
clear_bytes (suc count) a ram x = clear_bytes count (a + 1) (λ y. if y == a then 0 else ram y) x

-- `pages` times the loop over a page, with `phy_ptr + 0x1000` between
pub clear_pages : ℕ → ℕ → (ℕ → ℕ) → ℕ → ℕ
clear_pages zero a ram = ram
clear_pages (suc pages) a ram = clear_pages pages (a + page_size) (clear_bytes page_size a ram)

-- coremapFree. Its second test finds the length 0 that its first branch wrote.
pub free_frames : ℕ → Coremap → Run Coremap
free_frames page cm =
    let ppn = from_paddr cm.base page in
    let release : ℕ → Entry → Run Coremap = λ n e. (do
      assert (page == e.start_addr)
      es ← update_frames cleared n ppn cm.entries
      done (record cm {
        num_free = (cm.num_free + n) % word;
        entries = es;
        ram = clear_pages n page cm.ram;
      })) in
    let by_length : Entry → Run Coremap = λ e.
      if e.frames == 1
      then release 1 e
      else (if ltb 1 e.frames then release e.frames e else done cm) in
    (do assert (ltb ppn (length cm.entries)); e ← read cm.entries ppn; by_length e)
