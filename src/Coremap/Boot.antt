-- ===== src/Coremap/Boot.antt =====
-- coremap_bootstrap: the map covers the memory behind itself, and every frame of it is free.
use ece.Common.{
  ℕ, zero, suc, ◌+◌, ◌-◌, ◌*◌, ◌/◌, ◌%◌, ◌≤◌, ◌<◌, ◌≡◌, refl, sym, subst, true, ap, arith, some,
  length, get_elem?, done, ==_true, ◌==◌,
}
use ece.Coremap.{Entry, Coremap, word, to_paddr, initial, blank, bootstrap}
use ece.Coremap.Frames.{count_free}
use ece.Coremap.Valid.{Valid}

length-initial : (base n i : ℕ) → length (initial base n i) ≡ n
length-initial base zero i = refl
length-initial base (suc n) i = ap suc (length-initial base n (i + 1))

count_free-initial : (base n i : ℕ) → count_free (initial base n i) ≡ n
count_free-initial base zero i = refl
count_free-initial base (suc n) i = omega (arith, count_free-initial base n (i + 1))

get_elem?-initial :
    (base n i j : ℕ) (e : Entry)
    → get_elem? (initial base n i) j ≡ some e
    → e.self_addr ≡ to_paddr base (i + j)
get_elem?-initial base zero i j e h = cc
get_elem?-initial base (suc n) i zero e h =
    let z : i + 0 ≡ i = omega arith in
    let here : blank (to_paddr base i) ≡ e = cc h in rw (z, ← here) refl
get_elem?-initial base (suc n) i (suc j) e h =
    let z : i + suc j ≡ i + 1 + j = omega arith in rw z (get_elem?-initial base n (i + 1) j e h)

-- The size of the map, in pages, for `n` frames: enough, and no more than there are.
size_lem :
    (n : ℕ)
    → 0 < n
    → n < 1048576
    → (pages : ℕ) × ((n * 56 % word + 4095) % word / 4096 * 4096 ≡ 4096 * pages)
      × (n * 56 ≤ 4096 * pages)
      × (pages ≤ n)
size_lem n h small = ((n * 56 + 4095) / 4096, omega arith, omega arith, omega arith)

-- a map of `n` free frames
abbrev booted : ℕ → ℕ → (ℕ → ℕ) → Coremap
booted base n memory = record {
  base = base;
  num_free = n;
  entries = initial base n 0;
  ram = memory;
}

booted-Valid : (base n : ℕ) (memory : ℕ → ℕ) → base + n ≤ 1048576 → Valid (booted base n memory)
booted-Valid base n memory h = record {
  counted = count_free-initial base n 0;
  located = λ i e g.
      let z : 0 + i ≡ i = omega arith in
      subst (λ t. e.self_addr ≡ to_paddr base t) z (get_elem?-initial base n 0 i e g);
  fits = omega (arith, length-initial base n 0);
}

-- The run, by the numbers that it computes.
bootstrap_of :
    (first last : ℕ) (memory : ℕ → ℕ) (num pages base : ℕ)
    → (last + word - first) % word / 4096 ≡ num
    → (num * 56 % word + 4095) % word / 4096 * 4096 ≡ 4096 * pages
    → (first + 4096 * pages) % word / 4096 ≡ base
    → (last / 4096 + word - base) % word ≡ num - pages
    → pages ≤ num
    → num < word
    → bootstrap first last memory ≡ done (booted base (num - pages) memory)
unfolding bootstrap
bootstrap_of first last memory num pages base e1 e2 e3 e4 most small =
    let whole : (4096 * pages % 4096 == 0) ≡ true = ==_true _ 0 (omega arith) in
    let sum : ((num - pages + 4096 * pages / 4096) % word == num) ≡ true =
      ==_true _ num (omega arith) in
    rw (e1, e2, e3, e4, whole, sum)

-- With page-aligned addresses and at least one frame between them the assertions hold; the entries
-- take the first pages, the map covers the pages from there up to the last address, and all of
-- these are free.
pub bootstrap-Valid :
    (firstpaddr lastpaddr : ℕ) (memory : ℕ → ℕ)
    → firstpaddr % 4096 ≡ 0
    → lastpaddr % 4096 ≡ 0
    → firstpaddr < lastpaddr
    → lastpaddr < word
    → (cm : Coremap) × (bootstrap firstpaddr lastpaddr memory ≡ done cm)
      × Valid cm
      × (cm.num_free ≡ length cm.entries)
      × (4096 * (cm.base + length cm.entries) ≡ lastpaddr)
      × (firstpaddr + length cm.entries * 56 ≤ 4096 * cm.base)
unfolding bootstrap
bootstrap-Valid first last memory a b lt small =
    let (pages, size, enough, most) =
      size_lem (last / 4096 - first / 4096) (omega arith) (omega arith) in
    let base = first / 4096 + pages in
    let frames = last / 4096 - first / 4096 - pages in
    let len = length-initial base frames 0 in
    let run =
      bootstrap_of first last memory (last / 4096 - first / 4096) pages base (omega arith) size
        (omega arith) (omega arith) most (omega arith) in
    (
      booted base frames memory,
      run,
      booted-Valid base frames memory (omega arith),
      sym len,
      omega arith,
      omega arith,
    )
