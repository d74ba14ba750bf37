-- ===== src/Coremap/Valid.antt =====
-- The invariant of the core map, and the blocks of frames that it hands out.
use ece.Common.{ℕ, suc, ◌+◌, ◌*◌, ◌≤◌, ◌<◌, ◌≡◌, ◌∙◌, arith, some, List, [], ◌∷◌, length, get_elem?}
use ece.Coremap.{free, used, Entry, Coremap, to_paddr, from_paddr}
use ece.Coremap.Scan.{state_at}
use ece.Coremap.Frames.{count_free, free_of, Updated, Updated-keeps}

-- `num_free` counts the free frames, each entry has its own address, and no address passes 2 ^ 32.
pub record Valid (cm : Coremap) : Type 0 where
  pub counted : count_free cm.entries ≡ cm.num_free
  pub located :
      (i : ℕ) (e : Entry) → get_elem? cm.entries i ≡ some e → e.self_addr ≡ to_paddr cm.base i
  pub fits : cm.base + length cm.entries ≤ 1048576

-- The frames `c` to `c + n - 1` are one block, as both allocations leave it.
pub record Block (cm : Coremap) (c n : ℕ) : Type 0 where
  pub inside : c + n ≤ length cm.entries
  pub some_frames : 0 < n
  pub head : (e : Entry) → get_elem? cm.entries c ≡ some e → e.start_addr ≡ to_paddr cm.base c
  pub sized :
      (j : ℕ) (e : Entry) → c ≤ j → j < c + n → get_elem? cm.entries j ≡ some e → e.frames ≡ n
  pub all_used : (j : ℕ) → c ≤ j → j < c + n → state_at cm.entries j ≡ some used

pub to_paddr_lem : (base i : ℕ) → base + i < 1048576 → to_paddr base i ≡ 4096 * (i + base)
to_paddr_lem base i h = omega arith

-- PADDR_TO_COREMAP undoes COREMAP_TO_PADDR.
pub from_paddr-to_paddr : (base i : ℕ) → base + i < 1048576 → from_paddr base (to_paddr base i) ≡ i
from_paddr-to_paddr base i h = omega arith

pub count_free-le : (es : List Entry) → count_free es ≤ length es
count_free-le [] = omega arith
count_free-le (e ∷ es) = elim e.page_state as (λ s. free_of 1 s + count_free es ≤ suc (length es)) [
  | free ↦ omega (arith, count_free-le es)
  | used ↦ omega (arith, count_free-le es)
]

-- Each entry has its own address.
abbrev pub Located : ℕ → List Entry → Type 0
Located base es = (i : ℕ) (e : Entry) → get_elem? es i ≡ some e → e.self_addr ≡ to_paddr base i

pub Updated-Located :
    (base : ℕ) (f : Entry → Entry) (k i : ℕ) (es es' : List Entry)
    → Updated f k i es es'
    → ((e : Entry) → (f e).self_addr ≡ e.self_addr)
    → Located base es
    → Located base es'
Updated-Located base f k i es es' u keeps here j e' h =
    let (e, g, same) = Updated-keeps (λ x. x.self_addr) f k i es es' u keeps j e' h in
    same ∙ here j e g
