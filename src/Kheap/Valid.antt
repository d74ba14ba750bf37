-- ===== src/Kheap/Valid.antt =====
-- The invariant of the heap: what its pages hold, and what it asks of the allocator of pages.
use ece.Common.{
  ℕ, zero, suc, ◌+◌, ◌*◌, ◌/◌, ◌%◌, ◌≤◌, ◌<◌, ◌≡◌, ◌≢◌, ◌⊎◌, inl, inr, sym, ap, subst, ◌∙◌, arith,
  Bool, true, Option, none, some, List, [], ◌∷◌, length, get_elem?, ==_true, ==_false, ℕ_discrete,
  Run, done,
}
use ece.Coremap.{word}
use ece.Kheap.{PageRef, Heap, size_of, page_of, type_of, unlink}
use ece.Kheap.Chain.{In, NotIn, head_offset, Chain, Blocks}

-- One page: `fs` are the offsets of its free blocks in the order of their chain, `us` those of the
-- blocks in use.
pub record PageOk (mem : ℕ → ℕ) (r : PageRef) (fs us : List ℕ) : Type 0 where
  pub typed : type_of r < 8
  pub positive : 0 < page_of r
  pub fits : page_of r + 4096 < word
  pub offset : r.freelist_offset ≡ head_offset fs
  pub count : r.nfree ≡ length fs
  pub chain : Chain mem (page_of r) fs
  pub free_blocks : Blocks (size_of (type_of r)) fs
  pub used_blocks : Blocks (size_of (type_of r)) us
  pub apart : (o : ℕ) → In o fs → In o us → ⊥
  pub total : length fs + length us ≡ 4096 / size_of (type_of r)

abbrev pub Distinct : List ℕ → Type 0
Distinct [] = Unit {0}
Distinct (x ∷ xs) = NotIn x xs × Distinct xs

-- the bit `r` of the word `q`
abbrev pub bit_of : List (List Bool) → ℕ → ℕ → Option Bool
bit_of [] q r = none
bit_of (w ∷ ws) zero r = get_elem? w r
bit_of (w ∷ ws) (suc q) r = bit_of ws q r

abbrev pub Whole : List (List Bool) → Type 0
Whole [] = Unit {0}
Whole (w ∷ ws) = (length w ≡ 32) × Whole ws

-- `free i` and `used i` are the blocks of the page of pageref `i`; `owns` are the pages that the
-- heap was given.
pub record Valid (owns : ℕ → Type 0) (h : Heap) (free used : ℕ → List ℕ) : Type 0 where
  pub pages : (i : ℕ) → In i h.allbase → PageOk h.mem (h.refs i) (free i) (used i)
  pub one_page :
      (i j : ℕ) → In i h.allbase → In j h.allbase → page_of (h.refs i) ≡ page_of (h.refs j) → i ≡ j
  pub once : Distinct h.allbase
  pub sized : (b i : ℕ) → In i (h.sizebases b) → In i h.allbase × (type_of (h.refs i) ≡ b)
  pub once_sized : (b : ℕ) → Distinct (h.sizebases b)
  pub whole : Whole h.inuse
  pub eight : length h.inuse ≡ 8
  pub marked : (i : ℕ) → In i h.allbase → bit_of h.inuse (i / 32) (i % 32) ≡ some true
  pub owned : (i : ℕ) → In i h.allbase → owns (page_of (h.refs i))

-- An allocator of pages, by what the heap relies on.
pub record PageSource {S : Type 0} (alloc_kpages : ℕ → S → Run (ℕ × S))
    (free_kpages : ℕ → S → Run S) : Type 1 where
  pub Sane : S → Type 0
  pub Owns : S → ℕ → Type 0
  pub alloc_law :
      (s : S)
      → Sane s
      → (a : ℕ) × (s' : S) × (alloc_kpages 1 s ≡ done (a, s'))
        × Sane s'
        × ((b : ℕ) → Owns s b → Owns s' b)
        × ((a ≡ 0) ⊎ ((0 < a) × (a % 4096 ≡ 0) × (a + 4096 < word) × (¬ Owns s a) × Owns s' a))
  pub free_law :
      (s : S) (a : ℕ)
      → Sane s
      → Owns s a
      → (s' : S) × (free_kpages a s ≡ done s')
        × Sane s'
        × ((b : ℕ) → Owns s b → b ≢ a → Owns s' b)
        × (¬ Owns s' a)

-- The sizes of the blocks.
pub size_facts :
    (t : ℕ)
    → t < 8
    → (16 ≤ size_of t)
      × (size_of t ≤ 2048)
      × (2 ≤ 4096 / size_of t)
      × (4096 / size_of t ≤ 256)
      × (4096 / size_of t * size_of t ≡ 4096)
      × (size_of t / 4 * 4 ≡ size_of t)
size_facts zero h = omega arith
size_facts (suc zero) h = omega arith
size_facts (suc (suc zero)) h = omega arith
size_facts (suc (suc (suc zero))) h = omega arith
size_facts (suc (suc (suc (suc zero)))) h = omega arith
size_facts (suc (suc (suc (suc (suc zero))))) h = omega arith
size_facts (suc (suc (suc (suc (suc (suc zero)))))) h = omega arith
size_facts (suc (suc (suc (suc (suc (suc (suc zero))))))) h = omega arith
size_facts (suc (suc (suc (suc (suc (suc (suc (suc t)))))))) h = absurd (omega arith)

pub unlink_cases :
    (o y : ℕ) (xs : List ℕ)
    → ((y ≡ o) × (unlink o (y ∷ xs) ≡ xs)) ⊎ ((y ≢ o) × (unlink o (y ∷ xs) ≡ y ∷ unlink o xs))
unlink_cases o y xs = elim (ℕ_discrete y o) [
  | yes q ↦ inl (q, rw (==_true y o q))
  | no ne ↦ inr (ne, rw (==_false y o ne))
]

pub In-unlink : (o : ℕ) (xs : List ℕ) (x : ℕ) → In x (unlink o xs) → In x xs
In-unlink o [] x h = h
In-unlink o (y ∷ xs) x h = elim (unlink_cases o y xs) [
  | inl (q, e) ↦ inr (subst (In x) e h)
  | inr (ne, e) ↦ elim (subst (In x) e h) [ inl q ↦ inl q | inr i ↦ inr (In-unlink o xs x i) ]
]

pub In-unlink_ne : (o : ℕ) (xs : List ℕ) (x : ℕ) → In x xs → x ≢ o → In x (unlink o xs)
In-unlink_ne o [] x h ne = h
In-unlink_ne o (y ∷ xs) x h ne = elim (unlink_cases o y xs) [
  | inl (q, e) ↦ subst (In x) (sym e) (elim h [ inl same ↦ absurd (ne (sym same ∙ q)) | inr i ↦ i ])
  | inr (apart, e) ↦
      subst (In x) (sym e) (elim h [ inl same ↦ inl same | inr i ↦ inr (In-unlink_ne o xs x i ne) ])
]

pub NotIn-unlink : (o : ℕ) (xs : List ℕ) (x : ℕ) → NotIn x xs → NotIn x (unlink o xs)
NotIn-unlink o [] x h = h
NotIn-unlink o (y ∷ xs) x (ne, h) = elim (unlink_cases o y xs) [
  | inl (q, e) ↦ subst (NotIn x) (sym e) h
  | inr (apart, e) ↦ subst (NotIn x) (sym e) (ne, NotIn-unlink o xs x h)
]

-- With no repetition the one that is unlinked is gone.
pub NotIn-unlink_self : (o : ℕ) (xs : List ℕ) → Distinct xs → NotIn o (unlink o xs)
NotIn-unlink_self o [] d = tt
NotIn-unlink_self o (y ∷ xs) (n, d) = elim (unlink_cases o y xs) [
  | inl (q, e) ↦ subst (NotIn o) (sym e) (subst (λ t. NotIn t xs) q n)
  | inr (apart, e) ↦ subst (NotIn o) (sym e) (apart, NotIn-unlink_self o xs d)
]

pub Distinct-unlink : (o : ℕ) (xs : List ℕ) → Distinct xs → Distinct (unlink o xs)
Distinct-unlink o [] d = tt
Distinct-unlink o (y ∷ xs) (n, d) = elim (unlink_cases o y xs) [
  | inl (q, e) ↦ subst Distinct (sym e) d
  | inr (apart, e) ↦ subst Distinct (sym e) (NotIn-unlink o xs y n, Distinct-unlink o xs d)
]

pub Blocks-unlink : (size o : ℕ) (xs : List ℕ) → Blocks size xs → Blocks size (unlink o xs)
Blocks-unlink size o [] b = tt
Blocks-unlink size o (y ∷ xs) (small, part, n, b) = elim (unlink_cases o y xs) [
  | inl (q, e) ↦ subst (Blocks size) (sym e) b
  | inr (apart, e) ↦
      subst (Blocks size) (sym e) (small, part, NotIn-unlink o xs y n, Blocks-unlink size o xs b)
]

pub Blocks-Distinct : (size : ℕ) (xs : List ℕ) → Blocks size xs → Distinct xs
Blocks-Distinct size [] b = tt
Blocks-Distinct size (y ∷ xs) (small, part, n, b) = (n, Blocks-Distinct size xs b)

pub length-unlink : (o : ℕ) (xs : List ℕ) → In o xs → length (unlink o xs) + 1 ≡ length xs
length-unlink o [] h = absurd h
length-unlink o (y ∷ xs) h = elim (unlink_cases o y xs) [
  | inl (q, e) ↦ omega (arith, ap length e)
  | inr (apart, e) ↦ elim h [
    | inl q ↦ absurd (apart q)
    | inr i ↦ omega (arith, ap length e, length-unlink o xs i)
  ]
]

pub NotIn-not : (o : ℕ) (xs : List ℕ) → NotIn o xs → ¬ In o xs
NotIn-not o [] n i = i
NotIn-not o (x ∷ xs) (ne, n) i = elim i [ inl q ↦ ne q | inr j ↦ NotIn-not o xs n j ]

pub NotIn-of : (o : ℕ) (xs : List ℕ) → ¬ In o xs → NotIn o xs
NotIn-of o [] h = tt
NotIn-of o (x ∷ xs) h = (λ q. h (inl q), NotIn-of o xs (λ i. h (inr i)))
