-- ===== src/Kheap/Chain.antt =====
-- The free blocks of a page as a chain through their first words.
use ece.Common.{
  ℕ, zero, suc, ◌+◌, ◌*◌, ◌%◌, ◌≤◌, ◌<◌, ◌≡◌, ◌≢◌, ◌⊎◌, inl, inr, refl, ◌∙◌, arith, List, [], ◌∷◌,
  ==_true, ==_false, dec_lt,
}
use ece.Kheap.{update, fill_deadbeef, invalid_offset}

abbrev pub In : ℕ → List ℕ → Type 0
In o [] = ⊥
In o (x ∷ xs) = (x ≡ o) ⊎ In o xs

abbrev pub NotIn : ℕ → List ℕ → Type 0
NotIn o [] = Unit {0}
NotIn o (x ∷ xs) = (x ≢ o) × NotIn o xs

-- what a link to the list holds
abbrev pub next_word : ℕ → List ℕ → ℕ
next_word page [] = 0
next_word page (o ∷ os) = page + o

abbrev pub head_offset : List ℕ → ℕ
head_offset [] = invalid_offset
head_offset (o ∷ os) = o

-- The words at these offsets link each to the next.
abbrev pub Chain : (ℕ → ℕ) → ℕ → List ℕ → Type 0
Chain mem page [] = Unit {0}
Chain mem page (o ∷ os) = (mem (page + o) ≡ next_word page os) × Chain mem page os

-- Different blocks of that size in a page.
abbrev pub Blocks : ℕ → List ℕ → Type 0
Blocks size [] = Unit {0}
Blocks size (o ∷ os) = (o < 4096) × (o % size ≡ 0) × NotIn o os × Blocks size os

-- Memory that agrees on the page has the same chains.
pub Chain-agree :
    (mem mem' : ℕ → ℕ) (page size : ℕ) (os : List ℕ)
    → Blocks size os
    → ((o : ℕ) → In o os → mem' (page + o) ≡ mem (page + o))
    → Chain mem page os
    → Chain mem' page os
Chain-agree mem mem' page size [] b same c = tt
Chain-agree mem mem' page size (o ∷ os) (small, whole, apart, b) same (link, c) =
    (same o (inl refl) ∙ link, Chain-agree mem mem' page size os b (λ x h. same x (inr h)) c)

pub Blocks-small : (size : ℕ) (os : List ℕ) → Blocks size os → (o : ℕ) → In o os → o < 4096
Blocks-small size [] b o h = absurd h
Blocks-small size (x ∷ os) (small, whole, apart, b) o (inl e) = rw (← e) small
Blocks-small size (x ∷ os) (small, whole, apart, b) o (inr h) = Blocks-small size os b o h

pub Blocks-whole : (size : ℕ) (os : List ℕ) → Blocks size os → (o : ℕ) → In o os → o % size ≡ 0
Blocks-whole size [] b o h = absurd h
Blocks-whole size (x ∷ os) (small, whole, apart, b) o (inl e) = rw (← e) whole
Blocks-whole size (x ∷ os) (small, whole, apart, b) o (inr h) = Blocks-whole size os b o h

pub NotIn-ne : (o : ℕ) (os : List ℕ) → NotIn o os → (x : ℕ) → In x os → x ≢ o
NotIn-ne o [] h x i = absurd i
NotIn-ne o (y ∷ os) (ne, h) x (inl e) = λ q. ne (e ∙ q)
NotIn-ne o (y ∷ os) (ne, h) x (inr i) = NotIn-ne o os h x i

pub update_self {ℓ} : {A : Type ℓ} (f : ℕ → A) (i : ℕ) (v : A) → update f i v i ≡ v
update_self f i v = rw (==_true i i refl)

pub update_ne {ℓ} : {A : Type ℓ} (f : ℕ → A) (i : ℕ) (v : A) (j : ℕ) → j ≢ i → update f i v j ≡ f j
update_ne f i v j ne = rw (==_false j i ne)

-- fill_deadbeef leaves the words outside its block alone.
pub fill_outside :
    (words ptr : ℕ) (mem : ℕ → ℕ) (x : ℕ)
    → (x < ptr) ⊎ (ptr + words * 4 ≤ x)
    → fill_deadbeef words ptr mem x ≡ mem x
unfolding fill_deadbeef
fill_outside zero ptr mem x out = refl
fill_outside (suc words) ptr mem x out =
    let past : (x < ptr + 4) ⊎ (ptr + 4 + words * 4 ≤ x) = elim out [
      | inl a ↦ inl (omega arith)
      | inr a ↦ inr (omega arith)
    ] in
    let ne : x ≢ ptr = λ q. elim out [ inl a ↦ omega arith | inr a ↦ omega arith ] in
    fill_outside words (ptr + 4) (update mem ptr 0xdead_beef) x past
    ∙ update_ne mem ptr 0xdead_beef x ne

-- Two blocks of one size do not overlap.
pub apart_blocks :
    (size o x : ℕ) → 0 < size → o % size ≡ 0 → x % size ≡ 0 → x ≢ o → (x < o) ⊎ (o + size ≤ x)
apart_blocks size o x pos ho hx ne = elim (dec_lt x o) [
  | yes lt ↦ inl lt
  | no ge ↦ inr (grind arith)
]
