-- ===== src/Vm/Mapped.antt =====
-- map_page_table puts the page into the table, and the two ways to write a TLB entry agree.
use ece.Common.{
  ℕ, zero, suc, ◌+◌, ◌*◌, ◌/◌, ◌%◌, ◌≤◌, ◌<◌, ◌≡◌, inl, inr, refl, sym, ap, subst, ◌∙◌, arith, Bool,
  true, false, List, [], ◌∷◌, length, length-set, set, ==_false, Bool-cases, if◌then◌else◌, done,
  read, read-lt, write-lt, Status, >>=-eq-done,
}
use ece.Coremap.{Entry, Coremap, word, from_paddr}
use ece.Coremap as Map
use ece.Coremap.Valid.{Valid}
use ece.Kheap.Chain.{update_self}
use ece.Kheap.Pages.{kseg0}
use ece.Vm.{
  Space, field, to_kvaddr, of_kvaddr, page_directory_of, page_table_of, writes, mapped, recorded,
  installed, install, tlb_word, fresh_word,
}

read-inside : (es : List Entry) (i : ℕ) (e : Entry) → read es i ≡ done e → i < length es
read-inside [] i e h = cc
read-inside (x ∷ es) zero e h = omega arith
read-inside (x ∷ es) (suc i) e h = omega (arith, read-inside es i e h)

-- An entry that was written lies in the map.
pub update_done :
    (f : Entry → Entry) (i : ℕ) (es es' : List Entry)
    → Map.update f i es ≡ done es'
    → (i < length es) × (length es' ≡ length es)
update_done f i es es' h =
    let (e, at, h') = >>=-eq-done (read es i) _ h in
    let lt = read-inside es i e at in
    let same : set es i (f e) ≡ es' = cc (write-lt es i (f e) lt, h') in
    (lt, ap length (sym same) ∙ length-set es i (f e))

pub update_runs :
    (f : Entry → Entry) (i : ℕ) (es : List Entry)
    → i < length es
    → (es' : List Entry) × (Map.update f i es ≡ done es')
update_runs f i es lt =
    let (e, at, g) = read-lt es i lt in (set es i (f e), rw (at, write-lt es i (f e) lt))

-- The page of `f` is mapped to the frame at `paddr`.
pub record Mapped (paddr f flag base size : ℕ) (sp : Space) : Type 0 where
  pub exist : (sp.pd (page_directory_of f)).exist ≡ 1
  pub entry :
      sp.tables (to_kvaddr (sp.pd (page_directory_of f)).addr_page_table) (page_table_of f)
      ≡ mapped paddr flag
  pub same_base : sp.frames.base ≡ base
  pub same_size : length sp.frames.entries ≡ size
  pub inside : from_paddr base (of_kvaddr paddr) < size

pub install_done :
    (paddr f flag pte : ℕ) (sp sp' : Space) (r : Status)
    → to_kvaddr (pte % field) ≡ pte
    → install paddr f flag pte sp ≡ done (r, sp')
    → Mapped paddr f flag sp.frames.base (length sp.frames.entries) sp'
unfolding install
install_done paddr f flag pte sp sp' r low h =
    let (es, run, h') =
      >>=-eq-done (Map.update (recorded f pte sp.pd_addr) _ sp.frames.entries) _ h in
    let (lt, size) = update_done (recorded f pte sp.pd_addr) _ sp.frames.entries es run in
    let same : installed paddr f flag pte es sp ≡ sp' = cc h' in
    let addr : to_kvaddr
          ((installed paddr f flag pte es sp).pd (page_directory_of f)).addr_page_table
        ≡ pte =
      ap (λ d. to_kvaddr d.addr_page_table) (update_self sp.pd (page_directory_of f) _) ∙ low in
    subst (λ t. Mapped paddr f flag sp.frames.base (length sp.frames.entries) t) same
      (record {
        exist = ap (λ d. d.exist) (update_self sp.pd (page_directory_of f) _);
        entry =
            ap (λ t. (installed paddr f flag pte es sp).tables t (page_table_of f)) addr
            ∙ ap (λ t. t (page_table_of f)) (update_self sp.tables pte _)
            ∙ update_self (sp.tables pte) (page_table_of f) (mapped paddr flag);
        same_base = refl;
        same_size = size;
        inside = lt;
      })

-- A table of the kernel's memory below 1 MB is found again by the low 20 bits of its address.
pub low_table : (pte : ℕ) → kseg0 ≤ pte → pte < kseg0 + field → to_kvaddr (pte % field) ≡ pte
low_table pte ge lt = omega arith

-- What the kernel's memory below 1 MB means for a space.
pub record LowMemory (sp : Space) : Type 0 where
  pub valid : Valid sp.frames
  pub above : 0 < sp.frames.base
  pub low : sp.frames.base + length sp.frames.entries ≤ 256
  pub fields : (i : ℕ) → (sp.pd i).addr_page_table < field

-- The two ways to make the low word of a TLB entry agree.
pub words_agree :
    (c : ℕ)
    → c < 256
    → (flag : ℕ) → tlb_word (mapped (kseg0 + 4096 * c) flag) ≡ fresh_word (kseg0 + 4096 * c) flag
words_agree c lt flag =
    let frame : (kseg0 + 4096 * c) % field ≡ 4096 * c = omega arith in
    let back : of_kvaddr (kseg0 + 4096 * c) ≡ 4096 * c = omega arith in
    let valid = ==_false (4096 * c / 512 % 2) 1 (λ q. omega arith) in
    let dirty = ==_false (4096 * c / 1024 % 2) 1 (λ q. omega arith) in
    let dirty' = ==_false ((4096 * c + 512) / 1024 % 2) 1 (λ q. omega arith) in
    let valid' = ==_false ((4096 * c + 1024) / 512 % 2) 1 (λ q. omega arith) in
    elim (Bool-cases (writes flag)) [
      | inl w ↦ rw (w, frame, back, valid, dirty, dirty', valid') (omega arith)
      | inr r ↦ rw (r, frame, back, valid) refl
    ]

pub taken_then {ℓ} :
    {A : Type ℓ} {x z : A} (b : Bool) (y : A) → b ≡ true → (if b then x else y) ≡ z → x ≡ z
taken_then true y e h = h
taken_then false y e h = cc e

pub taken_else {ℓ} :
    {A : Type ℓ} {y z : A} (b : Bool) (x : A) → b ≡ false → (if b then x else y) ≡ z → y ≡ z
taken_else true x e h = cc e
taken_else false x e h = h

pub Mapped-move :
    {paddr f flag base size base' size' : ℕ} {sp : Space}
    → base ≡ base'
    → size ≡ size'
    → Mapped paddr f flag base size sp
    → Mapped paddr f flag base' size' sp
Mapped-move e e' m = record {
  exist = m.exist;
  entry = m.entry;
  same_base = m.same_base ∙ e;
  same_size = m.same_size ∙ e';
  inside = omega (arith, e, e', m.inside);
}
