-- ===== src/Kheap/Added.antt =====
-- The invariant of the heap with a page more.
use ece.Common.{
  ℕ, ◌+◌, ◌/◌, ◌%◌, ◌≤◌, ◌<◌, ◌≡◌, ◌≢◌, ◌⊎◌, inl, inr, refl, sym, ap, subst, ◌∙◌, Bool, true, false,
  some, List, ◌∷◌, ==_true, ==_false, ℕ_discrete,
}
use ece.Kheap.{PageRef, Heap, page_of, type_of, update}
use ece.Kheap.Chain.{In, NotIn, update_self, update_ne}
use ece.Kheap.Valid.{PageOk, Distinct, bit_of, Valid, NotIn-of}
use ece.Kheap.Refs.{Flipped}
use ece.Kheap.Frame.{PageOk-agree, pages_apart, place_ne}

module _ {owns : ℕ → Type 0} {h : Heap} {free used : ℕ → List ℕ}
    (valid : Valid owns h free used) where
  -- A page more, whose pageref was not in use.
  module _ (owns' : ℕ → Type 0) (pr : ℕ) (r : PageRef) (mem' : ℕ → ℕ) (fs us : List ℕ)
      (inuse : List (List Bool)) (clear : bit_of h.inuse (pr / 32) (pr % 32) ≡ some false)
      (flipped : Flipped h.inuse (pr / 32) (pr % 32) true inuse) (more : (a : ℕ) → owns a → owns' a)
      (own : owns' (page_of r)) (fresh : (i : ℕ) → In i h.allbase → page_of (h.refs i) ≢ page_of r)
      (kept : (x : ℕ) → (x < page_of r) ⊎ (page_of r + 4096 ≤ x) → mem' x ≡ h.mem x) where
    abbrev pub added : Heap
    added = record {
      refs = update h.refs pr r;
      inuse = inuse;
      sizebases = update h.sizebases (type_of r) (pr ∷ h.sizebases (type_of r));
      allbase = pr ∷ h.allbase;
      mem = mem';
    }

    pub added-fresh : (i : ℕ) → In i h.allbase → i ≢ pr
    added-fresh i j e =
        cc (subst (λ t. bit_of h.inuse (t / 32) (t % 32) ≡ some true) e (valid.marked i j), clear)

    added_old : (f : ℕ → PageRef) (v : PageRef) (i : ℕ) → In i h.allbase → update f pr v i ≡ f i
    added_old f v i j = update_ne f pr v i (added-fresh i j)

    added_pages :
        PageOk mem' r fs us
        → (i : ℕ) → In i added.allbase
        → PageOk mem' (added.refs i) (update free pr fs i) (update used pr us i)
    added_pages ok i (inl e) = rw (==_true i pr (sym e)) ok
    added_pages ok i (inr j) = rw (==_false i pr (added-fresh i j)) (
        PageOk-agree h.mem mem' (h.refs i) (free i) (used i)
          (λ x ge lt. kept x (pages_apart (h.refs i) r x (fresh i j) ge lt)) (valid.pages i j))

    added_one_page :
        (i j : ℕ)
        → In i added.allbase
        → In j added.allbase
        → page_of (added.refs i) ≡ page_of (added.refs j)
        → i ≡ j
    added_one_page i j (inl k) (inl l) e = sym k ∙ l
    added_one_page i j (inl k) (inr l) e = absurd (
        fresh j l (
          ap page_of (sym (added_old h.refs r j l))
          ∙ sym e
          ∙ ap page_of (ap (update h.refs pr r) (sym k) ∙ update_self h.refs pr r)))
    added_one_page i j (inr k) (inl l) e = absurd (
        fresh i k (
          ap page_of (sym (added_old h.refs r i k))
          ∙ e
          ∙ ap page_of (ap (update h.refs pr r) (sym l) ∙ update_self h.refs pr r)))
    added_one_page i j (inr k) (inr l) e =
        valid.one_page i j k l
          (ap page_of (sym (added_old h.refs r i k)) ∙ e ∙ ap page_of (added_old h.refs r j l))

    -- What holds of every page of a list holds of the new one too.
    listed :
        (b i : ℕ) → In i (added.sizebases b) → ((i ≡ pr) × (b ≡ type_of r)) ⊎ In i (h.sizebases b)
    listed b i j = elim (ℕ_discrete b (type_of r)) [
      | yes e ↦
          elim (subst (In i) (ap (added.sizebases) e ∙ update_self h.sizebases (type_of r) _) j) [
            | inl q ↦ inl (sym q, e)
            | inr k ↦ inr (subst (λ t. In i (h.sizebases t)) (sym e) k)
          ]
      | no ne ↦ inr (subst (In i) (update_ne h.sizebases (type_of r) _ b ne) j)
    ]

    added_sized :
        (b i : ℕ) → In i (added.sizebases b) → In i added.allbase × (type_of (added.refs i) ≡ b)
    added_sized b i j = elim (listed b i j) [
      | inl (e, t) ↦ (
        inl (sym e),
        ap (λ x. type_of (added.refs x)) e ∙ ap type_of (update_self h.refs pr r) ∙ sym t,
      )
      | inr k ↦
          let (known, t) = valid.sized b i k in
          (inr known, ap type_of (added_old h.refs r i known) ∙ t)
    ]

    new_to : (xs : List ℕ) → ((i : ℕ) → In i xs → In i h.allbase) → NotIn pr xs
    new_to xs sub = NotIn-of pr xs (λ j. added-fresh pr (sub pr j) refl)

    added_once_sized : (b : ℕ) → Distinct (added.sizebases b)
    added_once_sized b = elim (ℕ_discrete b (type_of r)) [
      | yes e ↦ rw (==_true b (type_of r) e) (
        new_to (h.sizebases (type_of r)) (λ i j. (valid.sized (type_of r) i j).0),
        valid.once_sized (type_of r),
      )
      | no ne ↦ rw (==_false b (type_of r) ne) (valid.once_sized b)
    ]

    added_marked : (i : ℕ) → In i added.allbase → bit_of inuse (i / 32) (i % 32) ≡ some true
    added_marked i (inl e) = subst (λ t. bit_of inuse (t / 32) (t % 32) ≡ some true) e flipped.now
    added_marked i (inr j) =
        flipped.others (i / 32) (i % 32) (place_ne i pr (added-fresh i j)) ∙ valid.marked i j

    added_owned : (i : ℕ) → In i added.allbase → owns' (page_of (added.refs i))
    added_owned i (inl e) =
        subst (λ t. owns' (page_of t))
          (sym (ap (update h.refs pr r) (sym e) ∙ update_self h.refs pr r)) own
    added_owned i (inr j) =
        subst (λ t. owns' (page_of t)) (sym (added_old h.refs r i j)) (more _ (valid.owned i j))

    pub added-Valid :
        PageOk mem' r fs us → Valid owns' added (update free pr fs) (update used pr us)
    added-Valid ok = record {
      pages = added_pages ok;
      one_page = added_one_page;
      once = (new_to h.allbase (λ i j. j), valid.once);
      sized = added_sized;
      once_sized = added_once_sized;
      whole = flipped.still_whole;
      eight = flipped.same_length ∙ valid.eight;
      marked = added_marked;
      owned = added_owned;
    }
