-- ===== src/Kheap/Removed.antt =====
-- The invariant of the heap with a page less.
use ece.Common.{
  ℕ, ◌/◌, ◌%◌, ◌≢◌, sym, ap, subst, ◌∙◌, Bool, false, List, ==_true, ==_false, ℕ_discrete,
}
use ece.Kheap.{Heap, page_of, type_of, unlink, update}
use ece.Kheap.Chain.{In, update_self, update_ne}
use ece.Kheap.Valid.{
  Distinct, Valid, In-unlink, In-unlink_ne, Distinct-unlink, NotIn-not, NotIn-unlink_self,
}
use ece.Kheap.Refs.{Flipped}
use ece.Kheap.Frame.{place_ne}

module _ {owns : ℕ → Type 0} {h : Heap} {free used : ℕ → List ℕ}
    (valid : Valid owns h free used) where
  -- A page less.
  module _ (owns' : ℕ → Type 0) (pr : ℕ) (known : In pr h.allbase) (inuse : List (List Bool))
      (flipped : Flipped h.inuse (pr / 32) (pr % 32) false inuse)
      (kept : (a : ℕ) → owns a → a ≢ page_of (h.refs pr) → owns' a) where
    abbrev pub removed : Heap
    removed = record h {
      inuse = inuse;
      sizebases =
          update h.sizebases (type_of (h.refs pr)) (unlink pr (h.sizebases (type_of (h.refs pr))));
      allbase = unlink pr h.allbase;
    }

    pub removed_known : (i : ℕ) → In i removed.allbase → In i h.allbase
    removed_known i j = In-unlink pr h.allbase i j

    pub removed_ne : (i : ℕ) → In i removed.allbase → i ≢ pr
    removed_ne i j e =
        NotIn-not pr (unlink pr h.allbase) (NotIn-unlink_self pr h.allbase valid.once)
          (subst (λ t. In t (unlink pr h.allbase)) e j)

    pub removed_other : (i : ℕ) → In i h.allbase → i ≢ pr → In i removed.allbase
    removed_other i j ne = In-unlink_ne pr h.allbase i j ne

    still_listed : (b i : ℕ) → In i (removed.sizebases b) → In i (h.sizebases b) × (i ≢ pr)
    still_listed b i j = elim (ℕ_discrete b (type_of (h.refs pr))) [
      | yes e ↦
          let k =
            subst (In i)
              (ap (removed.sizebases) e ∙ update_self h.sizebases (type_of (h.refs pr)) _) j in
          (
            subst (λ t. In i (h.sizebases t)) (sym e)
                (In-unlink pr (h.sizebases (type_of (h.refs pr))) i k),
            λ q.
                NotIn-not pr (unlink pr (h.sizebases (type_of (h.refs pr))))
                  (NotIn-unlink_self pr (h.sizebases (type_of (h.refs pr)))
                    (valid.once_sized (type_of (h.refs pr))))
                  (subst (λ t. In t (unlink pr (h.sizebases (type_of (h.refs pr))))) q k),
          )
      | no ne ↦
          let k = subst (In i) (update_ne h.sizebases (type_of (h.refs pr)) _ b ne) j in
          (k, λ q. ne (sym (valid.sized b i k).1 ∙ ap (λ t. type_of (h.refs t)) q))
    ]

    removed_once_sized : (b : ℕ) → Distinct (removed.sizebases b)
    removed_once_sized b = elim (ℕ_discrete b (type_of (h.refs pr))) [
      | yes e ↦ rw (==_true b (type_of (h.refs pr)) e) (
          Distinct-unlink pr (h.sizebases (type_of (h.refs pr)))
            (valid.once_sized (type_of (h.refs pr))))
      | no ne ↦ rw (==_false b (type_of (h.refs pr)) ne) (valid.once_sized b)
    ]

    pub removed-Valid : Valid owns' removed free used
    removed-Valid = record {
      pages = λ i j. valid.pages i (removed_known i j);
      one_page = λ i j k l. valid.one_page i j (removed_known i k) (removed_known j l);
      once = Distinct-unlink pr h.allbase valid.once;
      sized = λ b i j.
          let (k, ne) = still_listed b i j in
          let (l, t) = valid.sized b i k in (removed_other i l ne, t);
      once_sized = removed_once_sized;
      whole = flipped.still_whole;
      eight = flipped.same_length ∙ valid.eight;
      marked = λ i j.
          flipped.others (i / 32) (i % 32) (place_ne i pr (removed_ne i j))
          ∙ valid.marked i (removed_known i j);
      owned = λ i j.
          kept (page_of (h.refs i)) (valid.owned i (removed_known i j))
            (λ q. removed_ne i j (valid.one_page i pr (removed_known i j) known q));
    }
