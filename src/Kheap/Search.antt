-- ===== src/Kheap/Search.antt =====
-- subpage_kfree finds the page of a block.
use ece.Common.{
  ℕ, ◌+◌, ◌%◌, ◌≤◌, ◌<◌, ◌≡◌, ◌≢◌, inl, inr, refl, sym, ap, subst, arith, some, List, [], ◌∷◌, ltb,
  leb, leb→le, le→leb, ltb→lt, lt→ltb, ℕ_discrete, Bool-cases, done,
}
use ece.Coremap.{word}
use ece.Kheap.{PageRef, page_of, type_of, page_from}
use ece.Kheap.Chain.{In}

-- The search finds the page that the address lies on.
pub page_from_lem :
    (ptr pr : ℕ) (refs : ℕ → PageRef) (prs : List ℕ)
    → ((i : ℕ) → In i prs → type_of (refs i) < 8)
    → ((i : ℕ) → In i prs → page_of (refs i) ≡ page_of (refs pr) → i ≡ pr)
    → ((i : ℕ) → In i prs → page_of (refs i) + 4096 < word)
    → In pr prs
    → page_of (refs pr) ≤ ptr
    → ptr < page_of (refs pr) + 4096
    → page_from ptr refs prs ≡ done (some pr)
unfolding page_from
page_from_lem ptr pr refs [] typed alone fits i ge lt = absurd i
page_from_lem ptr pr refs (x ∷ prs) typed alone fits i ge lt =
    let type = lt→ltb (type_of (refs x)) 8 (typed x (inl refl)) in
    let end : (page_of (refs x) + 4096) % word ≡ page_of (refs x) + 4096 =
      omega (arith, fits x (inl refl)) in
    elim (ℕ_discrete x pr) [
      | yes e ↦
          let low : page_of (refs x) ≤ ptr = subst (λ t. page_of (refs t) ≤ ptr) (sym e) ge in
          let high : ptr < page_of (refs x) + 4096 =
            subst (λ t. ptr < page_of (refs t) + 4096) (sym e) lt in
          rw
            (
              type,
              end,
              le→leb (page_of (refs x)) ptr low,
              lt→ltb ptr (page_of (refs x) + 4096) high,
            )
            (ap (λ t. done (some t)) e)
      | no ne ↦
          let far : page_of (refs x) ≢ page_of (refs pr) = λ q. ne (alone x (inl refl) q) in
          let listed : In pr prs = elim i [ inl q ↦ absurd (ne q) | inr j ↦ j ] in
          let rest =
            page_from_lem ptr pr refs prs (λ y j. typed y (inr j)) (λ y j. alone y (inr j))
              (λ y j. fits y (inr j)) listed ge lt in
          rw (type, end)
            (elim (Bool-cases (leb (page_of (refs x)) ptr)) [
              | inl low ↦ elim (Bool-cases (ltb ptr (page_of (refs x) + 4096))) [
                | inl high ↦ absurd (
                    far (
                      omega (
                        arith,
                        leb→le (page_of (refs x)) ptr low,
                        ltb→lt ptr (page_of (refs x) + 4096) high,
                      )))
                | inr past ↦ rw (low, past) rest
              ]
              | inr past ↦ rw past rest
            ])
    ]
