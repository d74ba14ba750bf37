-- ===== src/Kheap/Served.antt =====
-- What subpage_kmalloc promises, and the parts of it: the size, the page, a block of that page.
use ece.Common.{
  ℕ, zero, suc, ◌+◌, ◌≤◌, ◌<◌, ◌≡◌, ◌≢◌, ◌⊎◌, ◌↔◌, inl, inr, refl, sym, ap, ap₂, subst, ◌∙◌, arith,
  false, Option, none, some, List, [], ◌∷◌, length, ltb, leb, leb→le, le→leb, get_or, ==_true,
  ltb→lt, ℕ_discrete, Bool-cases, Run, done, ◌>>=◌,
}
use ece.Kheap.{
  PageRef, Heap, sizes, size_of, page_of, type_of, update, type_from, blocktype, find_page, take,
}
use ece.Kheap.Chain.{In, head_offset}
use ece.Kheap.Valid.{PageOk, Valid, size_facts}
use ece.Kheap.Page.{taken, taken-PageOk, take_lem}
use ece.Kheap.Frame.{changed-Valid, changed_page, changed_type}
use ece.Kheap.Live.{Live, Apart, Live-Apart, live_small, Live-map, In-update, update-In}

type_from_lem :
    (sz i : ℕ) (ss : List ℕ) (k : ℕ)
    → k < length ss
    → sz ≤ get_or ss k 0
    → (t : ℕ) × (type_from sz i ss ≡ done (i + t)) × (t < length ss) × (sz ≤ get_or ss t 0)
unfolding type_from
type_from_lem sz i [] k lt fit = elim lt [ ]
type_from_lem sz i (s ∷ ss) k lt fit = elim (Bool-cases (leb sz s)) [
  | inl here ↦ (0, rw here (ap done (omega arith)), omega arith, leb→le sz s here)
  | inr past ↦
      let (k', lt', fit') = later k lt fit past in
      let (t, e, lt'', fit'') = type_from_lem sz (i + 1) ss k' lt' fit' in
      (suc t, rw past (e ∙ ap done (omega arith)), omega arith, fit'')
]
  where
    later :
        (k : ℕ)
        → k < length (s ∷ ss)
        → sz ≤ get_or (s ∷ ss) k 0
        → leb sz s ≡ false
        → (k' : ℕ) × (k' < length ss) × (sz ≤ get_or ss k' 0)
    later zero lt fit past = cc (le→leb sz s fit)
    later (suc k) lt fit past = (k, omega arith, fit)

-- A size that holds `sz`.
pub blocktype_lem :
    (sz : ℕ) → sz ≤ 2048 → (t : ℕ) × (blocktype sz ≡ done t) × (t < 8) × (sz ≤ size_of t)
unfolding blocktype
blocktype_lem sz le =
    let (t, e, lt, fit) = type_from_lem sz 0 sizes 7 (omega arith) le in
    (t, e ∙ ap done (omega arith), lt, fit)

-- How the search for a page with a free block ends.
pub data FoundPage (blktype : ℕ) (refs : ℕ → PageRef) (prs : List ℕ) : Run (Option ℕ) → Type 0 where
  no_page : FoundPage blktype refs prs (done none)
  a_page : (pr : ℕ) → In pr prs → 0 < (refs pr).nfree → FoundPage blktype refs prs (done (some pr))

pub find_page-FoundPage :
    (blktype : ℕ) (refs : ℕ → PageRef) (prs : List ℕ)
    → ((i : ℕ) → In i prs → type_of (refs i) ≡ blktype)
    → FoundPage blktype refs prs (find_page blktype refs prs)
unfolding find_page
find_page-FoundPage blktype refs [] typed = no_page
find_page-FoundPage blktype refs (pr ∷ prs) typed = elim (Bool-cases (ltb 0 (refs pr).nfree)) [
  | inl lt ↦
      rw (==_true (type_of (refs pr)) blktype (typed pr (inl refl)), lt)
        (a_page pr (inl refl) (ltb→lt 0 (refs pr).nfree lt))
  | inr ge ↦
      rw (==_true (type_of (refs pr)) blktype (typed pr (inl refl)), ge)
        (later (find_page-FoundPage blktype refs prs (λ i j. typed i (inr j))))
]
  where
    later :
        {run : Run (Option ℕ)}
        → FoundPage blktype refs prs run
        → FoundPage blktype refs (pr ∷ prs) run
    later no_page = no_page
    later (a_page i j some_free) = a_page i (inr j) some_free

pub FoundPage-cases :
    (blktype : ℕ) (refs : ℕ → PageRef) (prs : List ℕ) {run : Run (Option ℕ)}
    → FoundPage blktype refs prs run
    → (run ≡ done none) ⊎ ((pr : ℕ) × (run ≡ done (some pr)) × In pr prs × (0 < (refs pr).nfree))
FoundPage-cases blktype refs prs no_page = inl refl
FoundPage-cases blktype refs prs (a_page pr i pos) = inr (pr, refl, i, pos)

-- How a request for `sz` bytes ends, of a heap with the blocks `used` in use.
pub data Served {S : Type 0} (Sane : S → Type 0) (Owns : S → ℕ → Type 0) (sz : ℕ) (h : Heap)
    (used : ℕ → List ℕ) : Run (ℕ × Heap × S) → Type 0 where
  refused :
      (h' : Heap) (s' : S) (free' used' : ℕ → List ℕ)
      → Sane s'
      → Valid (Owns s') h' free' used'
      → ((a m : ℕ) → Live h used a m ↔ Live h' used' a m)
      → Served Sane Owns sz h used (done (0, h', s'))
  served :
      (p n : ℕ) (h' : Heap) (s' : S) (free' used' : ℕ → List ℕ)
      → Sane s'
      → Valid (Owns s') h' free' used'
      → 0 < p
      → sz ≤ n
      → Live h' used' p n
      → ((a m : ℕ) → Live h used a m → Live h' used' a m × Apart a m p n)
      → ((a m : ℕ) → Live h' used' a m → (a ≡ p) ⊎ Live h used a m)
      → Served Sane Owns sz h used (done (p, h', s'))

pub Served-before :
    {S : Type 0} (Sane : S → Type 0) (Owns : S → ℕ → Type 0) (sz : ℕ) (h h₁ : Heap)
    (used used₁ : ℕ → List ℕ) {run : Run (ℕ × Heap × S)}
    → ((a m : ℕ) → Live h used a m ↔ Live h₁ used₁ a m)
    → Served Sane Owns sz h₁ used₁ run
    → Served Sane Owns sz h used run
Served-before Sane Owns sz h h₁ used used₁ same (refused h' s' free' used' sane valid keeps) =
    refused h' s' free' used' sane valid (λ a m.
      (λ live. (keeps a m).0 ((same a m).0 live), λ live. (same a m).1 ((keeps a m).1 live)))
Served-before Sane Owns sz h h₁ used used₁ same
      (served p n h' s' free' used' sane valid pos fit live old new) =
    served p n h' s' free' used' sane valid pos fit live (λ a m l. old a m ((same a m).0 l))
      (λ a m l. elim (new a m l) [ inl e ↦ inl e | inr l' ↦ inr ((same a m).1 l') ])

-- A page with a free block serves it.
module _ {S : Type 0} (Sane : S → Type 0) (Owns : S → ℕ → Type 0) (sz : ℕ) (s : S) (sane : Sane s)
    {h : Heap} {free used : ℕ → List ℕ} (valid : Valid (Owns s) h free used) (pr o : ℕ)
    (fs : List ℕ) (known : In pr h.allbase) (first : free pr ≡ o ∷ fs)
    (fit : sz ≤ size_of (type_of (h.refs pr))) where
  page-PageOk : PageOk h.mem (h.refs pr) (o ∷ fs) (used pr)
  page-PageOk = subst (λ t. PageOk h.mem (h.refs pr) t (used pr)) first (valid.pages pr known)

  abbrev after : Heap
  after = record h { refs = update h.refs pr (taken (h.refs pr) fs) }

  after-Valid : Valid (Owns s) after (update free pr fs) (update used pr (o ∷ used pr))
  after-Valid =
      changed-Valid valid pr (head_offset fs) (length fs) h.mem fs (o ∷ used pr) known
        (λ x out. refl) (taken-PageOk page-PageOk)

  after_page : (i : ℕ) → page_of (after.refs i) ≡ page_of (h.refs i)
  after_page =
      changed_page valid pr (head_offset fs) (length fs) h.mem fs (o ∷ used pr) known
        (λ x out. refl)

  after_type : (i : ℕ) → type_of (after.refs i) ≡ type_of (h.refs i)
  after_type =
      changed_type valid pr (head_offset fs) (length fs) h.mem fs (o ∷ used pr) known
        (λ x out. refl)

  served-Live :
      Live after
        (update used pr (o ∷ used pr))
        (page_of (h.refs pr) + o)
        (size_of (type_of (h.refs pr)))
  served-Live = (
    pr,
    o,
    known,
    update-In used pr (o ∷ used pr) pr o (inl (refl, inl refl)),
    ap (λ t. t + o) (sym (after_page pr)),
    ap size_of (sym (after_type pr)),
  )

  old-Live : (a m : ℕ) → Live h used a m → Live after (update used pr (o ∷ used pr)) a m
  old-Live a m = Live-map h after used (update used pr (o ∷ used pr)) a m (λ i x j k at.
      (j, update-In used pr (o ∷ used pr) i x (grown i x k), after_page i, after_type i))
    where
      grown :
          (i x : ℕ) → In x (used i) → ((i ≡ pr) × In x (o ∷ used pr)) ⊎ ((i ≢ pr) × In x (used i))
      grown i x k = elim (ℕ_discrete i pr) [
        | yes e ↦ inl (e, inr (subst (λ t. In x (used t)) e k))
        | no ne ↦ inr (ne, k)
      ]

  new-Live :
      (a m : ℕ)
      → Live after (update used pr (o ∷ used pr)) a m
      → (a ≡ page_of (h.refs pr) + o) ⊎ Live h used a m
  new-Live a m (i, x, j, k, at, size) = elim (In-update used pr (o ∷ used pr) i x k) [
    | inl (e, inl q) ↦
        inl (at ∙ ap₂ (λ t y. t + y) (after_page i ∙ ap (λ t. page_of (h.refs t)) e) (sym q))
    | inl (e, inr k') ↦ inr (
      i,
      x,
      j,
      subst (λ t. In x (used t)) (sym e) k',
      at ∙ ap (λ t. t + x) (after_page i),
      size ∙ ap size_of (after_type i),
    )
    | inr (ne, k') ↦
        inr (i, x, j, k', at ∙ ap (λ t. t + x) (after_page i), size ∙ ap size_of (after_type i))
  ]

  -- The block was free.
  not_yet : (m : ℕ) → ¬ Live h used (page_of (h.refs pr) + o) m
  not_yet m (i, x, j, k, at, size) =
      let (small, whole, inside) = live_small valid i x j k in
      let (small', whole', away, rest) = page-PageOk.free_blocks in
      let page : page_of (h.refs i) ≡ page_of (h.refs pr) = omega arith in
      let e : i ≡ pr = valid.one_page i pr j known page in
      let q : x ≡ o = omega arith in
      page-PageOk.apart o (inl refl)
        (subst (λ t. In t (used pr)) q (subst (λ t. In x (used t)) e k))

  old-Apart :
      (a m : ℕ)
      → Live h used a m
      → Apart a m (page_of (h.refs pr) + o) (size_of (type_of (h.refs pr)))
  old-Apart a m live =
      elim (Live-Apart after-Valid a m (page_of (h.refs pr) + o) (size_of (type_of (h.refs pr)))
        (old-Live a m live) served-Live) [
          | inl (e, f) ↦ absurd (not_yet m (subst (λ t. Live h used t m) e live))
          | inr apart ↦ apart
        ]

  pub take-Served : Served Sane Owns sz h used (do (p, h') ← take pr h; done (p, h', s))
  take-Served =
      let (low, high, two, most, exact, words) =
        size_facts (type_of (h.refs pr)) page-PageOk.typed in
      rw (take_lem pr h o fs (used pr) page-PageOk) (
        served (page_of (h.refs pr) + o) (size_of (type_of (h.refs pr))) after s (update free pr fs)
          (update used pr (o ∷ used pr)) sane after-Valid (omega (arith, page-PageOk.positive)) fit
          served-Live (λ a m live. (old-Live a m live, old-Apart a m live)) new-Live)
