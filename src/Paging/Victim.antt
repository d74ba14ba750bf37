-- ===== src/Paging/Victim.antt =====
-- Which page is evicted.
use ece.Common.{
  ℕ, zero, suc, ◌+◌, ◌≤◌, ◌<◌, ◌≡◌, ◌≢◌, ◌⊎◌, inl, inr, refl, sym, subst, ap, ◌∙◌, arith, Option,
  none, some, List, [], ◌∷◌, get_elem?, ==_true, ==_false, lt→ltb, le→ltb_false, dec_lt, ℕ_discrete,
}
use ece.Coremap.{Entry}
use ece.Paging.{aged, ref_bit_counter, victim_from, victim}

-- No page but the kernel's counts past `most`.
abbrev pub AtMost : List Entry → ℕ → Type 0
AtMost es most = (j : ℕ) (e : Entry) → get_elem? es j ≡ some e → e.is_kernel ≢ 1 → e.counter ≤ most

-- The page `k` counts most of those that are not the kernel's, and more than `least`.
pub record Oldest (es : List Entry) (least k : ℕ) (e : Entry) : Type 0 where
  pub there : get_elem? es k ≡ some e
  pub not_kernel : e.is_kernel ≢ 1
  pub positive : least < e.counter
  pub most : AtMost es e.counter

AtMost-cons :
    (x : Entry) (es : List Entry) (most : ℕ)
    → (x.is_kernel ≢ 1 → x.counter ≤ most)
    → AtMost es most
    → AtMost (x ∷ es) most
AtMost-cons x es most here rest zero e h ne =
    let same : x ≡ e = cc h in
    subst (λ t. t.counter ≤ most) same (here (subst (λ t. t.is_kernel ≢ 1) (sym same) ne))
AtMost-cons x es most here rest (suc j) e h ne = rest j e h ne

Oldest-cons :
    (x : Entry) (es : List Entry) (least most k : ℕ) (e : Entry)
    → least ≤ most
    → (x.is_kernel ≢ 1 → x.counter ≤ most)
    → Oldest es most k e
    → Oldest (x ∷ es) least (suc k) e
Oldest-cons x es least most k e le here old = record {
  there = old.there;
  not_kernel = old.not_kernel;
  positive = omega (arith, old.positive);
  most = AtMost-cons x es e.counter (λ ne. omega (arith, here ne, old.positive)) old.most;
}

victim_from_lem :
    (i most : ℕ) (evict_index : Option ℕ) (es : List Entry)
    → ((victim_from i most evict_index es ≡ evict_index) × AtMost es most)
      ⊎ ((k : ℕ) × (e : Entry) × (victim_from i most evict_index es ≡ some (i + k))
          × Oldest es most k e)
unfolding victim_from
victim_from_lem i most evict_index [] = inl (refl, λ j e h. cc)
victim_from_lem i most evict_index (x ∷ es) =
    let z : (k : ℕ) → i + 1 + k ≡ i + suc k = λ k. omega arith in
    let next : (x.is_kernel ≢ 1 → x.counter ≤ most)
        → ((victim_from (i + 1) most evict_index es ≡ evict_index) × AtMost (x ∷ es) most)
          ⊎ ((k : ℕ) × (e : Entry) × (victim_from (i + 1) most evict_index es ≡ some (i + k))
              × Oldest (x ∷ es) most k e) =
      λ here. elim (victim_from_lem (i + 1) most evict_index es) [
        | inl (r, low) ↦ inl (r, AtMost-cons x es most here low)
        | inr (k, e, r, old) ↦
            inr (suc k, e, r ∙ ap some (z k), Oldest-cons x es most most k e (omega arith) here old)
      ] in
    elim (ℕ_discrete x.is_kernel 1) [
      | yes kernel ↦ simp (==_true x.is_kernel 1 kernel) (next (λ ne. absurd (ne kernel)))
      | no user ↦ elim (dec_lt most x.counter) [
        | no small ↦
            simp (==_false x.is_kernel 1 user, le→ltb_false most x.counter (omega arith))
              (next (λ ne. omega arith))
        | yes more ↦ elim (victim_from_lem (i + 1) x.counter (some i) es) [
          | inl (r, low) ↦
              simp (==_false x.is_kernel 1 user, lt→ltb most x.counter more)
                (inr (
                  0,
                  x,
                  r ∙ ap some (omega arith),
                  record {
                    there = refl;
                    not_kernel = user;
                    positive = more;
                    most = AtMost-cons x es x.counter (λ ne. omega arith) low;
                  },
                ))
          | inr (k, e, r, old) ↦
              simp (==_false x.is_kernel 1 user, lt→ltb most x.counter more)
                (inr (
                  suc k,
                  e,
                  r ∙ ap some (z k),
                  Oldest-cons x es most x.counter k e (omega arith) (λ ne. omega arith) old,
                ))
        ]
      ]
    ]

-- evictPage chooses a page that is not the kernel's and that counts most among these; where no such
-- page counts at all, its index is unassigned.
pub victim_lem :
    (es : List Entry)
    → ((victim es ≡ none) × AtMost es 0)
      ⊎ ((k : ℕ) × (e : Entry) × (victim es ≡ some k) × Oldest es 0 k e)
unfolding victim
victim_lem es = elim (victim_from_lem 0 0 none es) [
  | inl (r, low) ↦ inl (r, low)
  | inr (k, e, r, old) ↦ inr (k, e, r ∙ ap some (omega arith), old)
]

get_elem?-ref_bit_counter :
    (es : List Entry) (k : ℕ) (e' : Entry)
    → get_elem? (ref_bit_counter es) k ≡ some e'
    → (e : Entry) × (get_elem? es k ≡ some e) × (aged e ≡ e')
unfolding ref_bit_counter
get_elem?-ref_bit_counter [] k e' h = cc
get_elem?-ref_bit_counter (x ∷ es) zero e' h = (x, refl, cc h)
get_elem?-ref_bit_counter (x ∷ es) (suc k) e' h = get_elem?-ref_bit_counter es k e' h

aged_referenced : (e : Entry) → e.reference ≡ 1 → (aged e).counter ≡ 0
aged_referenced e h = simp (==_false e.reference 0 (λ q. omega arith), ==_true e.reference 1 h) refl

-- The page that is evicted after a call of ref_bit_counter is not the kernel's, and was not
-- referenced since the call before: a page that was in use is never chosen.
pub victim_not_referenced :
    (es : List Entry) (k : ℕ)
    → victim (ref_bit_counter es) ≡ some k
    → (e : Entry) × (get_elem? es k ≡ some e) × (e.is_kernel ≢ 1) × (e.reference ≢ 1)
victim_not_referenced es k h = elim (victim_lem (ref_bit_counter es)) [
  | inl (r, low) ↦ cc (r, h)
  | inr (i, e', r, old) ↦
      let same : i ≡ k = cc (r, h) in
      let (e, g, made) = get_elem?-ref_bit_counter es i e' old.there in
      (
        e,
        subst (λ t. get_elem? es t ≡ some e) same g,
        subst (λ t. t.is_kernel ≢ 1) (sym made) old.not_kernel,
        λ one.
            let young : e'.counter ≡ 0 = subst (λ t. t.counter ≡ 0) made (aged_referenced e one) in
            omega (arith, old.positive),
      )
]
