-- ===== src/Array/Filled.antt =====
-- An array whose every element was written, as all of the kernel's arrays are: its elements are a
-- list of pointers, and the routines act on that list.
use ece.Common.{
  ℕ, ◌+◌, ◌^◌, ◌<◌, ◌≡◌, ap, sym, ◌∙◌, inl, inr, Bool, some, success, done, ◌≤◌, List, [], ◌∷◌,
  ◌++◌, map, map-append, arith, length, get_elem?, set, remove_at, length-map, get_elem?-map,
  map-set, map-remove_at, done,
}
use ece.Array.{Array, getguy, setguy, remove, add}
use ece.Array.Valid.{IsValid, contents, Attempt}
use ece.Array.Resize.{add-Added, add_room}
use ece.Array.Access.{length-contents, getguy_lem, setguy_lem, remove_lem}

pub record Filled {ℓ} {A : Type ℓ} (a : Array A) (xs : List A) : Type ℓ where
  pub valid : IsValid a
  pub shows : contents a ≡ map some xs

module _ {ℓ} {A : Type ℓ} {a : Array A} {xs : List A} (h : Filled a xs) where
  pub num_lem : a.num ≡ length xs
  num_lem = omega (arith, length-contents h.valid, ap length h.shows, length-map {A = A} some xs)

  module _ (i : ℕ) (less : i < length xs) where
    pub getguy_filled : (x : A) × (getguy a i ≡ done (some x)) × (get_elem? xs i ≡ some x)
    getguy_filled =
        let (c, e, g) = getguy_lem h.valid i (omega (arith, num_lem)) in
        let (x, m, p) = get_elem?-map some xs i less in
        let same : some c ≡ some (some x) = sym g ∙ ap (λ l. get_elem? l i) h.shows ∙ m in
        (x, e ∙ ap done (let q : c ≡ some x = cc in q), p)

    pub setguy-Filled : (x : A) → (b : Array A) × (setguy a i x ≡ done b) × Filled b (set xs i x)
    setguy-Filled x =
        let (b, e, v, c, n) = setguy_lem h.valid i x (omega (arith, num_lem)) in
        (
          b,
          e,
          record {
            valid = v;
            shows = c ∙ ap (λ l. set l i (some x)) h.shows ∙ map-set some xs i x;
          },
        )

    pub remove-Filled : (b : Array A) × (remove a i ≡ done b) × Filled b (remove_at i xs)
    remove-Filled =
        let (b, e, v, c, n) = remove_lem h.valid i (omega (arith, num_lem)) in
        (b, e, record { valid = v; shows = c ∙ ap (remove_at i) h.shows ∙ map-remove_at some xs i })

  pub add-Filled :
      (kmalloc : ℕ → Bool) (x : A)
      → length xs + 1 < 2 ^ 29
      → Attempt kmalloc a (λ b. Filled b (xs ++ (x ∷ []))) (add kmalloc a x)
  add-Filled kmalloc x small = elim (add-Added kmalloc x h.valid (omega (arith, num_lem))) [
    | inl refused ↦ inl refused
    | inr (b, e, added) ↦ inr (
      b,
      e,
      record {
        valid = added.0;
        shows = added.1 ∙ ap (λ l. l ++ (some x ∷ [])) h.shows ∙ sym (map-append some xs (x ∷ []));
      },
    )
  ]

  pub add_room-Filled :
      (kmalloc : ℕ → Bool) (x : A)
      → length xs + 1 ≤ a.max
      → (b : Array A) × (add kmalloc a x ≡ done (success, b)) × Filled b (xs ++ (x ∷ []))
  add_room-Filled kmalloc x fits =
      let (b, e, added) = add_room kmalloc x h.valid (omega (arith, num_lem)) in
      (
        b,
        e,
        record {
          valid = added.0;
          shows =
              added.1 ∙ ap (λ l. l ++ (some x ∷ [])) h.shows ∙ sym (map-append some xs (x ∷ []));
        },
      )
