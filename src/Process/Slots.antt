-- ===== src/Process/Slots.antt =====
-- The process table as a list of slots, and the two loops that search it.
use ece.Common.{
  ℕ, zero, suc, ◌+◌, ◌≤◌, ◌<◌, ◌≡◌, ◌≢◌, refl, ap, ◌∙◌, Bool, true, false, Option, none, some, List,
  [], ◌∷◌, arith, length, get_elem?, set, dec_lt, ◌++◌, ◌⊎◌, inl, inr, Option-cases, drop,
  drop_cons, drop_all, done,
}
use ece.Array
use ece.Array.Filled.{Filled, num_lem, getguy_filled}
use ece.Process.{Process, Table, slot, hole_from, find_from, no_hole_in_array, find_process_id}

abbrev pub Slots : Type 0
Slots = List (Option Process)

-- the process with this id
abbrev pub lookup : Slots → ℕ → Option Process
lookup [] i = none
lookup (p ∷ ps) zero = p
lookup (p ∷ ps) (suc i) = lookup ps i

-- the lowest free slot: the length where there is none
abbrev pub first_free : Slots → ℕ
first_free [] = 0
first_free (none ∷ ps) = 0
first_free (some p ∷ ps) = suc (first_free ps)

abbrev pub has_hole : Slots → Bool
has_hole [] = false
has_hole (none ∷ ps) = true
has_hole (some p ∷ ps) = has_hole ps

pub first_free-le : (ps : Slots) → first_free ps ≤ length ps
first_free-le [] = omega arith
first_free-le (none ∷ ps) = omega arith
first_free-le (some p ∷ ps) = omega (arith, first_free-le ps)

pub first_free-lt : (ps : Slots) → has_hole ps ≡ true → first_free ps < length ps
first_free-lt [] h = cc
first_free-lt (none ∷ ps) h = omega arith
first_free-lt (some p ∷ ps) h = omega (arith, first_free-lt ps h)

pub lookup-first_free : (ps : Slots) → lookup ps (first_free ps) ≡ none
lookup-first_free [] = refl
lookup-first_free (none ∷ ps) = refl
lookup-first_free (some p ∷ ps) = lookup-first_free ps

-- Every slot below the lowest free one is taken.
pub lookup-below : (ps : Slots) (j : ℕ) → j < first_free ps → lookup ps j ≢ none
lookup-below [] j h = elim h [ ]
lookup-below (none ∷ ps) j h = elim h [ ]
lookup-below (some p ∷ ps) zero h = λ e. cc
lookup-below (some p ∷ ps) (suc j) h = lookup-below ps j (omega arith)

pub lookup_of_get :
    (ps : Slots) (i : ℕ) {p : Option Process} → get_elem? ps i ≡ some p → lookup ps i ≡ p
lookup_of_get [] i h = cc
lookup_of_get (p ∷ ps) zero h = cc
lookup_of_get (p ∷ ps) (suc i) h = lookup_of_get ps i h

pub lookup_outside : (ps : Slots) (i : ℕ) → length ps ≤ i → lookup ps i ≡ none
lookup_outside [] i h = refl
lookup_outside (p ∷ ps) zero h = absurd (omega arith)
lookup_outside (p ∷ ps) (suc i) h = lookup_outside ps i (omega arith)

pub lookup-lt : (ps : Slots) (i : ℕ) → lookup ps i ≢ none → i < length ps
lookup-lt ps i h = elim (dec_lt i (length ps)) [
  | yes lt ↦ lt
  | no ge ↦ absurd (h (lookup_outside ps i (omega arith)))
]

pub lookup-set_self :
    (ps : Slots) (i : ℕ) (p : Option Process) → i < length ps → lookup (set ps i p) i ≡ p
lookup-set_self [] i p h = elim h [ ]
lookup-set_self (q ∷ ps) zero p h = refl
lookup-set_self (q ∷ ps) (suc i) p h = lookup-set_self ps i p (omega arith)

pub lookup-set_ne :
    (ps : Slots) (i j : ℕ) (p : Option Process) → i ≢ j → lookup (set ps i p) j ≡ lookup ps j
lookup-set_ne [] i j p h = refl
lookup-set_ne (q ∷ ps) zero zero p h = absurd (h refl)
lookup-set_ne (q ∷ ps) zero (suc j) p h = refl
lookup-set_ne (q ∷ ps) (suc i) zero p h = refl
lookup-set_ne (q ∷ ps) (suc i) (suc j) p h = lookup-set_ne ps i j p (λ e. h (ap suc e))

pub lookup-snoc_self : (ps : Slots) (p : Option Process) → lookup (ps ++ (p ∷ [])) (length ps) ≡ p
lookup-snoc_self [] p = refl
lookup-snoc_self (q ∷ ps) p = lookup-snoc_self ps p

pub lookup-snoc_ne :
    (ps : Slots) (j : ℕ) (p : Option Process)
    → length ps ≢ j
    → lookup (ps ++ (p ∷ [])) j ≡ lookup ps j
lookup-snoc_ne [] zero p h = absurd (h refl)
lookup-snoc_ne [] (suc j) p h = refl
lookup-snoc_ne (q ∷ ps) zero p h = refl
lookup-snoc_ne (q ∷ ps) (suc j) p h = lookup-snoc_ne ps j p (λ e. h (ap suc e))

module _ {t : Table} {ps : Slots} (h : Filled t ps) where
  -- A slot in range is read, and is free or taken.
  pub slot_cases :
      (i : ℕ)
      → i < length ps
      → ((slot t i ≡ done none) × (get_elem? ps i ≡ some none))
        ⊎ ((p : Process) × (slot t i ≡ done (some p)) × (get_elem? ps i ≡ some (some p)))
  slot_cases i less =
      let (p, e, g) = getguy_filled h i less in
      elim (Option-cases p) [
        | inl free ↦ inl (rw (e, free), g ∙ ap some free)
        | inr (q, taken) ↦ inr (q, rw (e, taken), g ∙ ap some taken)
      ]

  hole_from_lem :
      (rounds i : ℕ) → i + rounds ≡ length ps → hole_from rounds i t ≡ done (has_hole (drop i ps))
  unfolding hole_from
  hole_from_lem zero i e = rw (drop_all i ps (omega arith))
  hole_from_lem (suc rounds) i e = elim (slot_cases i (omega arith)) [
    | inl (s, g) ↦ rw (s, drop_cons ps i g)
    | inr (p, s, g) ↦
        let one : i + 1 ≡ suc i = omega arith in
        rw (s, drop_cons ps i g, ← one) (hole_from_lem rounds (i + 1) (omega arith))
  ]

  find_from_lem :
      (rounds i : ℕ)
      → i + rounds ≡ length ps
      → find_from rounds i t ≡ done (i + first_free (drop i ps))
  unfolding find_from
  find_from_lem zero i e = rw (drop_all i ps (omega arith)) (ap done (omega arith))
  find_from_lem (suc rounds) i e = elim (slot_cases i (omega arith)) [
    | inl (s, g) ↦ rw (s, drop_cons ps i g) (ap done (omega arith))
    | inr (p, s, g) ↦
        let one : i + 1 ≡ suc i = omega arith in
        rw (s, drop_cons ps i g)
          (find_from_lem rounds (i + 1) (omega arith) ∙ ap done (rw one (omega arith)))
  ]

  pub no_hole_lem : no_hole_in_array t ≡ done (has_hole ps)
  unfolding no_hole_in_array
  no_hole_lem = hole_from_lem (Array.getnum t) 0 (omega (arith, num_lem h))

  pub find_lem : find_process_id t ≡ done (first_free ps)
  unfolding find_process_id
  find_lem = find_from_lem (Array.getnum t) 0 (omega (arith, num_lem h)) ∙ ap done (omega arith)
