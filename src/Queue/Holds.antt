-- ===== src/Queue/Holds.antt =====
-- Which pointers a `struct queue` holds, oldest first, and how that changes with its cells.
use ece.Common.{
  ℕ, zero, suc, ◌+◌, ◌-◌, ◌%◌, ◌^◌, ◌≤◌, ◌<◌, ◌≡◌, ◌≢◌, sym, ap, ◌∙◌, Option, some, List, [], ◌∷◌,
  ◌++◌, arith, length, length-append, length-set, set, get_elem?, get_elem?-set_self,
  get_elem?-set_ne, dec_lt,
}
use native.Mathlib.Nat.{mod-add-mod, mod-eq_of_lt, mod-eq-sub-mod}
use ece.Queue.{Queue}

-- No `size_t` product of the file wraps for a queue of at most this size.
abbrev pub max_size : ℕ
max_size = 2 ^ 29

module _ {ℓ} {A : Type ℓ} where
  -- The cells from `h` on, going round at `size`, hold `xs`.
  abbrev pub Live : List (Option A) → ℕ → ℕ → List A → Type ℓ
  Live slots size h [] = Unit
  Live slots size h (x ∷ xs) =
      (get_elem? slots h ≡ some (some x)) × Live slots size ((h + 1) % size) xs

  pub record Holds (q : Queue A) (xs : List A) : Type ℓ where
    pub block : q.size ≡ length q.slots
    pub small : q.size ≤ max_size
    pub read_in : q.nextread < q.size
    pub tail : q.nextwrite ≡ (q.nextread + length xs) % q.size
    pub room : length xs < q.size
    pub live : Live q.slots q.size q.nextread xs

-- `size` steps round come back to the start.
round_whole : (size h : ℕ) → h < size → (h + size) % size ≡ h
round_whole size h less = grind arith

-- Fewer than `size` steps round do not come back to the start.
pub round_ne : {size h k : ℕ} → h < size → 0 < k → k < size → (h + k) % size ≢ h
round_ne {size} {h} {k} hh pos less = elim (dec_lt (h + k) size) [
  | yes below ↦ omega (arith, mod-eq_of_lt below)
  | no over ↦ omega (
    arith,
    mod-eq-sub-mod {n = h + k} {m = size} (omega arith),
    mod-eq_of_lt {n = h + k - size} {m = size} (omega arith),
  )
]

pub round_suc : (size h n : ℕ) → (h + suc n) % size ≡ ((h + 1) % size + n) % size
round_suc size h n = rw mod-add-mod (ap (λ k. k % size) (omega arith))

pub round_next : (size h n w : ℕ) → w ≡ (h + n) % size → (w + 1) % size ≡ (h + suc n) % size
round_next size h n w e = rw (e, mod-add-mod) (ap (λ k. k % size) (omega arith))

module _ {ℓ} {A : Type ℓ} where
  -- A cell outside the window may be written.
  pub Live-set :
      (slots : List (Option A)) (size h n i : ℕ) (v : Option A) (xs : List A)
      → h < size
      → n < size
      → length xs ≤ n
      → i ≡ (h + n) % size
      → Live slots size h xs
      → Live (set slots i v) size h xs
  Live-set slots size h n i v [] hh hn le e l = tt
  Live-set slots size h zero i v (x ∷ xs) hh hn le e l = absurd (omega arith)
  Live-set slots size h (suc n) i v (x ∷ xs) hh hn le e l = (
    get_elem?-set_ne slots v (λ p. round_ne hh (omega arith) hn (sym e ∙ p)) ∙ l.0,
    Live-set slots size ((h + 1) % size) n i v xs (omega arith) (omega arith) (omega arith)
        (e ∙ round_suc size h n) l.1,
  )

  -- A write just past the window extends it.
  pub Live-snoc :
      (slots : List (Option A)) (size h i : ℕ) (x : A) (xs : List A)
      → size ≡ length slots
      → h < size
      → length xs < size
      → i ≡ (h + length xs) % size
      → Live slots size h xs
      → Live (set slots i (some x)) size h (xs ++ (x ∷ []))
  Live-snoc slots size h i x [] b hh hl e l =
      let e' : i ≡ h = omega (arith, mod-eq_of_lt {n = h + 0} {m = size} (omega arith)) in
      (rw e' (get_elem?-set_self slots h (some x) (omega arith)), tt)
  Live-snoc slots size h i x (y ∷ xs) b hh hl e l = (
    get_elem?-set_ne slots (some x) (λ p. round_ne hh (omega arith) hl (sym e ∙ p)) ∙ l.0,
    Live-snoc slots size ((h + 1) % size) i x xs b (omega arith) (omega arith)
        (e ∙ round_suc size h (length xs)) l.1,
  )

  pub Holds-inside : {q : Queue A} {xs : List A} → Holds q xs → q.nextwrite < length q.slots
  Holds-inside h = omega (arith, h.tail, h.block, h.read_in)

  -- Storing at `nextwrite` and stepping it on adds the pointer at the end.
  pub Holds-snoc :
      {q : Queue A} {xs : List A} (x : A)
      → Holds q xs
      → length xs + 1 < q.size
      → Holds
          (record q {
            slots = set q.slots q.nextwrite (some x);
            nextwrite = (q.nextwrite + 1) % q.size;
          })
          (xs ++ (x ∷ []))
  Holds-snoc {q} {xs} x h less = record {
    block = h.block ∙ sym (length-set q.slots q.nextwrite (some x));
    small = h.small;
    read_in = h.read_in;
    tail =
        round_next q.size q.nextread (length xs) q.nextwrite h.tail
        ∙ ap (λ k. (q.nextread + k) % q.size) (omega (arith, length-append xs (x ∷ [])));
    room = omega (arith, length-append xs (x ∷ []));
    live =
        Live-snoc q.slots q.size q.nextread q.nextwrite x xs h.block h.read_in h.room h.tail h.live;
  }

  -- Stepping `nextread` on takes the oldest pointer out.
  pub Holds-tail :
      {q : Queue A} {x : A} {xs : List A}
      → Holds q (x ∷ xs)
      → Holds (record q { nextread = (q.nextread + 1) % q.size }) xs
  Holds-tail {q} {x} {xs} h = record {
    block = h.block;
    small = h.small;
    read_in = omega (arith, h.read_in);
    tail = h.tail ∙ round_suc q.size q.nextread (length xs);
    room = omega (arith, h.room);
    live = h.live.1;
  }

  -- The two indices agree exactly when nothing is held, and never when a next pointer fits.
  pub Holds-empty : {q : Queue A} → Holds q [] → q.nextwrite ≡ q.nextread
  Holds-empty {q} h =
      omega
        (arith, h.tail, mod-eq_of_lt {n = q.nextread + 0} {m = q.size} (omega (arith, h.read_in)))

  pub Holds-ne : {q : Queue A} {x : A} {xs : List A} → Holds q (x ∷ xs) → q.nextwrite ≢ q.nextread
  Holds-ne {q} {x} {xs} h p = round_ne h.read_in (omega arith) h.room (sym h.tail ∙ p)

  pub Holds-next :
      {q : Queue A} {xs : List A}
      → Holds q xs
      → (q.nextwrite + 1) % q.size ≡ (q.nextread + suc (length xs)) % q.size
  Holds-next {q} {xs} h = round_next q.size q.nextread (length xs) q.nextwrite h.tail

  -- With one cell left, the index after `nextwrite` is `nextread`.
  pub Holds-full :
      {q : Queue A} {xs : List A}
      → Holds q xs
      → suc (length xs) ≡ q.size
      → (q.nextwrite + 1) % q.size ≡ q.nextread
  Holds-full {q} h e =
      Holds-next h ∙ ap (λ k. (q.nextread + k) % q.size) e ∙ round_whole q.size q.nextread h.read_in
