-- ===== src/Coremap/Scan.antt =====
-- The two loops of coremapAllocateMultipleFrame find the lowest run of free frames.
use ece.Common.{
  ℕ, zero, suc, ◌+◌, ◌-◌, ◌≤◌, ◌<◌, ◌≡◌, ◌≢◌, ◌⊎◌, inl, inr, refl, subst, ◌∙◌, arith, Option, none,
  some, List, [], ◌∷◌, length, drop, drop_cons, drop_all, get_elem?, ==_true, ==_false, lt→ltb,
  le→ltb_false, dec_lt, ℕ_discrete, Run, done, read-lt, read_of_get, ap,
}
use ece.Coremap.{PageState, free, used, Entry, Scanned, scan, search}

-- the state of a frame of the map
abbrev pub state_at : List Entry → ℕ → Option PageState
state_at [] i = none
state_at (e ∷ es) zero = some e.page_state
state_at (e ∷ es) (suc i) = state_at es i

-- Are the `n` frames from `c` on free, and in the map?
abbrev pub FreeRun : List Entry → ℕ → ℕ → Type 0
FreeRun es c n = (j : ℕ) → c ≤ j → j < c + n → state_at es j ≡ some free

pub state_at_get :
    (es : List Entry) (i : ℕ) {e : Entry}
    → get_elem? es i ≡ some e
    → state_at es i ≡ some e.page_state
state_at_get [] i h = cc
state_at_get (e ∷ es) zero h = cc
state_at_get (e ∷ es) (suc i) h = state_at_get es i h

-- Equal entries have equal states, and so do two maps that agree at an index.
pub state_at_same :
    (es es' : List Entry) (i : ℕ)
    → get_elem? es' i ≡ get_elem? es i
    → state_at es' i ≡ state_at es i
state_at_same [] [] i h = refl
state_at_same [] (x ∷ es') zero h = cc
state_at_same [] (x ∷ es') (suc i) h = state_at_same [] es' i h
state_at_same (e ∷ es) [] zero h = cc
state_at_same (e ∷ es) [] (suc i) h = state_at_same es [] i h
state_at_same (e ∷ es) (x ∷ es') zero h = cc
state_at_same (e ∷ es) (x ∷ es') (suc i) h = state_at_same es es' i h

pub state_at_outside : (es : List Entry) (i : ℕ) → length es ≤ i → state_at es i ≡ none
state_at_outside [] i h = refl
state_at_outside (e ∷ es) zero h = absurd (omega arith)
state_at_outside (e ∷ es) (suc i) h = state_at_outside es i (omega arith)

pub state_at-lt : (es : List Entry) (i : ℕ) {s : PageState} → state_at es i ≡ some s → i < length es
state_at-lt es i h = elim (dec_lt i (length es)) [
  | yes lt ↦ lt
  | no ge ↦ cc (state_at_outside es i (omega arith), h)
]

-- the entry at an index, with its state
pub entry_at :
    (es : List Entry) (i : ℕ)
    → i < length es
    → (e : Entry) × (get_elem? es i ≡ some e) × (state_at es i ≡ some e.page_state)
entry_at es i h = let (e, r, g) = read-lt es i h in (e, g, state_at_get es i g)

pub state_cases : (s : PageState) → (s ≡ free) ⊎ (s ≡ used)
state_cases free = inl refl
state_cases used = inr refl

-- A frame in the map is free or used.
pub frame_cases :
    (es : List Entry) (i : ℕ)
    → i < length es
    → ((e : Entry) × (get_elem? es i ≡ some e) × (e.page_state ≡ free))
      ⊎ ((e : Entry) × (get_elem? es i ≡ some e) × (e.page_state ≡ used))
frame_cases es i h =
    let (e, r, g) = read-lt es i h in
    elim (state_cases e.page_state) [ inl f ↦ inl (e, g, f) | inr u ↦ inr (e, g, u) ]

FreeRun-snoc :
    (es : List Entry) {c j : ℕ}
    → FreeRun es c (j - c)
    → c ≤ j
    → state_at es j ≡ some free
    → FreeRun es c (j + 1 - c)
FreeRun-snoc es {c} {j} h le at k low high = elim (dec_lt k j) [
  | yes lt ↦ h k low (omega arith)
  | no ge ↦ let e : k ≡ j = omega arith in rw e at
]

-- How the inner loop ends, for the candidate `c`.
data Outcome (n : ℕ) (es : List Entry) (c : ℕ) : Scanned → Type 0 where
  fits : FreeRun es c n → Outcome n es c Scanned.found
  stopped :
      (j : ℕ) → c < j → j < c + n → state_at es j ≡ some used → Outcome n es c (Scanned.blocked j)
  short : length es < c + n → Outcome n es c Scanned.ran_out

module _ (n : ℕ) (es : List Entry) (c : ℕ) where
  -- the three ways, with the equation
  abbrev Ways : Scanned → Type 0
  Ways s =
      ((s ≡ Scanned.found) × FreeRun es c n)
      ⊎ (((s ≡ Scanned.ran_out) × (length es < c + n))
          ⊎ ((j : ℕ) × (s ≡ Scanned.blocked j)
              × (c < j)
              × (j < c + n)
              × (state_at es j ≡ some used)))

  Outcome-Ways : {s : Scanned} → Outcome n es c s → Ways s
  Outcome-Ways (fits run) = inl (refl, run)
  Outcome-Ways (short over) = inr (inl (refl, over))
  Outcome-Ways (stopped j low high at) = inr (inr (j, refl, low, high, at))

  scan-Outcome :
      (rounds j counter : ℕ)
      → j + rounds ≡ length es
      → j ≡ c + counter + 1
      → counter + 1 < n
      → FreeRun es c (j - c)
      → Outcome n es c (scan n j counter (drop j es))
  unfolding scan
  scan-Outcome zero j counter e pos more run =
      rw (drop_all j es (omega arith)) (short (omega arith))
  scan-Outcome (suc rounds) j counter e pos more run =
      let one : j + 1 ≡ suc j = omega arith in
      elim (frame_cases es j (omega arith)) [
        | inr (x, g, u) ↦
            rw (drop_cons es j g, u, ==_false n (counter + 1) (λ q. omega arith))
              (stopped j (omega arith) (omega arith) (state_at_get es j g ∙ ap some u))
        | inl (x, g, f) ↦
            let longer = FreeRun-snoc es run (omega arith) (state_at_get es j g ∙ ap some f) in
            elim (ℕ_discrete n (counter + 2)) [
              | yes q ↦
                  rw (drop_cons es j g, f, ==_true n (counter + 2) q)
                    (fits (λ k low high. longer k low (omega arith)))
              | no ne ↦
                  rw (drop_cons es j g, f, ==_false n (counter + 2) ne)
                    (subst (λ t. Outcome n es c (scan n (j + 1) (counter + 1) (drop t es))) one
                      (scan-Outcome rounds (j + 1) (counter + 1) (omega arith) (omega arith)
                        (omega arith) (λ k low high. longer k low (omega arith))))
            ]
      ]

-- No run of `n` free frames starts below `i`.
abbrev pub NoneBelow : List Entry → ℕ → ℕ → Type 0
NoneBelow es n i = (c : ℕ) → c < i → ¬ FreeRun es c n

-- What the search gives: the lowest run, or any frame or none where there is no run.
pub data Searched (n : ℕ) (es : List Entry) : Run (Option ℕ) → Type 0 where
  lowest : (c : ℕ) → FreeRun es c n → NoneBelow es n c → Searched n es (done (some c))
  missing : (r : Option ℕ) → ((c : ℕ) → ¬ FreeRun es c n) → Searched n es (done r)

module _ (n : ℕ) (es : List Entry) (large : 2 ≤ n) where
  NoneBelow-extend :
      (i j : ℕ) → NoneBelow es n i → ((c : ℕ) → i ≤ c → c < j → ¬ FreeRun es c n) → NoneBelow es n j
  NoneBelow-extend i j below bad c lt = elim (dec_lt c i) [
    | yes low ↦ below c low
    | no ge ↦ bad c (omega arith) lt
  ]

  -- A run that reaches a used frame, or past the map, is none.
  FreeRun-stops : (c k : ℕ) → c ≤ k → k < c + n → state_at es k ≢ some free → ¬ FreeRun es c n
  FreeRun-stops c k low high ne run = ne (run k low high)

  pub FreeRun-fits : (c : ℕ) → FreeRun es c n → c + n ≤ length es
  FreeRun-fits c run =
      let last = state_at-lt es (c + n - 1) (run (c + n - 1) (omega arith) (omega arith)) in
      omega arith

  first_outcome :
      (i : ℕ)
      → i < length es
      → state_at es i ≡ some free
      → Ways n es i (scan n (i + 1) 0 (drop (i + 1) es))
  first_outcome i lt at = Outcome-Ways n es i (
      scan-Outcome n es i (length es - (i + 1)) (i + 1) 0 (omega arith) (omega arith) (omega arith)
        (λ k low high. let e : k ≡ i = omega arith in rw e at))

  search-Searched :
      (fuel i : ℕ) (candidate : Option ℕ)
      → i ≤ length es
      → length es < i + fuel
      → NoneBelow es n i
      → Searched n es (search n es fuel i candidate)
  unfolding search
  search-Searched zero i candidate le enough below = absurd (omega arith)
  search-Searched (suc fuel) i candidate le enough below = elim (dec_lt i (length es)) [
    | no ge ↦
        rw (le→ltb_false i (length es) (omega arith))
          (missing candidate (λ c run. below c (omega (arith, FreeRun-fits c run)) run))
    | yes lt ↦ elim (frame_cases es i lt) [
      | inr (x, g, u) ↦
          let not_free : state_at es i ≢ some free = λ q. cc (state_at_get es i g, u, q) in
          rw (lt→ltb i (length es) lt, read_of_get es i g, u)
            (search-Searched fuel (i + 1) candidate (omega arith) (omega arith) (
              NoneBelow-extend i (i + 1) below
                (λ c low high. FreeRun-stops c i (omega arith) (omega arith) not_free)))
      | inl (x, g, f) ↦
          let test = lt→ltb i (length es) lt in
          let get = read_of_get es i g in
          elim (first_outcome i lt (state_at_get es i g ∙ ap some f)) [
            | inl (e, run) ↦ rw (test, get, f, e) (lowest i run below)
            | inr (inl (e, over)) ↦
                rw (test, get, f, e)
                  (search-Searched fuel (i + 1) (some i) (omega arith) (omega arith) (
                    NoneBelow-extend i (i + 1) below
                      (λ c low high run. omega (arith, FreeRun-fits c run))))
            | inr (inr (j, e, low, high, at)) ↦
                let inside = state_at-lt es j at in
                rw (test, get, f, e)
                  (search-Searched fuel (j + 1) (some i) (omega arith) (omega arith) (
                    NoneBelow-extend i (j + 1) below (λ c le' lt'.
                      FreeRun-stops c j (omega arith) (omega arith) (λ q. cc (at, q)))))
          ]
    ]
  ]

-- The whole search.
pub search_lem :
    (n : ℕ) (es : List Entry) (r : Option ℕ)
    → 2 ≤ n
    → Searched n es (search n es (length es + 1) 0 r)
search_lem n es r large =
    search-Searched n es large (length es + 1) 0 r (omega arith) (omega arith)
      (λ c lt. absurd (omega arith))
