-- ===== src/Coremap/Frames.antt =====
-- The loops of the core map that change a range of entries, and the number of free frames.
use ece.Common.{
  ℕ, zero, suc, ◌+◌, ◌*◌, ◌≤◌, ◌<◌, ◌≡◌, ◌≢◌, ◌⊎◌, inl, inr, refl, ap, ◌∙◌, arith, some, List, [],
  ◌∷◌, length, length-set, set, get_elem?, get_elem?-set_self, get_elem?-set_ne, ◌==◌, ==_true,
  ==_false, dec_lt, ℕ_discrete, done, read_of_get, write-lt, if◌then◌else◌,
}
use ece.Coremap.{
  PageState, free, used, Entry, update, update_frames, clear_bytes, clear_pages, page_size,
}
use ece.Coremap.Scan.{state_at, state_at_get, state_at_same, state_at-lt, entry_at}

-- `k` frames where the state is free, and none where it is not
abbrev pub free_of : ℕ → PageState → ℕ
free_of k free = k
free_of k used = 0

-- how many frames are free
abbrev pub count_free : List Entry → ℕ
count_free [] = 0
count_free (e ∷ es) = free_of 1 e.page_state + count_free es

free_of-suc : (k : ℕ) (s : PageState) → free_of (suc k) s ≡ free_of k s + free_of 1 s
free_of-suc k free = omega arith
free_of-suc k used = refl

free_of_zero : (s : PageState) → free_of 0 s ≡ 0
free_of_zero free = refl
free_of_zero used = refl

pub count_free-set :
    (es : List Entry) (i : ℕ) (e v : Entry)
    → get_elem? es i ≡ some e
    → count_free (set es i v) + free_of 1 e.page_state ≡ count_free es + free_of 1 v.page_state
count_free-set [] i e v h = cc
count_free-set (x ∷ es) zero e v h =
    let same : x.page_state ≡ e.page_state = cc in rw (← same) (omega arith)
count_free-set (x ∷ es) (suc i) e v h = omega (arith, count_free-set es i e v h)

pub update_lem :
    (f : Entry → Entry) (i : ℕ) (es : List Entry) (e : Entry)
    → get_elem? es i ≡ some e
    → i < length es
    → update f i es ≡ done (set es i (f e))
update_lem f i es e g lt = rw (read_of_get es i g, write-lt es i (f e) lt)

-- `es'` is `es` with `f` applied to the `k` entries from `i` on.
pub record Updated (f : Entry → Entry) (k i : ℕ) (es es' : List Entry) : Type 0 where
  pub same_length : length es' ≡ length es
  pub inside :
      (j : ℕ) (e : Entry)
      → i ≤ j
      → j < i + k
      → get_elem? es j ≡ some e
      → get_elem? es' j ≡ some (f e)
  pub outside : (j : ℕ) → (j < i) ⊎ (i + k ≤ j) → get_elem? es' j ≡ get_elem? es j
  pub counted :
      (s s' : PageState)
      → ((j : ℕ) → i ≤ j → j < i + k → state_at es j ≡ some s)
      → ((e : Entry) → (f e).page_state ≡ s')
      → count_free es' + free_of k s ≡ count_free es + free_of k s'

Updated-zero : (f : Entry → Entry) (i : ℕ) (es : List Entry) → Updated f 0 i es es
Updated-zero f i es = record {
  same_length = refl;
  inside = λ j e low high. absurd (omega arith);
  outside = λ j h. refl;
  counted = λ s s' h g. omega (arith, free_of_zero s, free_of_zero s');
}

module _ (f : Entry → Entry) (k i : ℕ) (es es' : List Entry) (e : Entry) where
  Updated-suc :
      get_elem? es i ≡ some e
      → i < length es
      → Updated f k (i + 1) (set es i (f e)) es'
      → Updated f (suc k) i es es'
  Updated-suc g lt u = record {
    same_length = omega (arith, u.same_length, length-set es i (f e));
    inside = λ j x low high h. elim (ℕ_discrete i j) [
      | yes q ↦
          let same : x ≡ e = cc (g, h, q) in
          let out = u.outside i (inl (omega arith)) in
          rw (← q, same) (out ∙ get_elem?-set_self es i (f e) lt)
      | no ne ↦ u.inside j x (omega arith) (omega arith) (get_elem?-set_ne es (f e) ne ∙ h)
    ];
    outside = λ j h.
        let apart : i ≢ j = λ q. elim h [ inl a ↦ omega arith | inr a ↦ omega arith ] in
        let past : (j < i + 1) ⊎ (i + 1 + k ≤ j) = elim h [
          | inl a ↦ inl (omega arith)
          | inr a ↦ inr (omega arith)
        ] in
        u.outside j past ∙ get_elem?-set_ne es (f e) apart;
    counted = λ s s' h g'.
        let rest : (j : ℕ) → i + 1 ≤ j → j < i + 1 + k → state_at (set es i (f e)) j ≡ some s =
          λ j low high.
            state_at_same es (set es i (f e)) j (get_elem?-set_ne es (f e) (λ q. omega arith))
            ∙ h j (omega arith) (omega arith) in
        let first : e.page_state ≡ s = cc (state_at_get es i g, h i (omega arith) (omega arith)) in
        let one : count_free (set es i (f e)) + free_of 1 s ≡ count_free es + free_of 1 s' =
          rw (← first, ← g' e) (count_free-set es i e (f e) g) in
        omega (arith, one, u.counted s s' rest g', free_of-suc k s, free_of-suc k s');
  }

pub Updated-one :
    (f : Entry → Entry) (i : ℕ) (es : List Entry) (e : Entry)
    → get_elem? es i ≡ some e
    → i < length es
    → Updated f 1 i es (set es i (f e))
Updated-one f i es e g lt = Updated-suc f 0 i es _ e g lt (Updated-zero f (i + 1) _)

pub update_frames_lem :
    (f : Entry → Entry) (k i : ℕ) (es : List Entry)
    → i + k ≤ length es
    → (es' : List Entry) × (update_frames f k i es ≡ done es') × Updated f k i es es'
unfolding update_frames
update_frames_lem f zero i es h = (es, refl, Updated-zero f i es)
update_frames_lem f (suc k) i es h =
    let (e, g, at) = entry_at es i (omega arith) in
    let e1 = update_lem f i es e g (omega arith) in
    let (es', r, u) =
      update_frames_lem f k (i + 1) (set es i (f e)) (omega (arith, length-set es i (f e))) in
    (es', rw e1 r, Updated-suc f k i es es' e g (omega arith) u)

-- An entry in the range is the image of what stood there.
pub Updated-value :
    (f : Entry → Entry) (k i : ℕ) (es es' : List Entry)
    → Updated f k i es es'
    → i + k ≤ length es
    → (j : ℕ) → i ≤ j
    → j < i + k
    → (e : Entry) × (get_elem? es j ≡ some e) × (get_elem? es' j ≡ some (f e))
Updated-value f k i es es' u fits j low high =
    let (e, g, at) = entry_at es j (omega arith) in (e, g, u.inside j e low high g)

get_elem?-lt : (es : List Entry) (i : ℕ) {e : Entry} → get_elem? es i ≡ some e → i < length es
get_elem?-lt es i h = state_at-lt es i (state_at_get es i h)

-- A field that the change keeps is what it was, at each index.
pub Updated-keeps {ℓ} :
    {A : Type ℓ} (field : Entry → A) (f : Entry → Entry) (k i : ℕ) (es es' : List Entry)
    → Updated f k i es es'
    → ((e : Entry) → field (f e) ≡ field e)
    → (j : ℕ) (e' : Entry) → get_elem? es' j ≡ some e'
    → (e : Entry) × (get_elem? es j ≡ some e) × (field e' ≡ field e)
Updated-keeps field f k i es es' u keeps j e' h =
    let (e, g, at) = entry_at es j (omega (arith, u.same_length, get_elem?-lt es' j h)) in
    elim (dec_lt j i) [
      | yes low ↦ (e, g, ap field (cc (h, g, u.outside j (inl low))))
      | no ge ↦ elim (dec_lt j (i + k)) [
        | yes inside ↦ (e, g, ap field (cc (h, u.inside j e (omega arith) inside g)) ∙ keeps e)
        | no past ↦ (e, g, ap field (cc (h, g, u.outside j (inr (omega arith)))))
      ]
    ]

-- What the bytes are after the loops of coremapFree.
pub clear_bytes_lem :
    (count a : ℕ) (ram : ℕ → ℕ) (x : ℕ)
    → ((a ≤ x) × (x < a + count) × (clear_bytes count a ram x ≡ 0))
      ⊎ (((x < a) ⊎ (a + count ≤ x)) × (clear_bytes count a ram x ≡ ram x))
unfolding clear_bytes
clear_bytes_lem zero a ram x =
    inr (elim (dec_lt x a) [ yes lt ↦ inl lt | no ge ↦ inr (omega arith) ], refl)
clear_bytes_lem (suc count) a ram x =
    elim (clear_bytes_lem count (a + 1) (λ y. if y == a then 0 else ram y) x) [
      | inl (low, high, e) ↦ inl (omega arith, omega arith, e)
      | inr (out, e) ↦ elim (ℕ_discrete x a) [
        | yes q ↦ inl (omega arith, omega arith, rw (e, ==_true x a q))
        | no ne ↦ inr (
          elim out [ inl a' ↦ inl (omega arith) | inr a' ↦ inr (omega arith) ],
          rw (e, ==_false x a ne),
        )
      ]
    ]

pub clear_pages_lem :
    (pages a : ℕ) (ram : ℕ → ℕ) (x : ℕ)
    → ((a ≤ x) × (x < a + pages * 4096) × (clear_pages pages a ram x ≡ 0))
      ⊎ (((x < a) ⊎ (a + pages * 4096 ≤ x)) × (clear_pages pages a ram x ≡ ram x))
unfolding clear_pages
clear_pages_lem zero a ram x =
    inr (elim (dec_lt x a) [ yes lt ↦ inl lt | no ge ↦ inr (omega arith) ], refl)
clear_pages_lem (suc pages) a ram x =
    elim (clear_pages_lem pages (a + page_size) (clear_bytes page_size a ram) x) [
      | inl (low, high, e) ↦ inl (omega arith, omega arith, e)
      | inr (out, e) ↦ elim (clear_bytes_lem page_size a ram x) [
        | inl (low, high, z) ↦ inl (low, omega arith, e ∙ z)
        | inr (out', k) ↦ inr (
          elim out' [
            | inl a' ↦ inl a'
            | inr a' ↦ elim out [ inl b ↦ absurd (omega arith) | inr b ↦ inr (omega arith) ]
          ],
          e ∙ k,
        )
      ]
    ]
