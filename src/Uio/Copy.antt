-- ===== src/Uio/Copy.antt =====
-- memmove copies as if all its bytes were read before the first is written.
use ece.Common.{
  ℕ, zero, suc, ◌+◌, ◌-◌, ◌*◌, ◌/◌, ◌%◌, ◌≤◌, ◌<◌, ◌≡◌, ◌⊎◌, inl, inr, refl, sym, ap, ◌∙◌, arith,
  Bool, true, false, ◌&&◌, ltb, leb, ltb→lt, lt→ltb, le→leb, lt→leb_false, le→ltb_false, dec_lt,
  ==_iff, Bool-cases, ◌==◌,
}
use ece.Uio.{Memory, assign, copy_up, copy_down, by_words, memcpy, memmove}

inside :
    (n d s : ℕ) (mem : Memory) (x : ℕ) → d ≤ x → x < d + n → assign n d s mem x ≡ mem (s + (x - d))
inside n d s mem x low high = rw (le→leb d x low, lt→ltb x (d + n) high) refl

outside : (n d s : ℕ) (mem : Memory) (x : ℕ) → (x < d) ⊎ (d + n ≤ x) → assign n d s mem x ≡ mem x
outside n d s mem x (inl lt) = rw (lt→leb_false d x lt) refl
outside n d s mem x (inr ge) = elim (Bool-cases (leb d x)) [
  | inl a ↦ rw (a, le→ltb_false x (d + n) ge) refl
  | inr a ↦ rw a refl
]

-- The bytes in two blocks side by side, and outside both.
sides :
    (d m n x : ℕ)
    → ((d ≤ x) × (x < d + m)) ⊎ (((d + m ≤ x) × (x < d + m + n)) ⊎ ((x < d) ⊎ (d + m + n ≤ x)))
sides d m n x = elim (dec_lt x d) [
  | yes lt ↦ inr (inr (inl lt))
  | no ge ↦ elim (dec_lt x (d + m)) [
    | yes lt ↦ inl (omega arith, lt)
    | no past ↦ elim (dec_lt x (d + m + n)) [
      | yes lt ↦ inr (inl (omega arith, lt))
      | no end ↦ inr (inr (inr (omega arith)))
    ]
  ]
]

-- A block whose first part is copied first, to below its source; and whose last part is, to above.
assign_up :
    (m n d s : ℕ) (mem : Memory) (x : ℕ)
    → d ≤ s
    → assign n (d + m) (s + m) (assign m d s mem) x ≡ assign (m + n) d s mem x
assign_up m n d s mem x le = elim (sides d m n x) [
  | inl (low, high) ↦
      outside n (d + m) (s + m) (assign m d s mem) x (inl high)
      ∙ inside m d s mem x low high
      ∙ sym (inside (m + n) d s mem x low (omega arith))
  | inr (inl (low, high)) ↦
      let at : s + m + (x - (d + m)) ≡ s + (x - d) = omega arith in
      inside n (d + m) (s + m) (assign m d s mem) x low high
      ∙ outside m d s mem (s + m + (x - (d + m))) (inr (omega arith))
      ∙ ap mem at
      ∙ sym (inside (m + n) d s mem x (omega arith) (omega arith))
  | inr (inr out) ↦
      let out' : (x < d) ⊎ (d + (m + n) ≤ x) = elim out [
        | inl a ↦ inl a
        | inr a ↦ inr (omega arith)
      ] in
      let past : (x < d + m) ⊎ (d + m + n ≤ x) = elim out [
        | inl a ↦ inl (omega arith)
        | inr a ↦ inr a
      ] in
      let first : (x < d) ⊎ (d + m ≤ x) = elim out [ inl a ↦ inl a | inr a ↦ inr (omega arith) ] in
      outside n (d + m) (s + m) (assign m d s mem) x past
      ∙ outside m d s mem x first
      ∙ sym (outside (m + n) d s mem x out')
]

assign_down :
    (m n d s : ℕ) (mem : Memory) (x : ℕ)
    → s ≤ d
    → assign m d s (assign n (d + m) (s + m) mem) x ≡ assign (m + n) d s mem x
assign_down m n d s mem x le = elim (sides d m n x) [
  | inl (low, high) ↦
      inside m d s (assign n (d + m) (s + m) mem) x low high
      ∙ outside n (d + m) (s + m) mem (s + (x - d)) (inl (omega arith))
      ∙ sym (inside (m + n) d s mem x low (omega arith))
  | inr (inl (low, high)) ↦
      let at : s + m + (x - (d + m)) ≡ s + (x - d) = omega arith in
      outside m d s (assign n (d + m) (s + m) mem) x (inr low)
      ∙ inside n (d + m) (s + m) mem x low high
      ∙ ap mem at
      ∙ sym (inside (m + n) d s mem x (omega arith) (omega arith))
  | inr (inr out) ↦
      let out' : (x < d) ⊎ (d + (m + n) ≤ x) = elim out [
        | inl a ↦ inl a
        | inr a ↦ inr (omega arith)
      ] in
      let past : (x < d + m) ⊎ (d + m + n ≤ x) = elim out [
        | inl a ↦ inl (omega arith)
        | inr a ↦ inr a
      ] in
      let first : (x < d) ⊎ (d + m ≤ x) = elim out [ inl a ↦ inl a | inr a ↦ inr (omega arith) ] in
      outside m d s (assign n (d + m) (s + m) mem) x first
      ∙ outside n (d + m) (s + m) mem x past
      ∙ sym (outside (m + n) d s mem x out')
]

nothing : (n d x : ℕ) → n ≡ 0 → (x < d) ⊎ (d + n ≤ x)
nothing n d x z = elim (dec_lt x d) [ yes lt ↦ inl lt | no ge ↦ inr (omega arith) ]

copy_up_lem :
    (size n d s : ℕ) (mem : Memory) (x : ℕ)
    → d ≤ s
    → copy_up size n d s mem x ≡ assign (n * size) d s mem x
unfolding copy_up
copy_up_lem size zero d s mem x le =
    sym (outside (0 * size) d s mem x (nothing (0 * size) d x (omega arith)))
copy_up_lem size (suc n) d s mem x le =
    let len : size + n * size ≡ suc n * size = grind arith in
    copy_up_lem size n (d + size) (s + size) (assign size d s mem) x (omega arith)
    ∙ assign_up size (n * size) d s mem x le
    ∙ ap (λ t. assign t d s mem x) len

copy_down_lem :
    (size n d s : ℕ) (mem : Memory) (x : ℕ)
    → s ≤ d
    → copy_down size n d s mem x ≡ assign (n * size) d s mem x
unfolding copy_down
copy_down_lem size zero d s mem x le =
    sym (outside (0 * size) d s mem x (nothing (0 * size) d x (omega arith)))
copy_down_lem size (suc n) d s mem x le =
    let len : n * size + size ≡ suc n * size = grind arith in
    copy_down_lem size n d s (assign size (d + n * size) (s + n * size) mem) x le
    ∙ assign_down (n * size) size d s mem x le
    ∙ ap (λ t. assign t d s mem x) len

whole_words : (dst src len : ℕ) → by_words dst src len ≡ true → len / 4 * 4 ≡ len
whole_words dst src len h =
    omega (arith, (==_iff (len % 4) 0).0 (last (dst % 4 == 0) (src % 4 == 0) (len % 4 == 0) h))
  where
    last : (a b c : Bool) → (a && (b && c)) ≡ true → c ≡ true
    last true true c h = h
    last true false c h = cc h
    last false b c h = cc h

memcpy_lem :
    (dst src len : ℕ) (mem : Memory) (x : ℕ)
    → dst ≤ src
    → memcpy dst src len mem x ≡ assign len dst src mem x
unfolding memcpy
memcpy_lem dst src len mem x le = elim (Bool-cases (by_words dst src len)) [
  | inl words ↦ rw words (
      copy_up_lem 4 (len / 4) dst src mem x le
      ∙ ap (λ t. assign t dst src mem x) (whole_words dst src len words))
  | inr bytes ↦
      rw bytes (copy_up_lem 1 len dst src mem x le ∙ ap (λ t. assign t dst src mem x) (omega arith))
]

memmove-assign :
    (dst src len : ℕ) (mem : Memory) (x : ℕ) → memmove dst src len mem x ≡ assign len dst src mem x
unfolding memmove
memmove-assign dst src len mem x = elim (Bool-cases (ltb dst src)) [
  | inl below ↦ rw below (memcpy_lem dst src len mem x (omega (arith, ltb→lt dst src below)))
  | inr above ↦
      let le : src ≤ dst = not_below dst src above in
      elim (Bool-cases (by_words dst src len)) [
        | inl words ↦
            rw (above, words)
              (copy_down_lem 4 (len / 4) dst src mem x le
                ∙ ap (λ t. assign t dst src mem x) (whole_words dst src len words))
        | inr bytes ↦
            rw (above, bytes)
              (copy_down_lem 1 len dst src mem x le
                ∙ ap (λ t. assign t dst src mem x) (omega arith))
      ]
]
  where
    not_below : (a b : ℕ) → ltb a b ≡ false → b ≤ a
    not_below a b h = elim (dec_lt a b) [ yes lt ↦ cc (lt→ltb a b lt, h) | no ge ↦ omega arith ]

-- memmove, by words or by bytes and upward or downward, however its two blocks overlap: every byte
-- of the destination holds what the source held before the call, and no other byte changes.
pub memmove_lem :
    (dst src len : ℕ) (mem : Memory)
    → ((i : ℕ) → i < len → memmove dst src len mem (dst + i) ≡ mem (src + i))
      × ((x : ℕ) → (x < dst) ⊎ (dst + len ≤ x) → memmove dst src len mem x ≡ mem x)
memmove_lem dst src len mem = (
  λ i lt.
      let at : src + (dst + i - dst) ≡ src + i = omega arith in
      memmove-assign dst src len mem (dst + i)
      ∙ inside len dst src mem (dst + i) (omega arith) (omega arith)
      ∙ ap mem at,
  λ x out. memmove-assign dst src len mem x ∙ outside len dst src mem x out,
)
