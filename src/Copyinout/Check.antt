-- ===== src/Copyinout/Check.antt =====
-- Which blocks of a process the kernel copies.
use ece.Common.{
  ℕ, ◌+◌, ◌-◌, ◌%◌, ◌≤◌, ◌<◌, ◌≡◌, ◌≢◌, ◌⊎◌, inl, inr, refl, arith, Option, lt→ltb, le→ltb_false,
  le→leb, lt→leb_false, dec_lt, ℕ_discrete, ==_true, ==_false, success, efault,
}
use ece.Coremap.{word}
use ece.Uio.{Memory}
use ece.Copyinout.{user_top, copycheck, protected, copyin, copyout}

-- Does the block have a byte, and lie below USERTOP?
abbrev pub InUser : ℕ → ℕ → Type 0
InUser userptr len = (0 < len) × (userptr + len ≤ user_top)

-- What copycheck lets through unchanged.
copycheck_in : (userptr len : ℕ) → InUser userptr len → copycheck userptr len ≡ (success, len)
unfolding copycheck
copycheck_in userptr len (pos, fits) =
    let top : (userptr + len + word - 1) % word ≡ userptr + len - 1 = omega arith in
    rw
      (
        top,
        le→ltb_false (userptr + len - 1) userptr (omega arith),
        lt→leb_false user_top userptr (omega arith),
        lt→leb_false user_top (userptr + len - 1) (omega arith),
      )
      refl

-- Any other block is refused, or cut short.
copycheck_out :
    (userptr len : ℕ)
    → userptr < word
    → len < word
    → (len ≡ 0) ⊎ (user_top < userptr + len)
    → (copycheck userptr len ≡ (efault, len))
      ⊎ ((stop : ℕ) × (copycheck userptr len ≡ (success, stop)) × (stop ≢ len))
unfolding copycheck
copycheck_out userptr len small short out =
    elim (dec_lt ((userptr + len + word - 1) % word) userptr) [
      | yes wraps ↦ inl (rw (lt→ltb ((userptr + len + word - 1) % word) userptr wraps) refl)
      | no above ↦ elim (dec_lt userptr user_top) [
        | no kernel ↦ inl (
            rw
              (
                le→ltb_false ((userptr + len + word - 1) % word) userptr (omega arith),
                le→leb user_top userptr (omega arith),
              )
              refl)
        | yes user ↦
            let high : user_top ≤ (userptr + len + word - 1) % word = elim out [
              | inl z ↦ omega arith
              | inr past ↦ omega arith
            ] in
            inr (
              user_top - userptr,
              rw
                  (
                    le→ltb_false ((userptr + len + word - 1) % word) userptr (omega arith),
                    lt→leb_false user_top userptr user,
                    le→leb user_top ((userptr + len + word - 1) % word) high,
                  )
                  refl,
              λ q. elim out [ inl z ↦ omega arith | inr past ↦ omega arith ],
            )
      ]
    ]

module _ (trapped : ℕ → ℕ → ℕ → Memory → Option Memory) where
  -- copyin and copyout copy a block of a process by a protected memcpy exactly where it has a
  -- byte and lies below USERTOP. Any other block, also one that wraps around the top of memory and
  -- one of no bytes, is answered by EFAULT, and memory stays as it is. The address and the length
  -- are below 2 ^ 32.
  pub copyin-copyout :
      (user kernel len : ℕ) (mem : Memory)
      → user < word
      → len < word
      → (InUser user len
          × (copyin trapped user kernel len mem ≡ protected trapped kernel user len mem)
          × (copyout trapped kernel user len mem ≡ protected trapped user kernel len mem))
        ⊎ ((¬ InUser user len)
            × (copyin trapped user kernel len mem ≡ (efault, mem))
            × (copyout trapped kernel user len mem ≡ (efault, mem)))
  unfolding copyin copyout
  copyin-copyout user kernel len mem small short = elim (ℕ_discrete len 0) [
    | yes z ↦
        let (no_in, no_out) = refused (inl z) in inr (λ (pos, fits). omega arith, no_in, no_out)
    | no more ↦ elim (dec_lt user_top (user + len)) [
      | yes past ↦
          let (no_in, no_out) = refused (inr past) in
          inr (λ (pos, fits). omega arith, no_in, no_out)
      | no below ↦
          let inside : InUser user len = (omega arith, omega arith) in
          let check = copycheck_in user len inside in
          let same = ==_true len len refl in
          inl (inside, rw (check, same) refl, rw (check, same) refl)
    ]
  ]
    where
      refused :
          (len ≡ 0) ⊎ (user_top < user + len)
          → (copyin trapped user kernel len mem ≡ (efault, mem))
            × (copyout trapped kernel user len mem ≡ (efault, mem))
      refused out = elim (copycheck_out user len small short out) [
        | inl e ↦ (rw e refl, rw e refl)
        | inr (stop, e, ne) ↦ let cut = ==_false stop len ne in (rw (e, cut) refl, rw (e, cut) refl)
      ]
