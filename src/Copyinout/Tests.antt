-- ===== src/Copyinout/Tests.antt =====
-- A block of two bytes that begins below USERTOP and ends above it.
use ece.Common.{ℕ, ◌≡◌, ◌⊎◌, arith, Option, none, efault}
use ece.Uio.{Memory}
use ece.Copyinout.{protected, copyin, copyout}
use ece.Copyinout.Check.{InUser, copyin-copyout}

abbrev no_trap : ℕ → ℕ → ℕ → Memory → Option Memory
no_trap dst src len mem = none

abbrev sevens : Memory
sevens x = 7

copyin-copyout_example :
    (InUser 0x7fff_ffff 2
      × (copyin no_trap 0x7fff_ffff 0x8000_4000 2 sevens
          ≡ protected no_trap 0x8000_4000 0x7fff_ffff 2 sevens)
      × (copyout no_trap 0x8000_4000 0x7fff_ffff 2 sevens
          ≡ protected no_trap 0x7fff_ffff 0x8000_4000 2 sevens))
    ⊎ ((¬ InUser 0x7fff_ffff 2)
        × (copyin no_trap 0x7fff_ffff 0x8000_4000 2 sevens ≡ (efault, sevens))
        × (copyout no_trap 0x8000_4000 0x7fff_ffff 2 sevens ≡ (efault, sevens)))
copyin-copyout_example =
    copyin-copyout no_trap 0x7fff_ffff 0x8000_4000 2 sevens (omega arith) (omega arith)
