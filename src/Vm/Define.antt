-- ===== src/Vm/Define.antt =====
-- as_define_region covers the bytes it is asked for by whole pages.
use ece.Common.{
  ℕ, ◌+◌, ◌*◌, ◌%◌, ◌≤◌, ◌<◌, ◌≡◌, ◌≢◌, refl, arith, Option, none, some, ==_true, ==_false,
  ℕ_discrete,
}
use ece.Coremap.{word}
use ece.Vm.Regions.{Region, AddrSpace, aligned, as_define_region}

-- The pages of a region, of which the first and the last hold a byte of the `sz` bytes at `vaddr`, or
-- border on them.
pub record Covers (vaddr sz : ℕ) (r : Region) : Type 0 where
  pub whole : r.vbase % 4096 ≡ 0
  pub starts : r.vbase ≤ vaddr
  pub starts_late : vaddr < r.vbase + 4096
  pub ends : vaddr + sz ≤ r.vbase + r.npages * 4096
  pub ends_early : r.vbase + r.npages * 4096 < vaddr + sz + 4096
  pub refined : r.segment_size_refine ≡ r.npages * 4096
  pub asked : r.segment_size ≡ sz

-- How as_define_region ends.
pub data Defined (vaddr sz : ℕ) (s : AddrSpace) : Option (Unit {0}) × AddrSpace → Type 0 where
  in_first :
      (s' : AddrSpace)
      → s.first.vbase ≡ 0
      → Covers vaddr sz s'.first
      → s'.second ≡ s.second
      → Defined vaddr sz s (some tt, s')
  in_second :
      (s' : AddrSpace)
      → s.first.vbase ≢ 0
      → s.second.vbase ≡ 0
      → Covers vaddr sz s'.second
      → s'.first ≡ s.first
      → Defined vaddr sz s (some tt, s')
  too_many :
      (s' : AddrSpace)
      → s.first.vbase ≢ 0
      → s.second.vbase ≢ 0
      → s'.first ≡ s.first
      → s'.second ≡ s.second
      → Defined vaddr sz s (none, s')

aligned-Covers :
    (vaddr sz offset file_size flag : ℕ)
    → sz + vaddr % 4096 + 4095 < word
    → Covers vaddr sz (aligned vaddr sz offset file_size flag)
unfolding aligned
aligned-Covers vaddr sz offset file_size flag fits = record {
  whole = omega arith;
  starts = omega arith;
  starts_late = omega arith;
  ends = omega arith;
  ends_early = omega arith;
  refined = omega arith;
  asked = refl;
}

-- as_define_region takes the first of the two regions that is not in use: the pages it records
-- cover the bytes that are asked for, and no page more than they need, and the other region stays
-- as it was. Where both are in use it refuses and changes neither. The length, rounded up, does not
-- pass 2 ^ 32.
pub as_define_region-Defined :
    (vaddr sz offset v file_size flag : ℕ) (s : AddrSpace)
    → sz + vaddr % 4096 + 4095 < word
    → Defined vaddr sz s (as_define_region vaddr sz offset v file_size flag s)
unfolding as_define_region
as_define_region-Defined vaddr sz offset v file_size flag s fits =
    let covers = aligned-Covers vaddr sz offset file_size flag fits in
    elim (ℕ_discrete s.first.vbase 0) [
      | yes z ↦ rw (==_true s.first.vbase 0 z) (in_first _ z covers refl)
      | no ne ↦ elim (ℕ_discrete s.second.vbase 0) [
        | yes z ↦
            rw (==_false s.first.vbase 0 ne, ==_true s.second.vbase 0 z)
              (in_second _ ne z covers refl)
        | no ne' ↦
            rw (==_false s.first.vbase 0 ne, ==_false s.second.vbase 0 ne')
              (too_many _ ne ne' refl refl)
      ]
    ]
