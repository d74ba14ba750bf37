-- ===== src/Paging/Tests.antt =====
-- A kernel page, a page in use and an idle page.
use ece.Common.{ℕ, ◌≡◌, ◌≢◌, ◌⊎◌, refl, arith, none, some, List, [], ◌∷◌, get_elem?, fault, Fault}
use ece.Coremap.{Entry, blank}
use ece.Paging.{ref_bit_counter, victim_from, victim}
use ece.Paging.Slots.{twice, twice-uninitialised}
use ece.Paging.Victim.{AtMost, Oldest, victim_lem, victim_not_referenced}

abbrev kernel_page : Entry
kernel_page = record (blank 4096) { is_kernel = 1; counter = 9 }

abbrev busy_page : Entry
busy_page = record (blank 8192) { reference = 1; counter = 5 }

abbrev idle_page : Entry
idle_page = record (blank 12288) { counter = 3 }

abbrev pages : List Entry
pages = kernel_page ∷ busy_page ∷ idle_page ∷ []

victim_lem_example :
    ((victim pages ≡ none) × AtMost pages 0)
    ⊎ ((k : ℕ) × (e : Entry) × (victim pages ≡ some k) × Oldest pages 0 k e)
victim_lem_example = victim_lem pages

idle_chosen : victim (ref_bit_counter pages) ≡ some 2
unfolding victim victim_from ref_bit_counter
idle_chosen = refl

victim_not_referenced_example :
    (e : Entry) × (get_elem? pages 2 ≡ some e) × (e.is_kernel ≢ 1) × (e.reference ≢ 1)
victim_not_referenced_example = victim_not_referenced pages 2 idle_chosen

twice-uninitialised_example : twice 4 ≡ fault Fault.uninitialised
twice-uninitialised_example = twice-uninitialised 4 (omega arith)
