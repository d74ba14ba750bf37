-- ===== src/Thread/Lists.antt =====
-- Sleepers as a list: those on an address, and the others.
use ece.Common.{
  ℕ, ◌≡◌, refl, ap, Bool, true, false, List, [], ◌∷◌, ◌++◌, length, get_elem?, remove_at, some,
  ◌==◌, if◌then◌else◌,
}

module _ (at : ℕ → ℕ) (addr : ℕ) where
  -- the threads of the list that sleep on `addr`
  abbrev pub on_addr : List ℕ → List ℕ
  on_addr [] = []
  on_addr (t ∷ ts) = if at t == addr then t ∷ on_addr ts else on_addr ts

  abbrev pub off_addr : List ℕ → List ℕ
  off_addr [] = []
  off_addr (t ∷ ts) = if at t == addr then off_addr ts else t ∷ off_addr ts

  -- the first of them, as a list of at most one
  abbrev pub first_on : List ℕ → List ℕ
  first_on [] = []
  first_on (t ∷ ts) = if at t == addr then t ∷ [] else first_on ts

  -- the list without the first of them
  abbrev pub without_first : List ℕ → List ℕ
  without_first [] = []
  without_first (t ∷ ts) = if at t == addr then ts else t ∷ without_first ts

  abbrev pub any_on : List ℕ → Bool
  any_on [] = false
  any_on (t ∷ ts) = if at t == addr then true else any_on ts

pub get_elem?-middle :
    (pre : List ℕ) (t : ℕ) (ts : List ℕ) → get_elem? (pre ++ (t ∷ ts)) (length pre) ≡ some t
get_elem?-middle [] t ts = refl
get_elem?-middle (x ∷ pre) t ts = get_elem?-middle pre t ts

pub remove_at-middle :
    (pre : List ℕ) (t : ℕ) (ts : List ℕ) → remove_at (length pre) (pre ++ (t ∷ ts)) ≡ pre ++ ts
remove_at-middle [] t ts = refl
remove_at-middle (x ∷ pre) t ts = ap (λ l. x ∷ l) (remove_at-middle pre t ts)
