-- ===== src/Slob/Pages.antt =====
-- `slob_alloc` of Project 3/patch_3 under BEST_FIT: the page with the best block of all, or a new page; and
-- the counters of free space. The pages are those of the list for the size that is asked for.
pub mod Nearest
pub mod Walk
pub mod Keep
pub mod Grow
pub mod Outcome
use ece318_operating_systems.Prelude.{
  ℕ, zero, suc, ◌+◌, ◌*◌, Bool, true, false, Option, none, some, List, [], ◌∷◌, ◌==◌, ltb,
  if◌then◌else◌,
}
use ece318_operating_systems.Slob.{
  Header, Memory, Page, Best, Taken, page_units, search, set_slob, slob_page_alloc,
}

-- `bestBlockSpace == 0`
abbrev pub is_exact : Option Best → Bool
is_exact none = false
is_exact (some b) = b.space == 0

abbrev pub or_stop :
    Option (Option Best) → (Option Best → Option (Option Best)) → Option (Option Best)
or_stop none k = none
or_stop (some best) k = k best

-- The loop over the pages, from one with this place in the list on. CONFIG_NUMA is not set.
unfoldable pub search_pages :
    (fuel : ℕ)
    → (delta : ℕ → ℕ) → (units : ℕ) → List Page
    → (place : ℕ) → Option Best
    → Option (Option Best)
search_pages fuel delta units [] place best = some best
search_pages fuel delta units (sp ∷ sps) place best =
    let skip = search_pages fuel delta units sps (suc place) best in
    let visit = or_stop (search delta units place fuel sp.mem none sp.freelist best) (λ found.
      let rest = search_pages fuel delta units sps (suc place) found in
      if is_exact found then some found else rest) in
    if ltb sp.units units then skip else visit

abbrev pub page_at : ℕ → List Page → Option Page
page_at i [] = none
page_at zero (sp ∷ sps) = some sp
page_at (suc i) (sp ∷ sps) = page_at i sps

-- The page after a block is taken: it leaves the list when it is marked as removed.
abbrev pub put_page : ℕ → Taken → List Page → List Page
put_page i t [] = []
put_page zero t (sp ∷ sps) = if t.removed then sps else t.page ∷ sps
put_page (suc i) t (sp ∷ sps) = sp ∷ put_page i t sps

-- What is returned, with the list of pages: an address or NULL. A fault is the BUG_ON.
pub data Result : Type 0 where
  fault : Result
  returns : (b : Option ℕ) → List Page → Result

-- `calcFreeSpace` for the pages of a list.
abbrev pub calc_free_space : List Page → ℕ
calc_free_space [] = 0
calc_free_space (sp ∷ sps) = sp.units + calc_free_space sps

-- A page from `slob_new_pages`, with the address of its first unit.
abbrev pub new_page : ℕ → Memory → Page
new_page b mem = record {
  mem = set_slob b page_units (b + page_units) mem;
  freelist = b;
  units = page_units;
}

abbrev pub from_new : List Page → Option (Option Taken) → Result
from_new sps none = fault
from_new sps (some none) = fault
from_new sps (some (some t)) = returns (some t.block) (if t.removed then sps else t.page ∷ sps)

-- `fresh` is the new page, if the kernel has one: its first address and what its memory holds.
abbrev pub grow :
    (fuel : ℕ) → (delta : ℕ → ℕ) → (units : ℕ) → Option (ℕ × Memory) → List Page → Result
grow fuel delta units none sps = returns none sps
grow fuel delta units (some (b, mem)) sps =
    from_new sps (slob_page_alloc fuel delta units (new_page b mem))

-- The block of the best page, or of a new one when there is none.
abbrev pub from_best : ℕ → List Page → (otherwise : Result) → Option (Option Taken) → Result
from_best i sps otherwise none = fault
from_best i sps otherwise (some none) = otherwise
from_best i sps otherwise (some (some t)) = returns (some t.block) (put_page i t sps)

abbrev pub in_page : Option Page → (Page → Option (Option Taken)) → Option (Option Taken)
in_page none k = some none
in_page (some sp) k = k sp

unfoldable pub slob_alloc :
    (fuel : ℕ) → (delta : ℕ → ℕ) → (units : ℕ) → (fresh : Option (ℕ × Memory)) → List Page → Result
slob_alloc fuel delta units fresh sps = elim (search_pages fuel delta units sps 0 none) [
  | none ↦ fault
  | some none ↦ grow fuel delta units fresh sps
  | some (some b) ↦
      from_best b.page sps (grow fuel delta units fresh sps)
        (in_page (page_at b.page sps) (slob_page_alloc fuel delta units))
]
