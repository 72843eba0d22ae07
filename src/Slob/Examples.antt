-- ===== src/Slob/Examples.antt =====
-- The theorems on the allocator of Project 3/patch_3, for a page with three free blocks.
use ece318_operating_systems.Prelude.{
  ℕ, ◌%◌, ◌⊎◌, refl, none, List, [], ◌∷◌, ◌==◌, if◌then◌else◌, arith,
}
use ece318_operating_systems.Slob.{Header, Memory, Page, slob_page_alloc}
use ece318_operating_systems.Slob.Segment.{Block, block, IsPage}
use ece318_operating_systems.Slob.Allocate.{Refused, Given, slob_page_alloc-BestFit}
use ece318_operating_systems.Slob.Pages.{slob_alloc}
use ece318_operating_systems.Slob.Pages.Nearest.{Stock}
use ece318_operating_systems.Slob.Pages.Outcome.{Outcome, slob_alloc-BestFit}

abbrev header : ℕ → ℕ → Header
header u n = record { units = u; next = n }

-- The page 1 has the addresses from 2048 on.
abbrev memory : Memory
memory a = if a == 2064 then header 5 2148 else if a == 2148 then header 3 2249 else header 4 4096

abbrev page : Page
page = record { mem = memory; freelist = 2064; units = 12 }

abbrev blocks : List Block
blocks = block 2064 5 ∷ block 2148 3 ∷ block 2249 4 ∷ []

-- Addresses are aligned to 2.
abbrev delta : ℕ → ℕ
delta a = a % 2

page-IsPage : IsPage 1 blocks page
page-IsPage = record {
  starts = omega arith;
  blocks = (
    refl,
    refl,
    omega arith,
    omega arith,
    (refl, refl, omega arith, omega arith, (refl, refl, omega arith, omega arith, refl)),
  );
  free = refl;
}

slob_page_alloc-BestFit_example :
    Refused delta 2 1 page blocks page-IsPage (omega arith) (slob_page_alloc 3 delta 2 page)
    ⊎ Given delta 2 1 page blocks page-IsPage (omega arith) (slob_page_alloc 3 delta 2 page)
slob_page_alloc-BestFit_example =
    slob_page_alloc-BestFit delta 2 1 page blocks page-IsPage (omega arith) 3 (omega arith)
      (omega arith)

stock : Stock 3 (page ∷ [])
stock = (
  record {
    place = 1;
    blocks = blocks;
    is_page = page-IsPage;
    some_block = omega arith;
    enough = omega arith;
  },
  tt,
)

slob_alloc-BestFit_example :
    Outcome 3 delta 2 (omega arith) none (page ∷ []) stock (slob_alloc 3 delta 2 none (page ∷ []))
slob_alloc-BestFit_example =
    slob_alloc-BestFit 3 delta 2 (omega arith) none (page ∷ []) stock (omega arith) tt
