-- ===== src/Slob.antt =====
-- Project 3/patch_3: the best-fit variant of `slob_page_alloc` and `slob_alloc` in the kernel's mm/slob.c,
-- and its counters of free space. Addresses and sizes are in units of the allocator.
pub mod Segment
pub mod Search
pub mod Chosen
pub mod Carve
pub mod Fragment
pub mod Allocate
pub mod Pages
pub mod Examples
use ece318_operating_systems.Prelude.{
  ℕ, zero, suc, ◌+◌, ◌-◌, ◌%◌, Bool, true, false, ◌&&◌, ◌||◌, Option, none, some, List, [], ◌∷◌,
  ◌==◌, leb, ltb, if◌then◌else◌,
}

-- What the kernel keeps at the start of a free block: its size, and the next one.
pub record Header : Type 0 where
  pub units : ℕ
  pub next : ℕ

abbrev pub Memory : Type 0
Memory = ℕ → Header

-- `SLOB_UNITS(PAGE_SIZE)`
abbrev pub page_units : ℕ
page_units = 2048

-- `set_slob`, `slob_units`, `slob_next` and `slob_last` of the kernel. The last block of a page has an
-- address at the start of a page as its next one.
abbrev pub set_slob : (s size next : ℕ) → Memory → Memory
set_slob s size next mem a = if a == s then record { units = size; next = next } else mem a

abbrev pub slob_units : Memory → ℕ → ℕ
slob_units mem s = (mem s).units

abbrev pub slob_next : Memory → ℕ → ℕ
slob_next mem s = (mem s).next

abbrev pub slob_last : Memory → ℕ → Bool
slob_last mem s = slob_next mem s % page_units == 0

-- The part of `struct page` that the allocator uses, with the memory.
pub record Page : Type 0 where
  pub mem : Memory
  pub freelist : ℕ
  pub units : ℕ

-- `bestPage` (its place in the list of pages), `bestBlock`, `prevFromBestBlock` (`none` is NULL) and
-- `bestBlockSpace`, once they are set.
pub record Best : Type 0 where
  pub page : ℕ
  pub block : ℕ
  pub prev : Option ℕ
  pub space : ℕ

abbrev pub better : Option Best → ℕ → Bool
better none space = true
better (some b) space = ltb space b.space

-- The block `cur` against the best one so far. `delta` is what is lost before the first aligned address
-- of a block, as ALIGN gives it, and 0 without alignment.
module _ (delta : ℕ → ℕ) (units : ℕ) where
  abbrev pub improves : (avail cur : ℕ) → Option Best → Bool
  improves avail cur best =
      leb (units + delta cur) avail && better best (avail - (units + delta cur))

  module _ (page : ℕ) where
    abbrev pub consider : (avail cur : ℕ) → (prev : Option ℕ) → Option Best → Option Best
    consider avail cur prev best =
        if improves avail cur best
        then some
            (record { page = page; block = cur; prev = prev; space = avail - (units + delta cur) })
        else best

    -- The loop over the free list of a page, in `slob_page_alloc` and in `slob_alloc`: it ends at an exact fit or at the last block. `none` is the
    -- end of the fuel.
    unfoldable pub search :
        (fuel : ℕ) → Memory → (prev : Option ℕ) → (cur : ℕ) → Option Best → Option (Option Best)
    search zero mem prev cur best = none
    search (suc fuel) mem prev cur best =
        let avail = slob_units mem cur in
        let best' = consider avail cur prev best in
        let exact = improves avail cur best && (avail - (units + delta cur) == 0) in
        let rest = search fuel mem (some cur) (slob_next mem cur) best' in
        if exact || slob_last mem cur then some best' else rest

-- The block that is taken from, its predecessor, and the page.
pub record Cursor : Type 0 where
  pub prev : Option ℕ
  pub block : ℕ
  pub page : Page

-- The head of the block is cut off to align the rest.
unfoldable pub fragment_head : (delta : ℕ) → Best → Page → Cursor
fragment_head delta b sp =
    let avail = slob_units sp.mem b.block in
    let aligned = b.block + delta in
    let next = slob_next sp.mem b.block in
    let cut = set_slob b.block delta aligned (set_slob aligned (avail - delta) next sp.mem) in
    if delta == 0
    then record { prev = b.prev; block = b.block; page = sp }
    else record { prev = some b.block; block = aligned; page = record sp { mem = cut } }

-- The predecessor, or the free list, goes on with another block.
abbrev pub link_to : Option ℕ → ℕ → Page → Page
link_to none target sp = record sp { freelist = target }
link_to (some p) target sp = record sp { mem = set_slob p (slob_units sp.mem p) target sp.mem }

-- The units are taken from the front of the block: the whole block, or the rest stays.
unfoldable pub take_units : (units : ℕ) → Cursor → Page
take_units units c =
    let avail = slob_units c.page.mem c.block in
    let next = slob_next c.page.mem c.block in
    let whole = link_to c.prev next c.page in
    let linked = link_to c.prev (c.block + units) c.page in
    let part = record linked { mem = set_slob (c.block + units) (avail - units) next linked.mem } in
    if avail == units then whole else part

-- What `slob_page_alloc` gives: the address, the page, and `*page_removed_from_list`.
pub record Taken : Type 0 where
  pub block : ℕ
  pub page : Page
  pub removed : Bool

abbrev pub take_best : (delta units : ℕ) → Page → Best → Taken
take_best delta units sp b =
    let c = fragment_head delta b sp in
    let page = take_units units c in
    record {
      block = c.block;
      page = record page { units = page.units - units };
      removed = page.units - units == 0;
    }

-- `slob_page_alloc` under BEST_FIT: `some none` is NULL.
unfoldable pub slob_page_alloc :
    (fuel : ℕ) → (delta : ℕ → ℕ) → (units : ℕ) → Page → Option (Option Taken)
slob_page_alloc fuel delta units sp =
    elim (search delta units 0 fuel sp.mem none sp.freelist none) [
      | none ↦ none
      | some none ↦ some none
      | some (some b) ↦ some (some (take_best (delta b.block) units sp b))
    ]
