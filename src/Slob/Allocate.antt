-- ===== src/Slob/Allocate.antt =====
-- What `slob_page_alloc` of Project 3/patch_3 takes from a page, under BEST_FIT.
use mathlib.Core.List.{append_assoc}
use ece318_operating_systems.Prelude.{
  ℕ, ◌+◌, ◌-◌, ◌*◌, ◌≤◌, ◌<◌, ◌≡◌, refl, ap, sym, subst, ◌∙◌, ◌⊎◌, inl, inr, Bool-cases, Option,
  none, some, List, [], ◌∷◌, ◌++◌, ◌==◌, length, All, All-map, arith,
}
use ece318_operating_systems.Slob.{
  Page, Best, Cursor, Taken, fragment_head, take_units, take_best, slob_page_alloc,
}
use ece318_operating_systems.Slob.Segment.{Block, total, Segment, Segment-split, segment_le, IsPage}
use ece318_operating_systems.Slob.Search.{need, search-page}
use ece318_operating_systems.Slob.Chosen.{IsChosen, choose-cases}
use ece318_operating_systems.Slob.Carve.{
  IsAt, tail_part, take_units-Segment, take_units-units, take_units-low,
}
use ece318_operating_systems.Slob.Fragment.{
  head_part, fragment_head-IsAt, fragment_head-block, fragment_head-page,
}

pub total-append : (xs ys : List Block) → total (xs ++ ys) ≡ total xs + total ys
total-append [] ys = omega arith
total-append (x ∷ xs) ys = omega (arith, total-append xs ys)

-- What stays free of a block: what lies before the aligned address, and behind the units.
abbrev pub remains : (delta : ℕ → ℕ) → (units : ℕ) → Block → List Block
remains delta units at =
    head_part at.addr (delta at.addr)
    ++ tail_part (at.addr + delta at.addr) (at.size - delta at.addr) units

total-remains :
    (delta : ℕ → ℕ) (units : ℕ) (at : Block)
    → need delta units at ≤ at.size
    → total (remains delta units at) + units ≡ at.size
total-remains delta units at fit = elim (Bool-cases (delta at.addr == 0)) [
  | inl e ↦ elim (Bool-cases (at.size - delta at.addr == units)) [
    | inl f ↦ rw (e, f) (ground arith)
    | inr f ↦ rw (e, f) (ground arith)
  ]
  | inr e ↦ elim (Bool-cases (at.size - delta at.addr == units)) [
    | inl f ↦ rw (e, f) (ground arith)
    | inr f ↦ rw (e, f) (ground arith)
  ]
]

-- A block is taken from a page: the first of those that leave the least over. Its units are used from the
-- first aligned address on, the page holds all other free units as before, and the page is taken
-- off its list when it has no free unit left.
pub record IsTaken (delta : ℕ → ℕ) (units k : ℕ) (bs : List Block) (t : Taken) : Type 0 where
  pub best : Best
  pub chosen : IsChosen delta units 0 none bs best
  pub address : t.block ≡ chosen.at.addr + delta chosen.at.addr
  pub page : IsPage k (chosen.before ++ (remains delta units chosen.at ++ chosen.after)) t.page
  pub fewer : t.page.units + units ≡ total bs
  pub removed : t.removed ≡ (t.page.units == 0)

module _ (delta : ℕ → ℕ) (units k : ℕ) (sp : Page) (bs : List Block) (is : IsPage k bs sp)
    (some_units : 0 < units) where
  module _ (b : Best) (c : IsChosen delta units 0 none bs b) where
    abbrev d : ℕ
    d = delta c.at.addr

    abbrev cursor : Cursor
    cursor = fragment_head d b sp

    abbrev z : ℕ
    z = k * 2048 + 2048

    blocks : Segment sp.mem sp.freelist (c.before ++ c.at ∷ c.after) z
    blocks = subst (λ l. Segment sp.mem sp.freelist l z) c.splits is.blocks

    is_cut : IsAt (c.before ++ head_part c.at.addr d) c.after (c.at.size - d) z cursor
    is_cut =
        fragment_head-IsAt sp c.before c.after c.at z d b blocks c.block_eq c.prev_eq
          (omega (arith, c.fits, some_units))

    block_place : cursor.block ≡ c.at.addr + d
    block_place =
        fragment_head-block sp c.before c.after c.at z d b blocks c.block_eq c.prev_eq
          (omega (arith, c.fits, some_units))

    sizes : total bs ≡ total c.before + (c.at.size + total c.after)
    sizes = ap total c.splits ∙ total-append c.before (c.at ∷ c.after)

    taken-Segment :
        Segment
          (take_units units cursor).mem
          (take_units units cursor).freelist
          (c.before ++ (remains delta units c.at ++ c.after))
          z
    taken-Segment =
        let e : (c.before ++ head_part c.at.addr d)
              ++ (tail_part (c.at.addr + d) (c.at.size - d) units ++ c.after)
            ≡ c.before ++ (remains delta units c.at ++ c.after) =
          simp append_assoc in
        subst (λ l. Segment (take_units units cursor).mem (take_units units cursor).freelist l z) e
          (subst
            (λ a.
              Segment (take_units units cursor).mem (take_units units cursor).freelist
                ((c.before ++ head_part c.at.addr d)
                  ++ (tail_part a (c.at.size - d) units ++ c.after))
                z)
            block_place
            (take_units-Segment (c.before ++ head_part c.at.addr d) c.after (c.at.size - d) z units
              cursor is_cut some_units (omega (arith, c.fits))))

    starts : k * 2048 ≤ (take_units units cursor).freelist
    starts =
        let same = fragment_head-page d b sp in
        let low = Segment-split sp.mem sp.freelist z c.before c.after c.at blocks in
        let below = segment_le sp.mem sp.freelist c.at.addr c.before low.0 in
        take_units-low units (k * 2048) cursor (omega (arith, is.starts, same.1))
          (omega (arith, block_place, below, is.starts))
          (omega (arith, block_place, below, is.starts, is_cut.ends))

    free_units : (take_units units cursor).units ≡ total bs
    free_units = take_units-units units 0 cursor ∙ (fragment_head-page d b sp).0 ∙ is.free

    cut-IsTaken : IsTaken delta units k bs (take_best d units sp b)
    cut-IsTaken =
        let left = total-remains delta units c.at c.fits in
        let sum : total (c.before ++ (remains delta units c.at ++ c.after)) + units ≡ total bs =
          omega (
            arith,
            left,
            sizes,
            total-append c.before (remains delta units c.at ++ c.after),
            total-append (remains delta units c.at) c.after,
          ) in
        record {
          best = b;
          chosen = c;
          address = block_place;
          page = record {
            starts = starts;
            blocks = taken-Segment;
            free = omega (arith, sum, free_units);
          };
          fewer = omega (arith, sum, free_units);
          removed = refl;
        }

    take_best-IsTaken : IsTaken delta units k bs (take_best (delta b.block) units sp b)
    take_best-IsTaken =
        subst (λ a. IsTaken delta units k bs (take_best (delta a) units sp b)) (sym c.block_eq)
          cut-IsTaken

  -- `slob_page_alloc` returns NULL, and then no block of the page has room for the request with what its
  -- alignment loses.
  abbrev pub Refused : Option (Option Taken) → Type 0
  Refused r = (r ≡ some none) × All (λ x. x.size < need delta units x) bs

  -- It gives a block.
  abbrev pub Given : Option (Option Taken) → Type 0
  Given r = (t : Taken) × ((r ≡ some (some t)) × IsTaken delta units k bs t)

  -- A page with a free block, whose list links its blocks in order: `slob_page_alloc` under BEST_FIT ends,
  -- with NULL exactly where no block has room for the units behind the first aligned address, and
  -- otherwise with that address in the first of the blocks that leave the least over. These units are
  -- taken from the page, all other free units stay in its list, in order, and the page is marked as
  -- removed when it has no free unit left.
  pub slob_page_alloc-BestFit :
      (fuel : ℕ)
      → 0 < length bs
      → length bs ≤ fuel
      → Refused (slob_page_alloc fuel delta units sp) ⊎ Given (slob_page_alloc fuel delta units sp)
  unfolding slob_page_alloc
  slob_page_alloc-BestFit fuel some_block enough =
      let found = search-page delta units 0 bs sp k fuel none is some_block enough in
      elim (choose-cases delta units 0 bs none none) [
        | inl (nothing, worse) ↦ inl (
            rw (slob_page_alloc, found, nothing)
              (refl, All-map bs (λ x f. ground (arith, f)) worse))
        | inr f ↦ inr (
            rw (slob_page_alloc, found, f.found_eq)
              (
                take_best (delta f.found.block) units sp f.found,
                (refl, take_best-IsTaken f.found f.chosen),
              ))
      ]
