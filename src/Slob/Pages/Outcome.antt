-- ===== src/Slob/Pages/Outcome.antt =====
-- What `slob_alloc` of Project 3/patch_3 takes, under BEST_FIT.
use ece318_operating_systems.Prelude.{
  suc, ℕ, ◌+◌, ◌≤◌, ◌<◌, ◌≡◌, refl, sym, subst, ◌∙◌, ◌⊎◌, inl, inr, Bool-cases, Option, none, some,
  List, [], ◌∷◌, ◌++◌, ◌==◌, length, All, All-map, arith,
}
use ece318_operating_systems.Slob.{Page, Memory, Best, Taken, slob_page_alloc}
use ece318_operating_systems.Slob.Segment.{Block}
use ece318_operating_systems.Slob.Search.{need, left_over}
use ece318_operating_systems.Slob.Chosen.{NoneBetter}
use ece318_operating_systems.Slob.Allocate.{IsTaken, Refused, Given, slob_page_alloc-BestFit}
use ece318_operating_systems.Slob.Pages.{
  search_pages, page_at, put_page, Result, returns, calc_free_space, grow, slob_alloc, in_page,
  from_best,
}
use ece318_operating_systems.Slob.Pages.Nearest.{
  Stocked, Stock, Beaten, InPage, Origin, same, improved, chosen-NoneBetter,
}
use ece318_operating_systems.Slob.Pages.Keep.{IsTaken-Stocked, put_page-Stock}
use ece318_operating_systems.Slob.Pages.Grow.{CanServe, Grown, grow-Grown}
use ece318_operating_systems.Slob.Pages.Walk.{search_pages-Nearest}

page_at-append :
    (before after : List Page) (sp : Page)
    → page_at (length before) (before ++ sp ∷ after) ≡ some sp
page_at-append [] after sp = refl
page_at-append (x ∷ before) after sp = page_at-append before after sp

All-at : (P : Block → Type 0) (xs ys : List Block) (y : Block) → All P (xs ++ y ∷ ys) → P y
All-at P [] ys y ps = ps.0
All-at P (x ∷ xs) ys y ps = All-at P xs ys y ps.1

-- Taking units from a page of the list takes so many from all of them, also when the page leaves the list.
put_page-free :
    (units : ℕ) (before after : List Page) (sp : Page) (t : Taken)
    → t.page.units + units ≡ sp.units
    → t.removed ≡ (t.page.units == 0)
    → calc_free_space (put_page (length before) t (before ++ sp ∷ after)) + units
      ≡ calc_free_space (before ++ sp ∷ after)
put_page-free units [] after sp t fewer removed = elim (Bool-cases (t.page.units == 0)) [
  | inl e ↦ rw (removed, e) (ground (arith, fewer))
  | inr e ↦ rw (removed, e) (omega (arith, fewer))
]
put_page-free units (x ∷ before) after sp t fewer removed =
    omega (arith, put_page-free units before after sp t fewer removed)

module _ (fuel : ℕ) (delta : ℕ → ℕ) (units : ℕ) (some_units : 0 < units) where
  -- No block of any page has room.
  abbrev pub NoRoom : (sps : List Page) → Stock fuel sps → Type 0
  NoRoom [] tt = Unit
  NoRoom (sp ∷ sps) (s, rest) = All (λ x. x.size < need delta units x) s.blocks × NoRoom sps rest

  -- No block of any page that has room leaves less over than this one.
  abbrev pub LeastOfAll : Block → (sps : List Page) → Stock fuel sps → Type 0
  LeastOfAll at [] tt = Unit
  LeastOfAll at (sp ∷ sps) (s, rest) =
      All (λ x. need delta units x ≤ x.size → left_over delta units at ≤ left_over delta units x)
        s.blocks
      × LeastOfAll at sps rest

  Beaten-NoRoom :
      (sps : List Page) (stock : Stock fuel sps)
      → Beaten fuel delta units none sps stock
      → NoRoom sps stock
  Beaten-NoRoom [] tt b = tt
  Beaten-NoRoom (sp ∷ sps) (s, rest) b =
      (All-map s.blocks (λ x f. ground (arith, f)) b.0, Beaten-NoRoom sps rest b.1)

  Beaten-LeastOfAll :
      (sps : List Page) (stock : Stock fuel sps) (b : Best) (at : Block)
      → left_over delta units at ≤ b.space
      → Beaten fuel delta units (some b) sps stock
      → LeastOfAll at sps stock
  Beaten-LeastOfAll [] tt b at le w = tt
  Beaten-LeastOfAll (sp ∷ sps) (s, rest) b at le w = (
    All-map s.blocks (λ x f fit. ground (arith, f fit)) w.0,
    Beaten-LeastOfAll sps rest b at le w.1,
  )

  -- A block is taken from a page of the list, the best one of all; the free units of the list are fewer by
  -- those that are taken.
  pub record FromList (sps : List Page) (stock : Stock fuel sps) (r : Result) : Type 0 where
    pub before : List Page
    pub at : Page
    pub after : List Page
    pub splits : sps ≡ before ++ at ∷ after
    pub stocked : Stocked fuel at
    pub given : Taken
    pub taken : IsTaken delta units stocked.place stocked.blocks given
    pub result : r ≡ returns (some given.block) (put_page (length before) given sps)
    pub least : LeastOfAll taken.chosen.at sps stock
    pub free : calc_free_space (put_page (length before) given sps) + units ≡ calc_free_space sps
    pub in_order : Stock (suc fuel) (put_page (length before) given sps)

  module _ (sps : List Page) (stock : Stock fuel sps) (b : Best)
      (i : InPage fuel delta units none sps 0 b)
      (beaten : Beaten fuel delta units (some b) sps stock) where
    -- The block of the search has room, so the page gives one.
    not-Refused :
        (r : Option (Option Taken))
        → ¬ Refused delta units i.stocked.place i.at i.stocked.blocks i.stocked.is_page some_units r
    not-Refused r (e, small) =
        let no =
          All-at (λ x. x.size < need delta units x) i.chosen.before i.chosen.after i.chosen.at
            (subst (All (λ x. x.size < need delta units x)) i.chosen.splits small) in
        absurd (omega (arith, no, i.chosen.fits))

    as_good :
        (t : Taken) (k : IsTaken delta units i.stocked.place i.stocked.blocks t)
        → left_over delta units k.chosen.at ≤ b.space
    as_good t k =
        let worse = All-at _ i.chosen.before i.chosen.after i.chosen.at (
          subst (NoneBetter delta units 0 (some k.best)) i.chosen.splits
            (chosen-NoneBetter fuel delta units 0 none i.stocked.blocks k.best k.chosen)) in
        ground (arith, worse i.chosen.fits, i.chosen.space_eq, k.chosen.space_eq)

    abbrev page_result : Option (Option Taken)
    page_result = slob_page_alloc fuel delta units i.at

    place_eq : b.page ≡ length i.before
    place_eq = i.page_eq ∙ omega arith

    found_page : page_at b.page sps ≡ some i.at
    found_page = rw (place_eq, i.splits) (page_at-append i.before i.after i.at)

    free_eq :
        (t : Taken)
        → IsTaken delta units i.stocked.place i.stocked.blocks t
        → calc_free_space (put_page (length i.before) t sps) + units ≡ calc_free_space sps
    free_eq t k = rw (i.splits) (
        put_page-free units i.before i.after i.at t (k.fewer ∙ sym i.stocked.is_page.free)
          k.removed)

    stock_eq :
        (t : Taken)
        → IsTaken delta units i.stocked.place i.stocked.blocks t
        → Stock (suc fuel) (put_page (length i.before) t sps)
    stock_eq t k = rw (i.splits) (
        put_page-Stock fuel t i.before i.after i.at (subst (Stock fuel) i.splits stock) k.removed
          (IsTaken-Stocked fuel delta units i.stocked.place i.stocked.blocks t k i.stocked.enough))

    from_page :
        (otherwise : Result)
        → Given delta units i.stocked.place i.at i.stocked.blocks i.stocked.is_page some_units
            page_result
        → FromList sps stock (
            from_best b.page sps otherwise
              (in_page (page_at b.page sps) (slob_page_alloc fuel delta units)))
    from_page otherwise (t, (e, k)) = record {
      before = i.before;
      at = i.at;
      after = i.after;
      splits = i.splits;
      stocked = i.stocked;
      given = t;
      taken = k;
      result = rw (found_page, e, place_eq) refl;
      least = Beaten-LeastOfAll sps stock b k.chosen.at (as_good t k) beaten;
      free = free_eq t k;
      in_order = stock_eq t k;
    }

  abbrev pub Outcome : Option (ℕ × Memory) → (sps : List Page) → Stock fuel sps → Result → Type 0
  Outcome fresh sps stock r =
      (NoRoom sps stock × Grown fuel delta units fresh sps r) ⊎ FromList sps stock r

  -- On a list of pages that each have a free block, no more of them than the fuel, and link them in order, for at
  -- least one unit, and with room for the request in an empty page: `slob_alloc` under BEST_FIT makes no
  -- fault. Where no block of any page has room for the request, it takes the units from a new page, or
  -- returns NULL when the kernel has none. Otherwise it takes them from a block that leaves no more over
  -- than any other block of any page. The free units that `calcFreeSpace` counts are fewer by those that are
  -- taken, and more by those of a new page. Every page of the list still has a free block and links its
  -- blocks in order, with at most one block more than the fuel.
  pub slob_alloc-BestFit :
      (fresh : Option (ℕ × Memory)) (sps : List Page) (stock : Stock fuel sps)
      → 0 < fuel
      → CanServe fuel delta units fresh
      → Outcome fresh sps stock (slob_alloc fuel delta units fresh sps)
  unfolding slob_alloc
  slob_alloc-BestFit fresh sps stock some_fuel serves =
      let r = search_pages-Nearest fuel delta units sps stock 0 none in
      go r.found r.search_eq r.beaten r.origin
    where
      go :
          (found : Option Best)
          → search_pages fuel delta units sps 0 none ≡ some found
          → Beaten fuel delta units found sps stock
          → Origin fuel delta units none sps 0 found
          → Outcome fresh sps stock (slob_alloc fuel delta units fresh sps)
      go found e beaten same = inl (
        Beaten-NoRoom sps stock beaten,
        rw (slob_alloc, e)
            (grow-Grown fuel delta units some_units some_fuel sps stock fresh serves),
      )
      go found e beaten (improved b i) = inr (
          rw (slob_alloc, e)
            (elim (slob_page_alloc-BestFit delta units i.stocked.place i.at i.stocked.blocks
              i.stocked.is_page some_units fuel i.stocked.some_block i.stocked.enough) [
                | inl refused ↦ absurd (not-Refused sps stock b i beaten _ refused)
                | inr given ↦ from_page sps stock b i beaten (grow fuel delta units fresh sps) given
              ]))
