-- ===== src/Slob/Pages/Grow.antt =====
-- The new page that `slob_alloc` of Project 3/patch_3 takes from when the list has no room.
use ece318_operating_systems.Prelude.{
  suc, ℕ, ◌+◌, ◌*◌, ◌≤◌, ◌<◌, ◌≡◌, refl, ap, sym, inl, inr, Bool-cases, Option, none, some, List,
  [], ◌∷◌, ◌==◌, if◌then◌else◌, arith,
}
use ece318_operating_systems.Slob.{Header, Memory, Page, Taken, page_units}
use ece318_operating_systems.Slob.Segment.{Block, block, IsPage}
use ece318_operating_systems.Slob.Carve.{set_slob-here}
use ece318_operating_systems.Slob.Allocate.{IsTaken, slob_page_alloc-BestFit}
use ece318_operating_systems.Slob.Pages.Nearest.{Stock}
use ece318_operating_systems.Slob.Pages.Keep.{Stock-suc, IsTaken-Stocked}
use ece318_operating_systems.Slob.Pages.{Result, returns, calc_free_space, new_page, from_new, grow}

-- A new page is a single free block.
abbrev pub whole_page : ℕ → List Block
whole_page b = block b 2048 ∷ []

new_page-IsPage :
    (k : ℕ) (mem : Memory) → IsPage k (whole_page (k * 2048)) (new_page (k * 2048) mem)
new_page-IsPage k mem =
    let there = set_slob-here (k * 2048) page_units (k * 2048 + page_units) mem in
    let next_eq = ap (λ (h : Header). h.next) there in
    record {
      starts = omega arith;
      blocks =
          (refl, ap (λ (h : Header). h.units) there, omega arith, omega (arith, next_eq), next_eq);
      free = omega arith;
    }

module _ (fuel : ℕ) (delta : ℕ → ℕ) (units : ℕ) where
  -- The kernel has no page, or one whose address is that of a page, and in which the request has room.
  abbrev pub CanServe : Option (ℕ × Memory) → Type 0
  CanServe none = Unit
  CanServe (some (b, mem)) = (k : ℕ) × ((b ≡ k * 2048) × (units + delta b ≤ 2048))

  -- The units are taken from a new page, which is put to the front of the list unless it is full. The list
  -- is in order again.
  pub record FromNew (b : ℕ) (sps : List Page) (r : Result) : Type 0 where
    pub place : ℕ
    pub given : Taken
    pub taken : IsTaken delta units place (whole_page b) given
    pub after : List Page
    pub result : r ≡ returns (some given.block) after
    pub free : calc_free_space after + units ≡ calc_free_space sps + 2048
    pub in_order : Stock (suc fuel) after

  -- Without a page the result is NULL, and the list stays.
  abbrev pub Grown : Option (ℕ × Memory) → List Page → Result → Type 0
  Grown none sps r = r ≡ returns none sps
  Grown (some (b, mem)) sps r = FromNew b sps r

  module _ (some_units : 0 < units) (some_fuel : 0 < fuel) (sps : List Page)
      (stock : Stock fuel sps) where
    from_new-FromNew :
        (k : ℕ) (t : Taken)
        → IsTaken delta units k (whole_page (k * 2048)) t
        → FromNew (k * 2048) sps (from_new sps (some (some t)))
    from_new-FromNew k t is = record {
      place = k;
      given = t;
      taken = is;
      after = if t.removed then sps else t.page ∷ sps;
      result = refl;
      free = elim (Bool-cases (t.page.units == 0)) [
        | inl e ↦ rw (is.removed, e) (ground (arith, is.fewer))
        | inr e ↦ rw (is.removed, e) (omega (arith, is.fewer))
      ];
      in_order = elim (Bool-cases (t.page.units == 0)) [
        | inl e ↦ rw (is.removed, e) (Stock-suc fuel sps stock)
        | inr e ↦
            rw (is.removed, e)
              (
                IsTaken-Stocked fuel delta units k (whole_page (k * 2048)) t is (omega arith) e,
                Stock-suc fuel sps stock,
              )
      ];
    }

    grow-at :
        (k : ℕ) (mem : Memory)
        → units + delta (k * 2048) ≤ 2048
        → FromNew (k * 2048) sps (grow fuel delta units (some (k * 2048, mem)) sps)
    grow-at k mem room =
        elim (slob_page_alloc-BestFit delta units k (new_page (k * 2048) mem)
          (whole_page (k * 2048)) (new_page-IsPage k mem) some_units fuel (omega arith)
          (omega arith)) [
            | inl (e, small) ↦ absurd (omega (arith, small.0, room))
            | inr (t, (e, is)) ↦ rw (e) (from_new-FromNew k t is)
          ]

    pub grow-Grown :
        (fresh : Option (ℕ × Memory))
        → CanServe fresh
        → Grown fresh sps (grow fuel delta units fresh sps)
    grow-Grown none tt = refl
    grow-Grown (some (b, mem)) (k, (at, room)) = rw (at) (grow-at k mem (rw (sym at) room))
