-- ===== src/Slob/Pages/Keep.antt =====
-- The list of pages of Project 3/patch_3 stays in order when units are taken. A page may have one free block
-- more than before, where the head of a block is cut off and a rest stays.
use ece318_operating_systems.Prelude.{
  ℕ, suc, ◌-◌, ◌≤◌, ◌<◌, ◌≡◌, ap, ◌∙◌, inl, inr, Bool-cases, false, List, [], ◌∷◌, ◌++◌, ◌==◌,
  length, length-append, arith,
}
use ece318_operating_systems.Slob.{Page, Taken}
use ece318_operating_systems.Slob.Segment.{Block, total}
use ece318_operating_systems.Slob.Allocate.{remains, IsTaken}
use ece318_operating_systems.Slob.Pages.{put_page}
use ece318_operating_systems.Slob.Pages.Nearest.{Stocked, Stock}

pub Stocked-suc : (fuel : ℕ) (sp : Page) → Stocked fuel sp → Stocked (suc fuel) sp
Stocked-suc fuel sp s = record {
  place = s.place;
  blocks = s.blocks;
  is_page = s.is_page;
  some_block = s.some_block;
  enough = omega (arith, s.enough);
}

pub Stock-suc : (fuel : ℕ) (sps : List Page) → Stock fuel sps → Stock (suc fuel) sps
Stock-suc fuel [] tt = tt
Stock-suc fuel (sp ∷ sps) (s, stock) = (Stocked-suc fuel sp s, Stock-suc fuel sps stock)

some_of_total : (bs : List Block) → 0 < total bs → 0 < length bs
some_of_total [] lt = omega arith
some_of_total (b ∷ bs) lt = omega arith

length-remains : (delta : ℕ → ℕ) (units : ℕ) (at : Block) → length (remains delta units at) ≤ 2
length-remains delta units at = elim (Bool-cases (delta at.addr == 0)) [
  | inl e ↦ elim (Bool-cases (at.size - delta at.addr == units)) [
    | inl f ↦ rw (e, f) (omega arith)
    | inr f ↦ rw (e, f) (omega arith)
  ]
  | inr e ↦ elim (Bool-cases (at.size - delta at.addr == units)) [
    | inl f ↦ rw (e, f) (omega arith)
    | inr f ↦ rw (e, f) (omega arith)
  ]
]

-- A page that is not full after units are taken.
pub IsTaken-Stocked :
    (fuel : ℕ) (delta : ℕ → ℕ) (units k : ℕ) (bs : List Block) (t : Taken)
    → IsTaken delta units k bs t
    → length bs ≤ fuel
    → (t.page.units == 0) ≡ false
    → Stocked (suc fuel) t.page
IsTaken-Stocked fuel delta units k bs t is enough left =
    let c = is.chosen in
    let sizes = ap length c.splits ∙ length-append c.before (c.at ∷ c.after) in
    let joined = length-append c.before (remains delta units c.at ++ c.after) in
    let inner = length-append (remains delta units c.at) c.after in
    let few = length-remains delta units c.at in
    record {
      place = k;
      blocks = c.before ++ (remains delta units c.at ++ c.after);
      is_page = is.page;
      some_block = some_of_total _ (ground (arith, is.page.free, left));
      enough = omega (arith, sizes, joined, inner, few, enough);
    }

-- A page that is full has left its list.
pub put_page-Stock :
    (fuel : ℕ) (t : Taken) (before after : List Page) (sp : Page)
    → Stock fuel (before ++ sp ∷ after)
    → t.removed ≡ (t.page.units == 0)
    → ((t.page.units == 0) ≡ false → Stocked (suc fuel) t.page)
    → Stock (suc fuel) (put_page (length before) t (before ++ sp ∷ after))
put_page-Stock fuel t [] after sp (s, stock) removed left = elim (Bool-cases (t.page.units == 0)) [
  | inl e ↦ rw (removed, e) (Stock-suc fuel after stock)
  | inr e ↦ rw (removed, e) (left e, Stock-suc fuel after stock)
]
put_page-Stock fuel t (x ∷ before) after sp (s, stock) removed left =
    (Stocked-suc fuel x s, put_page-Stock fuel t before after sp stock removed left)
