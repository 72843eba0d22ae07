-- ===== src/Slob/Pages/Nearest.antt =====
-- The block that the search over all pages of Project 3/patch_3 chooses.
use ece318_operating_systems.Prelude.{
  ℕ, ◌+◌, ◌≤◌, ◌<◌, ◌≡◌, sym, subst, true, Option, none, some, List, [], ◌∷◌, ◌++◌, length, All,
  All-map, arith,
}
use ece318_operating_systems.Slob.{Page, Best, better}
use ece318_operating_systems.Slob.Segment.{Block, total, IsPage}
use ece318_operating_systems.Slob.Search.{left_over}
use ece318_operating_systems.Slob.Chosen.{IsChosen, NoneBetter, not_better-worse}
use ece318_operating_systems.Slob.Pages.{search_pages, is_exact}

-- A page of the list, with the blocks that it links: it has a block, and not more than the fuel.
pub record Stocked (fuel : ℕ) (sp : Page) : Type 0 where
  pub place : ℕ
  pub blocks : List Block
  pub is_page : IsPage place blocks sp
  pub some_block : 0 < length blocks
  pub enough : length blocks ≤ fuel

-- Pages with what is known of them.
abbrev pub Stock : ℕ → List Page → Type 0
Stock fuel [] = Unit
Stock fuel (sp ∷ sps) = Stocked fuel sp × Stock fuel sps

module _ (fuel : ℕ) (delta : ℕ → ℕ) (units : ℕ) where
  -- No block of a page is better than the best one.
  abbrev pub Beaten : Option Best → (sps : List Page) → Stock fuel sps → Type 0
  Beaten best [] tt = Unit
  Beaten best (sp ∷ sps) (s, rest) = NoneBetter delta units 0 best s.blocks × Beaten best sps rest

  -- The best block is in a page of the list, and better than what there was before.
  pub record InPage (best : Option Best) (sps : List Page) (place : ℕ) (b : Best) : Type 0 where
    pub before : List Page
    pub at : Page
    pub after : List Page
    pub splits : sps ≡ before ++ at ∷ after
    pub stocked : Stocked fuel at
    pub page_eq : b.page ≡ place + length before
    pub chosen : IsChosen delta units b.page none stocked.blocks b
    pub improving : better best b.space ≡ true

  pub data Origin (best : Option Best) (sps : List Page) (place : ℕ) : Option Best → Type 0 where
    same : Origin best sps place best
    improved : (b : Best) → InPage best sps place b → Origin best sps place (some b)

  pub record Nearest (best : Option Best) (sps : List Page) (stock : Stock fuel sps) (place : ℕ)
      : Type 0 where
    pub found : Option Best
    pub search_eq : search_pages fuel delta units sps place best ≡ some found
    pub beaten : Beaten found sps stock
    pub origin : Origin best sps place found

  better-NoneBetter :
      (best : Option Best) (b : Best) (bs : List Block)
      → better best b.space ≡ true
      → NoneBetter delta units 0 best bs
      → NoneBetter delta units 0 (some b) bs
  better-NoneBetter best b bs e = All-map bs (λ x f fit.
      let lt = not_better-worse delta units 0 best b.space (left_over delta units x) e (f fit) in
      ground (arith, lt))

  pub exact-NoneBetter :
      (b : Best) (bs : List Block) → b.space ≡ 0 → NoneBetter delta units 0 (some b) bs
  exact-NoneBetter b [] e = tt
  exact-NoneBetter b (x ∷ bs) e = (λ fit. ground arith, exact-NoneBetter b bs e)

  pub exact-Beaten :
      (best : Option Best) (sps : List Page) (stock : Stock fuel sps)
      → is_exact best ≡ true
      → Beaten best sps stock
  exact-Beaten best [] tt e = tt
  exact-Beaten none (sp ∷ sps) (s, rest) e = absurd cc
  exact-Beaten (some b) (sp ∷ sps) (s, rest) e =
      (exact-NoneBetter b s.blocks (ground arith), exact-Beaten (some b) sps rest e)

  All-join :
      (P : Block → Type 0) (xs ys : List Block) (y : Block)
      → All P xs
      → P y
      → All P ys
      → All P (xs ++ y ∷ ys)
  All-join P [] ys y ps p qs = (p, qs)
  All-join P (x ∷ xs) ys y ps p qs = (ps.0, All-join P xs ys y ps.1 p qs)

  pub chosen-NoneBetter :
      (page : ℕ) (prev : Option ℕ) (bs : List Block) (b : Best)
      → IsChosen delta units page prev bs b
      → NoneBetter delta units 0 (some b) bs
  chosen-NoneBetter page prev bs b c = subst (NoneBetter delta units 0 (some b)) (sym c.splits) (
      All-join _ c.before c.after c.at
        (All-map c.before (λ x f fit. ground (arith, f fit, c.space_eq)) c.first)
        (λ fit. ground (arith, c.space_eq))
        (All-map c.after (λ x f fit. ground (arith, f fit, c.space_eq)) c.least))

  -- A page with fewer free units than are asked for has no block that fits.
  pub small-NoneBetter :
      (best : Option Best) (bs : List Block) → total bs < units → NoneBetter delta units 0 best bs
  small-NoneBetter best [] lt = tt
  small-NoneBetter best (x ∷ bs) lt =
      (λ fit. absurd (omega arith), small-NoneBetter best bs (omega arith))

  -- What is no better than the best block so far is no better than the one at the end.
  pub Origin-NoneBetter :
      (best found : Option Best) (sps : List Page) (place : ℕ) (bs : List Block)
      → Origin best sps place found
      → NoneBetter delta units 0 best bs
      → NoneBetter delta units 0 found bs
  Origin-NoneBetter best found sps place bs same worse = worse
  Origin-NoneBetter best found sps place bs (improved b i) worse =
      better-NoneBetter best b bs i.improving worse
