-- ===== src/Slob/Chosen.antt =====
-- The block that the search of Project 3/patch_3 chooses: the first of the least that fit.
use ece318_operating_systems.Prelude.{
  ℕ, ◌≤◌, ◌<◌, ◌≡◌, refl, ap, ◌⊎◌, inl, inr, Bool-cases, true, false, Option, none, some, List, [],
  ◌∷◌, ◌++◌, All, All-map, arith,
}
use ece318_operating_systems.Slob.{Best, better, improves, consider}
use ece318_operating_systems.Slob.Segment.{Block, last_addr}
use ece318_operating_systems.Slob.Search.{need, left_over, choose}

module _ (delta : ℕ → ℕ) (units page : ℕ) where
  -- A block that is chosen: it fits, what it leaves over is the least of all blocks that fit, and it is the
  -- first of those that leave as little.
  pub record IsChosen (prev : Option ℕ) (bs : List Block) (b : Best) : Type 0 where
    pub before : List Block
    pub at : Block
    pub after : List Block
    pub splits : bs ≡ before ++ at ∷ after
    pub page_eq : b.page ≡ page
    pub block_eq : b.block ≡ at.addr
    pub prev_eq : b.prev ≡ last_addr prev before
    pub fits : need delta units at ≤ at.size
    pub space_eq : b.space ≡ left_over delta units at
    pub first :
        All
          (λ x. need delta units x ≤ x.size → left_over delta units at < left_over delta units x)
          before
    pub least :
        All
          (λ x. need delta units x ≤ x.size → left_over delta units at ≤ left_over delta units x)
          after

  -- No block is better than what there is.
  abbrev pub NoneBetter : Option Best → List Block → Type 0
  NoneBetter best bs =
      All (λ x. need delta units x ≤ x.size → better best (left_over delta units x) ≡ false) bs

  pub record Found (prev : Option ℕ) (bs : List Block) (best : Option Best) : Type 0 where
    pub found : Best
    pub found_eq : choose delta units page prev bs best ≡ some found
    pub chosen : IsChosen prev bs found
    pub improving : better best found.space ≡ true

  pub not_better-worse :
      (best : Option Best) (x y : ℕ) → better best x ≡ true → better best y ≡ false → x < y
  not_better-worse none x y p q = absurd cc
  not_better-worse (some b) x y p q = ground arith

  pub better-less :
      (best : Option Best) (x y : ℕ) → better best y ≡ true → x ≤ y → better best x ≡ true
  better-less none x y p le = refl
  better-less (some b) x y p le = ground arith

  improves-better :
      (b : Block) (best : Option Best)
      → improves delta units b.size b.addr best ≡ true
      → better best (left_over delta units b) ≡ true
  improves-better b best e = ground arith

  improves-worse :
      (b : Block) (best : Option Best)
      → improves delta units b.size b.addr best ≡ false
      → need delta units b ≤ b.size
      → better best (left_over delta units b) ≡ false
  improves-worse b best e fit = ground arith

  not_better-least :
      (at : Block) (prev : Option ℕ) (bs : List Block)
      → NoneBetter
          (some (record {
            page = page;
            block = at.addr;
            prev = prev;
            space = left_over delta units at;
          }))
          bs
      → All
          (λ x. need delta units x ≤ x.size → left_over delta units at ≤ left_over delta units x)
          bs
  not_better-least at prev bs = All-map bs (λ x f fit. ground (arith, f fit))

  module _ (prev : Option ℕ) (b : Block) (bs : List Block) (best : Option Best) where
    abbrev here : Best
    here = record { page = page; block = b.addr; prev = prev; space = left_over delta units b }

    Found-here :
        improves delta units b.size b.addr best ≡ true
        → (choose delta units page (some b.addr) bs (some here) ≡ some here)
        → NoneBetter (some here) bs
        → Found prev (b ∷ bs) best
    Found-here good same worse = record {
      found = here;
      found_eq = rw (good) same;
      chosen = record {
        before = [];
        at = b;
        after = bs;
        splits = refl;
        page_eq = refl;
        block_eq = refl;
        prev_eq = refl;
        fits = ground arith;
        space_eq = refl;
        first = tt;
        least = not_better-least b prev bs worse;
      };
      improving = ground arith;
    }

    Found-later :
        (next : Option Best)
        → consider delta units page b.size b.addr prev best ≡ next
        → (f : Found (some b.addr) bs next) → better best f.found.space ≡ true
        → (need delta units b ≤ b.size → f.found.space < left_over delta units b)
        → Found prev (b ∷ bs) best
    Found-later next e f improving worse = record {
      found = f.found;
      found_eq = rw (e) f.found_eq;
      chosen = record {
        before = b ∷ f.chosen.before;
        at = f.chosen.at;
        after = f.chosen.after;
        splits = ap (λ (l : List Block). b ∷ l) f.chosen.splits;
        page_eq = f.chosen.page_eq;
        block_eq = f.chosen.block_eq;
        prev_eq = f.chosen.prev_eq;
        fits = f.chosen.fits;
        space_eq = f.chosen.space_eq;
        first = (λ fit. omega (arith, worse fit, f.chosen.space_eq), f.chosen.first);
        least = f.chosen.least;
      };
      improving = improving;
    }

  -- The search keeps the best block that it has, or finds a better one.
  pub choose-cases :
      (bs : List Block) (prev : Option ℕ) (best : Option Best)
      → ((choose delta units page prev bs best ≡ best) × NoneBetter best bs) ⊎ Found prev bs best
  choose-cases [] prev best = inl (refl, tt)
  choose-cases (b ∷ bs) prev best = elim (Bool-cases (improves delta units b.size b.addr best)) [
    | inl good ↦ elim (choose-cases bs (some b.addr) (some (here prev b bs best))) [
      | inl (same, worse) ↦ inr (Found-here prev b bs best good same worse)
      | inr f ↦ inr (
          Found-later prev b bs best (some (here prev b bs best)) (rw (good) refl) f
            (better-less best f.found.space (left_over delta units b) (improves-better b best good)
              (ground (arith, f.improving)))
            (λ fit. ground (arith, f.improving)))
    ]
    | inr bad ↦ elim (choose-cases bs (some b.addr) best) [
      | inl (same, worse) ↦ inl (rw (bad) same, (improves-worse b best bad, worse))
      | inr f ↦ inr (
          Found-later prev b bs best best (rw (bad) refl) f f.improving (λ fit.
            not_better-worse best f.found.space (left_over delta units b) f.improving
              (improves-worse b best bad fit)))
    ]
  ]
