-- ===== src/Slob/Pages/Walk.antt =====
-- The search over all pages of Project 3/patch_3 finds the best block of them all.
use ece318_operating_systems.Prelude.{
  ℕ, suc, ◌≡◌, refl, ap, sym, subst, ◌∙◌, inl, inr, Bool-cases, true, Option, none, some, List, [],
  ◌∷◌, ltb, arith,
}
use ece318_operating_systems.Slob.{Page, Best, better}
use ece318_operating_systems.Slob.Search.{search-page}
use ece318_operating_systems.Slob.Chosen.{IsChosen, NoneBetter, Found, choose-cases, better-less}
use ece318_operating_systems.Slob.Pages.{search_pages, is_exact}
use ece318_operating_systems.Slob.Pages.Nearest.{
  Stocked, Stock, InPage, Origin, same, improved, Nearest, exact-Beaten, chosen-NoneBetter,
  small-NoneBetter, Origin-NoneBetter,
}

module _ (fuel : ℕ) (delta : ℕ → ℕ) (units : ℕ) where
  module _ (sp : Page) (sps : List Page) (place : ℕ) where
    InPage-later :
        (best best' : Option Best) (b : Best)
        → better best b.space ≡ true
        → InPage fuel delta units best' sps (suc place) b
        → InPage fuel delta units best (sp ∷ sps) place b
    InPage-later best best' b e i = record {
      before = sp ∷ i.before;
      at = i.at;
      after = i.after;
      splits = ap (λ (l : List Page). sp ∷ l) i.splits;
      stocked = i.stocked;
      page_eq = omega (arith, i.page_eq);
      chosen = i.chosen;
      improving = e;
    }

    Origin-later :
        (best found : Option Best)
        → Origin fuel delta units best sps (suc place) found
        → Origin fuel delta units best (sp ∷ sps) place found
    Origin-later best found same = same
    Origin-later best found (improved b i) = improved b (InPage-later best best b i.improving i)

    InPage-here :
        (best : Option Best) (s : Stocked fuel sp) (f : Found delta units place none s.blocks best)
        → InPage fuel delta units best (sp ∷ sps) place f.found
    InPage-here best s f = record {
      before = [];
      at = sp;
      after = sps;
      splits = refl;
      stocked = s;
      page_eq = f.chosen.page_eq ∙ omega arith;
      chosen =
          subst (λ p. IsChosen delta units p none s.blocks f.found) (sym f.chosen.page_eq) f.chosen;
      improving = f.improving;
    }

    Origin-after :
        (best found : Option Best) (s : Stocked fuel sp)
        (f : Found delta units place none s.blocks best)
        → Origin fuel delta units (some f.found) sps (suc place) found
        → Origin fuel delta units best (sp ∷ sps) place found
    Origin-after best found s f same = improved f.found (InPage-here best s f)
    Origin-after best found s f (improved b i) = improved b (
        InPage-later best (some f.found) b
          (better-less delta units 0 best b.space f.found.space f.improving
            (ground (arith, i.improving)))
          i)

  module _ (sp : Page) (sps : List Page) (s : Stocked fuel sp) (stock : Stock fuel sps)
      (place : ℕ) where
    -- A page that is passed over, or that has nothing better.
    kept-Nearest :
        (best : Option Best) (r : Nearest fuel delta units best sps stock (suc place))
        → search_pages fuel delta units (sp ∷ sps) place best ≡ some r.found
        → NoneBetter delta units 0 best s.blocks
        → Nearest fuel delta units best (sp ∷ sps) (s, stock) place
    kept-Nearest best r e worse = record {
      found = r.found;
      search_eq = e;
      beaten = (
        Origin-NoneBetter fuel delta units best r.found sps (suc place) s.blocks r.origin worse,
        r.beaten,
      );
      origin = Origin-later sp sps place best r.found r.origin;
    }

    after-Nearest :
        (best : Option Best) (f : Found delta units place none s.blocks best)
        (r : Nearest fuel delta units (some f.found) sps stock (suc place))
        → search_pages fuel delta units (sp ∷ sps) place best ≡ some r.found
        → Nearest fuel delta units best (sp ∷ sps) (s, stock) place
    after-Nearest best f r e = record {
      found = r.found;
      search_eq = e;
      beaten = (
        Origin-NoneBetter fuel delta units (some f.found) r.found sps (suc place) s.blocks r.origin
            (chosen-NoneBetter fuel delta units place none s.blocks f.found f.chosen),
        r.beaten,
      );
      origin = Origin-after sp sps place best r.found s f r.origin;
    }

    -- The search stops at an exact fit.
    stopped-Nearest :
        (best found : Option Best)
        → is_exact found ≡ true
        → search_pages fuel delta units (sp ∷ sps) place best ≡ some found
        → NoneBetter delta units 0 found s.blocks
        → Origin fuel delta units best (sp ∷ sps) place found
        → Nearest fuel delta units best (sp ∷ sps) (s, stock) place
    stopped-Nearest best found exact e worse origin = record {
      found = found;
      search_eq = e;
      beaten = (worse, exact-Beaten fuel delta units found sps stock exact);
      origin = origin;
    }

  pub search_pages-Nearest :
      (sps : List Page) (stock : Stock fuel sps) (place : ℕ) (best : Option Best)
      → Nearest fuel delta units best sps stock place
  unfolding search_pages
  search_pages-Nearest [] tt place best = record {
    found = best;
    search_eq = refl;
    beaten = tt;
    origin = same;
  }
  search_pages-Nearest (sp ∷ sps) (s, stock) place best = elim (Bool-cases (ltb sp.units units)) [
    | inl few ↦
        let r = search_pages-Nearest sps stock (suc place) best in
        kept-Nearest sp sps s stock place best r (rw (search_pages, few) r.search_eq)
          (small-NoneBetter fuel delta units best s.blocks (ground (arith, s.is_page.free)))
    | inr many ↦
        let page =
          search-page delta units place s.blocks sp s.place fuel best s.is_page s.some_block
            s.enough in
        elim (choose-cases delta units place s.blocks none best) [
          | inl (e, worse) ↦ elim (Bool-cases (is_exact best)) [
            | inl exact ↦
                stopped-Nearest sp sps s stock place best best exact
                  (rw (search_pages, many, page, e, exact) refl) worse same
            | inr inexact ↦
                let r = search_pages-Nearest sps stock (suc place) best in
                kept-Nearest sp sps s stock place best r
                  (rw (search_pages, many, page, e, inexact) r.search_eq) worse
          ]
          | inr f ↦ elim (Bool-cases (is_exact (some f.found))) [
            | inl exact ↦
                stopped-Nearest sp sps s stock place best (some f.found) exact
                  (rw (search_pages, many, page, f.found_eq, exact) refl)
                  (chosen-NoneBetter fuel delta units place none s.blocks f.found f.chosen)
                  (improved f.found (InPage-here sp sps place best s f))
            | inr inexact ↦
                let r = search_pages-Nearest sps stock (suc place) (some f.found) in
                after-Nearest sp sps s stock place best f r
                  (rw (search_pages, many, page, f.found_eq, inexact) r.search_eq)
          ]
        ]
  ]
