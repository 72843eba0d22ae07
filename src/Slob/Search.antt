-- ===== src/Slob/Search.antt =====
-- The loop over the free list of a page of Project 3/patch_3, as a search over its blocks.
use ece318_operating_systems.Prelude.{
  ℕ, zero, suc, ◌+◌, ◌-◌, ◌*◌, ◌≤◌, ◌<◌, ◌≡◌, refl, ap, sym, ◌∙◌, inl, inr, Bool, Bool-cases, true,
  false, ◌&&◌, Option, none, some, List, [], ◌∷◌, ◌==◌, ltb, length, arith,
}
use ece318_operating_systems.Slob.{
  Memory, Page, Best, improves, consider, search, slob_units, slob_next,
}
use ece318_operating_systems.Slob.Segment.{Block, Segment, slob_last-Segment, IsPage}

module _ (delta : ℕ → ℕ) (units : ℕ) where
  -- What a request takes of a block, with what is lost for alignment.
  abbrev pub need : Block → ℕ
  need b = units + delta b.addr

  abbrev pub left_over : Block → ℕ
  left_over b = b.size - need b

module _ (delta : ℕ → ℕ) (units page : ℕ) where
  -- The search over the blocks of a list, without an early end.
  abbrev pub choose : Option ℕ → List Block → Option Best → Option Best
  choose prev [] best = best
  choose prev (b ∷ bs) best =
      choose (some b.addr) bs (consider delta units page b.size b.addr prev best)

  choose-exact :
      (prev : Option ℕ) (bs : List Block) (b : Best)
      → b.space ≡ 0
      → choose prev bs (some b) ≡ some b
  choose-exact prev [] b e = refl
  choose-exact prev (x ∷ bs) b e =
      let no : ltb (x.size - (units + delta x.addr)) b.space ≡ false = ground arith in
      let skip : improves delta units x.size x.addr (some b) ≡ false = ground arith in
      rw (skip) (choose-exact (some x.addr) bs b e)

  abbrev exact : (avail cur : ℕ) → Option Best → Bool
  exact avail cur best = improves delta units avail cur best && (avail - (units + delta cur) == 0)

  exact-choose :
      (avail cur : ℕ) (prev : Option ℕ) (bs : List Block) (best : Option Best)
      → exact avail cur best ≡ true
      → choose (some cur) bs (consider delta units page avail cur prev best)
        ≡ consider delta units page avail cur prev best
  exact-choose avail cur prev bs best e =
      let yes : improves delta units avail cur best ≡ true = ground arith in
      let none_left : avail - (units + delta cur) ≡ 0 = ground arith in
      rw (yes) (choose-exact (some cur) bs _ none_left)

  -- The loop over the free list is that search: an exact fit is not bettered, and the last block is found.
  search-choose :
      (bs : List Block) (mem : Memory) (k a : ℕ) (b : Block) (prev : Option ℕ) (best : Option Best)
      (fuel : ℕ)
      → k * 2048 ≤ a
      → length bs < fuel
      → Segment mem a (b ∷ bs) (k * 2048 + 2048)
      → search delta units page fuel mem prev a best ≡ some (choose prev (b ∷ bs) best)
  unfolding search
  search-choose bs mem k a b prev best zero low enough s = absurd (omega arith)
  search-choose [] mem k a b prev best (suc fuel) low enough s =
      let last = slob_last-Segment mem k a b [] low s in
      elim (Bool-cases (exact (slob_units mem a) a best)) [
        | inl e ↦ rw (e, ← s.0, ← s.1) refl
        | inr e ↦ rw (e, last, ← s.0, ← s.1) refl
      ]
  search-choose (c ∷ bs) mem k a b prev best (suc fuel) low enough s =
      let more : (suc (length bs) == 0) ≡ false = ground arith in
      let last = slob_last-Segment mem k a b (c ∷ bs) low s ∙ more in
      elim (Bool-cases (exact (slob_units mem a) a best)) [
        | inl e ↦
            rw (e, ← s.0, ← s.1)
              (ap (λ x. some x) (sym (exact-choose (slob_units mem a) a prev (c ∷ bs) best e)))
        | inr e ↦
            rw (e, last, ← s.0, ← s.1)
              (search-choose bs mem k (slob_next mem a) c (some a)
                (consider delta units page (slob_units mem a) a prev best) fuel (omega (arith, s.3))
                (omega arith) s.4)
      ]

  pub search-page :
      (bs : List Block) (sp : Page) (k fuel : ℕ) (best : Option Best)
      → IsPage k bs sp
      → 0 < length bs
      → length bs ≤ fuel
      → search delta units page fuel sp.mem none sp.freelist best ≡ some (choose none bs best)
  search-page [] sp k fuel best is lt enough = absurd (omega arith)
  search-page (b ∷ bs) sp k fuel best is lt enough =
      search-choose bs sp.mem k sp.freelist b none best fuel is.starts (omega arith) is.blocks
