-- ===== src/Filesystem/Service/Counts.antt =====
-- The counters of the table of Project 4/filesystem, against the number of the pointers that there are.
use ece318_operating_systems.Prelude.{
  ℕ, suc, ◌+◌, ◌-◌, ◌≤◌, ◌<◌, ◌≡◌, refl, ap, sym, subst, ◌∙◌, Bool-cases, inl, inr, List, [], ◌∷◌,
  ◌++◌, ◌==◌, length, All, arith,
}
use ece318_operating_systems.Filesystem.Bytes.{Bytes}
use ece318_operating_systems.Filesystem.Hashes.Table.{Row, row}
use ece318_operating_systems.Filesystem.Hashes.Compare.{id_for, or_next}
use ece318_operating_systems.Filesystem.Hashes.Insert.{insert, insert-cases}
use ece318_operating_systems.Filesystem.Blocks.Store.{Rows, Rows-map, Rows-append, Rows-change}
use ece318_operating_systems.Filesystem.Delete.Release.{release, split_at, length-lower_at}
use ece318_operating_systems.Filesystem.Delete.Round.{lower}
use ece318_operating_systems.Filesystem.Delete.Loop.{release_all, InRange}
use ece318_operating_systems.Filesystem.Service.{occurs}

-- Two properties of all rows together.
pub Rows-both :
    (P Q : ℕ → Row → Type 0) (i : ℕ) (rs : List Row)
    → Rows P i rs
    → Rows Q i rs
    → Rows (λ j r. P j r × Q j r) i rs
Rows-both P Q i [] ps qs = tt
Rows-both P Q i (r ∷ rs) ps qs = ((ps.0, qs.0), Rows-both P Q (suc i) rs ps.1 qs.1)

-- The row of an id.
pub Rows-find :
    (P : ℕ → Row → Type 0) (i j : ℕ) (rs : List Row)
    → i ≤ j
    → j < i + length rs
    → Rows P i rs
    → (r : Row) × P j r
Rows-find P i j [] le lt ps = absurd (omega arith)
Rows-find P i j (r ∷ rs) le lt ps = elim (Bool-cases (i == j)) [
  | inl e ↦ let same : i ≡ j = ground arith in (r, subst (λ k. P k r) same ps.0)
  | inr e ↦ Rows-find P (suc i) j rs (ground arith) (omega arith) ps.1
]

-- Each counter is what a function says of its id.
abbrev pub Counted : (ℕ → ℕ) → ℕ → Row → Type 0
Counted f i r = r.counter ≡ f i

module _ (f g : ℕ → ℕ) where
  -- One more user of an id, the first that is counted if the id is new.
  pub insert-Counted :
      (h : Bytes) (rs : List Row)
      → ((i : ℕ) → g i ≡ f i + occurs i (id_for h rs ∷ []))
      → f (1 + length rs) ≡ 0
      → Rows (Counted f) 1 rs
      → Rows (Counted g) 1 (insert h rs)
  insert-Counted h rs more fresh counted = elim (insert-cases 1 h rs) [
    | inl p ↦
        let id_eq = ap (λ x. or_next x (length rs)) p.found in
        subst (λ l. Rows (Counted g) 1 l) (sym p.inserted)
          (Rows-change (Counted f) (Counted g) 1 (1 + length (p.before ++ p.at ∷ p.after)) p.before
            p.after p.at (row (p.at.counter + 1) p.at.hash) (omega arith)
            (λ j x lt ne e. e ∙ sym (more j ∙ rw (id_eq) (ground arith)))
            (λ e. ap (λ n. n + 1) e ∙ sym (more (1 + length p.before) ∙ rw (id_eq) (ground arith)))
            (subst (λ l. Rows (Counted f) 1 l) p.splits counted))
    | inr p ↦
        let id_eq = ap (λ x. or_next x (length rs)) p.not_found in
        subst (λ l. Rows (Counted g) 1 l) (sym p.appended)
          (Rows-append (Counted g) 1 rs (row 1 h)
            (Rows-map (Counted f) (Counted g) 1 (1 + length rs) rs (omega arith)
              (λ j x le lt e. e ∙ sym (more j ∙ rw (id_eq) (ground arith))) counted)
            (sym (more (1 + length rs) ∙ rw (id_eq, fresh) (ground arith))))
  ]

  -- One user less of an id.
  release-Counted :
      (i : ℕ) (rs : List Row)
      → InRange (length rs) i
      → ((j : ℕ) → f j ≡ g j + occurs j (i ∷ []))
      → Rows (Counted f) 1 rs
      → Rows (Counted g) 1 (release i rs)
  release-Counted i rs range less counted =
      let p = split_at (i - 1) rs (omega (arith, range.0, range.1)) in
      let place : 1 + length p.before ≡ i = omega (arith, p.place, range.0) in
      subst (λ l. Rows (Counted g) 1 l) (sym p.lowered)
        (Rows-change (Counted f) (Counted g) 1 (1 + length (p.before ++ p.at ∷ p.after)) p.before
          p.after p.at (lower p.at) (omega arith) (λ j x lt ne e. e ∙ less j ∙ ground arith)
          (λ e. ap (λ n. n - 1) (e ∙ less (1 + length p.before)) ∙ ground arith)
          (subst (λ l. Rows (Counted f) 1 l) p.splits counted))

-- So many users less of each id as there are occurrences of it.
pub release_all-Counted :
    (f g : ℕ → ℕ) (ids : List ℕ) (rs : List Row)
    → All (InRange (length rs)) ids
    → ((j : ℕ) → f j ≡ g j + occurs j ids)
    → Rows (Counted f) 1 rs
    → Rows (Counted g) 1 (release_all ids rs)
unfolding release_all
release_all-Counted f g [] rs range less counted =
    Rows-map (Counted f) (Counted g) 1 (1 + length rs) rs (omega arith)
      (λ j x le lt e. e ∙ less j ∙ omega arith) counted
release_all-Counted f g (i ∷ ids) rs range less counted =
    let mid : ℕ → ℕ = λ j. g j + occurs j ids in
    release_all-Counted mid g ids (release i rs)
      (subst (λ n. All (InRange n) ids) (sym (length-lower_at (i - 1) rs)) range.1) (λ j. refl)
      (release-Counted f mid i rs range.0 (λ j. less j ∙ ground arith) counted)
