-- ===== src/Filesystem/Delete/Release.antt =====
-- The loop of `delete_blocks` in Project 4/filesystem/our_lib.c takes a user away from each id that it
-- reads.
use ece318_operating_systems.Prelude.{
  ℕ, zero, suc, ◌+◌, ◌-◌, ◌≤◌, ◌<◌, ◌≡◌, ◌≢◌, refl, ap, Bool-cases, inl, inr, false, none, some,
  List, [], ◌∷◌, ◌++◌, ◌==◌, length, length-append, arith, All,
}
use ece318_operating_systems.Filesystem.Bytes.{bytes_eq, bytes_eq_refl}
use ece318_operating_systems.Filesystem.Decimal.{format}
use ece318_operating_systems.Filesystem.Stdio.{FilePath, Disk, World, Env, put}
use ece318_operating_systems.Filesystem.Hashes.Table.{Row, IsRow}
use ece318_operating_systems.Filesystem.Blocks.{block_path}
use ece318_operating_systems.Filesystem.Blocks.Store.{HasBlock-put, LiveRow, Rows, Rows-change}
use ece318_operating_systems.Filesystem.Blocks.Paths.{block_path-ne}
use ece318_operating_systems.Filesystem.Delete.Round.{lower, dropped}

-- One user less of the row at a place.
unfoldable pub lower_at : ℕ → List Row → List Row
lower_at k [] = []
lower_at zero (r ∷ rs) = lower r ∷ rs
lower_at (suc k) (r ∷ rs) = r ∷ lower_at k rs

-- One user less of an id.
abbrev pub release : ℕ → List Row → List Row
release id rs = lower_at (id - 1) rs

-- The row at a place.
pub record SplitAt (k : ℕ) (rs : List Row) : Type 0 where
  pub before : List Row
  pub at : Row
  pub after : List Row
  pub splits : rs ≡ before ++ at ∷ after
  pub place : length before ≡ k
  pub lowered : lower_at k rs ≡ before ++ lower at ∷ after

pub split_at : (k : ℕ) (rs : List Row) → k < length rs → SplitAt k rs
unfolding lower_at
split_at k [] lt = absurd (omega arith)
split_at zero (r ∷ rs) lt = record {
  before = [];
  at = r;
  after = rs;
  splits = refl;
  place = refl;
  lowered = refl;
}
split_at (suc k) (r ∷ rs) lt =
    let s = split_at k rs (omega arith) in
    record {
      before = r ∷ s.before;
      at = s.at;
      after = s.after;
      splits = ap (λ (l : List Row). r ∷ l) s.splits;
      place = ap (λ n. suc n) s.place;
      lowered = ap (λ (l : List Row). r ∷ l) s.lowered;
    }

pub lower_at-IsRow : (k : ℕ) (rs : List Row) → All IsRow rs → All IsRow (lower_at k rs)
unfolding lower_at
lower_at-IsRow k [] is = tt
lower_at-IsRow zero (r ∷ rs) is = (
  record {
    counter_lt = omega (arith, is.0.counter_lt);
    hash_length = is.0.hash_length;
    hash_text = is.0.hash_text;
  },
  is.1,
)
lower_at-IsRow (suc k) (r ∷ rs) is = (is.0, lower_at-IsRow k rs is.1)

pub length-lower_at : (k : ℕ) (rs : List Row) → length (lower_at k rs) ≡ length rs
unfolding lower_at
length-lower_at k [] = refl
length-lower_at zero (r ∷ rs) = refl
length-lower_at (suc k) (r ∷ rs) = ap (λ n. suc n) (length-lower_at k rs)

-- A path that is no block of the hidden directory, in both orders of the comparison.
abbrev pub NoBlock : FilePath → FilePath → Type 0
NoBlock dir path = (id : ℕ) → id < 1000 → bytes_eq path (block_path dir (format 3 id)) ≡ false

abbrev pub NotBlock : FilePath → FilePath → Type 0
NotBlock dir path = (id : ℕ) → id < 1000 → bytes_eq (block_path dir (format 3 id)) path ≡ false

-- Dropping a block whose only user goes away leaves the blocks of the other rows.
module _ (env : Env) (fpath : FilePath) (w : World) (before after : List Row) (r : Row)
    (small : 1 + length (before ++ r ∷ after) ≤ 1000) (apart : NotBlock w.bbs.hiddendir fpath)
    (blocks : Rows (LiveRow env w.bbs.hiddendir w.disk) 1 (before ++ r ∷ after)) where
  abbrev id : ℕ
  id = 1 + length before

  abbrev block_name : FilePath
  block_name = block_path w.bbs.hiddendir (format 3 id)

  abbrev emptied : Disk
  emptied = put (put w.disk fpath (some [])) block_name none

  id_lt : id < 1000
  id_lt = omega (arith, small, length-append before (r ∷ after))

  others :
      (j : ℕ) (x : Row)
      → j < 1000
      → j ≢ id
      → LiveRow env w.bbs.hiddendir w.disk j x
      → LiveRow env w.bbs.hiddendir emptied j x
  others j x lt ne live = (
    λ used.
        HasBlock-put env w.bbs.hiddendir (put w.disk fpath (some [])) j x.hash block_name none
          (block_path-ne w.bbs.hiddendir j id lt id_lt ne)
          (HasBlock-put env w.bbs.hiddendir w.disk j x.hash fpath (some []) (apart j lt)
            (live.0 used)),
    λ unused. rw (block_path-ne w.bbs.hiddendir j id lt id_lt ne, apart j lt) (live.1 unused),
  )

  pub dropped-blocks :
      Rows
        (LiveRow env w.bbs.hiddendir (dropped fpath block_name r.counter w).disk)
        1
        (before ++ lower r ∷ after)
  dropped-blocks = elim (Bool-cases (r.counter == 1)) [
    | inl e ↦ rw (e) (
        Rows-change (LiveRow env w.bbs.hiddendir w.disk) (LiveRow env w.bbs.hiddendir emptied) 1
          1000 before after r (lower r) small others
          (λ live. (λ used. absurd (ground arith), λ unused. rw (bytes_eq_refl block_name) refl))
          blocks)
    | inr e ↦ rw (e) (
        Rows-change (LiveRow env w.bbs.hiddendir w.disk) (LiveRow env w.bbs.hiddendir w.disk) 1 1000
          before after r (lower r) small (λ j x lt ne l. l)
          (λ live. (λ used. live.0 (ground arith), λ unused. live.1 (ground arith))) blocks)
  ]
