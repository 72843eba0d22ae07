-- ===== src/Filesystem/Handlers/Start.antt =====
-- What `main` of Project 4/filesystem/bbfs.c starts with, on a hidden directory that is left from an
-- earlier run.
use ece318_operating_systems.Prelude.{
  ℕ, ◌+◌, ◌≡◌, ◌≤◌, refl, ◌↔◌, Bool, false, some, List, [], ◌∷◌, ◌==◌, ◌-◌, if◌then◌else◌, length,
  arith, All,
}
use ece318_operating_systems.Filesystem.Stdio.{FilePath, BbState, Env}
use ece318_operating_systems.Filesystem.Hashes.Table.{Row}
use ece318_operating_systems.Filesystem.Blocks.{hashes_path, count_regular, get_initial_id_number}
use ece318_operating_systems.Filesystem.Handlers.{start}

-- How many rows are in use, and so how many blocks there are.
abbrev pub count_used : List Row → ℕ
count_used [] = 0
count_used (r ∷ rs) = (if r.counter == 0 then 0 else 1) + count_used rs

count_used_le : (rs : List Row) → count_used rs ≤ length rs
count_used_le [] = omega arith
count_used_le (r ∷ rs) = ground (arith, count_used_le rs)

abbrev pub InUse : Row → Type 0
InUse r = (r.counter == 0) ≡ false

all_used : (rs : List Row) → count_used rs ≡ length rs → All InUse rs
all_used [] e = tt
all_used (r ∷ rs) e =
    (ground (arith, count_used_le rs), all_used rs (ground (arith, count_used_le rs)))

used_all : (rs : List Row) → All InUse rs → count_used rs ≡ length rs
used_all [] u = refl
used_all (r ∷ rs) u = rw (u.0, used_all rs u.1) (omega arith)

module _ (env : Env) (hiddendir : FilePath) (entries : List Bool) (rs : List Row)
    (listed : env.listing hiddendir ≡ some entries)
    (counted : count_regular entries ≡ 1 + count_used rs) where
  initial_lem : get_initial_id_number env hiddendir ≡ some (count_used rs)
  unfolding get_initial_id_number
  initial_lem =
      let some_file : (1 + count_used rs == 0) ≡ false = ground arith in
      let one_less : 1 + count_used rs - 1 ≡ count_used rs = omega arith in
      rw (get_initial_id_number, listed, counted, some_file, one_less) refl

  -- When the hidden directory has the hashes file and one block for each row in use, `main` starts with a
  -- state whose last id is the last one of the table exactly when all its rows are in use.
  pub start-last_id :
      (rootdir : FilePath)
      → (bbs : BbState) × ((start env rootdir hiddendir ≡ some bbs)
          × ((bbs.last_id ≡ length rs) ↔ All InUse rs))
  unfolding start
  start-last_id rootdir = (
    record {
      rootdir = rootdir;
      hashesfile = hashes_path hiddendir;
      last_id = count_used rs;
      hiddendir = hiddendir;
    },
    (rw (start, initial_lem) refl, (λ e. all_used rs e, λ u. used_all rs u)),
  )
