-- ===== src/Filesystem/Service/Unlink.antt =====
-- `bb_unlink` of Project 4/filesystem/bbfs.c, in the abstract view.
use ece318_operating_systems.Prelude.{
  ℕ, ◌<◌, ◌≡◌, ap, sym, subst, ◌∙◌, Bool-cases, inl, inr, none, some, false, true, List, ◌++◌,
  length, All, All-map, All-map₂, arith,
}
use ece318_operating_systems.Filesystem.Bytes.{Bytes, bytes_eq, bytes_eq-eq}
use ece318_operating_systems.Filesystem.Stdio.{
  FilePath, Disk, World, Env, Returns, Returns-and_then, pure,
}
use ece318_operating_systems.Filesystem.Blocks.Paths.{bytes_eq-prefix}
use ece318_operating_systems.Filesystem.Blocks.Store.{IsStore, LiveRow, Rows}
use ece318_operating_systems.Filesystem.Blocks.Read.{Chunk, length-pointers}
use ece318_operating_systems.Filesystem.Delete.Loop.{release_all, InRange}
use ece318_operating_systems.Filesystem.Delete.Outcome.{length-release_all}
use ece318_operating_systems.Filesystem.Handlers.{bb_unlink}
use ece318_operating_systems.Filesystem.Handlers.Unlink.{Unlinked, bb_unlink-Releases}
use ece318_operating_systems.Filesystem.Service.{
  file_of, ids, uses, has_file, chunks_of, without, IsName, Model, unlinks, done, serve, perform,
  answer,
}
use ece318_operating_systems.Filesystem.Service.Files.{
  pointers-ids, All-without, All-chunk_ids, without-Named, has_file-without_other, uses-without,
  uses-All, uses-of_All,
}
use ece318_operating_systems.Filesystem.Service.Counts.{
  Counted, Rows-both, Rows-find, release_all-Counted,
}
use ece318_operating_systems.Filesystem.Service.Sound.{
  world_of, IsFileOn, IsFileOn-moved, OnDisk, Served, Config, SameAt, holders, ids-InRange,
}
use ece318_operating_systems.Filesystem.Service.Names.{file_at, name-Apart}

some-ne_none : (t : Bytes) → ¬ (some t ≡ none)
some-ne_none t e = cc

module _ (env : Env) (root dir : FilePath) (config : Config env root dir) (m : Model) (disk : Disk)
    (on : OnDisk env root dir m disk) (n : Bytes) (there : has_file n m.files ≡ true) where
  abbrev w : World
  w = world_of root dir (length m.rows) disk

  abbrev cs : List Chunk
  cs = chunks_of n m.files

  abbrev less : Model
  less = record { rows = release_all (ids cs) m.rows; files = without n m.files; lost = m.lost }

  file : IsFileOn env root dir m.rows disk (file_of n cs)
  file = file_at env root dir m disk on n there

  same_length : length less.rows ≡ length m.rows
  same_length = length-release_all (ids cs) m.rows

  in_range : All (λ f. All (InRange (length m.rows)) (ids f.chunks)) m.files
  in_range = ids-InRange env root dir m disk on

  range : All (InRange (length m.rows)) (ids cs)
  range = All-chunk_ids (InRange (length m.rows)) n m.files in_range

  abbrev IsDone : World → Type 0
  IsDone v = Unlinked env less.rows (root ++ n) w v

  module _ (v : World) (u : IsDone v) where
    bbs_eq : v.bbs ≡ (world_of root dir (length less.rows) v.disk).bbs
    bbs_eq = u.same_bbs ∙ ap (λ k. (world_of root dir k v.disk).bbs) (sym same_length)

    store' : IsStore env less.rows (world_of root dir (length less.rows) v.disk)
    store' = subst (λ b. IsStore env less.rows (record { bbs = b; disk = v.disk })) bbs_eq u.store

    counted' : Rows (Counted (holders less)) 1 less.rows
    counted' =
        release_all-Counted (holders m) (holders less) (ids cs) m.rows range
          (λ j. omega (arith, uses-without j n m.files)) on.counted

    -- A block that still has a user is as it was.
    used-SameAt : (i : ℕ) → 0 < uses i less.files → SameAt dir disk v.disk i
    used-SameAt i used =
        let within =
          uses-of_All (InRange (length m.rows)) i m.files in_range
            (omega (arith, used, uses-without i n m.files)) in
        let (r, (live, count)) =
          Rows-find (λ j x. LiveRow env dir v.disk j x × Counted (holders less) j x) 1 i less.rows
            within.0 (omega (arith, within.1, same_length))
            (Rows-both (LiveRow env dir v.disk) (Counted (holders less)) 1 less.rows store'.blocks
              counted') in
        let block = live.0 (ground arith) in
        elim (u.blocks i (omega (arith, within.1, on.store.holds.small))) [
          | inl e ↦ e
          | inr e ↦ absurd (some-ne_none block.text (sym block.on_disk ∙ e))
        ]

    other_file :
        (k : Bytes)
        → IsName env root dir k
        → bytes_eq k n ≡ false
        → v.disk (root ++ k) ≡ disk (root ++ k)
    other_file k is ne =
        u.files (root ++ k) (bytes_eq-prefix root k n ∙ ne) is.no_hashes is.no_block

    less-OnDisk : OnDisk env root dir less v.disk
    less-OnDisk = record {
      store = store';
      files =
          All-map₂ less.files
            (λ f p same.
              IsFileOn-moved env root dir m.rows less.rows disk v.disk (omega (arith, same_length))
                f (other_file f.name p.0.name p.1) same p.0)
            (All-without (IsFileOn env root dir m.rows disk)
              (λ f. IsFileOn env root dir m.rows disk f × (bytes_eq f.name n ≡ false)) n
              (λ f ne is. (is, ne)) m.files on.named on.files)
            (uses-All (SameAt dir disk v.disk) less.files used-SameAt);
      others = λ k is out. elim (Bool-cases (bytes_eq k n)) [
        | inl e ↦ subst (λ x. v.disk (root ++ x) ≡ none) (sym (bytes_eq-eq k n e)) u.gone
        | inr e ↦
            other_file k is e ∙ on.others k is (sym (has_file-without_other k n e m.files) ∙ out)
      ];
      named = without-Named n m.files on.named;
      lost = subst (λ k. All (InRange k) m.lost) (sym same_length) on.lost;
      counted = counted';
    }

  pub unlink-Serves : Returns (Served env root dir (unlinks n) m) (serve env (unlinks n) w)
  unfolding serve perform answer
  unlink-Serves =
      Returns-and_then (λ b v. (b ≡ true) × IsDone v) (Served env root dir (unlinks n) m)
        (bb_unlink env n w) (λ b. pure (done b))
        (bb_unlink-Releases env m.rows w n (ids cs) file.name.short on.store
          (name-Apart env root dir (length m.rows) disk n file.name) file.name.opens
          (file.pointing ∙ ap (λ c. some c) (pointers-ids cs)) range
          (omega (
            arith,
            ap length (pointers-ids cs),
            length-pointers env dir disk cs (All-map cs (λ c l. l.0) file.linked),
            file.few,
            config.buffer,
          )))
        (λ b v p.
          (ap (λ x. done x) p.0, record { same_bbs = bbs_eq v p.1; on_disk = less-OnDisk v p.1 }))
