-- ===== src/Filesystem/Service/Names.antt =====
-- Changing one file of the user on the disk of Project 4/filesystem.
use ece318_operating_systems.Prelude.{
  ℕ, ◌≡◌, refl, ◌∙◌, Option, none, false, true, ◌++◌, length, arith,
}
use ece318_operating_systems.Filesystem.Bytes.{Bytes, bytes_eq, bytes_eq_refl}
use ece318_operating_systems.Filesystem.Stdio.{FilePath, Disk, Env, put}
use ece318_operating_systems.Filesystem.Blocks.Paths.{bytes_eq-prefix}
use ece318_operating_systems.Filesystem.Blocks.Store.{IsStore}
use ece318_operating_systems.Filesystem.Delete.Loop.{InRange}
use ece318_operating_systems.Filesystem.Delete.Outcome.{Apart}
use ece318_operating_systems.Filesystem.Handlers.Keep.{IsStore-put}
use ece318_operating_systems.Filesystem.Service.{File, file_of, has_file, chunks_of, IsName, Model}
use ece318_operating_systems.Filesystem.Service.Files.{All-chunks_of}
use ece318_operating_systems.Filesystem.Service.Sound.{
  world_of, IsFileOn, OnDisk, SameAt, IsFileOn-same,
}

module _ (env : Env) (root dir : FilePath) where
  pub name-Apart :
      (k : ℕ) (disk : Disk) (n : Bytes)
      → IsName env root dir n
      → Apart (world_of root dir k disk) (root ++ n)
  name-Apart k disk n is = record {
    no_block = is.no_block;
    not_block = is.not_block;
    no_hashes = is.no_hashes;
  }

  module _ (m : Model) (disk : Disk) (on : OnDisk env root dir m disk) where
    -- The file with a name that is there.
    pub file_at :
        (n : Bytes)
        → has_file n m.files ≡ true
        → IsFileOn env root dir m.rows disk (file_of n (chunks_of n m.files))
    file_at n there = All-chunks_of (IsFileOn env root dir m.rows disk) n m.files there on.files

    module _ (n : Bytes) (name : IsName env root dir n) (content : Option Bytes) where
      abbrev changed : Disk
      changed = put disk (root ++ n) content

      pub changed-IsStore : IsStore env m.rows (world_of root dir (length m.rows) changed)
      changed-IsStore =
          IsStore-put env m.rows (world_of root dir (length m.rows) disk) (root ++ n) content
            (name-Apart (length m.rows) disk n name) on.store

      pub put-here : changed (root ++ n) ≡ content
      put-here = rw (bytes_eq_refl (root ++ n)) refl

      pub put-other : (k : Bytes) → bytes_eq k n ≡ false → changed (root ++ k) ≡ disk (root ++ k)
      put-other k ne = rw (bytes_eq-prefix root k n, ne) refl

      pub put-SameAt : (i : ℕ) → InRange (length m.rows) i → SameAt dir disk changed i
      put-SameAt i range = rw (name.not_block i (omega (arith, range.1, on.store.holds.small))) refl

      -- The files with other names are as they were.
      pub put-IsFileOn :
          (f : File)
          → bytes_eq f.name n ≡ false
          → IsFileOn env root dir m.rows disk f
          → IsFileOn env root dir m.rows changed f
      put-IsFileOn f ne =
          IsFileOn-same env root dir m.rows m.rows disk changed (omega arith) put-SameAt f
            (put-other f.name ne)

      pub put-others :
          (k : Bytes)
          → IsName env root dir k
          → bytes_eq k n ≡ false
          → has_file k m.files ≡ false
          → changed (root ++ k) ≡ none
      put-others k is ne out = put-other k ne ∙ on.others k is out
