-- ===== src/Filesystem/Service/Create.antt =====
-- `bb_mknod` of Project 4/filesystem/bbfs.c, for a regular file, in the abstract view.
use ece318_operating_systems.Prelude.{
  ltb-true, ◌≡◌, refl, Bool-cases, inl, inr, some, false, [], ◌∷◌, ◌++◌, length, arith,
}
use ece318_operating_systems.Filesystem.Bytes.{Bytes}
use ece318_operating_systems.Filesystem.Stdio.{FilePath, Disk, World, Env, Returns, put}
use ece318_operating_systems.Filesystem.Blocks.Read.{pointers}
use ece318_operating_systems.Filesystem.Handlers.{bb_mknod_regular, bb_fullpath, open_exclusive}
use ece318_operating_systems.Filesystem.Service.{
  file_of, has_file, IsName, Model, creates, serve, perform, answer,
}
use ece318_operating_systems.Filesystem.Service.Files.{All-others}
use ece318_operating_systems.Filesystem.Service.Sound.{
  world_of, IsFileOn, OnDisk, Served, Counted-same, holders,
}
use ece318_operating_systems.Filesystem.Service.Names.{
  file_at, changed-IsStore, put-here, put-IsFileOn, put-others,
}

module _ (env : Env) (root dir : FilePath) (m : Model) (disk : Disk)
    (on : OnDisk env root dir m disk) (n : Bytes) (name : IsName env root dir n) where
  abbrev w : World
  w = world_of root dir (length m.rows) disk

  abbrev created : Model
  created = record m { files = file_of n [] ∷ m.files }

  created-OnDisk :
      has_file n m.files ≡ false → OnDisk env root dir created (put disk (root ++ n) (some []))
  unfolding pointers
  created-OnDisk out = record {
    store = changed-IsStore env root dir m disk on n name (some []);
    files = (
      record {
        name = name;
        pointing = put-here env root dir m disk on n name (some []);
        linked = tt;
        few = omega arith;
      },
      All-others (IsFileOn env root dir m.rows disk)
          (IsFileOn env root dir m.rows (put disk (root ++ n) (some []))) n m.files out
          (put-IsFileOn env root dir m disk on n name (some [])) on.files,
    );
    others = λ k is out'.
        put-others env root dir m disk on n name (some []) k is (ground arith) (ground arith);
    named = (out, on.named);
    lost = on.lost;
    counted = Counted-same (holders m) (holders created) m.rows (λ i. omega arith) on.counted;
  }

  pub create-Serves : Returns (Served env root dir (creates n) m) (serve env (creates n) w)
  unfolding serve perform answer bb_mknod_regular bb_fullpath open_exclusive
  create-Serves = elim (Bool-cases (has_file n m.files)) [
    | inl e ↦
        rw
          (
            ltb-true (length (root ++ n)) 4096 name.short,
            open_exclusive,
            (file_at env root dir m disk on n e).pointing,
            e,
          )
          (refl, record { same_bbs = refl; on_disk = on })
    | inr e ↦
        rw
          (
            ltb-true (length (root ++ n)) 4096 name.short,
            open_exclusive,
            on.others n name e,
            name.opens,
            e,
          )
          (refl, record { same_bbs = refl; on_disk = created-OnDisk e })
  ]
