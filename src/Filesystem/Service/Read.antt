-- ===== src/Filesystem/Service/Read.antt =====
-- `bb_read` of Project 4/filesystem/bbfs.c, in the abstract view.
use ece318_operating_systems.Prelude.{
  ltb-true, leb-true, ℕ, ◌≤◌, ◌≡◌, refl, ◌∙◌, none, true, ◌++◌, [], ◌∷◌, length, length-append,
  All-map, arith,
}
use ece318_operating_systems.Filesystem.Bytes.{Bytes}
use ece318_operating_systems.Filesystem.Decimal.{format-three}
use ece318_operating_systems.Filesystem.Stdio.{FilePath, Disk, World, Env, Returns, put}
use ece318_operating_systems.Filesystem.Blocks.Paths.{bytes_eq-prefix}
use ece318_operating_systems.Filesystem.Blocks.Read.{contents}
use ece318_operating_systems.Filesystem.Delete.Outcome.{Apart}
use ece318_operating_systems.Filesystem.Handlers.{bb_fullpath}
use ece318_operating_systems.Filesystem.Handlers.Keep.{IsStore-put}
use ece318_operating_systems.Filesystem.Handlers.ReadBack.{temp_path, bb_read-Reads}
use ece318_operating_systems.Filesystem.Service.{
  File, has_file, chunks_of, Model, reads, serve, perform, answer,
}
use ece318_operating_systems.Filesystem.Service.Sound.{
  world_of, IsFileOn, IsFileOn-same, OnDisk, Served, Config,
}
use ece318_operating_systems.Filesystem.Service.Names.{file_at}

temp-Apart :
    (root dir : FilePath) (k : ℕ) (disk : Disk) → Apart (world_of root dir k disk) (temp_path dir)
temp-Apart root dir k disk = record {
  no_block = λ id lt. bytes_eq-prefix dir _ _ ∙ rw (format-three id lt) (ground arith);
  not_block = λ id lt. bytes_eq-prefix dir _ _ ∙ rw (format-three id lt) (ground arith);
  no_hashes = bytes_eq-prefix dir _ _;
}

module _ (env : Env) (root dir : FilePath) (config : Config env root dir) (m : Model) (disk : Disk)
    (on : OnDisk env root dir m disk) where
  abbrev w : World
  w = world_of root dir (length m.rows) disk

  abbrev after : Disk
  after = put disk (temp_path dir) none

  kept : (f : File) → IsFileOn env root dir m.rows disk f → IsFileOn env root dir m.rows after f
  kept f is =
      IsFileOn-same env root dir m.rows m.rows disk after (omega arith)
        (λ i range.
          rw
            ((temp-Apart root dir 0 disk).not_block i
              (omega (arith, range.1, on.store.holds.small)))
            refl)
        f (rw (is.name.no_temp) refl) is

  read-OnDisk : OnDisk env root dir m after
  read-OnDisk = record {
    store =
        IsStore-put env m.rows w (temp_path dir) none (temp-Apart root dir (length m.rows) disk)
          on.store;
    files = All-map m.files kept on.files;
    others = λ k is out. rw (is.no_temp) (on.others k is out);
    named = on.named;
    lost = on.lost;
    counted = on.counted;
  }

  pub read-Serves :
      (n buf : Bytes) (size offset : ℕ)
      → has_file n m.files ≡ true
      → length (contents (chunks_of n m.files)) ≤ size
      → Returns
          (Served env root dir (reads n buf size offset) m)
          (serve env (reads n buf size offset) w)
  unfolding serve perform answer bb_fullpath
  read-Serves n buf size offset there enough =
      let file = file_at env root dir m disk on n there in
      let cs = chunks_of n m.files in
      rw
        (
          ltb-true (length (root ++ n)) 4096 file.name.short,
          bb_read-Reads env w n cs config.usable config.name_fits file.name.short file.name.opens
              config.temp_opens
              (omega (
                arith,
                length-append dir (b'/' ∷ b't' ∷ b'e' ∷ b'm' ∷ b'p' ∷ []),
                config.settled.short,
              ))
              file.pointing (All-map cs (λ c l. l.0) file.linked) buf size offset (root ++ n),
          leb-true (length (contents cs)) size enough,
        )
        (refl, record { same_bbs = refl; on_disk = read-OnDisk })
