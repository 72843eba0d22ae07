-- ===== src/Filesystem/Service/Rename.antt =====
-- `bb_rename` of Project 4/filesystem/bbfs.c, in the abstract view.
use ece318_operating_systems.Prelude.{
  ltb-true, ℕ, ◌<◌, ◌≡◌, refl, ap, sym, subst, ◌∙◌, Bool-cases, inl, inr, none, some, false, true,
  List, ◌∷◌, ◌++◌, length, All, arith,
}
use ece318_operating_systems.Filesystem.Bytes.{Bytes, bytes_eq, bytes_eq_refl, bytes_eq-eq}
use ece318_operating_systems.Filesystem.Stdio.{FilePath, Disk, World, Env, Returns, put}
use ece318_operating_systems.Filesystem.Blocks.Paths.{bytes_eq-prefix}
use ece318_operating_systems.Filesystem.Blocks.Read.{Chunk, pointers}
use ece318_operating_systems.Filesystem.Delete.Loop.{InRange}
use ece318_operating_systems.Filesystem.Handlers.{bb_rename, bb_fullpath, rename}
use ece318_operating_systems.Filesystem.Handlers.Keep.{IsStore-put}
use ece318_operating_systems.Filesystem.Service.{
  File, file_of, ids, occurs, has_file, chunks_of, without, IsName, Model, renames, serve, perform,
  answer,
}
use ece318_operating_systems.Filesystem.Service.Files.{
  All-without, All-append, All-chunk_ids, without-Named, without-keeps_out, has_file-without,
  has_file-without_other, chunks_of-without, uses-without, occurs-append,
}
use ece318_operating_systems.Filesystem.Service.Sound.{
  world_of, IsFileOn, IsFileOn-same, Linked-moved, all_same, OnDisk, Served, SameAt, Counted-same,
  holders, ids-InRange,
}
use ece318_operating_systems.Filesystem.Service.Names.{file_at, changed-IsStore, name-Apart}

module _ (env : Env) (root dir : FilePath) (m : Model) (disk : Disk)
    (on : OnDisk env root dir m disk) (old new : Bytes) (there : has_file old m.files ≡ true)
    (name : IsName env root dir new) where
  abbrev w : World
  w = world_of root dir (length m.rows) disk

  abbrev cs : List Chunk
  cs = chunks_of old m.files

  file : IsFileOn env root dir m.rows disk (file_of old cs)
  file = file_at env root dir m disk on old there

  module _ (ne : bytes_eq old new ≡ false) where
    abbrev rest : List File
    rest = without old (without new m.files)

    abbrev renamed : Model
    renamed = record {
      rows = m.rows;
      files = file_of new cs ∷ rest;
      lost = ids (chunks_of new m.files) ++ m.lost;
    }

    abbrev moved : Disk
    moved = put (put disk (root ++ old) none) (root ++ new) (some (pointers cs))

    moved-SameAt : (i : ℕ) → InRange (length m.rows) i → SameAt dir disk moved i
    moved-SameAt i range =
        let lt : i < 1000 = omega (arith, range.1, on.store.holds.small) in
        rw (name.not_block i lt, file.name.not_block i lt) refl

    moved-other :
        (k : Bytes)
        → bytes_eq k new ≡ false
        → bytes_eq k old ≡ false
        → moved (root ++ k) ≡ disk (root ++ k)
    moved-other k ne_new ne_old =
        rw (bytes_eq-prefix root k new, ne_new, bytes_eq-prefix root k old, ne_old) refl

    moved-old : moved (root ++ old) ≡ none
    moved-old = rw (bytes_eq-prefix root old new, ne, bytes_eq_refl (root ++ old)) refl

    abbrev Other : File → Type 0
    Other f = IsFileOn env root dir m.rows disk f × (bytes_eq f.name new ≡ false)

    rest-IsFileOn : All (IsFileOn env root dir m.rows moved) rest
    rest-IsFileOn =
        All-without Other (IsFileOn env root dir m.rows moved) old
          (λ f ne_old p.
            IsFileOn-same env root dir m.rows m.rows disk moved (omega arith) moved-SameAt f
              (moved-other f.name p.1 ne_old) p.0)
          (without new m.files) (without-Named new m.files on.named)
          (All-without (IsFileOn env root dir m.rows disk) Other new (λ f ne_new is. (is, ne_new))
            m.files on.named on.files)

    gone :
        (k : Bytes)
        → IsName env root dir k
        → bytes_eq k new ≡ false
        → has_file k rest ≡ false
        → moved (root ++ k) ≡ none
    gone k is ne_new out = elim (Bool-cases (bytes_eq k old)) [
      | inl e ↦ subst (λ x. moved (root ++ x) ≡ none) (sym (bytes_eq-eq k old e)) moved-old
      | inr e ↦
          moved-other k ne_new e
          ∙ on.others k is (
              sym (
                has_file-without_other k old e (without new m.files)
                ∙ has_file-without_other k new ne_new m.files)
              ∙ out)
    ]

    renamed-OnDisk : OnDisk env root dir renamed moved
    renamed-OnDisk = record {
      store =
          IsStore-put env m.rows (world_of root dir (length m.rows) (put disk (root ++ old) none))
            (root ++ new) (some (pointers cs))
            (name-Apart env root dir (length m.rows) (put disk (root ++ old) none) new name)
            (changed-IsStore env root dir m disk on old file.name none);
      files = (
        record {
          name = name;
          pointing = rw (bytes_eq_refl (root ++ new)) refl;
          linked =
              Linked-moved env root dir m.rows m.rows disk moved (omega arith) cs
                (all_same env root dir m.rows m.rows disk moved (omega arith) cs moved-SameAt
                  file.linked)
                file.linked;
          few = file.few;
        },
        rest-IsFileOn,
      );
      others = λ k is out. gone k is (ground arith) (ground arith);
      named = (
        without-keeps_out new old (without new m.files) (has_file-without new m.files on.named),
        without-Named old (without new m.files) (without-Named new m.files on.named),
      );
      lost =
          All-append (InRange (length m.rows)) (ids (chunks_of new m.files)) m.lost
            (All-chunk_ids (InRange (length m.rows)) new m.files
              (ids-InRange env root dir m disk on))
            on.lost;
      counted =
          Counted-same (holders m) (holders renamed) m.rows
            (λ i. omega (
              arith,
              uses-without i new m.files,
              uses-without i old (without new m.files),
              ap (λ c. occurs i (ids c)) (chunks_of-without old new ne m.files),
              occurs-append i (ids (chunks_of new m.files)) m.lost,
            ))
            on.counted;
    }

  pub rename-Serves :
      Returns (Served env root dir (renames old new) m) (serve env (renames old new) w)
  unfolding serve perform answer bb_rename bb_fullpath rename
  rename-Serves = elim (Bool-cases (bytes_eq old new)) [
    | inl e ↦
        rw
          (
            ltb-true (length (root ++ old)) 4096 file.name.short,
            ltb-true (length (root ++ new)) 4096 name.short,
            rename,
            file.pointing,
            bytes_eq-prefix root old new,
            e,
          )
          (refl, record { same_bbs = refl; on_disk = on })
    | inr e ↦
        rw
          (
            ltb-true (length (root ++ old)) 4096 file.name.short,
            ltb-true (length (root ++ new)) 4096 name.short,
            rename,
            file.pointing,
            bytes_eq-prefix root old new,
            e,
          )
          (refl, record { same_bbs = refl; on_disk = renamed-OnDisk e })
  ]
