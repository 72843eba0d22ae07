-- ===== src/Filesystem/Service/Empty.antt =====
-- `bb_truncate` to 0 of Project 4/filesystem/bbfs.c, in the abstract view.
use ece318_operating_systems.Prelude.{
  ltb-true, ◌-◌, ◌≡◌, refl, ap, sym, subst, ◌∙◌, Bool-cases, inl, inr, some, false, true, List, [],
  ◌++◌, length, arith,
}
use ece318_operating_systems.Filesystem.Bytes.{Bytes, bytes_eq, bytes_eq-eq}
use ece318_operating_systems.Filesystem.Stdio.{FilePath, Disk, World, Env, Returns, put}
use ece318_operating_systems.Filesystem.Blocks.Read.{Chunk, pointers}
use ece318_operating_systems.Filesystem.Delete.Loop.{InRange}
use ece318_operating_systems.Filesystem.Handlers.{bb_truncate, bb_fullpath, truncate, resized}
use ece318_operating_systems.Filesystem.Service.{
  File, ids, has_file, chunks_of, set_chunks, Model, empties, serve, perform, answer,
}
use ece318_operating_systems.Filesystem.Service.Files.{
  All-set_chunks, All-append, All-chunk_ids, set_chunks-Named, has_file-set_chunks, uses-set_chunks,
  occurs-append,
}
use ece318_operating_systems.Filesystem.Service.Sound.{
  world_of, IsFileOn, OnDisk, Served, Counted-same, holders, ids-InRange,
}
use ece318_operating_systems.Filesystem.Service.Names.{
  file_at, changed-IsStore, put-here, put-IsFileOn, put-others,
}

resized-zero : (c : Bytes) → resized 0 c ≡ pointers []
unfolding pointers
resized-zero c = let e : 0 - length c ≡ 0 = omega arith in rw (e) refl

-- A name that is no file of a list differs from one that is.
pub absent-ne :
    (k n : Bytes) (fs : List File)
    → has_file n fs ≡ true
    → has_file k fs ≡ false
    → bytes_eq k n ≡ false
absent-ne k n fs there out = elim (Bool-cases (bytes_eq k n)) [
  | inl e ↦ absurd (cc (subst (λ x. has_file x fs ≡ true) (sym (bytes_eq-eq k n e)) there))
  | inr e ↦ e
]

module _ (env : Env) (root dir : FilePath) (m : Model) (disk : Disk)
    (on : OnDisk env root dir m disk) (n : Bytes) (there : has_file n m.files ≡ true) where
  abbrev w : World
  w = world_of root dir (length m.rows) disk

  abbrev old : List Chunk
  old = chunks_of n m.files

  abbrev emptied : Model
  emptied = record m { files = set_chunks n [] m.files; lost = ids old ++ m.lost }

  emptied-OnDisk :
      (content : Bytes)
      → content ≡ pointers []
      → OnDisk env root dir emptied (put disk (root ++ n) (some content))
  emptied-OnDisk content e =
      let name = (file_at env root dir m disk on n there).name in
      record {
        store = changed-IsStore env root dir m disk on n name (some content);
        files =
            All-set_chunks (IsFileOn env root dir m.rows disk)
              (IsFileOn env root dir m.rows (put disk (root ++ n) (some content))) n
              (put-IsFileOn env root dir m disk on n name (some content)) [] m.files on.named
              (record {
                name = name;
                pointing =
                    put-here env root dir m disk on n name (some content) ∙ ap (λ c. some c) e;
                linked = tt;
                few = omega arith;
              })
              on.files;
        others = λ k is out.
            let out' = sym (has_file-set_chunks k n [] m.files) ∙ out in
            put-others env root dir m disk on n name (some content) k is
              (absent-ne k n m.files there out') out';
        named = set_chunks-Named n [] m.files on.named;
        lost =
            All-append (InRange (length m.rows)) (ids old) m.lost
              (All-chunk_ids (InRange (length m.rows)) n m.files
                (ids-InRange env root dir m disk on))
              on.lost;
        counted =
            Counted-same (holders m) (holders emptied) m.rows
              (λ i.
                omega
                  (arith, uses-set_chunks i n [] m.files there, occurs-append i (ids old) m.lost))
              on.counted;
      }

  pub empty-Serves : Returns (Served env root dir (empties n) m) (serve env (empties n) w)
  unfolding serve perform answer bb_truncate bb_fullpath truncate
  empty-Serves =
      let file = file_at env root dir m disk on n there in
      rw (ltb-true (length (root ++ n)) 4096 file.name.short, truncate, file.pointing)
        (refl, record { same_bbs = refl; on_disk = emptied-OnDisk _ (resized-zero (pointers old)) })
