-- ===== src/Filesystem/Handlers/ReadBack.antt =====
-- What `bb_read` of Project 4/filesystem/bbfs.c returns for a file whose blocks are all there.
use ece318_operating_systems.Prelude.{
  ltb-true, leb, ℕ, ◌+◌, ◌≤◌, ◌<◌, ◌≡◌, refl, true, none, some, List, [], ◌∷◌, ◌++◌, if◌then◌else◌,
  length, All,
}
use ece318_operating_systems.Filesystem.Bytes.{Bytes, drop}
use ece318_operating_systems.Filesystem.Stdio.{fault, FilePath, World, Env, ok, put, set_file}
use ece318_operating_systems.Filesystem.Blocks.Read.{
  Chunk, pointers, contents, IsStored, read_file-Concatenates,
}
use ece318_operating_systems.Filesystem.Handlers.{bb_fullpath, bb_read, copy_out}

-- `sprintf(…, "%s/temp", dir)`
abbrev pub temp_path : FilePath → FilePath
temp_path dir = dir ++ (b'/' ∷ b't' ∷ b'e' ∷ b'm' ∷ b'p' ∷ [])

module _ (env : Env) (w : World) (path : Bytes) (cs : List Chunk)
    (usable : (n : ℕ) → n ≤ env.usable n)
    (name_fits : length w.bbs.hiddendir + 8 < env.usable (length w.bbs.hiddendir + 3 + 5))
    (short : length (w.bbs.rootdir ++ path) < 4096)
    (opens : env.opens (w.bbs.rootdir ++ path) ≡ true)
    (temp_opens : env.opens (temp_path w.bbs.hiddendir) ≡ true)
    (temp_short : length (temp_path w.bbs.hiddendir) < 4096)
    (pointing : w.disk (w.bbs.rootdir ++ path) ≡ some (pointers cs))
    (stored : All (IsStored env w.bbs.hiddendir w.disk) cs) where
  -- Reading a file whose blocks are all there, from whatever offset, fills the buffer with the whole
  -- content of the file and returns the size that was asked for; when the content is longer than that it
  -- writes past the buffer. No file has changed but `temp`, which is gone. It is needed that a `malloc`
  -- gives what is asked for, and one byte more for the name of a block, that the file and `temp` can be
  -- opened, and that their paths fit.
  pub bb_read-Reads :
      (buf : Bytes) (size offset : ℕ) (fh : FilePath)
      → bb_read env path buf size offset fh w ≡ (
          if leb (length (contents cs)) size
          then ok
              (size, contents cs ++ drop (length (contents cs)) buf)
              (record w { disk = put w.disk (temp_path w.bbs.hiddendir) none })
          else fault)
  unfolding bb_read bb_fullpath set_file copy_out
  bb_read-Reads buf size offset fh =
      rw
        (
          ltb-true (length (w.bbs.rootdir ++ path)) 4096 short,
          ltb-true (length (temp_path w.bbs.hiddendir)) 4096 temp_short,
          read_file-Concatenates env w (w.bbs.rootdir ++ path) cs opens pointing stored usable
              name_fits,
          temp_opens,
        )
        refl
