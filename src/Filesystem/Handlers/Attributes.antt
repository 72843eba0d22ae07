-- ===== src/Filesystem/Handlers/Attributes.antt =====
-- What `bb_getattr` and `bb_fgetattr` of Project 4/filesystem/bbfs.c say of the size of a file.
use ece318_operating_systems.Prelude.{
  true, false, [], ◌∷◌, ltb, ltb-true, ℕ, ◌≡◌, ◌<◌, refl, some, List, ◌++◌, if◌then◌else◌, length,
  All,
}
use ece318_operating_systems.Filesystem.Bytes.{Bytes, bytes_eq}
use ece318_operating_systems.Filesystem.Stdio.{FilePath, World, Env, ok}
use ece318_operating_systems.Filesystem.Blocks.Read.{
  Chunk, pointers, contents, IsStored, get_real_size-Sums,
}
use ece318_operating_systems.Filesystem.Handlers.{
  bb_fullpath, bb_fgetattr, bb_getattr, lstat, Fstat, fstat_status, fstat_size,
}
use ece318_operating_systems.Filesystem.Kernel.{ℤ, pos}

lstat-there :
    (w : World) (fpath : FilePath) (old : ℕ) (content : Bytes)
    → w.disk fpath ≡ some content
    → lstat fpath old w ≡ ok (true, length content) w
unfolding lstat
lstat-there w fpath old content e = rw (lstat, e) refl

-- What is reported of the size: that of the content, or when it is empty another one.
abbrev pub size_or : List Chunk → (other : ℕ) → ℕ
size_or cs other = if ltb 0 (length (contents cs)) then length (contents cs) else other

-- `bb_getattr` of a file whose blocks are all there, at paths that fit, succeeds, and the size that it gives is
-- that of the content; when the content is empty it is that of the pointers.
pub bb_getattr-Sizes :
    (env : Env) (failed : ℤ) (w : World) (path : Bytes) (cs : List Chunk) (st_size : ℕ)
    → length (w.bbs.rootdir ++ path) < 4096
    → env.opens (w.bbs.rootdir ++ path) ≡ true
    → w.disk (w.bbs.rootdir ++ path) ≡ some (pointers cs)
    → All (IsStored env w.bbs.hiddendir w.disk) cs
    → bb_getattr env failed path st_size w ≡ ok (pos 0, size_or cs (length (pointers cs))) w
unfolding bb_getattr bb_fullpath
bb_getattr-Sizes env failed w path cs st_size short opens pointing stored =
    rw
      (
        ltb-true (length (w.bbs.rootdir ++ path)) 4096 short,
        lstat-there w (w.bbs.rootdir ++ path) st_size (pointers cs) pointing,
        get_real_size-Sums env w (w.bbs.rootdir ++ path) cs opens pointing stored,
      )
      refl

-- `bb_fgetattr` of such a file, other than the root, returns what its descriptor says, which may be an error,
-- but the size that it gives is that of the content at the path, whatever the descriptor says; when
-- the content is empty it is the size of the descriptor, or the one that was there.
pub bb_fgetattr-Sizes :
    (env : Env) (failed : ℤ) (fstat : World → Fstat) (w : World) (path : Bytes) (cs : List Chunk)
    (st_size : ℕ)
    → length (w.bbs.rootdir ++ path) < 4096
    → bytes_eq path (b'/' ∷ []) ≡ false
    → env.opens (w.bbs.rootdir ++ path) ≡ true
    → w.disk (w.bbs.rootdir ++ path) ≡ some (pointers cs)
    → All (IsStored env w.bbs.hiddendir w.disk) cs
    → bb_fgetattr env failed fstat path st_size w
      ≡ ok (fstat_status (fstat w), size_or cs (fstat_size (fstat w) st_size)) w
unfolding bb_fgetattr bb_fullpath
bb_fgetattr-Sizes env failed fstat w path cs st_size short other opens pointing stored =
    rw
      (
        ltb-true (length (w.bbs.rootdir ++ path)) 4096 short,
        get_real_size-Sums env w (w.bbs.rootdir ++ path) cs opens pointing stored,
        other,
      )
      refl
