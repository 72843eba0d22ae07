-- ===== src/Filesystem/Handlers.antt =====
-- The handlers of Project 4/filesystem/bbfs.c that use the block store, and the start of `main`. A
-- handle `fi->fh` is the path of the file that it was opened on.
pub mod Keep
pub mod Unlink
pub mod Write
pub mod Append
pub mod ReadBack
pub mod RoundTrip
pub mod Attributes
pub mod Start
pub mod Truncate
use ece318_operating_systems.Prelude.{
  ℕ, zero, suc, ◌+◌, ◌-◌, ◌*◌, ◌/◌, ◌%◌, ◌≤◌, ◌<◌, ◌≡◌, refl, Bool, true, false, not, ◌&&◌, ◌||◌,
  Option, none, some, List, [], ◌∷◌, ◌++◌, ◌==◌, leb, ltb, if◌then◌else◌, length, arith,
}
use ece318_operating_systems.Filesystem.Bytes.{bytes_eq, Bytes, take, drop, replicate}
use ece318_operating_systems.Filesystem.Stdio.{
  FilePath, Disk, BbState, World, Env, Cmd, Run, ok, fault, pure, when_else, ◌>>=◌, ◌>>◌, get_bbs,
  get_world, content_of, put, open_content, set_file, is_some, write_at, c_string,
}
use ece318_operating_systems.Filesystem.Hashes.{id_length}
use ece318_operating_systems.Filesystem.Blocks.{
  path_max, hashes_path, fits, get_real_size, read_file, write_blocks, get_initial_id_number,
}
use ece318_operating_systems.Filesystem.Delete.{delete_blocks}
use ece318_operating_systems.Filesystem.Kernel.{ℤ, pos, neg}

-- The block size of bbfs.c, which is not that of our_lib.c.
abbrev pub max_block_size : ℕ
max_block_size = 4069

unfoldable pub bb_fullpath : Bytes → Cmd FilePath
bb_fullpath path w =
    if fits (w.bbs.rootdir ++ path) path_max then ok (w.bbs.rootdir ++ path) w else fault

-- `pwrite` to a file that is there.
unfoldable pub pwrite : FilePath → Bytes → ℕ → Cmd (Unit {0})
pwrite fh bytes offset w = set_file fh (some (write_at (content_of w.disk fh) offset bytes)) w

-- Where the pointer to the block at an offset goes.
unfoldable pub pointer_offset : ℕ → ℕ
pointer_offset offset = (offset / max_block_size) * id_length

unfoldable pub bb_write : Env → Bytes → (buf : Bytes) → (size offset : ℕ) → (fh : FilePath) → Cmd ℕ
bb_write env path buf size offset fh = do
  bb_fullpath path
  blocks ← write_blocks env buf size
  pwrite fh blocks (pointer_offset offset)
  pure size

-- The buffer that FUSE passes holds `size` bytes. The result is what is returned, and the buffer.
unfoldable pub copy_out : (size : ℕ) → Bytes → Bytes → Cmd (ℕ × Bytes)
copy_out size buf block w =
    if leb (length block) size then ok (size, block ++ drop (length block) buf) w else fault

unfoldable pub bb_read :
    Env → Bytes → (buf : Bytes) → (size offset : ℕ) → (fh : FilePath) → Cmd (ℕ × Bytes)
bb_read env path buf size offset fh = do
  fpath ← bb_fullpath path
  bbs ← get_bbs
  let tempfile = bbs.hiddendir ++ (b'/' ∷ b't' ∷ b'e' ∷ b'm' ∷ b'p' ∷ [])
  when_else (not (fits tempfile path_max)) (λ _. fault)
      (do
        block ← read_file env fpath
        w ← get_world
        when_else (not (env.opens tempfile)) (pure (size, buf)) (do
          set_file tempfile none
          elim block [
            | none ↦
                let got = take size (drop offset (content_of w.disk fh)) in
                pure (size, got ++ drop (length got) buf)
            | some text ↦ copy_out size buf text
          ]))

-- Whether it succeeds, and the size that it leaves in the buffer.
unfoldable pub lstat : FilePath → (old : ℕ) → Cmd (Bool × ℕ)
lstat fpath old w = elim (w.disk fpath) [
  | none ↦ ok (false, old) w
  | some content ↦ ok (true, length content) w
]

-- `failed` is what `log_syscall` returns for an `lstat` that fails: minus `errno`, as it is after the message
-- is printed.
unfoldable pub bb_getattr : Env → (failed : ℤ) → Bytes → (st_size : ℕ) → Cmd (ℤ × ℕ)
bb_getattr env failed path st_size = do
  fpath ← bb_fullpath path
  status ← lstat fpath st_size
  real_size ← get_real_size env fpath
  pure (if status.0 then pos 0 else failed, if ltb 0 real_size then real_size else status.1)

-- What `fstat` says of the descriptor in `fi`: the size that it fills in, or that it fails with `errno`. A
-- file that is unlinked while it is open has a descriptor and no path.
pub data Fstat : Type 0 where
  gives_size : ℕ → Fstat
  fails_with : (errno : ℕ) → Fstat

-- `log_error` returns minus the `errno` of the failure.
abbrev pub fstat_status : Fstat → ℤ
fstat_status (gives_size n) = pos 0
fstat_status (fails_with errno) = neg errno

abbrev pub fstat_size : Fstat → (old : ℕ) → ℕ
fstat_size (gives_size n) old = n
fstat_size (fails_with errno) old = old

-- The real size is looked up by the path, and the descriptor is asked for the rest.
unfoldable pub bb_fgetattr :
    Env → (failed : ℤ) → (fstat : World → Fstat) → Bytes → (st_size : ℕ) → Cmd (ℤ × ℕ)
bb_fgetattr env failed fstat path st_size = do
  fpath ← bb_fullpath path
  real_size ← get_real_size env fpath
  when_else (bytes_eq path (b'/' ∷ [])) (bb_getattr env failed path st_size) (do
    w ← get_world
    let status = fstat w
    pure (fstat_status status, if ltb 0 real_size then real_size else fstat_size status st_size))

unfoldable pub unlink : FilePath → Cmd Bool
unlink fpath w = ok (is_some (w.disk fpath)) (record w { disk = put w.disk fpath none })

unfoldable pub bb_unlink : Env → Bytes → Cmd Bool
bb_unlink env path = do fpath ← bb_fullpath path; delete_blocks env fpath; unlink fpath

-- What `truncate` makes of a content: shorter, or longer by zeros.
abbrev pub resized : ℕ → Bytes → Bytes
resized newsize content = take newsize content ++ replicate (newsize - length content) 0

unfoldable pub truncate : FilePath → ℕ → Cmd Bool
truncate fpath newsize w = elim (w.disk fpath) [
  | none ↦ ok false w
  | some content ↦ ok true (record w { disk = put w.disk fpath (some (resized newsize content)) })
]

-- It works on the pointers, whose length is not that of the file the user sees.
unfoldable pub bb_truncate : Bytes → (newsize : ℕ) → Cmd Bool
bb_truncate path newsize = do fpath ← bb_fullpath path; truncate fpath newsize

-- `open` with O_CREAT | O_EXCL, on a path where the directory may be written.
unfoldable pub open_exclusive : Env → FilePath → Cmd Bool
open_exclusive env fpath w =
    if is_some (w.disk fpath) || not (env.opens fpath)
    then ok false w
    else ok true (record w { disk = put w.disk fpath (some []) })

-- `bb_mknod` for a regular file: the branch of S_ISREG. The descriptor is closed again.
unfoldable pub bb_mknod_regular : Env → Bytes → Cmd Bool
bb_mknod_regular env path = do fpath ← bb_fullpath path; open_exclusive env fpath

-- `rename` of a regular file: one that is at the new path is replaced.
unfoldable pub rename : (old new : FilePath) → Cmd Bool
rename old new w = elim (w.disk old) [
  | none ↦ ok false w
  | some content ↦ ok true (record w {
    disk = if bytes_eq old new then w.disk else put (put w.disk old none) new (some content);
  })
]

-- The blocks of a file that is replaced are not deleted.
unfoldable pub bb_rename : (path newpath : Bytes) → Cmd Bool
bb_rename path newpath = do
  fpath ← bb_fullpath path
  fnewpath ← bb_fullpath newpath
  rename fpath fnewpath

unfoldable pub bb_ftruncate : (offset : ℕ) → (fh : FilePath) → Cmd Bool
bb_ftruncate offset fh = truncate fh offset

abbrev pub state_with : (rootdir hiddendir : FilePath) → Option ℕ → Option BbState
state_with rootdir hiddendir none = none
state_with rootdir hiddendir (some last_id) = some (record {
  rootdir = rootdir;
  hashesfile = hashes_path hiddendir;
  last_id = last_id;
  hiddendir = hiddendir;
})

-- The state that `main` sets up; `rootdir` and `hiddendir` are what `realpath` returns. `none` is undefined
-- behaviour.
unfoldable pub start : Env → (rootdir hiddendir : FilePath) → Option BbState
start env rootdir hiddendir = state_with rootdir hiddendir (get_initial_id_number env hiddendir)
