-- ===== src/Filesystem/Kernel/Calls.antt =====
-- The handlers of Project 4/filesystem/bbfs.c that pass a call on to the kernel.
pub mod Plain
use ece318_operating_systems.Prelude.{
  ℕ, zero, suc, ◌+◌, ◌-◌, ◌/◌, ◌%◌, ◌^◌, Bool, true, false, Option, none, some, List, [], ◌∷◌, ◌++◌,
  ◌==◌, leb, ltb, not, if◌then◌else◌, length,
}
use ece318_operating_systems.Filesystem.Bytes.{Bytes, take, drop}
use ece318_operating_systems.Filesystem.Stdio.{FilePath, c_string}
use ece318_operating_systems.Filesystem.Kernel.{
  ℤ, pos, negsuc, to_u64, is_neg, Arg, number, text, msg, Call, readlink, open_file, close_file,
  fdatasync, fsync, closedir, readdir, mkfifo, mkdir, chmod, access, mknod, chown, rmdir, opendir,
  statvfs, symlink, link, utime, lsetxattr, lgetxattr, llistxattr, lremovexattr, Outcome, Os, Io,
  pure, ◌>>=◌, ◌>>◌, get_errno, system, log_msg, log_all, log_error, log_syscall, logged_fullpath,
}
use ece318_operating_systems.Filesystem.Kernel.Dumps.{
  unsigned, FuseFileInfo, FuseConnInfo, FuseContext, Statvfs, log_fi, log_conn, log_fuse_context,
  log_statvfs,
}

-- `S_ISREG` and `S_ISFIFO`: the four bits of the type.
abbrev pub is_reg : ℕ → Bool
is_reg mode = (mode / 4096) % 16 == 8

abbrev pub is_fifo : ℕ → Bool
is_fifo mode = (mode / 4096) % 16 == 1

-- O_CREAT | O_EXCL | O_WRONLY
abbrev pub create_flags : ℕ
create_flags = 64 + 128 + 1

module _ {K : Type 0} (os : Os K) where
  unfoldable pub bb_mkdir : Bytes → (mode : ℕ) → Io K ℤ
  bb_mkdir path mode = do
    log_msg os (msg "\nbb_mkdir(path=\"%s\", mode=0%3o)\n" (text path ∷ unsigned mode ∷ []))
    fpath ← logged_fullpath os path
    o ← system os (mkdir fpath mode)
    log_syscall os "mkdir" o.ret

  unfoldable pub bb_rmdir : Bytes → Io K ℤ
  bb_rmdir path = do
    log_msg os (msg "bb_rmdir(path=\"%s\")\n" (text path ∷ []))
    fpath ← logged_fullpath os path
    o ← system os (rmdir fpath)
    log_syscall os "rmdir" o.ret

  -- The path that the link holds stays as it is.
  unfoldable pub bb_symlink : (path lnk : Bytes) → Io K ℤ
  bb_symlink path lnk = do
    log_msg os (msg "\nbb_symlink(path=\"%s\", link=\"%s\")\n" (text path ∷ text lnk ∷ []))
    flnk ← logged_fullpath os lnk
    o ← system os (symlink path flnk)
    log_syscall os "symlink" o.ret

  unfoldable pub bb_link : (path newpath : Bytes) → Io K ℤ
  bb_link path newpath = do
    log_msg os (msg "\nbb_link(path=\"%s\", newpath=\"%s\")\n" (text path ∷ text newpath ∷ []))
    fpath ← logged_fullpath os path
    fnewpath ← logged_fullpath os newpath
    o ← system os (link fpath fnewpath)
    log_syscall os "link" o.ret

  unfoldable pub bb_chmod : Bytes → (mode : ℕ) → Io K ℤ
  bb_chmod path mode = do
    log_msg os (msg "\nbb_chmod(fpath=\"%s\", mode=0%03o)\n" (text path ∷ unsigned mode ∷ []))
    fpath ← logged_fullpath os path
    o ← system os (chmod fpath mode)
    log_syscall os "chmod" o.ret

  unfoldable pub bb_chown : Bytes → (uid gid : ℕ) → Io K ℤ
  bb_chown path uid gid = do
    log_msg os (
        msg "\nbb_chown(path=\"%s\", uid=%d, gid=%d)\n"
          (text path ∷ unsigned uid ∷ unsigned gid ∷ []))
    fpath ← logged_fullpath os path
    o ← system os (chown fpath uid gid)
    log_syscall os "chown" o.ret

  unfoldable pub bb_utime : Bytes → (ubuf : ℕ) → Io K ℤ
  bb_utime path ubuf = do
    log_msg os (msg "\nbb_utime(path=\"%s\", ubuf=0x%08x)\n" (text path ∷ unsigned ubuf ∷ []))
    fpath ← logged_fullpath os path
    o ← system os (utime fpath ubuf)
    log_syscall os "utime" o.ret

  unfoldable pub bb_setxattr : (path name value : Bytes) → (size flags : ℕ) → Io K ℤ
  bb_setxattr path name value size flags = do
    log_msg os (
        msg "\nbb_setxattr(path=\"%s\", name=\"%s\", value=\"%s\", size=%d, flags=0x%08x)\n"
          (text path ∷ text name ∷ text value ∷ unsigned size ∷ unsigned flags ∷ []))
    fpath ← logged_fullpath os path
    o ← system os (lsetxattr fpath name value size flags)
    log_syscall os "lsetxattr" o.ret

  unfoldable pub bb_removexattr : (path name : Bytes) → Io K ℤ
  bb_removexattr path name = do
    log_msg os (msg "\nbb_removexattr(path=\"%s\", name=\"%s\")\n" (text path ∷ text name ∷ []))
    fpath ← logged_fullpath os path
    o ← system os (lremovexattr fpath name)
    log_syscall os "lremovexattr" o.ret

  -- The address of the struct stands for it in the message.
  unfoldable pub bb_release : Bytes → (fi_addr : ℕ) → FuseFileInfo → Io K ℤ
  bb_release path fi_addr fi = do
    log_msg os (msg "\nbb_release(path=\"%s\", fi=0x%08x)\n" (text path ∷ unsigned fi_addr ∷ []))
    o ← system os (close_file fi.fh)
    log_syscall os "close" o.ret

  -- HAVE_FDATASYNC is defined in config.h.
  unfoldable pub bb_fsync : Bytes → (datasync fi_addr : ℕ) → FuseFileInfo → Io K ℤ
  bb_fsync path datasync fi_addr fi = do
    log_msg os (
        msg "\nbb_fsync(path=\"%s\", datasync=%d, fi=0x%08x)\n"
          (text path ∷ unsigned datasync ∷ unsigned fi_addr ∷ []))
    log_fi os fi
    if datasync == 0
        then (do o ← system os (fsync fi.fh); log_syscall os "fsync" o.ret)
        else (do o ← system os (fdatasync fi.fh); log_syscall os "fdatasync" o.ret)

  unfoldable pub close_after : ℤ → Io K ℤ
  close_after (pos fd) = do o ← system os (close_file fd); log_syscall os "close" o.ret
  close_after (negsuc n) = pure (negsuc n)

  unfoldable pub bb_mknod : Bytes → (mode dev : ℕ) → Io K ℤ
  bb_mknod path mode dev = do
    log_msg os (
        msg "\nbb_mknod(path=\"%s\", mode=0%3o, dev=%lld)\n"
          (text path ∷ unsigned mode ∷ unsigned dev ∷ []))
    fpath ← logged_fullpath os path
    if is_reg mode
        then (do
          o ← system os (open_file fpath create_flags mode)
          retstat ← log_syscall os "open" o.ret
          close_after retstat)
        else if is_fifo mode
        then (do o ← system os (mkfifo fpath mode); log_syscall os "mkfifo" o.ret)
        else (do o ← system os (mknod fpath mode dev); log_syscall os "mknod" o.ret)

  abbrev pub open_status : Bool → Io K ℤ
  open_status false = pure (pos 0)
  open_status true = log_error os "open"

  -- What is returned, and the struct with its handle.
  unfoldable pub bb_open : Bytes → (fi_addr : ℕ) → FuseFileInfo → Io K (ℤ × FuseFileInfo)
  bb_open path fi_addr fi = do
    log_msg os (msg "\nbb_open(path\"%s\", fi=0x%08x)\n" (text path ∷ unsigned fi_addr ∷ []))
    fpath ← logged_fullpath os path
    o ← system os (open_file fpath fi.flags 0)
    fd ← log_syscall os "open" o.ret
    retstat ← open_status (is_neg fd)
    let opened = record fi { fh = to_u64 fd }
    log_fi os opened
    pure (retstat, opened)

  -- The struct is given by the bytes that the call fills in.
  unfoldable pub bb_statfs : (Bytes → Statvfs) → Bytes → (statv_addr : ℕ) → Io K (ℤ × Statvfs)
  bb_statfs decode path statv_addr = do
    log_msg os
        (msg "\nbb_statfs(path=\"%s\", statv=0x%08x)\n" (text path ∷ unsigned statv_addr ∷ []))
    fpath ← logged_fullpath os path
    o ← system os (statvfs fpath)
    retstat ← log_syscall os "statvfs" o.ret
    log_statvfs os (decode o.out)
    pure (retstat, decode o.out)

  unfoldable pub bb_flush : Bytes → (fi_addr : ℕ) → FuseFileInfo → Io K ℤ
  bb_flush path fi_addr fi = do
    log_msg os (msg "\nbb_flush(path=\"%s\", fi=0x%08x)\n" (text path ∷ unsigned fi_addr ∷ []))
    log_fi os fi
    pure (pos 0)

  unfoldable pub bb_access : Bytes → (mask : ℕ) → Io K ℤ
  bb_access path mask = do
    log_msg os (msg "\nbb_access(path=\"%s\", mask=0%o)\n" (text path ∷ unsigned mask ∷ []))
    fpath ← logged_fullpath os path
    o ← system os (access fpath mask)
    errno ← get_errno
    log_msg os (msg "\n ERROR: %s\n" (text (os.strerror errno) ∷ []))
    elim o.ret [ pos n ↦ pure (pos n) | negsuc n ↦ log_error os "bb_access access" ]

  -- `BB_DATA` is the private data of the context.
  unfoldable pub bb_init : FuseConnInfo → FuseContext → Io K ℕ
  bb_init conn context = do
    log_msg os (msg "\nbb_init()\n" [])
    log_conn os conn
    log_fuse_context os context
    pure context.private_data

  unfoldable pub bb_destroy : (userdata : ℕ) → Io K (Unit {0})
  bb_destroy userdata = log_msg os (msg "\nbb_destroy(userdata=0x%08x)\n" (unsigned userdata ∷ []))
