-- ===== src/Filesystem/Kernel/Directory.antt =====
-- The handlers of Project 4/filesystem/bbfs.c for directories.
pub mod Offers
use ece318_operating_systems.Prelude.{
  ℕ, zero, suc, ◌+◌, ◌-◌, ◌/◌, ◌%◌, ◌^◌, Bool, true, false, Option, none, some, List, [], ◌∷◌, ◌++◌,
  ◌==◌, leb, ltb, not, if◌then◌else◌, length,
}
use ece318_operating_systems.Filesystem.Bytes.{Bytes, take, drop}
use ece318_operating_systems.Filesystem.Stdio.{FilePath, c_string}
use ece318_operating_systems.Filesystem.Kernel.{
  ℤ, pos, negsuc, to_u64, is_neg, Arg, number, text, msg, Call, readlink, open_file, close_file,
  fdatasync, fsync, closedir, readdir, mkfifo, mkdir, chmod, access, mknod, chown, rmdir, opendir,
  statvfs, symlink, link, utime, lsetxattr, lgetxattr, llistxattr, lremovexattr, Outcome, Os, Io,
  pure, ◌>>=◌, ◌>>◌, get_errno, system, log_msg, log_all, log_error, log_syscall, logged_fullpath,
}
use ece318_operating_systems.Filesystem.Kernel.Dumps.{
  unsigned, FuseFileInfo, FuseConnInfo, FuseContext, Statvfs, log_fi, log_conn, log_fuse_context,
  log_statvfs,
}

-- -ENOMEM
abbrev pub no_memory : ℤ
no_memory = negsuc 11

module _ {K : Type 0} (os : Os K) where
  abbrev pub opendir_status : Bool → Io K ℤ
  opendir_status false = pure (pos 0)
  opendir_status true = log_error os "bb_opendir opendir"

  -- A DIR is a pointer, and NULL is 0.
  unfoldable pub bb_opendir : Bytes → (fi_addr : ℕ) → FuseFileInfo → Io K (ℤ × FuseFileInfo)
  bb_opendir path fi_addr fi = do
    log_msg os (msg "\nbb_opendir(path=\"%s\", fi=0x%08x)\n" (text path ∷ unsigned fi_addr ∷ []))
    fpath ← logged_fullpath os path
    o ← system os (opendir fpath)
    log_msg os (msg "    opendir returned 0x%p\n" (number o.ret ∷ []))
    retstat ← opendir_status (to_u64 o.ret == 0)
    let opened = record fi { fh = to_u64 o.ret }
    log_fi os opened
    pure (retstat, opened)

  -- The loop over the entries, from one that is read: `accepts` is the `filler` of FUSE, given the entries
  -- that it has taken before. The result is what is returned, and all that it has taken; `none` is
  -- the end of the fuel.
  unfoldable pub fill_loop :
      (fuel : ℕ)
      → (accepts : List Bytes → Bytes → Bool) → FuseFileInfo
      → (taken : List Bytes) → (d_name : Bytes) → Io K (ℤ × List Bytes)
  fill_loop zero accepts fi taken d_name p = none
  fill_loop (suc fuel) accepts fi taken d_name p =
      let next = λ (entry : Bytes). fill_loop fuel accepts fi (taken ++ d_name ∷ []) entry in
      (do
        log_msg os (msg "calling filler with name %s\n" (text d_name ∷ []))
        if accepts taken d_name
            then (do
              o ← system os (readdir fi.fh)
              if to_u64 o.ret == 0
                  then (do log_fi os fi; pure (pos 0, taken ++ d_name ∷ []))
                  else next o.out)
            else (do
              log_msg os (msg "    ERROR bb_readdir filler:  buffer full" [])
              pure (no_memory, taken)))
        p

  abbrev pub read_entries :
      ℕ → (List Bytes → Bytes → Bool) → FuseFileInfo → Outcome → Bool → Io K (ℤ × List Bytes)
  read_entries fuel accepts fi o true = do
    retstat ← log_error os "bb_readdir readdir"
    pure (retstat, [])
  read_entries fuel accepts fi o false = fill_loop fuel accepts fi [] o.out

  unfoldable pub bb_readdir :
      (fuel : ℕ)
      → Bytes
      → (buf_addr filler_addr offset fi_addr : ℕ) → (accepts : List Bytes → Bytes → Bool)
      → FuseFileInfo
      → Io K (ℤ × List Bytes)
  bb_readdir fuel path buf_addr filler_addr offset fi_addr accepts fi = do
    log_msg os (
        msg "\nbb_readdir(path=\"%s\", buf=0x%08x, filler=0x%08x, offset=%lld, fi=0x%08x)\n" (
          text path
          ∷ unsigned buf_addr
          ∷ unsigned filler_addr
          ∷ unsigned offset
          ∷ unsigned fi_addr
          ∷ []))
    o ← system os (readdir fi.fh)
    log_msg os (msg "    readdir returned 0x%p\n" (number o.ret ∷ []))
    read_entries fuel accepts fi o (to_u64 o.ret == 0)

  unfoldable pub bb_releasedir : Bytes → (fi_addr : ℕ) → FuseFileInfo → Io K ℤ
  bb_releasedir path fi_addr fi = do
    log_msg os (msg "\nbb_releasedir(path=\"%s\", fi=0x%08x)\n" (text path ∷ unsigned fi_addr ∷ []))
    log_fi os fi
    system os (closedir fi.fh)
    pure (pos 0)

  unfoldable pub bb_fsyncdir : Bytes → (datasync fi_addr : ℕ) → FuseFileInfo → Io K ℤ
  bb_fsyncdir path datasync fi_addr fi = do
    log_msg os (
        msg "\nbb_fsyncdir(path=\"%s\", datasync=%d, fi=0x%08x)\n"
          (text path ∷ unsigned datasync ∷ unsigned fi_addr ∷ []))
    log_fi os fi
    pure (pos 0)
