-- ===== src/Filesystem/Kernel/Calls/Plain.antt =====
-- What the handlers of Project 4/filesystem/bbfs.c return that make a single call of the kernel.
use ece318_operating_systems.Prelude.{
  ℕ, ◌≡◌, ◌<◌, Bool-cases, inl, inr, false, ◌++◌, ◌==◌, if◌then◌else◌, length,
}
use ece318_operating_systems.Filesystem.Bytes.{Bytes}
use ece318_operating_systems.Filesystem.Stdio.{FilePath}
use ece318_operating_systems.Filesystem.Kernel.{
  ℤ, Call, mkdir, rmdir, symlink, link, chmod, chown, utime, lsetxattr, lremovexattr, close_file,
  fsync, fdatasync, mknod, mkfifo, Os, Process, Io, Ends,
}
use ece318_operating_systems.Filesystem.Kernel.Dumps.{FuseFileInfo, log_fi}
use ece318_operating_systems.Filesystem.Kernel.Status.{
  Quiet, Answers, path-Answers, paths-Answers, message-Answers, messages-Answers,
}
use ece318_operating_systems.Filesystem.Kernel.Calls.{
  bb_mkdir, bb_rmdir, bb_symlink, bb_link, bb_chmod, bb_chown, bb_utime, bb_setxattr,
  bb_removexattr, bb_release, bb_fsync, bb_mknod, is_reg, is_fifo,
}

-- The calls of FUSE that these handlers serve, with their arguments.
pub data Plain : Type 0 where
  makes_directory : (path : Bytes) → (mode : ℕ) → Plain
  removes_directory : (path : Bytes) → Plain
  makes_symlink makes_link : (path newpath : Bytes) → Plain
  sets_mode : (path : Bytes) → (mode : ℕ) → Plain
  sets_owner : (path : Bytes) → (uid gid : ℕ) → Plain
  sets_times : (path : Bytes) → (ubuf : ℕ) → Plain
  sets_attribute : (path name value : Bytes) → (size flags : ℕ) → Plain
  removes_attribute : (path name : Bytes) → Plain
  releases : (path : Bytes) → (fi_addr : ℕ) → FuseFileInfo → Plain
  syncs : (path : Bytes) → (datasync fi_addr : ℕ) → FuseFileInfo → Plain
  makes_special : (path : Bytes) → (mode dev : ℕ) → Plain

module _ {K : Type 0} (os : Os K) where
  unfoldable pub handle_plain : Plain → Io K ℤ
  handle_plain (makes_directory path mode) = bb_mkdir os path mode
  handle_plain (removes_directory path) = bb_rmdir os path
  handle_plain (makes_symlink path newpath) = bb_symlink os path newpath
  handle_plain (makes_link path newpath) = bb_link os path newpath
  handle_plain (sets_mode path mode) = bb_chmod os path mode
  handle_plain (sets_owner path uid gid) = bb_chown os path uid gid
  handle_plain (sets_times path ubuf) = bb_utime os path ubuf
  handle_plain (sets_attribute path name value size flags) =
      bb_setxattr os path name value size flags
  handle_plain (removes_attribute path name) = bb_removexattr os path name
  handle_plain (releases path fi_addr fi) = bb_release os path fi_addr fi
  handle_plain (syncs path datasync fi_addr fi) = bb_fsync os path datasync fi_addr fi
  handle_plain (makes_special path mode dev) = bb_mknod os path mode dev

  abbrev in_root : Bytes → FilePath
  in_root path = os.rootdir ++ path

  -- The call of the kernel that each of them stands for. A symbolic link keeps the path that it holds; the
  -- other paths are paths in the root directory.
  abbrev pub kernel_call : Plain → Call
  kernel_call (makes_directory path mode) = mkdir (in_root path) mode
  kernel_call (removes_directory path) = rmdir (in_root path)
  kernel_call (makes_symlink path newpath) = symlink path (in_root newpath)
  kernel_call (makes_link path newpath) = link (in_root path) (in_root newpath)
  kernel_call (sets_mode path mode) = chmod (in_root path) mode
  kernel_call (sets_owner path uid gid) = chown (in_root path) uid gid
  kernel_call (sets_times path ubuf) = utime (in_root path) ubuf
  kernel_call (sets_attribute path name value size flags) =
      lsetxattr (in_root path) name value size flags
  kernel_call (removes_attribute path name) = lremovexattr (in_root path) name
  kernel_call (releases path fi_addr fi) = close_file fi.fh
  kernel_call (syncs path datasync fi_addr fi) =
      if datasync == 0 then fsync fi.fh else fdatasync fi.fh
  kernel_call (makes_special path mode dev) =
      if is_fifo mode then mkfifo (in_root path) mode else mknod (in_root path) mode dev

  abbrev Short : Bytes → Type 0
  Short path = length (os.rootdir ++ path) < 4096

  -- The paths fit their buffers, and a file that `mknod` makes is not a regular one.
  abbrev pub IsFit : Plain → Type 0
  IsFit (makes_directory path mode) = Short path
  IsFit (removes_directory path) = Short path
  IsFit (makes_symlink path newpath) = Short newpath
  IsFit (makes_link path newpath) = Short path × Short newpath
  IsFit (sets_mode path mode) = Short path
  IsFit (sets_owner path uid gid) = Short path
  IsFit (sets_times path ubuf) = Short path
  IsFit (sets_attribute path name value size flags) = Short path
  IsFit (removes_attribute path name) = Short path
  IsFit (releases path fi_addr fi) = Unit
  IsFit (syncs path datasync fi_addr fi) = Unit
  IsFit (makes_special path mode dev) = Short path × (is_reg mode ≡ false)

  module _ (quiet : Quiet os) where
    -- Each of these handlers makes the one call that it stands for, in the state that it was called in, and
    -- returns its result, or minus the error: `bb_mkdir`, `bb_rmdir`, `bb_symlink`, `bb_link`,
    -- `bb_chmod`, `bb_chown`, `bb_utime`, `bb_setxattr`, `bb_removexattr`, `bb_release`, `bb_fsync`, and
    -- `bb_mknod` for a file that is not regular. It is needed that the paths fit, and that printing
    -- leaves `errno` as it is.
    pub handle_plain-Answers :
        (h : Plain) (p : Process K)
        → IsFit h
        → Ends (Answers os quiet (kernel_call h) p) (handle_plain h p)
    unfolding handle_plain bb_mkdir bb_rmdir bb_symlink bb_link bb_chmod bb_chown bb_utime
        bb_setxattr bb_removexattr bb_release bb_fsync bb_mknod log_fi
    handle_plain-Answers (makes_directory path mode) p fit =
        path-Answers os quiet _ path fit p (λ f. mkdir f mode) "mkdir"
    handle_plain-Answers (removes_directory path) p fit =
        path-Answers os quiet _ path fit p (λ f. rmdir f) "rmdir"
    handle_plain-Answers (makes_symlink path newpath) p fit =
        path-Answers os quiet _ newpath fit p (λ f. symlink path f) "symlink"
    handle_plain-Answers (makes_link path newpath) p fit =
        paths-Answers os quiet _ path newpath (λ f g. link f g) "link" p fit.0 fit.1
    handle_plain-Answers (sets_mode path mode) p fit =
        path-Answers os quiet _ path fit p (λ f. chmod f mode) "chmod"
    handle_plain-Answers (sets_owner path uid gid) p fit =
        path-Answers os quiet _ path fit p (λ f. chown f uid gid) "chown"
    handle_plain-Answers (sets_times path ubuf) p fit =
        path-Answers os quiet _ path fit p (λ f. utime f ubuf) "utime"
    handle_plain-Answers (sets_attribute path name value size flags) p fit =
        path-Answers os quiet _ path fit p (λ f. lsetxattr f name value size flags) "lsetxattr"
    handle_plain-Answers (removes_attribute path name) p fit =
        path-Answers os quiet _ path fit p (λ f. lremovexattr f name) "lremovexattr"
    handle_plain-Answers (releases path fi_addr fi) p fit =
        message-Answers os quiet _ (close_file fi.fh) "close" p
    handle_plain-Answers (syncs path datasync fi_addr fi) p fit =
        elim (Bool-cases (datasync == 0)) [
          | inl e ↦ rw (e) (messages-Answers os quiet _ _ (fsync fi.fh) "fsync" p)
          | inr e ↦ rw (e) (messages-Answers os quiet _ _ (fdatasync fi.fh) "fdatasync" p)
        ]
    handle_plain-Answers (makes_special path mode dev) p fit = elim (Bool-cases (is_fifo mode)) [
      | inl e ↦ rw (fit.1, e) (path-Answers os quiet _ path fit.0 p (λ f. mkfifo f mode) "mkfifo")
      | inr e ↦ rw (fit.1, e) (path-Answers os quiet _ path fit.0 p (λ f. mknod f mode dev) "mknod")
    ]
