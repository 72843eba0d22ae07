-- ===== src/Filesystem/Kernel/Buffers.antt =====
-- The handlers of Project 4/filesystem/bbfs.c that have the kernel fill a buffer of the caller.
pub mod Links
pub mod Names
use ece318_operating_systems.Prelude.{
  ℕ, zero, suc, ◌+◌, ◌-◌, ◌/◌, ◌%◌, ◌^◌, Bool, true, false, Option, none, some, List, [], ◌∷◌, ◌++◌,
  ◌==◌, leb, ltb, not, if◌then◌else◌, length,
}
use ece318_operating_systems.Filesystem.Bytes.{Bytes, take, drop}
use ece318_operating_systems.Filesystem.Stdio.{FilePath, c_string}
use ece318_operating_systems.Filesystem.Kernel.{
  ℤ, pos, negsuc, to_u64, is_neg, Arg, number, text, msg, Call, readlink, open_file, close_file,
  fdatasync, fsync, closedir, readdir, mkfifo, mkdir, chmod, access, mknod, chown, rmdir, opendir,
  statvfs, symlink, link, utime, lsetxattr, lgetxattr, llistxattr, lremovexattr, Outcome, Os, Io,
  pure, ◌>>=◌, ◌>>◌, get_errno, system, log_msg, log_all, log_error, log_syscall, logged_fullpath,
}
use ece318_operating_systems.Filesystem.Kernel.Dumps.{
  unsigned, FuseFileInfo, FuseConnInfo, FuseContext, Statvfs, log_fi, log_conn, log_fuse_context,
  log_statvfs,
}
use ece318_operating_systems.Filesystem.Kernel.{of_option, Message}

-- What a call fills in, in a buffer of the caller; `none` is a write past it.
unfoldable pub fill : (buffer out : Bytes) → Option Bytes
fill buffer out =
    if leb (length out) (length buffer) then some (out ++ drop (length out) buffer) else none

-- A NUL at a place of a buffer.
unfoldable pub put_nul : ℕ → Bytes → Option Bytes
put_nul n buffer =
    if ltb n (length buffer) then some (take n buffer ++ 0 ∷ drop (suc n) buffer) else none

abbrev pub cons_to : ℕ → Option Bytes → Option Bytes
cons_to c none = none
cons_to c (some cs) = some (c ∷ cs)

-- What `%s` prints of a buffer: up to its first NUL. Without one it reads past the buffer, which is `none`.
abbrev pub printed : Bytes → Option Bytes
printed [] = none
printed (c ∷ cs) = if c == 0 then some [] else cons_to c (printed cs)

-- `size - 1` of a `size_t`.
abbrev pub less_one : ℕ → ℕ
less_one size = (size + 2 ^ 64 - 1) % 2 ^ 64

-- The names in the first `count` bytes of a buffer, from a place on: `ptr` goes from each text to the byte
-- behind its NUL. Each round goes on by a byte at least, so `count` is fuel enough.
unfoldable pub names_from : (fuel : ℕ) → (count at : ℕ) → Bytes → List Bytes
names_from zero count at list = []
names_from (suc fuel) count at list =
    let name = c_string (drop at list) in
    let rest = names_from fuel count (at + length name + 1) list in
    if ltb at count then name ∷ rest else []

abbrev pub name_messages : List Bytes → List Message
name_messages [] = []
name_messages (n ∷ ns) = msg "    \"%s\"\n" (text n ∷ []) ∷ name_messages ns

module _ {K : Type 0} (os : Os K) where
  -- The result, and the buffer.
  unfoldable pub terminate : ℤ → Bytes → Io K (ℤ × Bytes)
  terminate (negsuc n) buffer = pure (negsuc n, buffer)
  terminate (pos n) buffer = do
    terminated ← of_option (put_nul n buffer)
    log_msg os (msg "    link=\"%s\"\n" (text (c_string terminated) ∷ []))
    pure (pos 0, terminated)

  unfoldable pub bb_readlink : Bytes → (buffer : Bytes) → (size : ℕ) → Io K (ℤ × Bytes)
  bb_readlink path buffer size = do
    shown ← of_option (printed buffer)
    log_msg os (
        msg "\nbb_readlink(path=\"%s\", link=\"%s\", size=%d)\n"
          (text path ∷ text shown ∷ unsigned size ∷ []))
    fpath ← logged_fullpath os path
    o ← system os (readlink fpath (less_one size))
    filled ← of_option (fill buffer o.out)
    retstat ← log_syscall os "readlink" o.ret
    terminate retstat filled

  unfoldable pub log_value : ℤ → Bytes → Io K (Unit {0})
  log_value (negsuc n) value = pure tt
  log_value (pos n) value = do
    shown ← of_option (printed value)
    log_msg os (msg "    value = \"%s\"\n" (text shown ∷ []))

  unfoldable pub bb_getxattr :
      (path name : Bytes) → (value : Bytes) → (value_addr size : ℕ) → Io K (ℤ × Bytes)
  bb_getxattr path name value value_addr size = do
    log_msg os (
        msg "\nbb_getxattr(path = \"%s\", name = \"%s\", value = 0x%08x, size = %d)\n"
          (text path ∷ text name ∷ unsigned value_addr ∷ unsigned size ∷ []))
    fpath ← logged_fullpath os path
    o ← system os (lgetxattr fpath name size)
    filled ← of_option (fill value o.out)
    retstat ← log_syscall os "lgetxattr" o.ret
    log_value retstat filled
    pure (retstat, filled)

  -- `none` is NULL, with which the length is asked for.
  unfoldable pub log_names : ℤ → Option Bytes → Io K (Unit {0})
  log_names (negsuc n) list = pure tt
  log_names (pos n) list = do
    log_msg os (msg "    returned attributes (length %d):\n" (unsigned n ∷ []))
    elim list [
      | none ↦ log_msg os (msg "    (null)\n" [])
      | some bytes ↦ log_all os (name_messages (names_from n n 0 bytes))
    ]

  abbrev pub fill_if_any : Option Bytes → Bytes → Io K (Option Bytes)
  fill_if_any none out = pure none
  fill_if_any (some list) out = do filled ← of_option (fill list out); pure (some filled)

  unfoldable pub bb_listxattr :
      Bytes → (list : Option Bytes) → (list_addr size : ℕ) → Io K (ℤ × Option Bytes)
  bb_listxattr path list list_addr size = do
    log_msg os (
        msg "\nbb_listxattr(path=\"%s\", list=0x%08x, size=%d)\n"
          (text path ∷ unsigned list_addr ∷ unsigned size ∷ []))
    fpath ← logged_fullpath os path
    o ← system os (llistxattr fpath size)
    filled ← fill_if_any list o.out
    retstat ← log_syscall os "llistxattr" o.ret
    log_names retstat filled
    pure (retstat, filled)
