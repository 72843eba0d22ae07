-- ===== src/Filesystem/Kernel.antt =====
-- How the handlers of Project 4/filesystem/bbfs.c call the kernel and log it: log.c, and `bb_fullpath`
-- with its message. The kernel is a parameter, and so is what printing does to `errno`.
pub mod Dumps
pub mod Status
pub mod Calls
pub mod Buffers
pub mod Directory
pub mod Examples
use Prim.Native.String.{String, ◌++◌ as ◌<>◌}
use ece318_operating_systems.Prelude.{
  ℕ, zero, suc, ◌+◌, ◌-◌, ◌^◌, ◌%◌, Bool, true, false, Option, none, some, List, [], ◌∷◌, ◌++◌,
  if◌then◌else◌, length, ltb,
}
use ece318_operating_systems.Filesystem.Bytes.{Bytes}
use ece318_operating_systems.Filesystem.Stdio.{FilePath}
use ece318_operating_systems.Filesystem.Blocks.{path_max, fits}

pub data ℤ : Type 0 where
  pos negsuc : ℕ → ℤ

-- Minus a number.
abbrev pub neg : ℕ → ℤ
neg zero = pos 0
neg (suc n) = negsuc n

abbrev pub is_neg : ℤ → Bool
is_neg (pos n) = false
is_neg (negsuc n) = true

-- As a `uint64_t`.
abbrev pub to_u64 : ℤ → ℕ
to_u64 (pos n) = n % 2 ^ 64
to_u64 (negsuc n) = 2 ^ 64 - 1 - n

-- What `log_msg` is given: a format, and what it formats.
pub data Arg : Type 0 where
  number : ℤ → Arg
  text : Bytes → Arg

pub record Message : Type 0 where
  pub format : String
  pub args : List Arg

abbrev pub msg : String → List Arg → Message
msg f as' = record { format = f; args = as' }

-- The calls that the handlers make, with their arguments. What they fill in is part of the outcome.
pub data Call : Type 0 where
  readlink : (path : FilePath) → (size : ℕ) → Call
  open_file : (path : FilePath) → (flags mode : ℕ) → Call
  close_file fdatasync fsync closedir readdir : (fd : ℕ) → Call
  mkfifo mkdir chmod access : (path : FilePath) → (mode : ℕ) → Call
  mknod chown : (path : FilePath) → (mode dev : ℕ) → Call
  rmdir opendir statvfs : (path : FilePath) → Call
  symlink link : (path newpath : FilePath) → Call
  utime : (path : FilePath) → (ubuf : ℕ) → Call
  lsetxattr : (path name value : Bytes) → (size flags : ℕ) → Call
  lgetxattr : (path name : Bytes) → (size : ℕ) → Call
  llistxattr : (path : Bytes) → (size : ℕ) → Call
  lremovexattr : (path name : Bytes) → Call

-- What is returned, `errno` after it, and the bytes that are filled in. A pointer is a number, NULL is 0.
pub record Outcome : Type 0 where
  pub ret : ℤ
  pub errno : ℕ
  pub out : Bytes

-- The kernel, for a state of its own; what printing a message makes of `errno`; `strerror`; and
-- `BB_DATA->rootdir`, which nothing changes.
pub record Os (K : Type 0) : Type 0 where
  pub call : Call → (errno : ℕ) → K → Outcome × K
  pub print : Message → ℕ → ℕ
  pub strerror : ℕ → Bytes
  pub rootdir : FilePath

-- The last message that was logged comes first.
pub record Process (K : Type 0) : Type 0 where
  pub kernel : K
  pub errno : ℕ
  pub log : List Message

-- `none` is undefined behaviour.
abbrev pub Io : Type 0 → Type 0 → Type 0
Io K A = Process K → Option (A × Process K)

module _ {K : Type 0} where
  abbrev pub pure : {A : Type 0} → A → Io K A
  pure a p = some (a, p)

  abbrev pub and_then :
      {A B : Type 0} → Option (A × Process K) → (A → Io K B) → Option (B × Process K)
  and_then none k = none
  and_then (some r) k = k r.0 r.1

  infixl 5 ◌>>=◌ ◌>>◌
  abbrev pub ◌>>=◌ : {A B : Type 0} → Io K A → (A → Io K B) → Io K B
  m >>= k = λ p. and_then (m p) k

  abbrev pub ◌>>◌ : {A B : Type 0} → Io K A → Io K B → Io K B
  m >> n = m >>= λ _. n

  abbrev pub of_option : {A : Type 0} → Option A → Io K A
  of_option none p = none
  of_option (some a) p = some (a, p)

  -- A call ends, and its result and the state have the property.
  abbrev pub Ends : {A : Type 0} → (A → Process K → Type 0) → Option (A × Process K) → Type 0
  Ends P none = ⊥
  Ends P (some r) = P r.0 r.1

  abbrev pub get_errno : Io K ℕ
  get_errno p = some (p.errno, p)

  abbrev pub set_errno : ℕ → Io K (Unit {0})
  set_errno e p = some (tt, record p { errno = e })

  module _ (os : Os K) where
    abbrev pub system : Call → Io K Outcome
    system c p =
        let (o, k) = os.call c p.errno p.kernel in
        some (o, record p { kernel = k; errno = o.errno })

    unfoldable pub log_msg : Message → Io K (Unit {0})
    log_msg m p = some (tt, record p { errno = os.print m p.errno; log = m ∷ p.log })

    unfoldable pub log_all : List Message → Io K (Unit {0})
    log_all [] = pure tt
    log_all (m ∷ ms) = log_msg m >>= λ _. log_all ms

    unfoldable pub log_error : String → Io K ℤ
    log_error func = do
      errno ← get_errno
      let ret = neg errno
      log_msg (msg ("    ERROR " <> (func <> ": %s\n")) (text (os.strerror errno) ∷ []))
      pure ret

    unfoldable pub log_retstat : String → ℤ → Io K (Unit {0})
    log_retstat func retstat = do
      errsave ← get_errno
      log_msg (msg ("    " <> (func <> " returned %d\n")) (number retstat ∷ []))
      set_errno errsave

    -- The error is read again from `errno`, after the message is printed.
    abbrev pub check_status : String → ℤ → Bool → Io K ℤ
    check_status func retstat false = pure retstat
    check_status func retstat true = do log_error func; errno ← get_errno; pure (neg errno)

    -- `min_ret` is 0 in every call.
    unfoldable pub log_syscall : String → ℤ → Io K ℤ
    log_syscall func retstat = do
      log_retstat func retstat
      check_status func retstat (is_neg retstat)

    -- `bb_fullpath` with its message.
    unfoldable pub logged_fullpath : Bytes → Io K FilePath
    logged_fullpath path p =
        let fpath = os.rootdir ++ path in
        if fits fpath path_max
        then (do
          log_msg (
              msg "    bb_fullpath:  rootdir = \"%s\", path = \"%s\", fpath = \"%s\"\n"
                (text os.rootdir ∷ text path ∷ text fpath ∷ []))
          pure fpath)
            p
        else none
