-- ===== src/Filesystem/Main.antt =====
-- `main` of Project 4/filesystem/bbfs.c, up to the call of fuse_main.
pub mod Serves
use ece318_operating_systems.Prelude.{
  ℕ, zero, suc, ◌+◌, ◌-◌, Bool, true, false, not, ◌||◌, Option, none, some, List, [], ◌∷◌, ◌==◌,
  ltb, if◌then◌else◌, length,
}
use ece318_operating_systems.Filesystem.Bytes.{Bytes}
use ece318_operating_systems.Filesystem.Stdio.{FilePath, BbState, Env}
use ece318_operating_systems.Filesystem.Blocks.{path_max, hashes_path, fits}
use ece318_operating_systems.Filesystem.Handlers.{start}

-- What the system answers to `main`: the user, malloc, fopen of bbfs.log, and `realpath`, where `none` is
-- NULL.
pub record Host : Type 0 where
  pub uid : ℕ
  pub euid : ℕ
  pub has_memory : Bool
  pub log_opens : Bool
  pub realpath : FilePath → Option FilePath

-- How `main` goes. A call of fuse_main has `argc`, `argv` with its NULL, and the state; what fuse_main
-- returns is the exit status. `calls_without_root` has NULL for the root directory, which the handlers
-- copy from. `crashes` is undefined behaviour.
pub data Started : Type 0 where
  exits : (status : ℕ) → Started
  aborts crashes : Started
  calls_fuse_main : (argc : ℕ) → (argv : List (Option Bytes)) → BbState → Started
  calls_without_root : (argc : ℕ) → (argv : List (Option Bytes)) → Started

-- `".real_storage"`
abbrev pub real_storage : FilePath
real_storage =
    b'.' ∷ b'r' ∷ b'e' ∷ b'a' ∷ b'l' ∷ b'_' ∷ b's' ∷ b't' ∷ b'o' ∷ b'r' ∷ b'a' ∷ b'g' ∷ b'e' ∷ []

-- `argv[i]` below `argc`.
abbrev pub arg_at : ℕ → List Bytes → Bytes
arg_at i [] = []
arg_at zero (a ∷ as') = a
arg_at (suc i) (a ∷ as') = arg_at i as'

-- `argv` with the NULL at its end.
abbrev pub with_null : List Bytes → List (Option Bytes)
with_null [] = none ∷ []
with_null (a ∷ as') = some a ∷ with_null as'

abbrev pub set_arg : ℕ → Option Bytes → List (Option Bytes) → List (Option Bytes)
set_arg i v [] = []
set_arg zero v (a ∷ as') = v ∷ as'
set_arg (suc i) v (a ∷ as') = a ∷ set_arg i v as'

-- `argv[i][0] == '-'`
abbrev pub is_option : Bytes → Bool
is_option [] = false
is_option (c ∷ cs) = c == b'-'

-- The root directory is taken out of `argv`, and the mount point goes to its place.
abbrev pub shift_args : ℕ → List Bytes → List (Option Bytes)
shift_args argc argv =
    set_arg (argc - 1) none (set_arg (argc - 2) (some (arg_at (argc - 1) argv)) (with_null argv))

abbrev pub with_state : (argc : ℕ) → List (Option Bytes) → Option BbState → Started
with_state argc argv none = crashes
with_state argc argv (some bbs) = calls_fuse_main argc argv bbs

-- The state with both directories, or what comes of a NULL.
abbrev pub call_fuse_main :
    Env → (argc : ℕ) → List (Option Bytes) → (rootdir hiddendir : Option FilePath) → Started
call_fuse_main env argc argv rootdir none = crashes
call_fuse_main env argc argv none (some hiddendir) =
    if fits (hashes_path hiddendir) path_max then calls_without_root argc argv else crashes
call_fuse_main env argc argv (some rootdir) (some hiddendir) =
    if fits (hashes_path hiddendir) path_max
    then with_state argc argv (start env rootdir hiddendir)
    else crashes

-- The program goes on with a log, or ends.
abbrev pub log_open : Host → (goes_on : Started) → Started
log_open host goes_on = if not host.log_opens then exits 1 else goes_on

-- `bb_usage` aborts. What mkdir returns is not
-- looked at.
unfoldable pub main : Env → Host → List Bytes → Started
main env host argv =
    let argc = length argv in
    if host.uid == 0 || host.euid == 0
    then exits 1
    else if ltb argc 3 || (is_option (arg_at (argc - 2) argv) || is_option (arg_at (argc - 1) argv))
    then aborts
    else if not host.has_memory
    then aborts
    else log_open host (
        call_fuse_main env (argc - 1) (shift_args argc argv)
          (host.realpath (arg_at (argc - 2) argv)) (host.realpath real_storage))
