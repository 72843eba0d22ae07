-- ===== src/Filesystem/Main/Serves.antt =====
-- The filesystem of Project 4/filesystem from `main` on.
use ece318_operating_systems.Prelude.{
  suc, ◌+◌, ◌-◌, ◌<◌, ◌≡◌, refl, ap, ◌∙◌, true, false, Option, none, some, List, [], ◌∷◌, ◌++◌,
  ◌==◌, ltb, length, length-append, arith,
}
use ece318_operating_systems.Filesystem.Bytes.{Bytes}
use ece318_operating_systems.Filesystem.Stdio.{FilePath, Disk, BbState, Env, Returns}
use ece318_operating_systems.Filesystem.Blocks.{path_max, hashes_path, fits}
use ece318_operating_systems.Filesystem.Handlers.{start}
use ece318_operating_systems.Filesystem.Service.{
  Request, serve_all, perform_all, answers, AllAllowed, IsName,
}
use ece318_operating_systems.Filesystem.Service.Sound.{IsSound, Config}
use ece318_operating_systems.Filesystem.Service.Start.{no_files, no_blocks, start_lem, start-Serves}
use ece318_operating_systems.Filesystem.Main.{
  Host, calls_fuse_main, real_storage, arg_at, with_null, set_arg, is_option, main,
}

module _ (opts : List Bytes) (root_arg mount : Bytes) where
  -- The arguments: the program's name and the options of FUSE, the root directory, the mount point.
  abbrev pub arguments : List Bytes
  arguments = opts ++ root_arg ∷ mount ∷ []

  length-arguments : length arguments ≡ 2 + length opts
  length-arguments = length-append opts (root_arg ∷ mount ∷ []) ∙ omega arith

arg_at-root : (opts : List Bytes) (r m : Bytes) → arg_at (length opts) (opts ++ r ∷ m ∷ []) ≡ r
arg_at-root [] r m = refl
arg_at-root (o ∷ opts) r m = arg_at-root opts r m

arg_at-mount :
    (opts : List Bytes) (r m : Bytes) → arg_at (suc (length opts)) (opts ++ r ∷ m ∷ []) ≡ m
arg_at-mount [] r m = refl
arg_at-mount (o ∷ opts) r m = arg_at-mount opts r m

set_arg-shift :
    (opts : List Bytes) (r m : Bytes)
    → set_arg
        (suc (length opts))
        none
        (set_arg (length opts) (some m) (with_null (opts ++ r ∷ m ∷ [])))
      ≡ with_null (opts ++ m ∷ []) ++ none ∷ []
set_arg-shift [] r m = refl
set_arg-shift (o ∷ opts) r m = ap (λ (l : List (Option Bytes)). some o ∷ l) (set_arg-shift opts r m)

-- The user is not root, the arguments are in order, and the system gives what `main` asks for.
pub record CanStart (host : Host) (opts : List Bytes) (root_arg mount : Bytes) (root dir : FilePath)
    : Type 0 where
  pub uid : 0 < host.uid
  pub euid : 0 < host.euid
  pub has_memory : host.has_memory ≡ true
  pub log_opens : host.log_opens ≡ true
  pub named : 0 < length opts
  pub root_plain : is_option root_arg ≡ false
  pub mount_plain : is_option mount ≡ false
  pub root_dir : host.realpath root_arg ≡ some root
  pub hidden_dir : host.realpath real_storage ≡ some dir
  pub hashes : fits (hashes_path dir) path_max ≡ true

module _ (env : Env) (root dir : FilePath) (host : Host) (opts : List Bytes)
    (root_arg mount : Bytes) (can : CanStart host opts root_arg mount root dir) where
  main_lem :
      (bbs : BbState)
      → start env root dir ≡ some bbs
      → main env host (arguments opts root_arg mount)
        ≡ calls_fuse_main (suc (length opts)) (with_null (opts ++ mount ∷ []) ++ none ∷ []) bbs
  unfolding main
  main_lem bbs starts =
      let len = length-arguments opts root_arg mount in
      let user : host.uid == 0 ≡ false = ground (arith, can.uid) in
      let effective : host.euid == 0 ≡ false = ground (arith, can.euid) in
      let long : ltb (length (arguments opts root_arg mount)) 3 ≡ false =
        ground (arith, len, can.named) in
      let one_less : length (arguments opts root_arg mount) - 1 ≡ suc (length opts) =
        omega (arith, len) in
      let two_less : length (arguments opts root_arg mount) - 2 ≡ length opts =
        omega (arith, len) in
      rw
        (
          main,
          user,
          effective,
          long,
          one_less,
          two_less,
          arg_at-root opts root_arg mount,
          arg_at-mount opts root_arg mount,
          can.root_plain,
          can.mount_plain,
          can.has_memory,
          can.log_opens,
          can.root_dir,
          can.hidden_dir,
          can.hashes,
          starts,
          set_arg-shift opts root_arg mount,
        )
        refl

  -- Where the user is not root, the last two arguments are no options and the first of them names a
  -- directory, memory, log and hidden directory are there, the hidden directory is empty and no file is
  -- there, and where the surroundings are as `Config` asks (the hashes file, the blocks and `temp` can be
  -- opened, their paths fit, a digest has 20 bytes, a `malloc` gives what is asked for and one byte more for
  -- the name of a block, and a stream reads 453 bytes at once): `main` calls fuse_main with the root
  -- directory taken out of the arguments, and from its state on any sequence of requests that may come runs
  -- without a fault, and is answered as the abstract view says that starts with no files.
  pub main-Serves :
      (config : Config env root dir) (disk : Disk)
      → env.listing dir ≡ some []
      → disk (hashes_path dir) ≡ none
      → ((n : Bytes) → IsName env root dir n → disk (root ++ n) ≡ none)
      → (rs : List Request) → AllAllowed env root dir no_files rs
      → (bbs : BbState) × ((main env host (arguments opts root_arg mount)
            ≡ calls_fuse_main (suc (length opts)) (with_null (opts ++ mount ∷ []) ++ none ∷ []) bbs)
          × Returns
              (λ as' v.
                (as' ≡ answers env rs no_files)
                × IsSound env root dir (perform_all env rs no_files) v)
              (serve_all env rs (record { bbs = bbs; disk = disk })))
  main-Serves config disk empty no_hashes no_file rs may = (
    no_blocks root dir,
    (
      main_lem (no_blocks root dir) (start_lem env root dir config disk empty no_hashes no_file),
      start-Serves env root dir config disk empty no_hashes no_file rs may,
    ),
  )
