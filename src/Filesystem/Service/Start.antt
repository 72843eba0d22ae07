-- ===== src/Filesystem/Service/Start.antt =====
-- The filesystem of Project 4/filesystem from the start of `main` on, in an empty directory.
use ece318_operating_systems.Prelude.{◌≡◌, refl, none, some, List, [], ◌++◌, arith}
use ece318_operating_systems.Filesystem.Bytes.{Bytes}
use ece318_operating_systems.Filesystem.Stdio.{
  FilePath, BbState, Disk, World, Env, Returns, content_of,
}
use ece318_operating_systems.Filesystem.Hashes.Table.{encode}
use ece318_operating_systems.Filesystem.Blocks.{hashes_path, get_initial_id_number}
use ece318_operating_systems.Filesystem.Handlers.{start}
use ece318_operating_systems.Filesystem.Service.{
  Model, Request, serve_all, perform_all, answers, AllAllowed, IsName,
}
use ece318_operating_systems.Filesystem.Service.Sound.{OnDisk, IsSound, Config}
use ece318_operating_systems.Filesystem.Service.Refinement.{serve_all-Refines}

abbrev pub no_files : Model
no_files = record { rows = []; files = []; lost = [] }

-- The state with no block yet.
abbrev pub no_blocks : (root dir : FilePath) → BbState
no_blocks root dir = record {
  rootdir = root;
  hashesfile = hashes_path dir;
  last_id = 0;
  hiddendir = dir;
}

abbrev pub started : (root dir : FilePath) → Disk → World
started root dir disk = record { bbs = no_blocks root dir; disk = disk }

module _ (env : Env) (root dir : FilePath) (config : Config env root dir) (disk : Disk)
    (empty : env.listing dir ≡ some []) (no_hashes : disk (hashes_path dir) ≡ none)
    (no_file : (n : Bytes) → IsName env root dir n → disk (root ++ n) ≡ none) where
  empty-OnDisk : OnDisk env root dir no_files disk
  unfolding encode
  empty-OnDisk = record {
    store = record {
      named = refl;
      holds = record {
        opens = config.settled.hashes_open;
        file = rw (content_of, no_hashes) refl;
        rows = tt;
        last = refl;
        small = omega arith;
      };
      blocks = tt;
    };
    files = tt;
    others = λ n is out. no_file n is;
    named = tt;
    lost = tt;
    counted = tt;
  }

  pub start_lem : start env root dir ≡ some (no_blocks root dir)
  unfolding start get_initial_id_number
  start_lem = rw (start, get_initial_id_number, empty) refl

  start-IsSound : IsSound env root dir no_files (started root dir disk)
  start-IsSound = record { same_bbs = refl; on_disk = empty-OnDisk }

  -- From the state that `start` gives for an empty hidden directory, with no files, any sequence of
  -- requests that may come runs without a fault, and is answered as the abstract view says that starts
  -- with no files.
  pub start-Serves :
      (rs : List Request)
      → AllAllowed env root dir no_files rs
      → Returns
          (λ as' v.
            (as' ≡ answers env rs no_files) × IsSound env root dir (perform_all env rs no_files) v)
          (serve_all env rs (started root dir disk))
  start-Serves rs may =
      serve_all-Refines env root dir config rs no_files (started root dir disk) start-IsSound may
