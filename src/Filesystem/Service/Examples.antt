-- ===== src/Filesystem/Service/Examples.antt =====
-- The theorems on the requests of Project 4/filesystem, on a small directory.
use ece318_operating_systems.Prelude.{◌≡◌, refl, true, none, some, [], ◌∷◌, if◌then◌else◌, arith}
use ece318_operating_systems.Filesystem.Decimal.{format}
use ece318_operating_systems.Filesystem.Stdio.{BbState, Returns}
use ece318_operating_systems.Filesystem.Bytes.{Bytes, bytes_eq}
use ece318_operating_systems.Filesystem.Blocks.{block_path}
use ece318_operating_systems.Filesystem.Service.{creates, serve_all, perform_all, answers}
use ece318_operating_systems.Filesystem.Service.Sound.{IsSound}
use ece318_operating_systems.Filesystem.Service.Refinement.{serve_all-Refines}
use ece318_operating_systems.Filesystem.Service.Cleanup.{unlink_all, Cleaned, unlink_all-Cleans}
use ece318_operating_systems.Filesystem.Service.Lost.{lost-Stays}
use ece318_operating_systems.Filesystem.Service.Start.{no_files}
use ece318_operating_systems.Filesystem.Main.{Host, calls_fuse_main, main}
use ece318_operating_systems.Filesystem.Main.Serves.{CanStart, main-Serves}
use ece318_operating_systems.Filesystem.Sample.{env, root, hidden, file_name, world}
use ece318_operating_systems.Filesystem.Service.Sample.{
  model, other_name, other-IsName, config, sound, lost_model, lost_world, lost-IsSound, empty_env,
  no_disk, empty-IsName, empty_config, requests, requests-AllAllowed,
}

serve_all-Refines_example :
    Returns
      (λ as' v.
        (as' ≡ answers env requests model)
        × IsSound env root hidden (perform_all env requests model) v)
      (serve_all env requests world)
serve_all-Refines_example =
    serve_all-Refines env root hidden config requests model world sound requests-AllAllowed

unlink_all-Cleans_example :
    Returns
      (λ as' v.
        (as' ≡ answers env (unlink_all model.files) model) × Cleaned env root hidden config model v)
      (serve_all env (unlink_all model.files) world)
unlink_all-Cleans_example = unlink_all-Cleans env root hidden config model world sound

lost-Stays_example :
    Returns
      (λ as' v. ¬ (v.disk (block_path hidden (format 3 1)) ≡ none))
      (serve_all env (creates other_name ∷ []) lost_world)
lost-Stays_example =
    lost-Stays env root hidden config (creates other_name ∷ []) lost_model lost_world 1 lost-IsSound
      (other-IsName, tt) (omega arith)

-- `bbfs r m` by the user 1000.
abbrev program : Bytes
program = b'b' ∷ b'b' ∷ b'f' ∷ b's' ∷ []

abbrev root_arg : Bytes
root_arg = b'r' ∷ []

abbrev mount : Bytes
mount = b'm' ∷ []

abbrev host : Host
host = record {
  uid = 1000;
  euid = 1000;
  has_memory = true;
  log_opens = true;
  realpath = λ p. if bytes_eq p root_arg then some root else some hidden;
}

can_start : CanStart host (program ∷ []) root_arg mount root hidden
can_start = record {
  uid = omega arith;
  euid = omega arith;
  has_memory = refl;
  log_opens = refl;
  named = omega arith;
  root_plain = refl;
  mount_plain = refl;
  root_dir = refl;
  hidden_dir = refl;
  hashes = refl;
}

main-Serves_example :
    (bbs : BbState) × ((main empty_env host (program ∷ root_arg ∷ mount ∷ [])
        ≡ calls_fuse_main 2 (some program ∷ some mount ∷ none ∷ none ∷ []) bbs)
      × Returns
          (λ as' v.
            (as' ≡ answers empty_env (creates file_name ∷ []) no_files)
            × IsSound empty_env root hidden
                (perform_all empty_env (creates file_name ∷ []) no_files)
                v)
          (serve_all empty_env (creates file_name ∷ []) (record { bbs = bbs; disk = no_disk })))
main-Serves_example =
    main-Serves empty_env root hidden host (program ∷ []) root_arg mount can_start empty_config
      no_disk refl refl (λ n name. refl) (creates file_name ∷ []) (empty-IsName, tt)
