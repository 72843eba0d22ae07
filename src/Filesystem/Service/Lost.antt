-- ===== src/Filesystem/Service/Lost.antt =====
-- The blocks of Project 4/filesystem whose pointers are lost.
use ece318_operating_systems.Prelude.{
  ℕ, ◌≤◌, ◌<◌, ◌≡◌, none, Bool-cases, inl, inr, List, [], ◌∷◌, length, arith,
}
use ece318_operating_systems.Filesystem.Bytes.{bytes_eq}
use ece318_operating_systems.Filesystem.Decimal.{format}
use ece318_operating_systems.Filesystem.Stdio.{FilePath, World, Env, Returns, Returns-map}
use ece318_operating_systems.Filesystem.Blocks.{block_path}
use ece318_operating_systems.Filesystem.Delete.Loop.{InRange}
use ece318_operating_systems.Filesystem.Service.{
  ids, occurs, chunks_of, replaced, Model, Request, creates, unlinks, empties, renames, writes,
  reads, serve_all, perform, perform_all, answers, AllAllowed,
}
use ece318_operating_systems.Filesystem.Service.Files.{occurs-append, occurs-of_All}
use ece318_operating_systems.Filesystem.Service.Sound.{IsSound, Config}
use ece318_operating_systems.Filesystem.Service.Refinement.{serve_all-Refines, block-Held}

perform-keeps_lost :
    (env : Env) (i : ℕ) (r : Request) (m : Model)
    → occurs i m.lost ≤ occurs i (perform env r m).lost
unfolding perform
perform-keeps_lost env i (creates n) m = omega arith
perform-keeps_lost env i (unlinks n) m = omega arith
perform-keeps_lost env i (empties n) m =
    omega (arith, occurs-append i (ids (chunks_of n m.files)) m.lost)
perform-keeps_lost env i (renames old new) m = elim (Bool-cases (bytes_eq old new)) [
  | inl e ↦ rw (e) (omega arith)
  | inr e ↦ rw (e) (omega (arith, occurs-append i (ids (chunks_of new m.files)) m.lost))
]
perform-keeps_lost env i (writes n buf size block) m =
    omega (arith, occurs-append i (replaced block (chunks_of n m.files)) m.lost)
perform-keeps_lost env i (reads n buf size offset) m = omega arith

perform_all-keeps_lost :
    (env : Env) (i : ℕ) (rs : List Request) (m : Model)
    → occurs i m.lost ≤ occurs i (perform_all env rs m).lost
perform_all-keeps_lost env i [] m = omega arith
perform_all-keeps_lost env i (r ∷ rs) m =
    omega (arith, perform-keeps_lost env i r m, perform_all-keeps_lost env i rs (perform env r m))

module _ (env : Env) (root dir : FilePath) (config : Config env root dir) where
  held-stays :
      (m : Model) (v : World) (i : ℕ)
      → IsSound env root dir m v
      → 0 < occurs i m.lost
      → ¬ (v.disk (block_path dir (format 3 i)) ≡ none)
  held-stays m v i sound lost gone =
      let range = occurs-of_All (InRange (length m.rows)) i m.lost sound.on_disk.lost lost in
      let none_left = (block-Held env root dir m v sound i range).0 gone in
      absurd (omega (arith, none_left))

  -- A block with a lost pointer is never removed: it is on the disk after any sequence of requests that
  -- may come, also when every file has been unlinked, in surroundings as `Config` asks.
  pub lost-Stays :
      (rs : List Request) (m : Model) (w : World) (i : ℕ)
      → IsSound env root dir m w
      → AllAllowed env root dir m rs
      → 0 < occurs i m.lost
      → Returns (λ as' v. ¬ (v.disk (block_path dir (format 3 i)) ≡ none)) (serve_all env rs w)
  lost-Stays rs m w i sound may lost =
      Returns-map
        (λ as' v. (as' ≡ answers env rs m) × IsSound env root dir (perform_all env rs m) v)
        (λ as' v. ¬ (v.disk (block_path dir (format 3 i)) ≡ none)) (serve_all env rs w)
        (λ as' v p.
          held-stays (perform_all env rs m) v i p.1
            (omega (arith, perform_all-keeps_lost env i rs m)))
        (serve_all-Refines env root dir config rs m w sound may)
