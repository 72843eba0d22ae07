-- ===== src/Filesystem/Service/Refinement.antt =====
-- The filesystem of Project 4/filesystem refines named lists of blocks, whatever the order of the requests.
use ece318_operating_systems.Prelude.{
  ℕ, ◌≡◌, ◌↔◌, refl, sym, subst, Bool-cases, inl, inr, none, List, [], ◌∷◌, ◌==◌, length, arith,
}
use ece318_operating_systems.Filesystem.Decimal.{format}
use ece318_operating_systems.Filesystem.Stdio.{
  FilePath, Disk, World, Env, Returns, Returns-and_then, pure, ◌>>=◌,
}
use ece318_operating_systems.Filesystem.Blocks.{block_path}
use ece318_operating_systems.Filesystem.Blocks.Store.{LiveRow}
use ece318_operating_systems.Filesystem.Delete.Loop.{InRange}
use ece318_operating_systems.Filesystem.Service.{
  Model, Request, creates, unlinks, empties, renames, writes, reads, serve, serve_all, perform,
  perform_all, answers, Allowed, AllAllowed,
}
use ece318_operating_systems.Filesystem.Service.Counts.{Counted, Rows-both, Rows-find}
use ece318_operating_systems.Filesystem.Service.Sound.{
  world_of, OnDisk, IsSound, Served, Config, holders,
}
use ece318_operating_systems.Filesystem.Service.Create.{create-Serves}
use ece318_operating_systems.Filesystem.Service.Empty.{empty-Serves}
use ece318_operating_systems.Filesystem.Service.Read.{read-Serves}
use ece318_operating_systems.Filesystem.Service.Rename.{rename-Serves}
use ece318_operating_systems.Filesystem.Service.Unlink.{unlink-Serves}
use ece318_operating_systems.Filesystem.Service.Write.{write-Serves}

module _ (env : Env) (root dir : FilePath) (config : Config env root dir) where
  OnDisk-Serves :
      (r : Request) (m : Model) (disk : Disk)
      → OnDisk env root dir m disk
      → Allowed env root dir m r
      → Returns (Served env root dir r m) (serve env r (world_of root dir (length m.rows) disk))
  OnDisk-Serves (creates n) m disk on may = create-Serves env root dir m disk on n may
  OnDisk-Serves (unlinks n) m disk on may = unlink-Serves env root dir config m disk on n may
  OnDisk-Serves (empties n) m disk on may = empty-Serves env root dir m disk on n may
  OnDisk-Serves (renames old new) m disk on may =
      rename-Serves env root dir m disk on old new may.0 may.1
  OnDisk-Serves (writes n buf size block) m disk on may =
      write-Serves env root dir config m disk on n buf size block may
  OnDisk-Serves (reads n buf size offset) m disk on may =
      read-Serves env root dir config m disk on n buf size offset may.0 may.1

  -- In a state that the abstract view describes, every request that may come runs without a fault, is
  -- answered as the view says, and leaves a state that the view describes after the request: a file that
  -- is created, unlinked, emptied, renamed (also over another one), written (behind its blocks or over
  -- one of them) or read.
  pub serve-Refines :
      (r : Request) (m : Model) (w : World)
      → IsSound env root dir m w
      → Allowed env root dir m r
      → Returns (Served env root dir r m) (serve env r w)
  serve-Refines r m w sound may =
      subst
        (λ b. Returns (Served env root dir r m) (serve env r (record { bbs = b; disk = w.disk })))
        (sym sound.same_bbs) (OnDisk-Serves r m w.disk sound.on_disk may)

  -- Where the surroundings are as `Config` asks (the hashes file, the blocks and `temp` can be opened, their
  -- paths fit, a digest has 20 bytes, a `malloc` gives what is asked for and one byte more for the name of a
  -- block, and a stream reads 453 bytes at once), any sequence of requests that may come runs without a
  -- fault, from a state that the abstract view describes, and at the end the view describes the state. A read
  -- that asks for at least the length of the file is answered with the whole content, whatever its offset: the
  -- texts of the blocks that were written, each up to its first NUL. Every other request is answered as the
  -- view says.
  pub serve_all-Refines :
      (rs : List Request) (m : Model) (w : World)
      → IsSound env root dir m w
      → AllAllowed env root dir m rs
      → Returns
          (λ as' v. (as' ≡ answers env rs m) × IsSound env root dir (perform_all env rs m) v)
          (serve_all env rs w)
  unfolding serve_all
  serve_all-Refines [] m w sound may = (refl, sound)
  serve_all-Refines (r ∷ rs) m w sound may =
      Returns-and_then (Served env root dir r m)
        (λ as' v.
          (as' ≡ answers env (r ∷ rs) m) × IsSound env root dir (perform_all env (r ∷ rs) m) v)
        (serve env r w) (λ a. serve_all env rs >>= λ as'. pure (a ∷ as'))
        (serve-Refines r m w sound may.0)
        (λ a v p.
          Returns-and_then
            (λ as' u.
              (as' ≡ answers env rs (perform env r m))
              × IsSound env root dir (perform_all env rs (perform env r m)) u)
            (λ as' u.
              (as' ≡ answers env (r ∷ rs) m) × IsSound env root dir (perform_all env (r ∷ rs) m) u)
            (serve_all env rs v) (λ as'. pure (a ∷ as'))
            (serve_all-Refines rs (perform env r m) v p.1 may.1)
            (λ as' u q. (rw (p.0, q.0) refl, q.1)))

-- A block of the table is on the disk exactly when a file or a lost pointer holds it.
pub block-Held :
    (env : Env) (root dir : FilePath) (m : Model) (w : World)
    → IsSound env root dir m w
    → (i : ℕ) → InRange (length m.rows) i
    → (w.disk (block_path dir (format 3 i)) ≡ none) ↔ (holders m i ≡ 0)
block-Held env root dir m w sound i range =
    let (r, (live, count)) =
      Rows-find (λ j x. LiveRow env dir w.disk j x × Counted (holders m) j x) 1 i m.rows range.0
        (omega (arith, range.1))
        (Rows-both (LiveRow env dir w.disk) (Counted (holders m)) 1 m.rows
          sound.on_disk.store.blocks sound.on_disk.counted) in
    (
      λ gone. elim (Bool-cases (r.counter == 0)) [
        | inl e ↦ ground arith
        | inr e ↦ absurd (cc (live.0 e).on_disk)
      ],
      λ none_left. live.1 (ground arith),
    )
