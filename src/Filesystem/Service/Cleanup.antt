-- ===== src/Filesystem/Service/Cleanup.antt =====
-- Unlinking every file of Project 4/filesystem.
use ece318_operating_systems.Prelude.{
  ℕ, ◌≡◌, ◌↔◌, refl, subst, ◌∙◌, none, List, [], ◌∷◌, ◌++◌, length, arith,
}
use ece318_operating_systems.Filesystem.Bytes.{Bytes, bytes_eq_refl}
use ece318_operating_systems.Filesystem.Decimal.{format}
use ece318_operating_systems.Filesystem.Stdio.{FilePath, World, Env, Returns, Returns-map}
use ece318_operating_systems.Filesystem.Hashes.Table.{Row}
use ece318_operating_systems.Filesystem.Blocks.{block_path}
use ece318_operating_systems.Filesystem.Delete.Loop.{InRange, release_all}
use ece318_operating_systems.Filesystem.Delete.Outcome.{length-release_all}
use ece318_operating_systems.Filesystem.Service.{
  File, ids, occurs, Model, Request, unlinks, serve_all, perform, perform_all, answers, AllAllowed,
  IsName,
}
use ece318_operating_systems.Filesystem.Service.Sound.{IsSound, Config}
use ece318_operating_systems.Filesystem.Service.Refinement.{serve_all-Refines, block-Held}

abbrev pub unlink_all : List File → List Request
unlink_all [] = []
unlink_all (f ∷ fs) = unlinks f.name ∷ unlink_all fs

abbrev model : List Row → List File → List ℕ → Model
model rs fs lost = record { rows = rs; files = fs; lost = lost }

unlink_all-Allowed :
    (env : Env) (root dir : FilePath) (rs : List Row) (fs : List File) (lost : List ℕ)
    → AllAllowed env root dir (model rs fs lost) (unlink_all fs)
unfolding perform
unlink_all-Allowed env root dir rs [] lost = tt
unlink_all-Allowed env root dir rs (f ∷ fs) lost =
    rw (bytes_eq_refl f.name)
      (refl, unlink_all-Allowed env root dir (release_all (ids f.chunks) rs) fs lost)

unlink_all-model :
    (env : Env) (rs : List Row) (fs : List File) (lost : List ℕ)
    → (left : List Row) × ((perform_all env (unlink_all fs) (model rs fs lost) ≡ model left [] lost)
        × (length left ≡ length rs))
unfolding perform
unlink_all-model env rs [] lost = (rs, (refl, refl))
unlink_all-model env rs (f ∷ fs) lost =
    let (left, (e, l)) = unlink_all-model env (release_all (ids f.chunks) rs) fs lost in
    (left, (rw (perform_all, bytes_eq_refl f.name) e, l ∙ length-release_all (ids f.chunks) rs))

module _ (env : Env) (root dir : FilePath) (config : Config env root dir) where
  abbrev pub Cleaned : Model → World → Type 0
  Cleaned m v =
      ((n : Bytes) → IsName env root dir n → v.disk (root ++ n) ≡ none)
      × ((i : ℕ)
          → InRange (length m.rows) i
          → (v.disk (block_path dir (format 3 i)) ≡ none) ↔ (occurs i m.lost ≡ 0))

  empty-Cleaned :
      (m : Model) (left : List Row) (v : World)
      → length left ≡ length m.rows
      → IsSound env root dir (model left [] m.lost) v
      → Cleaned m v
  empty-Cleaned m left v e sound = (
    λ n name. sound.on_disk.others n name refl,
    λ i range.
        let held =
          block-Held env root dir (model left [] m.lost) v sound i
            (range.0, omega (arith, range.1, e)) in
        (λ gone. omega (arith, held.0 gone), λ none_lost. held.1 (omega (arith, none_lost))),
  )

  -- In a state that the abstract view describes, in surroundings as `Config` asks, unlinking all files one after the other succeeds: no file
  -- of the user is left, and each block that the table has is gone, unless a pointer to it was lost when
  -- it was overwritten, cut off or replaced with its file.
  pub unlink_all-Cleans :
      (m : Model) (w : World)
      → IsSound env root dir m w
      → Returns
          (λ as' v. (as' ≡ answers env (unlink_all m.files) m) × Cleaned m v)
          (serve_all env (unlink_all m.files) w)
  unlink_all-Cleans m w sound =
      let (left, (e, l)) = unlink_all-model env m.rows m.files m.lost in
      Returns-map
        (λ as' v.
          (as' ≡ answers env (unlink_all m.files) m)
          × IsSound env root dir (perform_all env (unlink_all m.files) m) v)
        (λ as' v. (as' ≡ answers env (unlink_all m.files) m) × Cleaned m v)
        (serve_all env (unlink_all m.files) w)
        (λ as' v p. (p.0, empty-Cleaned m left v l (subst (λ x. IsSound env root dir x v) e p.1)))
        (serve_all-Refines env root dir config (unlink_all m.files) m w sound
          (unlink_all-Allowed env root dir m.rows m.files m.lost))
