-- ===== src/Filesystem/Handlers/Unlink.antt =====
-- What `bb_unlink` of Project 4/filesystem/bbfs.c does to a hidden directory that is in order.
use ece318_operating_systems.Prelude.{
  ltb-true, ℕ, ◌≤◌, ◌<◌, ◌≡◌, refl, ap, true, false, none, some, List, ◌++◌, length, All,
}
use ece318_operating_systems.Filesystem.Bytes.{Bytes, bytes_eq, bytes_eq_refl}
use ece318_operating_systems.Filesystem.Stdio.{
  FilePath, World, Env, Returns, Returns-and_then, ok, put, is_some,
}
use ece318_operating_systems.Filesystem.Hashes.Table.{Row}
use ece318_operating_systems.Filesystem.Blocks.Store.{IsStore}
use ece318_operating_systems.Filesystem.Delete.{delete_blocks}
use ece318_operating_systems.Filesystem.Delete.Release.{NoBlock}
use ece318_operating_systems.Filesystem.Delete.Pointers.{id_text}
use ece318_operating_systems.Filesystem.Delete.Loop.{release_all, InRange, SameOrGone}
use ece318_operating_systems.Filesystem.Delete.Outcome.{Apart, Released, delete_blocks-Releases}
use ece318_operating_systems.Filesystem.Handlers.{bb_fullpath, bb_unlink, unlink}
use ece318_operating_systems.Filesystem.Handlers.Keep.{Apart-same, IsStore-put}

-- The state after a file is unlinked.
pub record Unlinked (env : Env) (rs : List Row) (fpath : FilePath) (w after : World) : Type 0 where
  pub store : IsStore env rs after
  pub gone : after.disk fpath ≡ none
  pub files :
      (path : FilePath)
      → bytes_eq path fpath ≡ false
      → bytes_eq path w.bbs.hashesfile ≡ false
      → NoBlock w.bbs.hiddendir path
      → after.disk path ≡ w.disk path
  pub blocks : (id : ℕ) → id < 1000 → SameOrGone w.bbs.hiddendir w.disk after.disk id
  pub same_bbs : after.bbs ≡ w.bbs

module _ (env : Env) (rs : List Row) (w : World) (path : Bytes) (ids : List ℕ)
    (short : length (w.bbs.rootdir ++ path) < 4096) (is : IsStore env rs w)
    (apart : Apart w (w.bbs.rootdir ++ path)) (opens : env.opens (w.bbs.rootdir ++ path) ≡ true)
    (pointing : w.disk (w.bbs.rootdir ++ path) ≡ some (id_text ids))
    (range : All (InRange (length rs)) ids) (fits : length (id_text ids) ≤ env.buffer_size) where
  abbrev fpath : FilePath
  fpath = w.bbs.rootdir ++ path

  unlinked :
      (v : World)
      → Released env (release_all ids rs) fpath w v
      → Unlinked env (release_all ids rs) fpath w (record v { disk = put v.disk fpath none })
  unlinked v r = record {
    store =
        IsStore-put env (release_all ids rs) v fpath none
          (Apart-same w v fpath (ap (λ b. b.hiddendir) r.same_bbs)
            (ap (λ b. b.hashesfile) r.same_bbs) apart)
          r.store;
    gone = rw (bytes_eq_refl fpath) refl;
    files = λ q ne ne' no. rw (ne) (r.files q ne ne' no);
    blocks = λ id lt. rw (apart.not_block id lt) (r.blocks id lt);
    same_bbs = r.same_bbs;
  }

  -- Unlinking a file, in a hidden directory that is in order: the call succeeds, the file is gone, each of
  -- its pointers has taken one user away from its id, and the directory is in order, without the blocks
  -- that nobody uses any more; no other file has changed but the hashes file, and the blocks that are left
  -- have the content that they had. It is needed that the pointers are ids of the table and fit the
  -- buffer of their stream.
  pub bb_unlink-Releases :
      Returns
        (λ done after. (done ≡ true) × Unlinked env (release_all ids rs) fpath w after)
        (bb_unlink env path w)
  unfolding bb_unlink bb_fullpath unlink
  bb_unlink-Releases = rw (ltb-true (length fpath) 4096 short) (
      Returns-and_then (λ _ v. Released env (release_all ids rs) fpath w v)
        (λ done after. (done ≡ true) × Unlinked env (release_all ids rs) fpath w after)
        (delete_blocks env fpath w)
        (λ _ v. ok (is_some (v.disk fpath)) (record v { disk = put v.disk fpath none }))
        (delete_blocks-Releases env rs w fpath ids is apart opens pointing range fits)
        (λ _ v r. (r.there (rw (pointing) refl), unlinked v r)))
