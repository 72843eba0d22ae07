-- ===== src/Filesystem/Blocks/Generated.antt =====
-- What `generate_block` of Project 4/filesystem/our_lib.c leaves of a hidden directory that is in order.
use ece318_operating_systems.Prelude.{
  ℕ, ◌+◌, ◌<◌, ◌≡◌, refl, false, Option, some, List, length, arith, All,
}
use ece318_operating_systems.Filesystem.Bytes.{Bytes, bytes_eq, bytes_eq_refl}
use ece318_operating_systems.Filesystem.Decimal.{format}
use ece318_operating_systems.Filesystem.Stdio.{
  FilePath, Disk, World, Env, open_content, put, c_string,
}
use ece318_operating_systems.Filesystem.Hashes.{generate_hash}
use ece318_operating_systems.Filesystem.Hashes.Table.{Row, row, IsRow, encode}
use ece318_operating_systems.Filesystem.Hashes.Compare.{touched, id_for}
use ece318_operating_systems.Filesystem.Hashes.Insert.{insert, HasRoom}
use ece318_operating_systems.Filesystem.Blocks.{block_path}
use ece318_operating_systems.Filesystem.Blocks.Digest.{hash-IsRow, c_string-c_string}
use ece318_operating_systems.Filesystem.Blocks.Paths.{block_path-hashes_ne}
use ece318_operating_systems.Filesystem.Blocks.Store.{
  Rows, Rows-put, IsStore, LiveRow, Settled, HasBlock,
}

-- What is known of the state after a block is stored.
pub record Generated (env : Env) (rs : List Row) (w : World) (hash : Bytes) (after : World)
    : Type 0 where
  pub store : IsStore env (insert hash rs) after
  pub same_dir : after.bbs.hiddendir ≡ w.bbs.hiddendir
  pub same_root : after.bbs.rootdir ≡ w.bbs.rootdir
  pub block : HasBlock env w.bbs.hiddendir after.disk (id_for hash rs) hash
  pub kept :
      (path : FilePath)
      → bytes_eq path w.bbs.hashesfile ≡ false
      → bytes_eq path (block_path w.bbs.hiddendir (format 3 (w.bbs.last_id + 1))) ≡ false
      → after.disk path ≡ w.disk path

module _ (env : Env) (rs : List Row) (w : World) (block_data : Bytes)
    (settled : Settled env w.bbs.hiddendir) (is : IsStore env rs w) (room : All HasRoom rs)
    (small : 1 + length rs < 1000) where
  abbrev pub hash : Bytes
  hash = generate_hash env block_data

  abbrev pub text : Bytes
  text = c_string block_data

  pub hash-of_text : generate_hash env text ≡ hash
  unfolding generate_hash
  hash-of_text = rw (c_string-c_string block_data) refl

  pub new_row : IsRow (row 1 hash)
  new_row = hash-IsRow env 1 block_data (settled.digest (c_string block_data)) (omega arith)

  abbrev pub compared : World
  compared = touched w (encode 1 rs)

  pub compared-opens : open_content env compared.disk w.bbs.hashesfile ≡ some (encode 1 rs)
  unfolding open_content
  compared-opens = rw (is.holds.opens, bytes_eq_refl w.bbs.hashesfile) refl

  pub block-hashes_ne :
      (id : ℕ)
      → id < 1000
      → bytes_eq (block_path w.bbs.hiddendir (format 3 id)) w.bbs.hashesfile ≡ false
  block-hashes_ne id lt = rw (is.named) (block_path-hashes_ne w.bbs.hiddendir id lt)

  pub blocks-hashes_put :
      (disk : Disk) (c : Option Bytes)
      → Rows (LiveRow env w.bbs.hiddendir disk) 1 rs
      → Rows (LiveRow env w.bbs.hiddendir (put disk w.bbs.hashesfile c)) 1 rs
  blocks-hashes_put disk c =
      Rows-put env w.bbs.hiddendir disk w.bbs.hashesfile c 1 1000 rs (omega arith) block-hashes_ne
