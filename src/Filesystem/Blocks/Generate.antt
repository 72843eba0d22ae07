-- ===== src/Filesystem/Blocks/Generate.antt =====
-- What `generate_block` of Project 4/filesystem/our_lib.c does to a hidden directory that is in order.
use ece318_operating_systems.Prelude.{◌+◌, ◌<◌, ◌≡◌, ap, sym, ◌∙◌, inl, inr, List, length, All}
use ece318_operating_systems.Filesystem.Bytes.{Bytes}
use ece318_operating_systems.Filesystem.Stdio.{World, Env, Returns}
use ece318_operating_systems.Filesystem.Hashes.{generate_hash}
use ece318_operating_systems.Filesystem.Hashes.Table.{Row}
use ece318_operating_systems.Filesystem.Hashes.Compare.{or_next, id_for}
use ece318_operating_systems.Filesystem.Hashes.Insert.{insert-cases, HasRoom}
use ece318_operating_systems.Filesystem.Blocks.{generate_block}
use ece318_operating_systems.Filesystem.Blocks.Store.{IsStore, Settled}
use ece318_operating_systems.Filesystem.Blocks.Generated.{Generated}
use ece318_operating_systems.Filesystem.Blocks.Reuse.{generate_block-again, again-Generated}
use ece318_operating_systems.Filesystem.Blocks.Fresh.{generate_block-new, filled-Generated}

module _ (env : Env) (rs : List Row) (w : World) (block_data : Bytes)
    (settled : Settled env w.bbs.hiddendir) (is : IsStore env rs w) (room : All HasRoom rs)
    (small : 1 + length rs < 1000) where
  abbrev hash : Bytes
  hash = generate_hash env block_data

  -- A block that is stored in a hidden directory that is in order, where each counter is below 99 and
  -- there are fewer than 999 ids, leaves it in order: `generate_block` returns the id of the first row in
  -- use with the block's hash, with one more user, or else the next id, with a new row for it. The block
  -- of that id has the hash, and no other file changes but the hashes file and a new block.
  pub generate_block-Generates :
      Returns
        (λ id after. (id ≡ id_for hash rs) × Generated env rs w hash after)
        (generate_block env block_data w)
  generate_block-Generates = elim (insert-cases 1 hash rs) [
    | inl p ↦ rw ((generate_block-again env rs w block_data settled is room small) p) (
      sym (ap (λ f. or_next f (length rs)) p.found),
      (again-Generated env rs w block_data settled is room small) p,
    )
    | inr p ↦ rw ((generate_block-new env rs w block_data settled is room small) p) (
      ap (λ n. n + 1) is.holds.last ∙ sym (ap (λ f. or_next f (length rs)) p.not_found),
      (filled-Generated env rs w block_data settled is room small) p,
    )
  ]
