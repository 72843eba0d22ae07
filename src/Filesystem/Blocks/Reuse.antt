-- ===== src/Filesystem/Blocks/Reuse.antt =====
-- `generate_block` of Project 4/filesystem/our_lib.c, for a block whose hash is in use.
use ece318_operating_systems.Prelude.{
  ltb-false, ℕ, ◌+◌, ◌<◌, ◌≡◌, refl, sym, subst, ◌∙◌, some, List, length, arith, All,
}
use ece318_operating_systems.Filesystem.Bytes.{Bytes, bytes_eq_refl}
use ece318_operating_systems.Filesystem.Stdio.{World, Env, ok, content_of, c_string}
use ece318_operating_systems.Filesystem.Hashes.{generate_hash}
use ece318_operating_systems.Filesystem.Hashes.Table.{Row, row, encode}
use ece318_operating_systems.Filesystem.Hashes.Compare.{compare_hashes-Finds, touched}
use ece318_operating_systems.Filesystem.Hashes.Insert.{
  insert, Present, write_hash-again, wrote, present_lt, HasRoom, present-HasRoom, insert-IsRow,
  length-insert-Present,
}
use ece318_operating_systems.Filesystem.Blocks.{generate_block}
use ece318_operating_systems.Filesystem.Blocks.Store.{
  Rows, Rows-at, IsStore, LiveRow, Settled, HasBlock, Rows-replace,
}
use ece318_operating_systems.Filesystem.Blocks.Generated.{
  Generated, compared-opens, new_row, blocks-hashes_put,
}

module _ (env : Env) (rs : List Row) (w : World) (block_data : Bytes)
    (settled : Settled env w.bbs.hiddendir) (is : IsStore env rs w) (room : All HasRoom rs)
    (small : 1 + length rs < 1000) where
  abbrev hash : Bytes
  hash = generate_hash env block_data

  abbrev text : Bytes
  text = c_string block_data

  abbrev compared : World
  compared = touched w (encode 1 rs)

  module _ (p : Present 1 hash rs) where
    abbrev pub again : World
    again = wrote compared (insert hash rs)

    abbrev Live : ℕ → Row → Type 0
    Live = LiveRow env w.bbs.hiddendir again.disk

    pub generate_block-again : generate_block env block_data w ≡ ok (1 + length p.before) again
    unfolding generate_block
    generate_block-again =
        rw
          (
            compare_hashes-Finds env rs hash w is.holds,
            p.found,
            ltb-false w.bbs.last_id (1 + length p.before)
                (omega (arith, present_lt hash rs small p, is.holds.last)),
            write_hash-again env hash rs compared
                (compared-opens env rs w block_data settled is room small) is.holds.last small p
                is.holds.rows (present-HasRoom hash rs p room),
          )
          refl

    again-blocks : Rows Live 1 rs
    again-blocks =
        (blocks-hashes_put env rs w block_data settled is room small) compared.disk
          (some (encode 1 (insert hash rs)))
          ((blocks-hashes_put env rs w block_data settled is room small) w.disk (some (encode 1 rs))
            is.blocks)

    again-IsStore : IsStore env (insert hash rs) again
    again-IsStore = record {
      named = is.named;
      holds = record {
        opens = is.holds.opens;
        file = rw (content_of, bytes_eq_refl w.bbs.hashesfile) refl;
        rows =
            insert-IsRow hash rs is.holds.rows room
              (new_row env rs w block_data settled is room small);
        last = is.holds.last ∙ sym (length-insert-Present hash rs p);
        small = omega (arith, small, length-insert-Present hash rs p);
      };
      blocks = subst (Rows Live 1) (sym p.inserted) (
          Rows-replace Live 1 p.before p.after p.at (row (p.at.counter + 1) p.at.hash)
            (λ j l. (λ _. l.0 p.in_use, λ e. absurd (ground arith)))
            (subst (Rows Live 1) p.splits again-blocks));
    }

    again-block : HasBlock env w.bbs.hiddendir again.disk (1 + length p.before) hash
    again-block = subst (HasBlock env w.bbs.hiddendir again.disk (1 + length p.before)) p.hash_eq (
        (Rows-at Live 1 p.before p.after p.at (subst (Rows Live 1) p.splits again-blocks)).0
          p.in_use)

    pub again-Generated : Generated env rs w hash again
    again-Generated = record {
      store = again-IsStore;
      same_dir = refl;
      same_root = refl;
      block = rw (p.found) again-block;
      kept = λ path ne _. rw (ne) refl;
    }
