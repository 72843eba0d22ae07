-- ===== src/Filesystem/Blocks/Fresh.antt =====
-- `generate_block` of Project 4/filesystem/our_lib.c, for a block whose hash is not in use.
use mathlib.Core.List.{append-nil}
use ece318_operating_systems.Prelude.{
  ltb-true, ℕ, ◌+◌, ◌<◌, ◌≡◌, refl, ap, sym, subst, true, false, Option, some, List, [], ltb,
  length, arith, All,
}
use ece318_operating_systems.Filesystem.Bytes.{Bytes, bytes_eq, bytes_eq_refl, drop-past}
use ece318_operating_systems.Filesystem.Decimal.{format}
use ece318_operating_systems.Filesystem.Stdio.{
  FilePath, Disk, World, Env, Run, ok, open_content, and_then, pure, content_of, put, c_string,
  write_at, set_file,
}
use ece318_operating_systems.Filesystem.Hashes.{generate_hash, write_hash}
use ece318_operating_systems.Filesystem.Hashes.Table.{Row, row, encode}
use ece318_operating_systems.Filesystem.Hashes.Compare.{compare_hashes-Finds, touched}
use ece318_operating_systems.Filesystem.Hashes.Insert.{
  insert, Absent, write_hash-new, wrote, HasRoom, insert-IsRow, length-insert-Absent,
}
use ece318_operating_systems.Filesystem.Blocks.{
  close_written, block_path, generate_block, new_block,
}
use ece318_operating_systems.Filesystem.Blocks.Digest.{c_string-c_string}
use ece318_operating_systems.Filesystem.Blocks.Paths.{
  length-block_path, block_path-ne, hashes_path-block_ne,
}
use ece318_operating_systems.Filesystem.Blocks.Store.{
  Rows, Rows-put, IsStore, LiveRow, Settled, HasBlock, Rows-append,
}
use ece318_operating_systems.Filesystem.Blocks.Generated.{
  Generated, new_row, hash-of_text, block-hashes_ne, blocks-hashes_put,
}

write_at-nothing : (bs : Bytes) → write_at [] 0 bs ≡ bs
unfolding write_at
write_at-nothing bs = rw (drop-past {A = ℕ} (0 + length bs) [] (omega arith)) (append-nil bs)

module _ (env : Env) (rs : List Row) (w : World) (block_data : Bytes)
    (settled : Settled env w.bbs.hiddendir) (is : IsStore env rs w) (room : All HasRoom rs)
    (small : 1 + length rs < 1000) where
  abbrev hash : Bytes
  hash = generate_hash env block_data

  abbrev text : Bytes
  text = c_string block_data

  abbrev compared : World
  compared = touched w (encode 1 rs)

  module _ (p : Absent 1 hash rs) where
    abbrev id : ℕ
    id = w.bbs.last_id + 1

    abbrev path : FilePath
    path = block_path w.bbs.hiddendir (format 3 id)

    -- The file of the block is there before its hash is, and gets its text last.
    abbrev emptied : World
    emptied = record compared { disk = put compared.disk path (some []) }

    abbrev listed : World
    listed = wrote emptied (insert hash rs)

    abbrev pub filled : World
    filled = record listed {
      bbs = record w.bbs { last_id = id };
      disk = put listed.disk path (some text);
    }

    hashes_ne : bytes_eq w.bbs.hashesfile path ≡ false
    hashes_ne =
        rw (is.named)
          (hashes_path-block_ne w.bbs.hiddendir id (omega (arith, is.holds.last, small)))

    emptied-opens : open_content env emptied.disk w.bbs.hashesfile ≡ some (encode 1 rs)
    unfolding open_content
    emptied-opens = rw (is.holds.opens, hashes_ne, bytes_eq_refl w.bbs.hashesfile) refl

    id_eq : 1 + length rs ≡ id
    id_eq = omega (arith, is.holds.last)

    id_lt : id < 1000
    id_lt = omega (arith, is.holds.last, small)

    listed_lem : write_hash env hash id emptied ≡ ok tt listed
    listed_lem =
        subst (λ n. write_hash env hash n emptied ≡ ok tt listed) id_eq
          (write_hash-new env hash rs emptied emptied-opens is.holds.last small
            (new_row env rs w block_data settled is room small) p)

    filled_lem :
        close_written path text (record listed { bbs = record w.bbs { last_id = id } })
        ≡ ok tt filled
    unfolding set_file
    filled_lem =
        rw
          (
            content_of,
            (block-hashes_ne env rs w block_data settled is room small) id id_lt,
            bytes_eq_refl path,
            write_at-nothing text,
          )
          refl

    path-fits : ltb (length path) 4096 ≡ true
    path-fits =
        ltb-true (length path) 4096
          (omega (arith, length-block_path w.bbs.hiddendir id id_lt, settled.short))

    new_block-fills : new_block env hash text compared ≡ ok id filled
    unfolding new_block set_file
    new_block-fills =
        rw (path-fits, settled.blocks_open id id_lt, listed_lem)
          (ap (λ (r : Run Unit). and_then r (λ _. pure id)) filled_lem)

    pub generate_block-new : generate_block env block_data w ≡ ok id filled
    unfolding generate_block
    generate_block-new =
        rw
          (
            compare_hashes-Finds env rs hash w is.holds,
            p.not_found,
            ltb-true w.bbs.last_id (length rs + 1) (omega (arith, is.holds.last)),
            new_block-fills,
          )
          refl

    abbrev LiveOn : Disk → ℕ → Row → Type 0
    LiveOn disk = LiveRow env w.bbs.hiddendir disk

    blocks-path-put :
        (disk : Disk) (c : Option Bytes)
        → Rows (LiveOn disk) 1 rs
        → Rows (LiveOn (put disk path c)) 1 rs
    blocks-path-put disk c =
        Rows-put env w.bbs.hiddendir disk path c 1 id rs (omega (arith, id_eq))
          (λ j lt. block_path-ne w.bbs.hiddendir j id (omega (arith, id_lt)) id_lt (omega arith))

    filled-old : Rows (LiveOn filled.disk) 1 rs
    filled-old = blocks-path-put listed.disk (some text) (
        (blocks-hashes_put env rs w block_data settled is room small) emptied.disk
          (some (encode 1 (insert hash rs)))
          (blocks-path-put compared.disk (some []) (
            (blocks-hashes_put env rs w block_data settled is room small) w.disk
              (some (encode 1 rs)) is.blocks)))

    filled-block : HasBlock env w.bbs.hiddendir filled.disk id hash
    filled-block = record {
      text = text;
      on_disk = rw (bytes_eq_refl path) refl;
      hash_of = (hash-of_text env rs w block_data settled is room small);
      is_text = c_string-c_string block_data;
    }

    filled-IsStore : IsStore env (insert hash rs) filled
    filled-IsStore = record {
      named = is.named;
      holds = record {
        opens = is.holds.opens;
        file = rw (content_of, hashes_ne, bytes_eq_refl w.bbs.hashesfile) refl;
        rows =
            insert-IsRow hash rs is.holds.rows room
              (new_row env rs w block_data settled is room small);
        last = omega (arith, is.holds.last, length-insert-Absent hash rs p);
        small = omega (arith, small, length-insert-Absent hash rs p);
      };
      blocks = subst (Rows (LiveOn filled.disk) 1) (sym p.appended) (
          Rows-append (LiveOn filled.disk) 1 rs (row 1 hash) filled-old (
            λ _.
                subst (λ n. HasBlock env w.bbs.hiddendir filled.disk n hash) (sym id_eq)
                  filled-block,
            λ e. absurd cc,
          ));
    }

    pub filled-Generated : Generated env rs w hash filled
    filled-Generated = record {
      store = filled-IsStore;
      same_dir = refl;
      same_root = refl;
      block = rw (p.not_found) (
          subst (λ n. HasBlock env w.bbs.hiddendir filled.disk n hash)
            (omega (arith, is.holds.last)) filled-block);
      kept = λ q ne ne'. rw (ne, ne') refl;
    }
