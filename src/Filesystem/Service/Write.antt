-- ===== src/Filesystem/Service/Write.antt =====
-- `bb_write` of Project 4/filesystem/bbfs.c, behind the blocks of a file or over one of them, in the
-- abstract view.
use ece318_operating_systems.Prelude.{
  ltb-true, ℕ, ◌+◌, ◌*◌, ◌≤◌, ◌<◌, ◌≡◌, refl, ap, sym, subst, ◌∙◌, some, false, List, [], ◌++◌,
  length, All, All-map, arith,
}
use ece318_operating_systems.Filesystem.Bytes.{Bytes, bytes_eq, bytes_eq_refl, take}
use ece318_operating_systems.Filesystem.Decimal.{format}
use ece318_operating_systems.Filesystem.Stdio.{
  FilePath, Disk, World, Env, Returns, Returns-and_then, put, content_of, pure, set_file, write_at,
  and_then,
}
use ece318_operating_systems.Filesystem.Hashes.{generate_hash}
use ece318_operating_systems.Filesystem.Hashes.Compare.{id_for}
use ece318_operating_systems.Filesystem.Hashes.Insert.{insert}
use ece318_operating_systems.Filesystem.Blocks.{block_path, write_blocks}
use ece318_operating_systems.Filesystem.Blocks.Paths.{
  bytes_eq-prefix, block_path-hashes_ne, block_path-ne,
}
use ece318_operating_systems.Filesystem.Blocks.Read.{Chunk, pointers}
use ece318_operating_systems.Filesystem.Blocks.Generated.{Generated}
use ece318_operating_systems.Filesystem.Delete.Loop.{InRange}
use ece318_operating_systems.Filesystem.Handlers.{bb_write, bb_fullpath, pwrite, pointer_offset}
use ece318_operating_systems.Filesystem.Handlers.Keep.{IsStore-put}
use ece318_operating_systems.Filesystem.Handlers.Write.{
  pointer_offset-exact, id_for_lt, longer, stored_chunk, write_blocks-prints,
}
use ece318_operating_systems.Filesystem.Service.{
  file_of, ids, chunks_of, set_chunks, put_chunk, replaced, IsName, Model, MayWrite, writes,
  returned, written_chunk, serve, perform, answer,
}
use ece318_operating_systems.Filesystem.Service.Files.{
  All-set_chunks, All-put_chunk, All-replaced, All-append, All-chunk_ids, All-ids, set_chunks-Named,
  has_file-set_chunks, length-put_chunk, uses-set_chunks, occurs-put_chunk, occurs-append,
}
use ece318_operating_systems.Filesystem.Blocks.Store.{Rows}
use ece318_operating_systems.Filesystem.Service.Counts.{Counted, insert-Counted}
use ece318_operating_systems.Filesystem.Service.Sound.{
  world_of, IsFileOn, IsFileOn-same, Linked-moved, all_same, OnDisk, IsSound, Served, Config,
  SameAt, holders, holders-fresh, Linked, ids-InRange,
}
use ece318_operating_systems.Filesystem.Service.Pointer.{id_for_pos, pointers-put_chunk, bbs_fields}
use ece318_operating_systems.Filesystem.Service.Names.{file_at, name-Apart}
use ece318_operating_systems.Filesystem.Service.Empty.{absent-ne}

module _ (env : Env) (root dir : FilePath) (config : Config env root dir) (m : Model) (disk : Disk)
    (on : OnDisk env root dir m disk) (n buf : Bytes) (size block : ℕ)
    (may : MayWrite env m n buf size block) where
  abbrev w : World
  w = world_of root dir (length m.rows) disk

  abbrev old : List Chunk
  old = chunks_of n m.files

  abbrev hash : Bytes
  hash = generate_hash env (take size buf)

  abbrev new_chunk : Chunk
  new_chunk = written_chunk env m (take size buf)

  abbrev more : Model
  more = record {
    rows = insert hash m.rows;
    files = set_chunks n (put_chunk block new_chunk old) m.files;
    lost = replaced block old ++ m.lost;
  }

  file : IsFileOn env root dir m.rows disk (file_of n old)
  file = file_at env root dir m disk on n may.there

  wider : (length m.rows ≤ length more.rows) × (id_for hash m.rows ≤ length more.rows)
  wider =
      longer env m.rows w (take size buf) config.settled on.store may.room may.small config.usable

  in_range : All (λ f. All (InRange (length m.rows)) (ids f.chunks)) m.files
  in_range = ids-InRange env root dir m disk on

  weaken : (i : ℕ) → InRange (length m.rows) i → InRange (length more.rows) i
  weaken i (pos, le) = (pos, omega (arith, wider.0))

  new_small : new_chunk.id < 1000
  new_small = omega (arith, id_for_lt hash m.rows, may.small)

  counted' : Rows (Counted (holders more)) 1 more.rows
  counted' =
      insert-Counted (holders m) (holders more) hash m.rows
        (λ i. omega (
          arith,
          uses-set_chunks i n (put_chunk block new_chunk old) m.files may.there,
          occurs-put_chunk i block new_chunk old,
          occurs-append i (replaced block old) m.lost,
        ))
        (holders-fresh env root dir m disk on) on.counted

  content_eq :
      write_at (pointers old) (pointer_offset (block * 4096)) (format 3 new_chunk.id)
      ≡ pointers (put_chunk block new_chunk old)
  content_eq =
      let place : pointer_offset (block * 4096) ≡ length {A = ℕ} [] + 3 * block =
        (pointer_offset-exact block).1 may.few ∙ omega arith in
      rw (place) (
        pointers-put_chunk [] block new_chunk old may.in_file new_small
          (All-ids (Linked env dir m.rows disk) (λ i. i < 1000) old (λ c l. l.0.id_lt) file.linked))

  -- After the block is stored, in a state with the names and the last id in their places.
  module _ (d : Disk)
      (g : Generated env m.rows w hash (world_of root dir (length more.rows) d)) where
    abbrev v : World
    v = world_of root dir (length more.rows) d

    abbrev content : Bytes
    content =
        write_at (content_of d (root ++ n)) (pointer_offset (block * 4096)) (format 3 new_chunk.id)

    abbrev after : Disk
    after = put d (root ++ n) (some content)

    stored-name : (k : Bytes) → IsName env root dir k → d (root ++ k) ≡ disk (root ++ k)
    stored-name k is =
        g.kept (root ++ k) is.no_hashes (is.no_block (length m.rows + 1) (omega (arith, may.small)))

    after-SameAt : (i : ℕ) → InRange (length m.rows) i → SameAt dir disk after i
    after-SameAt i range =
        let lt : i < 1000 = omega (arith, range.1, may.small) in
        rw (file.name.not_block i lt) (
          g.kept (block_path dir (format 3 i)) (block_path-hashes_ne dir i lt) (
            block_path-ne dir i (length m.rows + 1) lt (omega (arith, may.small))
              (omega (arith, range.1))))

    after-other :
        (k : Bytes)
        → IsName env root dir k
        → bytes_eq k n ≡ false
        → after (root ++ k) ≡ disk (root ++ k)
    after-other k is ne = rw (bytes_eq-prefix root k n, ne) (stored-name k is)

    new-Linked : Linked env dir more.rows after new_chunk
    new-Linked =
        let (s, le) =
          stored_chunk env m.rows w (take size buf) config.settled on.store may.room may.small
            config.usable v g may.unique in
        (
          record {
            id_lt = s.id_lt;
            opens = s.opens;
            on_disk = rw (file.name.not_block new_chunk.id new_small) s.on_disk;
            is_text = s.is_text;
            short = s.short;
          },
          (id_for_pos hash m.rows, le),
        )

    written-IsFileOn :
        IsFileOn env root dir more.rows after (file_of n (put_chunk block new_chunk old))
    written-IsFileOn = record {
      name = file.name;
      pointing =
          rw (bytes_eq_refl (root ++ n), content_of, stored-name n file.name, file.pointing)
            (ap (λ c. some c) content_eq);
      linked =
          All-put_chunk (Linked env dir more.rows after) block new_chunk old
            (Linked-moved env root dir m.rows more.rows disk after wider.0 old
              (all_same env root dir m.rows more.rows disk after wider.0 old after-SameAt
                file.linked)
              file.linked)
            new-Linked;
      few = length-put_chunk block 150 new_chunk old may.few file.few;
    }

    more-OnDisk : OnDisk env root dir more after
    more-OnDisk = record {
      store =
          IsStore-put env more.rows v (root ++ n) (some content)
            (name-Apart env root dir (length more.rows) d n file.name) g.store;
      files =
          All-set_chunks (IsFileOn env root dir m.rows disk) (IsFileOn env root dir more.rows after)
            n
            (λ f ne is.
              IsFileOn-same env root dir m.rows more.rows disk after wider.0 after-SameAt f
                (after-other f.name is.name ne) is)
            (put_chunk block new_chunk old) m.files on.named written-IsFileOn on.files;
      others = λ k is out.
          let out' = sym (has_file-set_chunks k n (put_chunk block new_chunk old) m.files) ∙ out in
          after-other k is (absent-ne k n m.files may.there out') ∙ on.others k is out';
      named = set_chunks-Named n (put_chunk block new_chunk old) m.files on.named;
      lost =
          All-append (InRange (length more.rows)) (replaced block old) m.lost
            (All-replaced (InRange (length more.rows)) block old (
              All-map (ids old) weaken
                (All-chunk_ids (InRange (length m.rows)) n m.files in_range)))
            (All-map m.lost weaken on.lost);
      counted = counted';
    }

  stored_bbs :
      (v : World)
      → Generated env m.rows w hash v
      → v.bbs ≡ (world_of root dir (length more.rows) v.disk).bbs
  stored_bbs v g =
      bbs_fields root dir (length more.rows) v.disk v.bbs g.same_root g.same_dir g.store.named
        g.store.holds.last

  abbrev pointed : Bytes → World → World
  pointed ids v = record v {
    disk =
        put v.disk (root ++ n)
          (some (write_at (content_of v.disk (root ++ n)) (pointer_offset (block * 4096)) ids));
  }

  pointed-IsSound :
      (ids : Bytes) (v : World)
      → ids ≡ format 3 new_chunk.id
      → Generated env m.rows w hash v
      → IsSound env root dir more (pointed ids v)
  pointed-IsSound ids v e g = rw (e) (record {
    same_bbs = stored_bbs v g;
    on_disk = more-OnDisk v.disk (
        subst (λ b. Generated env m.rows w hash (record { bbs = b; disk = v.disk }))
          (stored_bbs v g) g);
  })

  bb_write-IsSound :
      Returns
        (λ k v. (k ≡ size) × IsSound env root dir more v)
        (bb_write env n buf size (block * 4096) (root ++ n) w)
  unfolding bb_write bb_fullpath pwrite set_file
  bb_write-IsSound = rw (ltb-true (length (root ++ n)) 4096 file.name.short) (
      Returns-and_then
        (λ ids v. (ids ≡ format 3 (id_for hash m.rows)) × Generated env m.rows w hash v)
        (λ k v. (k ≡ size) × IsSound env root dir more v) (write_blocks env buf size w)
        (λ ids v.
          and_then (pwrite (root ++ n) ids (pointer_offset (block * 4096)) v) (λ _. pure size))
        (write_blocks-prints env m.rows w (take size buf) config.settled on.store may.room may.small
          config.usable buf size may.fits may.given refl)
        (λ ids v p. (refl, pointed-IsSound ids v p.0 p.1)))

  pub write-Serves :
      Returns
        (Served env root dir (writes n buf size block) m)
        (serve env (writes n buf size block) w)
  unfolding serve perform answer bb_fullpath
  write-Serves = rw (ltb-true (length (root ++ n)) 4096 file.name.short) (
      Returns-and_then (λ k v. (k ≡ size) × IsSound env root dir more v)
        (Served env root dir (writes n buf size block) m)
        (bb_write env n buf size (block * 4096) (root ++ n) w) (λ k. pure (returned k))
        bb_write-IsSound (λ k v p. (ap (λ j. returned j) p.0, p.1)))
