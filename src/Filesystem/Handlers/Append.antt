-- ===== src/Filesystem/Handlers/Append.antt =====
-- What `bb_write` and `bb_read` of Project 4/filesystem/bbfs.c do to a file whose blocks are all there.
use mathlib.Core.List.{append_assoc, append-nil}
use ece318_operating_systems.Prelude.{
  ltb-true, ℕ, ◌+◌, ◌*◌, ◌≤◌, ◌<◌, ◌≡◌, refl, ap, sym, ◌∙◌, Option, some, List, [], ◌∷◌, ◌++◌,
  arith, length, All, All-map,
}
use ece318_operating_systems.Filesystem.Bytes.{Bytes, bytes_eq_refl, take}
use ece318_operating_systems.Filesystem.Decimal.{format}
use ece318_operating_systems.Filesystem.Stdio.{
  and_then, pure, FilePath, World, Env, Returns, Returns-and_then, put, content_of, c_string,
  set_file, write_at,
}
use ece318_operating_systems.Filesystem.Hashes.{generate_hash}
use ece318_operating_systems.Filesystem.Hashes.Table.{Row}
use ece318_operating_systems.Filesystem.Hashes.Compare.{id_for}
use ece318_operating_systems.Filesystem.Hashes.Update.{write_at-end}
use ece318_operating_systems.Filesystem.Hashes.Insert.{insert, HasRoom}
use ece318_operating_systems.Filesystem.Blocks.{hashes_path, write_blocks}
use ece318_operating_systems.Filesystem.Blocks.Store.{IsStore, Settled}
use ece318_operating_systems.Filesystem.Blocks.Generated.{Generated}
use ece318_operating_systems.Filesystem.Blocks.Read.{
  Chunk, chunk, pointers, contents, length-pointers,
}
use ece318_operating_systems.Filesystem.Delete.Outcome.{Apart}
use ece318_operating_systems.Filesystem.Handlers.{bb_fullpath, bb_write, pwrite, pointer_offset}
use ece318_operating_systems.Filesystem.Handlers.Keep.{IsStore-put, Apart-same}
use ece318_operating_systems.Filesystem.Handlers.Write.{
  pointer_offset-exact, Listed, Unique, write_blocks-prints, old_chunk, stored_chunk,
}

pub pointers-append : (cs ds : List Chunk) → pointers (cs ++ ds) ≡ pointers cs ++ pointers ds
unfolding pointers
pointers-append [] ds = refl
pointers-append (c ∷ cs) ds = rw (pointers-append cs ds) (simp append_assoc)

pub contents-append : (cs ds : List Chunk) → contents (cs ++ ds) ≡ contents cs ++ contents ds
unfolding contents
contents-append [] ds = refl
contents-append (c ∷ cs) ds = rw (contents-append cs ds) (simp append_assoc)

pointers-one : (c : Chunk) → pointers (c ∷ []) ≡ format 3 c.id
unfolding pointers
pointers-one c = append-nil (format 3 c.id)

All-append :
    (P : Chunk → Type 0) (cs : List Chunk) (c : Chunk) → All P cs → P c → All P (cs ++ c ∷ [])
All-append P [] c ps p = (p, tt)
All-append P (x ∷ cs) c ps p = (ps.0, All-append P cs c ps.1 p)

-- Writing another file leaves a stored block as it is.
Listed-put :
    (env : Env) (rs : List Row) (w : World) (fh : FilePath) (content : Option Bytes)
    → Apart w fh
    → (c : Chunk) → Listed env rs w c
    → Listed env rs (record w { disk = put w.disk fh content }) c
Listed-put env rs w fh content apart c (s, le) = (
  record {
    id_lt = s.id_lt;
    opens = s.opens;
    on_disk = rw (apart.not_block c.id s.id_lt) s.on_disk;
    is_text = s.is_text;
    short = s.short;
  },
  le,
)

-- A file of the user: its pointers, to blocks that are all there.
pub record IsFile (env : Env) (rs : List Row) (fh : FilePath) (cs : List Chunk) (w : World)
    : Type 0 where
  pub store : IsStore env rs w
  pub pointing : w.disk fh ≡ some (pointers cs)
  pub listed : All (Listed env rs w) cs

module _ (env : Env) (rs : List Row) (w : World) (path : Bytes) (fh : FilePath) (cs : List Chunk)
    (buf : Bytes) (size : ℕ) (settled : Settled env w.bbs.hiddendir)
    (usable : (n : ℕ) → n ≤ env.usable n) (short : length (w.bbs.rootdir ++ path) < 4096)
    (file : IsFile env rs fh cs w) (apart : Apart w fh) (room : All HasRoom rs)
    (small : 1 + length rs < 1000) (fits : size ≤ 4096) (there : size ≤ length buf)
    (unique : Unique env (take size buf)) (few : length cs ≤ 150) where
  abbrev hash : Bytes
  hash = generate_hash env (take size buf)

  abbrev pub new_chunk : Chunk
  new_chunk = chunk (id_for hash rs) (c_string (take size buf))

  abbrev pub Appended : World → Type 0
  Appended after =
      IsFile env (insert hash rs) fh (cs ++ new_chunk ∷ []) after
      × (after.bbs.hiddendir ≡ w.bbs.hiddendir)
      × (after.bbs.rootdir ≡ w.bbs.rootdir)

  offset_eq : pointer_offset (length cs * 4096) ≡ length (pointers cs)
  offset_eq =
      (pointer_offset-exact (length cs)).1 few
      ∙ omega (
        arith,
        length-pointers env w.bbs.hiddendir w.disk cs (All-map cs (λ c l. l.0) file.listed),
      )

  module _ (v : World) (g : Generated env rs w hash v) where
    kept_fh : v.disk fh ≡ some (pointers cs)
    kept_fh =
        g.kept fh apart.no_hashes
          (apart.no_block (w.bbs.last_id + 1) (omega (arith, file.store.holds.last, small)))
        ∙ file.pointing

    content_eq :
        write_at
          (content_of v.disk fh)
          (pointer_offset (length cs * 4096))
          (format 3 (id_for hash rs))
        ≡ pointers (cs ++ new_chunk ∷ [])
    content_eq =
        rw
          (
            content_of,
            kept_fh,
            offset_eq,
            write_at-end (pointers cs) (format 3 (id_for hash rs)),
            pointers-append cs (new_chunk ∷ []),
            pointers-one new_chunk,
          )
          refl

    apart_v : Apart v fh
    apart_v =
        Apart-same w v fh g.same_dir
          (g.store.named ∙ ap hashes_path g.same_dir ∙ sym file.store.named) apart

    listed_v : All (Listed env (insert hash rs) v) (cs ++ new_chunk ∷ [])
    listed_v =
        All-append (Listed env (insert hash rs) v) cs new_chunk
          (All-map cs (old_chunk env rs w (take size buf) settled file.store room small usable v g)
            file.listed)
          (stored_chunk env rs w (take size buf) settled file.store room small usable v g unique)

    appended : IsFile env (insert hash rs) fh (cs ++ new_chunk ∷ []) (record v {
      disk = put v.disk fh (
          some (
            write_at
              (content_of v.disk fh)
              (pointer_offset (length cs * 4096))
              (format 3 (id_for hash rs))));
    })
    appended = record {
      store = IsStore-put env (insert hash rs) v fh _ apart_v g.store;
      pointing = rw (bytes_eq_refl fh) (ap (λ c. some c) content_eq);
      listed =
          All-map (cs ++ new_chunk ∷ []) (Listed-put env (insert hash rs) v fh _ apart_v) listed_v;
    }

  pointed :
      (ids : Bytes) (v : World)
      → (ids ≡ format 3 (id_for hash rs)) × Generated env rs w hash v
      → Returns
          (λ n after. (n ≡ size) × Appended after)
          (and_then (pwrite fh ids (pointer_offset (length cs * 4096)) v) (λ _. pure size))
  unfolding pwrite set_file
  pointed ids v (e, g) = (refl, (rw (e) (appended v g), g.same_dir, g.same_root))

  -- A block that is written at the end of a file, whose blocks are all there and not more than 150, in a
  -- hidden directory that is in order, is appended to the file: `bb_write` returns the size, the file
  -- points to the blocks that it had and then to one with the text of the buffer, all of them are there,
  -- and the directory is in order, with one more user of the block. It is needed that no other text has
  -- the hash of this one, that there are fewer than 999 ids and that each counter is below 99.
  pub bb_write-Appends :
      Returns
        (λ n after. (n ≡ size) × Appended after)
        (bb_write env path buf size (length cs * 4096) fh w)
  unfolding bb_write bb_fullpath
  bb_write-Appends = rw (ltb-true (length (w.bbs.rootdir ++ path)) 4096 short) (
      Returns-and_then (λ ids v. (ids ≡ format 3 (id_for hash rs)) × Generated env rs w hash v)
        (λ n after. (n ≡ size) × Appended after) (write_blocks env buf size w)
        (λ ids v. and_then (pwrite fh ids (pointer_offset (length cs * 4096)) v) (λ _. pure size))
        (write_blocks-prints env rs w (take size buf) settled file.store room small usable buf size
          fits there refl)
        pointed)
