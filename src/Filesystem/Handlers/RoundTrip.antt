-- ===== src/Filesystem/Handlers/RoundTrip.antt =====
-- `bb_write` and then `bb_read` of Project 4/filesystem/bbfs.c, on the same file.
use mathlib.Core.List.{append-nil}
use ece318_operating_systems.Prelude.{
  leb-true, ℕ, ◌+◌, ◌*◌, ◌≤◌, ◌<◌, ◌≡◌, refl, ap, ◌∙◌, true, List, [], ◌∷◌, ◌++◌, length,
  length-append, arith, All, All-map,
}
use ece318_operating_systems.Filesystem.Bytes.{Bytes, take, drop}
use ece318_operating_systems.Filesystem.Stdio.{
  ◌>>=◌, FilePath, World, Env, Returns, Returns-and_then, c_string,
}
use ece318_operating_systems.Filesystem.Hashes.Table.{Row}
use ece318_operating_systems.Filesystem.Hashes.Insert.{HasRoom}
use ece318_operating_systems.Filesystem.Blocks.Store.{Settled}
use ece318_operating_systems.Filesystem.Blocks.Read.{Chunk, contents}
use ece318_operating_systems.Filesystem.Delete.Outcome.{Apart}
use ece318_operating_systems.Filesystem.Handlers.{bb_write, bb_read}
use ece318_operating_systems.Filesystem.Handlers.Write.{Unique}
use ece318_operating_systems.Filesystem.Handlers.Append.{
  IsFile, bb_write-Appends, Appended, new_chunk, contents-append,
}
use ece318_operating_systems.Filesystem.Handlers.ReadBack.{temp_path, bb_read-Reads}

module _ (env : Env) (rs : List Row) (w : World) (path : Bytes) (cs : List Chunk) (buf : Bytes)
    (size : ℕ) (settled : Settled env w.bbs.hiddendir) (usable : (n : ℕ) → n ≤ env.usable n)
    (name_fits : length w.bbs.hiddendir + 8 < env.usable (length w.bbs.hiddendir + 3 + 5))
    (short : length (w.bbs.rootdir ++ path) < 4096)
    (opens : env.opens (w.bbs.rootdir ++ path) ≡ true)
    (temp_opens : env.opens (temp_path w.bbs.hiddendir) ≡ true)
    (file : IsFile env rs (w.bbs.rootdir ++ path) cs w) (apart : Apart w (w.bbs.rootdir ++ path))
    (room : All HasRoom rs) (small : 1 + length rs < 1000) (fits : size ≤ 4096)
    (there : size ≤ length buf) (unique : Unique env (take size buf)) (few : length cs ≤ 150) where
  abbrev fpath : FilePath
  fpath = w.bbs.rootdir ++ path

  abbrev text : Bytes
  text = contents cs ++ c_string (take size buf)

  abbrev after_chunks : List Chunk
  after_chunks =
      cs
      ++ new_chunk env rs w path fpath cs buf size settled usable short file apart room small fits
          there unique few
        ∷ []

  contents-after : contents after_chunks ≡ text
  unfolding contents
  contents-after =
      contents-append cs (
        new_chunk env rs w path fpath cs buf size settled usable short file apart room small fits
          there unique few
        ∷ [])
      ∙ ap (λ t. contents cs ++ t) (append-nil (c_string (take size buf)))

  abbrev Written : ℕ → World → Type 0
  Written n v =
      (n ≡ size)
      × Appended env rs w path fpath cs buf size settled usable short file apart room small fits
          there unique few v

  module _ (read_buf : Bytes) (read_size offset : ℕ) (enough : length text ≤ read_size) where
    read-after :
        (n : ℕ) (v : World)
        → Written n v
        → Returns
            (λ r after. r ≡ (read_size, text ++ drop (length text) read_buf))
            (bb_read env path read_buf read_size offset fpath v)
    read-after n v (e, (f, dir, root)) =
        rw
          (
            bb_read-Reads env v path after_chunks usable (rw (dir) name_fits) (rw (root) short)
                (rw (root) opens) (rw (dir) temp_opens)
                (rw (dir) (
                  omega (
                    arith,
                    length-append w.bbs.hiddendir (b'/' ∷ b't' ∷ b'e' ∷ b'm' ∷ b'p' ∷ []),
                    settled.short,
                  )))
                (rw (root) f.pointing) (All-map after_chunks (λ c l. l.0) f.listed) read_buf
                read_size offset fpath,
            contents-after,
            leb-true (length text) read_size enough,
          )
          refl

    -- What is written at the end of a file is read back: after `bb_write` of a block at the end of a file
    -- of at most 150 blocks, all of them there, `bb_read` from any offset returns the size that it was
    -- asked for, with the content that the file had and the text of the written buffer at the start of
    -- its buffer, when they are not longer than that size. It is needed that the hidden directory is in
    -- order, with fewer than 999 ids and counters below 99, that no other text has the hash of this one,
    -- that the file and `temp` can be opened, that `malloc` gives what is asked for, and one byte more for
    -- the name of a block.
    pub bb_write-bb_read :
        Returns
          (λ r after. r ≡ (read_size, text ++ drop (length text) read_buf))
          ((bb_write env path buf size (length cs * 4096) fpath >>= λ _.
              bb_read env path read_buf read_size offset fpath)
            w)
    bb_write-bb_read =
        Returns-and_then Written (λ r after. r ≡ (read_size, text ++ drop (length text) read_buf))
          (bb_write env path buf size (length cs * 4096) fpath w)
          (λ _. bb_read env path read_buf read_size offset fpath)
          (bb_write-Appends env rs w path fpath cs buf size settled usable short file apart room
            small fits there unique few)
          read-after
