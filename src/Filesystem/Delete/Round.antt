-- ===== src/Filesystem/Delete/Round.antt =====
-- What one round of the loop of `delete_blocks` in Project 4/filesystem/our_lib.c does to the line of an
-- id.
use mathlib.Core.List.{append_assoc}
use ece318_operating_systems.Prelude.{
  inl, inr, Bool-cases, leb-true, ltb-true, ℕ, suc, ◌+◌, ◌-◌, ◌*◌, ◌<◌, ◌≡◌, refl, sym, ◌∙◌, true,
  false, Option, none, some, List, [], ◌∷◌, ◌++◌, ◌==◌, ==_refl, if◌then◌else◌, length,
  length-append, arith, All,
}
use ece318_operating_systems.Filesystem.Bytes.{Bytes}
use ece318_operating_systems.Filesystem.Decimal.{format, atoi, atoi-format-three, atoi-format-two}
use ece318_operating_systems.Filesystem.Stdio.{
  FilePath, World, Env, ok, put, Stream, stream, fread, fwrite, seek_back, set_file, when_else,
  pure,
}
use ece318_operating_systems.Filesystem.Hashes.{line}
use ece318_operating_systems.Filesystem.Hashes.Table.{
  Row, row, IsRow, encode, length-line, length-encode, length-format-three, length-format-two,
}
use ece318_operating_systems.Filesystem.Hashes.Compare.{fread-part}
use ece318_operating_systems.Filesystem.Hashes.Update.{write_at-part, encode-append}
use ece318_operating_systems.Filesystem.Blocks.{block_path}
use ece318_operating_systems.Filesystem.Blocks.Read.{c_string-format_three}
use ece318_operating_systems.Filesystem.Delete.{
  Sweep, refresh, seek_counter, drop_block, lower_line, release_line, release_block,
}

-- One user less, if there is one.
abbrev pub lower : Row → Row
lower r = row (r.counter - 1) r.hash

refresh-full :
    (n : ℕ) (old : Option Bytes) (got : Bytes) → length got ≡ n → refresh n old got ≡ some got
unfolding refresh
refresh-full n old got e = rw (e, ==_refl n) refl

-- The disk after a round for a row with this many users.
abbrev pub dropped : FilePath → FilePath → ℕ → World → World
dropped fpath block_name c w = record w {
  disk = if c == 1 then put (put w.disk fpath (some [])) block_name none else w.disk;
}

module _ (env : Env) (fpath : FilePath) (w : World) (before after : List Row) (r : Row) (s : Sweep)
    (opens : env.opens fpath ≡ true) (small : 1 + length before < 1000) (fit : All IsRow before)
    (is : IsRow r) (content : s.hashesfile.content ≡ encode 1 (before ++ r ∷ after)) where
  abbrev id : ℕ
  id = 1 + length before

  abbrev start : ℕ
  start = (id - 1) * 45 + 3

  abbrev post : Bytes
  post = encode (suc id) after

  abbrev block_name : FilePath
  block_name = block_path w.bbs.hiddendir (format 3 id)

  at_row : s.hashesfile.content ≡ encode 1 before ++ (line id r.counter r.hash ++ post)
  unfolding encode
  at_row = content ∙ encode-append 1 before (r ∷ after)

  at_counter :
      s.hashesfile.content
      ≡ (encode 1 before ++ format 3 id) ++ (format 2 r.counter ++ (r.hash ++ post))
  at_counter = at_row ∙ simp append_assoc

  at_hash :
      s.hashesfile.content
      ≡ ((encode 1 before ++ format 3 id) ++ format 2 r.counter) ++ (r.hash ++ post)
  at_hash = at_row ∙ simp append_assoc

  len : length (encode 1 before) ≡ 45 * length before
  len = length-encode 1 before (omega (arith, small)) fit

  start_eq : start ≡ length (encode 1 before ++ format 3 id)
  start_eq =
      omega
        (arith, length-append (encode 1 before) (format 3 id), len, length-format-three id small)

  abbrev found : Stream
  found = stream s.hashesfile.content (start + 2)

  seek_counter-id :
      seek_counter (atoi (format 3 id)) s.hashesfile ≡ stream s.hashesfile.content start
  unfolding seek_counter
  seek_counter-id = rw (atoi-format-three id small) (ground arith)

  counter-read :
      fread 2 (seek_counter (atoi (format 3 id)) s.hashesfile) ≡ (format 2 r.counter, found)
  counter-read = rw (seek_counter-id) (
      fread-part s.hashesfile.content (encode 1 before ++ format 3 id) (format 2 r.counter)
        (r.hash ++ post) 2 start at_counter (length-format-two r.counter is.counter_lt) start_eq)

  abbrev hashed : Stream
  hashed = stream s.hashesfile.content (start + 2 + 40)

  hash-read : fread 40 found ≡ (r.hash, hashed)
  hash-read =
      fread-part s.hashesfile.content ((encode 1 before ++ format 3 id) ++ format 2 r.counter)
        r.hash post 40 (start + 2) at_hash is.hash_length
        (omega (
          arith,
          length-append (encode 1 before ++ format 3 id) (format 2 r.counter),
          start_eq,
          length-format-two r.counter is.counter_lt,
        ))

  abbrev text : Bytes
  text = line id (r.counter - 1) r.hash

  lower-IsRow : IsRow (lower r)
  lower-IsRow = record {
    counter_lt = omega (arith, is.counter_lt);
    hash_length = is.hash_length;
    hash_text = is.hash_text;
  }

  after_row : encode 1 (before ++ lower r ∷ after) ≡ encode 1 before ++ (text ++ post)
  unfolding encode
  after_row = encode-append 1 before (lower r ∷ after)

  length-text : length text ≡ 45
  length-text = length-line id (lower r) small lower-IsRow

  abbrev written : Stream
  written = stream (encode 1 (before ++ lower r ∷ after)) (start + 2 + 40 - 45 + length text)

  line-written : fwrite text (seek_back 45 hashed) ≡ written
  unfolding fwrite seek_back
  line-written =
      rw
        (
          leb-true 45 (start + 2 + 40) (omega arith),
          write_at-part s.hashesfile.content (encode 1 before) (line id r.counter r.hash) post text
              (start + 2 + 40 - 45) at_row (length-line id r small is ∙ sym length-text)
              (omega (arith, len)),
          after_row,
        )
        refl

  lower_line-written :
      (v : World) → lower_line (format 3 id) (format 2 r.counter) r.hash hashed v ≡ ok written v
  unfolding lower_line
  lower_line-written v =
      rw
        (
          c_string-format_three id small,
          atoi-format-two r.counter is.counter_lt,
          is.hash_text,
          ltb-true (length text) 46 (omega (arith, length-text)),
          line-written,
        )
        refl

  drop_block-dropped :
      when_else (r.counter == 1) (drop_block env fpath block_name) (pure tt) w
      ≡ ok tt (dropped fpath block_name r.counter w)
  unfolding drop_block set_file
  drop_block-dropped = elim (Bool-cases (r.counter == 1)) [
    | inl e ↦ rw (e, opens) refl
    | inr e ↦ rw (e) refl
  ]

  abbrev counted : Sweep
  counted = record s { hashesfile = found; usage = some (format 2 r.counter) }

  release_line-lowers :
      release_line env fpath (format 3 id) (format 2 r.counter) counted w
      ≡ ok
          (record counted { hashesfile = written; hash = some r.hash })
          (dropped fpath block_name r.counter w)
  unfolding release_line
  release_line-lowers =
      rw
        (
          hash-read,
          atoi-format-two r.counter is.counter_lt,
          c_string-format_three id small,
          drop_block-dropped,
          refresh-full 40 s.hash r.hash is.hash_length,
          lower_line-written (dropped fpath block_name r.counter w),
        )
        refl

  pub release_block-used :
      (r.counter == 0) ≡ false
      → release_block env fpath (format 3 id) s w
        ≡ ok
            (record counted { hashesfile = written; hash = some r.hash })
            (dropped fpath block_name r.counter w)
  unfolding release_block
  release_block-used e =
      rw
        (
          counter-read,
          refresh-full 2 s.usage (format 2 r.counter) (length-format-two r.counter is.counter_lt),
          atoi-format-two r.counter is.counter_lt,
          e,
        )
        release_line-lowers

  pub release_block-unused :
      (r.counter == 0) ≡ true → release_block env fpath (format 3 id) s w ≡ ok counted w
  unfolding release_block
  release_block-unused e =
      rw
        (
          counter-read,
          refresh-full 2 s.usage (format 2 r.counter) (length-format-two r.counter is.counter_lt),
          atoi-format-two r.counter is.counter_lt,
          e,
        )
        refl
