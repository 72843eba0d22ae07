-- ===== src/Filesystem/Delete.antt =====
-- `delete_blocks` of Project 4/filesystem/our_lib.c, which runs before a file of the user is unlinked.
pub mod Round
pub mod Release
pub mod Pointers
pub mod Loop
pub mod Outcome
use ece318_operating_systems.Prelude.{
  ℕ, zero, suc, ◌+◌, ◌-◌, ◌*◌, ◌/◌, ◌%◌, ◌≤◌, ◌<◌, ◌≡◌, refl, Bool, true, false, not, ◌&&◌, ◌||◌,
  Option, none, some, List, [], ◌∷◌, ◌++◌, ◌==◌, leb, ltb, if◌then◌else◌, length, arith,
}
use ece318_operating_systems.Filesystem.Bytes.{Bytes, bytes_eq, take, drop, replicate}
use ece318_operating_systems.Filesystem.Decimal.{format, atoi}
use ece318_operating_systems.Filesystem.Stdio.{
  FilePath, Disk, BbState, World, Env, Cmd, Run, ok, fault, pure, when_else, ◌>>=◌, ◌>>◌, get_bbs,
  get_world, content_of, put, open_content, set_file, is_some, Stream, stream, fread, seek_back,
  fwrite, write_at, c_string,
}
use ece318_operating_systems.Filesystem.Hashes.{
  id_length, pointers_counter_length, hash_size, line_total_length,
}
use ece318_operating_systems.Filesystem.Blocks.{block_path, fits}

-- The stream of the pointers file: bytes that are read ahead, and where the next ones are. It matters,
-- since `delete_blocks` empties the file while it reads it.
pub record ReadAhead : Type 0 where
  pub ahead : Bytes
  pub at : ℕ

-- `fread` of `n` bytes from it. When what is read ahead is not enough, the stream reads on once, which
-- for `n` up to the size of its buffer is all it can do.
unfoldable pub read_ahead : Env → ℕ → (content : Bytes) → ReadAhead → Bytes × ReadAhead
read_ahead env n content s =
    let got = take n s.ahead in
    let more = take env.buffer_size (drop s.at content) in
    let missing = n - length got in
    if length got == n
    then (got, record s { ahead = drop n s.ahead })
    else (got ++ take missing more, record { ahead = drop missing more; at = s.at + length more })

-- An array of `n` bytes after a `fread` into it: a short read leaves the rest as it was, and `none` is
-- an array with bytes that were never set.
abbrev pub over : Option Bytes → Bytes → Option Bytes
over none got = none
over (some old) got = some (got ++ drop (length got) old)

unfoldable pub refresh : ℕ → Option Bytes → Bytes → Option Bytes
refresh n old got = if length got == n then some got else over old got

-- `fseek` to the counter of an id. For the id 0 the place is before the start, and nothing moves.
unfoldable pub seek_counter : ℕ → Stream → Stream
seek_counter id_number s =
    if id_number == 0 then s else record s { pos = (id_number - 1) * line_total_length + id_length }

-- The only file that uses the block goes away: the pointers are removed, and the block is unlinked.
unfoldable pub drop_block : Env → FilePath → (block_name : FilePath) → Cmd (Unit {0})
drop_block env fpath block_name =
    when_else (env.opens fpath) (do set_file fpath (some []); set_file block_name none) (λ _. fault)

-- The counter of a line, minus one, is written over the old one.
unfoldable pub lower_line : Bytes → (usage hash : Bytes) → Stream → Cmd Stream
lower_line id usage hash hashesfile w =
    let updated_hash = c_string id ++ (format 2 (atoi usage - 1) ++ c_string hash) in
    if fits updated_hash (line_total_length + 1)
    then ok (fwrite updated_hash (seek_back line_total_length hashesfile)) w
    else fault

-- What the loop keeps: both streams, and the arrays `usage` and `hash`.
pub record Sweep : Type 0 where
  pub pointers_file : ReadAhead
  pub hashesfile : Stream
  pub usage : Option Bytes
  pub hash : Option Bytes

abbrev pub need : {A : Type 0} → Option A → Cmd A
need none w = fault
need (some a) w = ok a w

-- The rest of a round, for a counter that is not 0.
unfoldable pub release_line : Env → FilePath → Bytes → (usage : Bytes) → Sweep → Cmd Sweep
release_line env fpath id usage s =
    let (got, hashesfile) = fread hash_size s.hashesfile in
    do
      bbs ← get_bbs
      when_else (atoi usage == 1) (drop_block env fpath (block_path bbs.hiddendir (c_string id)))
          (pure tt)
      hash ← need (refresh hash_size s.hash got)
      written ← lower_line id usage hash hashesfile
      pure (record s { hashesfile = written; hash = some hash })

-- A round, for an id that is read: to the line of the id.
unfoldable pub release_block : Env → FilePath → Bytes → Sweep → Cmd Sweep
release_block env fpath id s =
    let (got, hashesfile) = fread pointers_counter_length (seek_counter (atoi id) s.hashesfile) in
    do
      usage ← need (refresh pointers_counter_length s.usage got)
      let read = record s { hashesfile = hashesfile; usage = some usage }
      when_else (atoi usage == 0) (pure read) (release_line env fpath id usage read)

unfoldable pub delete_loop : ℕ → Env → FilePath → Sweep → Cmd Sweep
delete_loop zero env fpath s w = fault
delete_loop (suc fuel) env fpath s w =
    let (id, pointers_file) = read_ahead env id_length (content_of w.disk fpath) s.pointers_file in
    let next =
      (release_block env fpath id (record s { pointers_file = pointers_file })
          >>= delete_loop fuel env fpath)
        w in
    if length id == 3 then next else ok s w

-- The file that is open for update gets what is written to it. Each round reads three bytes of the
-- pointers, so their length is fuel enough.
unfoldable pub delete_with : Env → FilePath → (hashes pointers : Bytes) → Cmd (Unit {0})
delete_with env fpath hashes pointers = do
  bbs ← get_bbs
  end ← delete_loop (suc (length pointers)) env fpath (record {
    pointers_file = record { ahead = []; at = 0 };
    hashesfile = stream hashes 0;
    usage = none;
    hash = none;
  })
  set_file bbs.hashesfile (some end.hashesfile.content)

-- Without a hashes file the pointers file is closed, also when it is NULL.
abbrev pub opened : Env → FilePath → Option Bytes → Option Bytes → Cmd (Unit {0})
opened env fpath none none w = fault
opened env fpath none (some pointers) w = ok tt w
opened env fpath (some hashes) none w = ok tt w
opened env fpath (some hashes) (some pointers) w = delete_with env fpath hashes pointers w

unfoldable pub delete_blocks : Env → FilePath → Cmd (Unit {0})
delete_blocks env fpath w =
    opened env fpath (open_content env w.disk w.bbs.hashesfile) (open_content env w.disk fpath) w
