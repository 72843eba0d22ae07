-- ===== src/Filesystem/Blocks.antt =====
-- The blocks of Project 4/filesystem/our_lib.c: `generate_block`, `read_block`, `get_real_size`,
-- `read_file`, `write_blocks` and `get_initial_id_number`. A block is a file `<hiddendir>/<id>.txt`; a
-- file of the user is a sequence of three-digit ids.
pub mod Paths
pub mod Store
pub mod Digest
pub mod Generated
pub mod Reuse
pub mod Fresh
pub mod Generate
pub mod Read
use ece318_operating_systems.Prelude.{
  ℕ, zero, suc, ◌+◌, ◌-◌, ◌*◌, ◌/◌, ◌%◌, ◌≤◌, ◌<◌, ◌≡◌, refl, Bool, true, false, not, ◌&&◌, ◌||◌,
  Option, none, some, List, [], ◌∷◌, ◌++◌, ◌==◌, leb, ltb, if◌then◌else◌, length, arith,
}
use ece318_operating_systems.Filesystem.Bytes.{Bytes, bytes_eq, take, drop, replicate}
use ece318_operating_systems.Filesystem.Decimal.{format, atoi}
use ece318_operating_systems.Filesystem.Stdio.{
  FilePath, Disk, BbState, World, Env, Cmd, Run, ok, fault, pure, when_else, ◌>>=◌, ◌>>◌, get_bbs,
  get_world, content_of, put, open_content, set_file, Stream, stream, fread, seek_back, fwrite,
  write_at, c_string,
}
use ece318_operating_systems.Filesystem.Hashes.{
  id_length, generate_hash, compare_hashes, write_hash,
}

abbrev pub path_max : ℕ
path_max = 4096

abbrev pub max_block_size : ℕ
max_block_size = 4096

abbrev pub formated_id_max_len : ℕ
formated_id_max_len = 3

-- `sprintf(…, "%s/%s.txt", dir, id)`
abbrev pub block_path : FilePath → Bytes → FilePath
block_path dir id = dir ++ (b'/' ∷ (id ++ (b'.' ∷ b't' ∷ b'x' ∷ b't' ∷ [])))

-- `sprintf(…, "%s/hashes", dir)`
abbrev pub hashes_path : FilePath → FilePath
hashes_path dir = dir ++ (b'/' ∷ b'h' ∷ b'a' ∷ b's' ∷ b'h' ∷ b'e' ∷ b's' ∷ [])

-- A text and its NUL fit in a buffer of `n` bytes.
abbrev pub fits : Bytes → ℕ → Bool
fits text n = ltb (length text) n

abbrev pub set_last_id : ℕ → Cmd (Unit {0})
set_last_id n w = ok tt (record w { bbs = record w.bbs { last_id = n } })

-- The bytes that are written to a stream at its start get to the file when it is closed.
abbrev pub close_written : FilePath → Bytes → Cmd (Unit {0})
close_written p text w = set_file p (some (write_at (content_of w.disk p) 0 text)) w

-- The part of `generate_block` for a block that is new.
unfoldable pub new_block : Env → Bytes → Bytes → Cmd ℕ
new_block env hash text = do
  bbs ← get_bbs
  let path = block_path bbs.hiddendir (format 3 (bbs.last_id + 1))
  when_else (not (fits path path_max)) (λ _. fault)
      (when_else (not (env.opens path)) (pure 0) (do
        set_file path (some [])
        write_hash env hash (bbs.last_id + 1)
        set_last_id (bbs.last_id + 1)
        close_written path text
        pure (bbs.last_id + 1)))

unfoldable pub generate_block : Env → Bytes → Cmd ℕ
generate_block env block_data = do
  let hash = generate_hash env block_data
  last_id ← compare_hashes env hash
  bbs ← get_bbs
  when_else (not (ltb bbs.last_id last_id)) (do write_hash env hash last_id; pure last_id)
      (new_block env hash (c_string block_data))

-- `none` is NULL. The name is written into a buffer of `strlen(hiddendir) + 3 + 5` bytes.
unfoldable pub read_block : Env → Bytes → Cmd (Option Bytes)
read_block env id w =
    let path = block_path w.bbs.hiddendir (c_string id) in
    if fits path (env.usable (length w.bbs.hiddendir + formated_id_max_len + 5))
    then ok (open_content env w.disk path) w
    else fault

-- What `stat` leaves in `st_size`: the old value when it fails.
unfoldable pub stat_size : Disk → FilePath → ℕ → ℕ
stat_size disk path old = elim (disk path) [ none ↦ old | some content ↦ length content ]

abbrev pub plus_total : ℕ → Option ℕ → Option ℕ
plus_total size none = none
plus_total size (some total) = some (size + total)

-- The sum of `get_real_size`. `st_size` is what the last `stat` that succeeded has left in `st`: the
-- result of a `stat` is not looked at.
unfoldable pub sum_sizes : ℕ → Disk → FilePath → Stream → (st_size : ℕ) → Option ℕ
sum_sizes zero disk dir s st_size = none
sum_sizes (suc fuel) disk dir s st_size =
    let (id, s1) = fread id_length s in
    let filename = block_path dir (c_string id) in
    let size = stat_size disk filename st_size in
    let total = plus_total size (sum_sizes fuel disk dir s1 size) in
    if ltb (length id) 3 then some 0 else if fits filename path_max then total else none

abbrev pub of_option : {A : Type 0} → Option A → Cmd A
of_option none w = fault
of_option (some a) w = ok a w

-- Each round reads three bytes, so the length is fuel enough.
unfoldable pub get_real_size : Env → FilePath → Cmd ℕ
get_real_size env fpath w = elim (open_content env w.disk fpath) [
  | none ↦ ok 0 w
  | some content ↦
      of_option
        (sum_sizes (suc (length content)) w.disk w.bbs.hiddendir (stream content 0) env.unset_size)
        w
]

-- `strcat` of a block to `file_data`, a buffer of `room` bytes: a block that cannot be read is NULL.
unfoldable pub append_buffer : ℕ → Bytes → Option Bytes → Cmd Bytes
append_buffer room file_data none w = fault
append_buffer room file_data (some buffer) w =
    let text = file_data ++ c_string buffer in if fits text room then ok text w else fault

unfoldable pub append_blocks :
    (num_of_blocks : ℕ) → Env → ℕ → Stream → (file_data : Bytes) → Cmd Bytes
append_blocks zero env room s file_data = pure file_data
append_blocks (suc n) env room s file_data =
    let (id, s1) = fread id_length s in
    let next = read_block env id >>= append_buffer room file_data >>= append_blocks n env room s1 in
    when_else (not (length id == id_length)) (pure file_data) next

unfoldable pub read_file : Env → FilePath → Cmd (Option Bytes)
read_file env fpath = do
  size ← get_real_size env fpath
  w ← get_world
  elim (open_content env w.disk fpath) [
    | none ↦ pure none
    | some content ↦ do
      text ←
          append_blocks (length content / id_length) env (env.usable (size + 10)) (stream content 0)
            []
      pure (some text)
  ]

-- `buf` holds the bytes that FUSE passes; `block_data` has room for 4096 of them and NUL.
unfoldable pub write_blocks : Env → Bytes → ℕ → Cmd Bytes
write_blocks env buf size =
    when_else (ltb max_block_size size || ltb (length buf) size) (λ _. fault)
      (do
        id ← generate_block env (take size buf)
        when_else (fits (format 3 id) (env.usable (id_length + 1))) (pure (format 3 id))
            (λ _. fault))

abbrev pub count_regular : List Bool → ℕ
count_regular [] = 0
count_regular (true ∷ es) = 1 + count_regular es
count_regular (false ∷ es) = count_regular es

-- Where the directory cannot be opened `log_msg` uses the context of FUSE, which there is none of before
-- `fuse_main`: undefined behaviour, which is `none`.
unfoldable pub get_initial_id_number : Env → FilePath → Option ℕ
get_initial_id_number env path = elim (env.listing path) [
  | none ↦ none
  | some entries ↦
      let file_count = count_regular entries in
      some (if file_count == 0 then file_count else file_count - 1)
]
