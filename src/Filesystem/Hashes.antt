-- ===== src/Filesystem/Hashes.antt =====
-- The hashes file of Project 4/filesystem/our_lib.c: `generate_hash`, `compare_hashes` and
-- `write_hash`. The file is a sequence of lines of 45 bytes with nothing between them: three digits
-- of an id, two of a counter, forty of a hash.
pub mod Table
pub mod Compare
pub mod Update
pub mod Insert
use ece318_operating_systems.Prelude.{
  ℕ, zero, suc, ◌+◌, ◌-◌, ◌*◌, ◌/◌, ◌%◌, ◌≤◌, ◌<◌, ◌≡◌, refl, Bool, true, false, not, ◌&&◌, Option,
  none, some, List, [], ◌∷◌, ◌++◌, ◌==◌, leb, ltb, if◌then◌else◌, length, arith,
}
use ece318_operating_systems.Filesystem.Bytes.{Bytes, bytes_eq, take, drop, replicate}
use ece318_operating_systems.Filesystem.Decimal.{format, atoi}
use ece318_operating_systems.Filesystem.Stdio.{
  FilePath, BbState, World, Env, Cmd, Run, ok, fault, pure, ◌>>=◌, ◌>>◌, get_bbs, content_of, put,
  open_content, set_file, Stream, stream, fread, seek_back, fwrite, c_string,
}

abbrev pub id_length : ℕ
id_length = 3

abbrev pub pointers_counter_length : ℕ
pointers_counter_length = 2

abbrev pub hash_size : ℕ
hash_size = 40

abbrev pub line_total_length : ℕ
line_total_length = id_length + pointers_counter_length + hash_size

-- One digit of `%02x`.
abbrev pub hex_digit : ℕ → ℕ
hex_digit d = if ltb d 10 then b'0' + d else b'a' + (d - 10)

unfoldable pub to_hex : Bytes → Bytes
to_hex [] = []
to_hex (b ∷ bs) = hex_digit (b / 16) ∷ hex_digit (b % 16) ∷ to_hex bs

unfoldable pub generate_hash : Env → Bytes → Bytes
generate_hash env block_data = to_hex (env.sha1 (c_string block_data))

-- The loop of `compare_hashes`. The stream stands at a counter. The result is the id of a line with
-- the hash and a counter that is not 00, or `some none` at the end of the file; `none` means that the
-- fuel ran out.
unfoldable pub compare_loop : ℕ → Bytes → Stream → Option (Option ℕ)
compare_loop zero hash s = none
compare_loop (suc fuel) hash s =
    let (usage, s1) = fread pointers_counter_length s in
    let (found, s2) = fread hash_size s1 in
    let back = seek_back line_total_length s2 in
    let id = (fread id_length back).0 in
    let rest = compare_loop fuel hash (fread id_length s2).1 in
    if not (length usage == pointers_counter_length)
    then some none
    else if not (length found == hash_size)
    then some none
    else if bytes_eq (c_string found) hash && not (bytes_eq (c_string usage) (format 2 0))
    then some (some (atoi id))
    else rest

-- Mode ab+ creates the file where there is none. Each round reads more than 41 bytes, so the length
-- is fuel enough.
unfoldable pub search_hashes : Bytes → Bytes → Cmd ℕ
search_hashes hash content w =
    let created = record w { disk = put w.disk w.bbs.hashesfile (some content) } in
    elim (compare_loop (suc (length content)) hash (stream content id_length)) [
      | none ↦ fault
      | some none ↦ ok (w.bbs.last_id + 1) created
      | some (some id) ↦ ok id created
    ]

unfoldable pub compare_hashes : Env → Bytes → Cmd ℕ
compare_hashes env hash w =
    if not (env.opens w.bbs.hashesfile)
    then ok 1 w
    else search_hashes hash (content_of w.disk w.bbs.hashesfile) w

-- The line with the id, the counter and the hash. `line_to_write` has room for 45 bytes and NUL.
abbrev pub line : ℕ → ℕ → Bytes → Bytes
line id counter hash = format 3 id ++ (format 2 counter ++ hash)

-- A line of an id that is known: its counter, plus one, and the hash are written over the old ones.
unfoldable pub bump_line : ℕ → Bytes → Bytes → Option Bytes
bump_line id hash content =
    let offset = (id - 1) * line_total_length in
    let start = if id == 0 then 0 else offset + id_length in
    let (usage, s) = fread pointers_counter_length (stream content start) in
    let text = line id (atoi usage + 1) hash in
    if not (length usage == pointers_counter_length)
    then none
    else if ltb line_total_length (length text)
    then none
    else some (fwrite text (seek_back (id_length + pointers_counter_length) s)).content

-- A new line, at the end.
unfoldable pub add_line : ℕ → Bytes → Bytes → Option Bytes
add_line id hash content =
    if ltb line_total_length (length (line id 1 hash))
    then none
    else some (fwrite (line id 1 hash) (stream content (length content))).content

abbrev pub or_fault : Option Bytes → Cmd Bytes
or_fault none = λ _. fault
or_fault (some c) = pure c

unfoldable pub write_hash : Env → Bytes → ℕ → Cmd (Unit {0})
write_hash env hash id w = elim (open_content env w.disk w.bbs.hashesfile) [
  | none ↦ ok tt w
  | some content ↦
      (do
        written ←
            or_fault
              (if ltb w.bbs.last_id id then add_line id hash content else bump_line id hash content)
        set_file w.bbs.hashesfile (some written))
        w
]
