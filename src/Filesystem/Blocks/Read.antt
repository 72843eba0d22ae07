-- ===== src/Filesystem/Blocks/Read.antt =====
-- What `get_real_size` and `read_file` of Project 4/filesystem/our_lib.c return for a file whose blocks
-- are all there.
use mathlib.Core.List.{append_assoc, append-nil}
use ece318_operating_systems.Prelude.{
  ltb-true, ltb-false, ℕ, zero, suc, ◌+◌, ◌*◌, ◌/◌, ◌≤◌, ◌<◌, ◌≡◌, refl, ap, sym, ◌∙◌, true, some,
  List, [], ◌∷◌, ◌++◌, length, length-append, arith, All,
}
use ece318_operating_systems.Filesystem.Bytes.{Bytes}
use ece318_operating_systems.Filesystem.Decimal.{format, format-three}
use ece318_operating_systems.Filesystem.Stdio.{
  FilePath, Disk, World, Env, fault, ok, stream, open_content, c_string,
}
use ece318_operating_systems.Filesystem.Hashes.Table.{length-format-three}
use ece318_operating_systems.Filesystem.Hashes.Compare.{fread-part, fread-end}
use ece318_operating_systems.Filesystem.Blocks.{
  block_path, read_block, get_real_size, sum_sizes, stat_size, append_buffer, append_blocks,
  read_file,
}
use ece318_operating_systems.Filesystem.Blocks.Paths.{length-block_path}

-- A block of a file.
pub record Chunk : Type 0 where
  pub id : ℕ
  pub text : Bytes

abbrev pub chunk : ℕ → Bytes → Chunk
chunk i t = record { id = i; text = t }

-- The file of pointers, and what the user sees.
unfoldable pub pointers : List Chunk → Bytes
pointers [] = []
pointers (c ∷ cs) = format 3 c.id ++ pointers cs

unfoldable pub contents : List Chunk → Bytes
contents [] = []
contents (c ∷ cs) = c.text ++ contents cs

-- The block is on the disk and can be opened, by a path that fits a buffer of PATH_MAX bytes; it holds no
-- NUL.
pub record IsStored (env : Env) (dir : FilePath) (disk : Disk) (c : Chunk) : Type 0 where
  pub id_lt : c.id < 1000
  pub opens : env.opens (block_path dir (format 3 c.id)) ≡ true
  pub on_disk : disk (block_path dir (format 3 c.id)) ≡ some c.text
  pub is_text : c_string c.text ≡ c.text
  pub short : length (block_path dir (format 3 c.id)) < 4096

pub c_string-format_three : (n : ℕ) → n < 1000 → c_string (format 3 n) ≡ format 3 n
unfolding c_string
c_string-format_three n h = rw (format-three n h) (ground arith)

pub length-pointers :
    (env : Env) (dir : FilePath) (disk : Disk) (cs : List Chunk)
    → All (IsStored env dir disk) cs
    → length (pointers cs) ≡ 3 * length cs
unfolding pointers
length-pointers env dir disk [] is = refl
length-pointers env dir disk (c ∷ cs) is = omega (
  arith,
  length-append (format 3 c.id) (pointers cs),
  length-format-three c.id is.0.id_lt,
  length-pointers env dir disk cs is.1,
)

stat_size-there :
    (disk : Disk) (path : FilePath) (old : ℕ) (text : Bytes)
    → disk path ≡ some text
    → stat_size disk path old ≡ length text
unfolding stat_size
stat_size-there disk path old text e = rw (stat_size, e) refl

module _ (env : Env) (w : World) where
  abbrev dir : FilePath
  dir = w.bbs.hiddendir

  abbrev Stored : Chunk → Type 0
  Stored = IsStored env dir w.disk

  sum_sizes-contents :
      (cs : List Chunk) (pre content : Bytes) (p fuel st_size : ℕ)
      → content ≡ pre ++ pointers cs
      → p ≡ length pre
      → All Stored cs
      → length cs < fuel
      → sum_sizes fuel w.disk dir (stream content p) st_size ≡ some (length (contents cs))
  unfolding sum_sizes pointers contents
  sum_sizes-contents cs pre content p zero st_size c at is enough = absurd (omega arith)
  sum_sizes-contents [] pre content p (suc fuel) st_size c at is enough =
      let end : length content ≤ p = omega (arith, ap length c, length-append pre [], at) in
      rw (fread-end content 3 p end) refl
  sum_sizes-contents (x ∷ cs) pre content p (suc fuel) st_size c at is enough =
      let l3 = length-format-three x.id is.0.id_lt in
      rw
        (
          fread-part content pre (format 3 x.id) (pointers cs) 3 p c l3 at,
          l3,
          c_string-format_three x.id is.0.id_lt,
          ltb-true (length (block_path dir (format 3 x.id))) 4096 is.0.short,
          stat_size-there w.disk (block_path dir (format 3 x.id)) st_size x.text is.0.on_disk,
          sum_sizes-contents cs (pre ++ format 3 x.id) content (p + 3) fuel (length x.text)
              (c ∙ simp append_assoc) (omega (arith, length-append pre (format 3 x.id), l3, at))
              is.1 (omega arith),
        )
        (ap (λ n. some n) (sym (length-append x.text (contents cs))))

  -- The name of a block fits where `read_block` writes it, although one byte too few is asked for.
  module _ (name_fits : length dir + 8 < env.usable (length dir + 3 + 5)) (room : ℕ) where
    read_block-there :
        (x : Chunk) → Stored x → read_block env (format 3 x.id) w ≡ ok (some x.text) w
    unfolding read_block open_content
    read_block-there x is =
        rw
          (
            c_string-format_three x.id is.id_lt,
            ltb-true (length (block_path dir (format 3 x.id))) (env.usable (length dir + 3 + 5))
                (omega (arith, length-block_path dir x.id is.id_lt, name_fits)),
            is.opens,
            is.on_disk,
          )
          refl

    append_buffer-text :
        (x : Chunk) (acc : Bytes)
        → Stored x
        → length acc + length x.text < room
        → append_buffer room acc (some x.text) w ≡ ok (acc ++ x.text) w
    unfolding append_buffer
    append_buffer-text x acc is fit =
        rw
          (
            is.is_text,
            ltb-true (length (acc ++ x.text)) room (omega (arith, length-append acc x.text)),
          )
          refl

    append_blocks-contents :
        (cs : List Chunk) (pre content : Bytes) (p : ℕ) (acc : Bytes)
        → content ≡ pre ++ pointers cs
        → p ≡ length pre
        → All Stored cs
        → length acc + length (contents cs) < room
        → append_blocks (length cs) env room (stream content p) acc w ≡ ok (acc ++ contents cs) w
    unfolding append_blocks pointers contents
    append_blocks-contents [] pre content p acc c at is fit =
        ap (λ a. ok a w) (sym (append-nil acc))
    append_blocks-contents (x ∷ cs) pre content p acc c at is fit =
        let l3 = length-format-three x.id is.0.id_lt in
        let split = length-append x.text (contents cs) in
        rw
          (
            fread-part content pre (format 3 x.id) (pointers cs) 3 p c l3 at,
            l3,
            read_block-there x is.0,
            append_buffer-text x acc is.0 (omega (arith, split)),
            append_blocks-contents cs (pre ++ format 3 x.id) content (p + 3) (acc ++ x.text)
                (c ∙ simp append_assoc) (omega (arith, length-append pre (format 3 x.id), l3, at))
                is.1 (omega (arith, split, length-append acc x.text)),
          )
          (ap (λ a. ok a w) (simp append_assoc))

  module _ (fpath : FilePath) (cs : List Chunk) (opens : env.opens fpath ≡ true)
      (on_disk : w.disk fpath ≡ some (pointers cs)) (stored : All Stored cs) where
    -- The size of a file that is made of blocks which are all there, by paths that fit a buffer of PATH_MAX
    -- bytes, is the sum of their lengths.
    pub get_real_size-Sums : get_real_size env fpath w ≡ ok (length (contents cs)) w
    unfolding get_real_size open_content
    get_real_size-Sums =
        rw
          (
            get_real_size,
            opens,
            on_disk,
            sum_sizes-contents cs [] (pointers cs) 0 (suc (length (pointers cs))) env.unset_size
                refl refl stored (omega (arith, length-pointers env dir w.disk cs stored)),
          )
          refl

    blocks_lem : length (pointers cs) / 3 ≡ length cs
    blocks_lem = omega (arith, length-pointers env dir w.disk cs stored)

    -- The content of such a file is that of its blocks, one after the other, when a `malloc` gives what is
    -- asked for and the name of a block fits the buffer for it, which is one byte short.
    pub read_file-Concatenates :
        ((n : ℕ) → n ≤ env.usable n)
        → length dir + 8 < env.usable (length dir + 3 + 5)
        → read_file env fpath w ≡ ok (some (contents cs)) w
    unfolding read_file open_content
    read_file-Concatenates usable name_fits =
        rw
          (
            get_real_size-Sums,
            opens,
            on_disk,
            blocks_lem,
            append_blocks-contents name_fits (env.usable (length (contents cs) + 10)) cs []
                (pointers cs) 0 [] refl refl stored
                (omega (arith, usable (length (contents cs) + 10))),
          )
          refl

-- The buffer for the name of a block is one byte short: where `malloc` gives no more than it is asked
-- for, every block name with an id of three digits is written past its end.
pub read_block-overruns :
    (env : Env) (w : World) (id : ℕ)
    → id < 1000
    → env.usable (length w.bbs.hiddendir + 3 + 5) ≡ length w.bbs.hiddendir + 3 + 5
    → read_block env (format 3 id) w ≡ fault
unfolding read_block
read_block-overruns env w id lt exact =
    rw
      (
        c_string-format_three id lt,
        exact,
        ltb-false (length (block_path w.bbs.hiddendir (format 3 id)))
            (length w.bbs.hiddendir + 3 + 5)
            (omega (arith, length-block_path w.bbs.hiddendir id lt)),
      )
      refl
