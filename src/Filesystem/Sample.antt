-- ===== src/Filesystem/Sample.antt =====
-- A small hidden directory of Project 4/filesystem that is in order: one block with the text `ab`, which
-- one file points to.
use mathlib.Core.Bool.{false≢true}
use ece318_operating_systems.Prelude.{
  ℕ, ◌+◌, ◌≤◌, ◌≡◌, refl, ap, sym, subst, ◌∙◌, inl, inr, Bool-cases, true, false, none, some, List,
  [], ◌∷◌, ◌++◌, if◌then◌else◌, length, arith, All,
}
use ece318_operating_systems.Filesystem.Bytes.{Bytes, bytes_eq, bytes_eq-eq, take, replicate}
use ece318_operating_systems.Filesystem.Decimal.{format}
use ece318_operating_systems.Filesystem.Stdio.{FilePath, Disk, BbState, World, Env, c_string}
use ece318_operating_systems.Filesystem.Hashes.{generate_hash, to_hex}
use ece318_operating_systems.Filesystem.Hashes.Table.{Row, row, encode, IsRow}
use ece318_operating_systems.Filesystem.Hashes.Insert.{HasRoom}
use ece318_operating_systems.Filesystem.Blocks.{block_path, hashes_path}
use ece318_operating_systems.Filesystem.Blocks.Digest.{hash-IsRow}
use ece318_operating_systems.Filesystem.Blocks.Store.{IsStore, Settled}
use ece318_operating_systems.Filesystem.Blocks.Read.{Chunk, chunk, pointers, contents, IsStored}
use ece318_operating_systems.Filesystem.Delete.Pointers.{id_text}
use ece318_operating_systems.Filesystem.Delete.Outcome.{Apart}
use ece318_operating_systems.Filesystem.Handlers.Write.{Unique}
use ece318_operating_systems.Filesystem.Handlers.Append.{IsFile}

abbrev pub text : Bytes
text = b'a' ∷ b'b' ∷ []

-- A digest that tells `ab` from all other texts.
abbrev pub digest : Bytes → Bytes
digest t = if bytes_eq t text then 1 ∷ replicate 19 0 else replicate 20 0

abbrev pub env : Env
env = record {
  opens = λ p. true;
  sha1 = digest;
  unset_size = 0;
  usable = λ n. n + 8;
  buffer_size = 4096;
  listing = λ p. some (true ∷ false ∷ true ∷ []);
}

abbrev pub root : FilePath
root = b'/' ∷ b'r' ∷ []

abbrev pub hidden : FilePath
hidden = b'/' ∷ b'h' ∷ []

abbrev pub file_name : Bytes
file_name = b'/' ∷ b'f' ∷ []

abbrev pub rows : List Row
rows = row 1 (to_hex (1 ∷ replicate 19 0)) ∷ []

abbrev pub chunks : List Chunk
chunks = chunk 1 text ∷ []

abbrev pub bbs : BbState
bbs = record { rootdir = root; hashesfile = hashes_path hidden; last_id = 1; hiddendir = hidden }

abbrev pub disk : Disk
disk q =
    if bytes_eq q (hashes_path hidden)
    then some (encode 1 rows)
    else if bytes_eq q (block_path hidden (format 3 1))
    then some text
    else if bytes_eq q (root ++ file_name)
    then some (format 3 1)
    else none

abbrev pub world : World
world = record { bbs = bbs; disk = disk }

pub length-digest : (t : Bytes) → length (digest t) ≡ 20
length-digest t = elim (Bool-cases (bytes_eq t text)) [ inl e ↦ rw (e) refl | inr e ↦ rw (e) refl ]

pub hash_eq : generate_hash env text ≡ to_hex (1 ∷ replicate 19 0)
unfolding generate_hash c_string
hash_eq = refl

pub row-IsRow : IsRow (row 1 (to_hex (1 ∷ replicate 19 0)))
row-IsRow =
    subst (λ h. IsRow (row 1 h)) hash_eq
      (hash-IsRow env 1 text (length-digest (c_string text)) (omega arith))

pub block_on_disk : disk (block_path hidden (format 3 1)) ≡ some text
unfolding format
block_on_disk = refl

pub pointers_on_disk : disk (root ++ file_name) ≡ some (pointers chunks)
unfolding format pointers
pointers_on_disk = refl

pub text-IsText : c_string text ≡ text
unfolding c_string
text-IsText = refl

pub settled : Settled env hidden
settled = record {
  hashes_open = refl;
  blocks_open = λ id lt. refl;
  short = omega arith;
  digest = length-digest;
}

pub store : IsStore env rows world
store = record {
  named = refl;
  holds = record {
    opens = refl;
    file = refl;
    rows = (row-IsRow, tt);
    last = refl;
    small = omega arith;
  };
  blocks = (
    (
      λ used. record {
        text = text;
        on_disk = block_on_disk;
        hash_of = hash_eq;
        is_text = text-IsText;
      },
      λ unused. absurd cc,
    ),
    tt,
  );
}

pub chunk-IsStored : IsStored env hidden disk (chunk 1 text)
unfolding format
chunk-IsStored = record {
  id_lt = omega arith;
  opens = refl;
  on_disk = block_on_disk;
  is_text = text-IsText;
  short = omega arith;
}

pub apart : Apart world (root ++ file_name)
apart = record { no_block = λ id lt. refl; not_block = λ id lt. refl; no_hashes = refl }

pub file : IsFile env rows (root ++ file_name) chunks world
file = record {
  store = store;
  pointing = pointers_on_disk;
  listed = ((chunk-IsStored, omega arith), tt);
}

pub other_hash :
    (t : Bytes)
    → bytes_eq t text ≡ false
    → c_string t ≡ t
    → generate_hash env t ≡ to_hex (replicate 20 0)
unfolding generate_hash
other_hash t e is = rw (is, e) refl

pub hashes_differ : ¬ (to_hex (replicate 20 0) ≡ to_hex (1 ∷ replicate 19 0))
unfolding to_hex
hashes_differ e = false≢true (ap (λ h. bytes_eq h (to_hex (1 ∷ replicate 19 0))) e)

pub unique : Unique env text
unique t is e = elim (Bool-cases (bytes_eq t text)) [
  | inl same ↦ bytes_eq-eq t text same ∙ sym text-IsText
  | inr other ↦ absurd (hashes_differ (sym (other_hash t other is) ∙ e ∙ hash_eq))
]

pub usable : (n : ℕ) → n ≤ env.usable n
usable n = omega arith

pub has_room : All HasRoom rows
has_room = (omega arith, tt)

pub ids_on_disk : disk (root ++ file_name) ≡ some (id_text (1 ∷ []))
unfolding format id_text
ids_on_disk = refl

pub ids-fit : length (id_text (1 ∷ [])) ≤ 4096
unfolding format id_text
ids-fit = omega arith

pub read-fits : length (contents chunks ++ c_string (take 2 text)) ≤ 10
unfolding contents c_string
read-fits = omega arith
