-- ===== src/Filesystem/Hashes/Table.antt =====
-- What the hashes file of Project 4/filesystem/our_lib.c stands for: a table with a row for each id,
-- from 1 on.
use ece318_operating_systems.Prelude.{
  ℕ, suc, ◌+◌, ◌*◌, ◌≤◌, ◌<◌, ◌≡◌, refl, not, ◌&&◌, Option, none, some, List, [], ◌∷◌, ◌++◌, ◌==◌,
  if◌then◌else◌, length, length-append, arith, All,
}
use ece318_operating_systems.Filesystem.Bytes.{Bytes, bytes_eq}
use ece318_operating_systems.Filesystem.Decimal.{format, format-three, format-two}
use ece318_operating_systems.Filesystem.Stdio.{c_string}
use ece318_operating_systems.Filesystem.Hashes.{line, hash_size}

-- How many pointers there are to the block, and the hash of its content.
pub record Row : Type 0 where
  pub counter : ℕ
  pub hash : Bytes

abbrev pub row : ℕ → Bytes → Row
row c h = record { counter = c; hash = h }

-- The bytes of a table whose first row has the id `i`.
unfoldable pub encode : ℕ → List Row → Bytes
encode i [] = []
encode i (r ∷ rs) = line i r.counter r.hash ++ encode (suc i) rs

-- A row that fits its line: two digits of the counter and forty characters of the hash, none of them NUL.
pub record IsRow (r : Row) : Type 0 where
  pub counter_lt : r.counter < 100
  pub hash_length : length r.hash ≡ hash_size
  pub hash_text : c_string r.hash ≡ r.hash

-- The id of the first row with the hash whose counter is not 0.
unfoldable pub find : ℕ → Bytes → List Row → Option ℕ
find i h [] = none
find i h (r ∷ rs) = if bytes_eq r.hash h && not (r.counter == 0) then some i else find (suc i) h rs

pub length-format-three : (i : ℕ) → i < 1000 → length (format 3 i) ≡ 3
length-format-three i h = rw (format-three i h)

pub length-format-two : (c : ℕ) → c < 100 → length (format 2 c) ≡ 2
length-format-two c h = rw (format-two c h)

pub length-line : (i : ℕ) (r : Row) → i < 1000 → IsRow r → length (line i r.counter r.hash) ≡ 45
length-line i r h is = rw (
  length-append (format 3 i) (format 2 r.counter ++ r.hash),
  length-append (format 2 r.counter) r.hash,
  length-format-three i h,
  length-format-two r.counter is.counter_lt,
  is.hash_length,
)

pub length-encode :
    (i : ℕ) (rs : List Row)
    → i + length rs ≤ 1000
    → All IsRow rs
    → length (encode i rs) ≡ 45 * length rs
unfolding encode
length-encode i [] h is = refl
length-encode i (r ∷ rs) h is = omega (
  arith,
  length-append (line i r.counter r.hash) (encode (suc i) rs),
  length-line i r (omega arith) is.0,
  length-encode (suc i) rs (omega arith) is.1,
)

-- `00` is the counter 0 and no other.
pub format-two-zero : (c : ℕ) → c < 100 → bytes_eq (c_string (format 2 c)) (format 2 0) ≡ (c == 0)
unfolding c_string
format-two-zero c h = rw (format-two c h, format-two 0 (omega arith)) (ground arith)
