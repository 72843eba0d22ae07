-- ===== src/Filesystem/Blocks/Digest.antt =====
-- The hashes of Project 4/filesystem/our_lib.c are texts of 40 characters that fit a line of the table.
use ece318_operating_systems.Prelude.{ℕ, ◌*◌, ◌/◌, ◌%◌, ◌<◌, ◌≡◌, refl, [], ◌∷◌, length, arith}
use ece318_operating_systems.Filesystem.Bytes.{Bytes}
use ece318_operating_systems.Filesystem.Stdio.{Env, c_string}
use ece318_operating_systems.Filesystem.Hashes.{generate_hash, to_hex, hex_digit}
use ece318_operating_systems.Filesystem.Hashes.Table.{row, IsRow}

length-to_hex : (bs : Bytes) → length (to_hex bs) ≡ 2 * length bs
unfolding to_hex
length-to_hex [] = refl
length-to_hex (b ∷ bs) = omega (arith, length-to_hex bs)

c_string-cons : (b : ℕ) (bs : Bytes) → 0 < b → c_string bs ≡ bs → c_string (b ∷ bs) ≡ b ∷ bs
unfolding c_string
c_string-cons b bs pos e = rw (e) (ground arith)

hex_digit_pos : (d : ℕ) → 0 < hex_digit d
hex_digit_pos d = ground arith

to_hex-text : (bs : Bytes) → c_string (to_hex bs) ≡ to_hex bs
unfolding to_hex c_string
to_hex-text [] = refl
to_hex-text (b ∷ bs) =
    c_string-cons (hex_digit (b / 16)) (hex_digit (b % 16) ∷ to_hex bs) (hex_digit_pos (b / 16))
      (c_string-cons (hex_digit (b % 16)) (to_hex bs) (hex_digit_pos (b % 16)) (to_hex-text bs))

-- A hash has 40 characters.
pub hash-IsRow :
    (env : Env) (c : ℕ) (text : Bytes)
    → length (env.sha1 (c_string text)) ≡ 20
    → c < 100
    → IsRow (row c (generate_hash env text))
unfolding generate_hash
hash-IsRow env c text digest small = record {
  counter_lt = small;
  hash_length = omega (arith, length-to_hex (env.sha1 (c_string text)), digest);
  hash_text = to_hex-text (env.sha1 (c_string text));
}

pub c_string-c_string : (bs : Bytes) → c_string (c_string bs) ≡ c_string bs
unfolding c_string
c_string-c_string [] = refl
c_string-c_string (b ∷ bs) = ground (arith, c_string-c_string bs)
