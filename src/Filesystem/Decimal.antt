-- ===== src/Filesystem/Decimal.antt =====
-- `sprintf` with `%03d` and `%02d`, and `atoi`, as Project 4/filesystem/our_lib.c uses them.
use ece318_operating_systems.Prelude.{
  ℕ, zero, suc, ◌+◌, ◌-◌, ◌*◌, ◌/◌, ◌%◌, ◌<◌, ◌≡◌, refl, ◌&&◌, [], ◌∷◌, ◌++◌, ltb, leb,
  if◌then◌else◌, length, arith,
}
use ece318_operating_systems.Filesystem.Bytes.{Bytes, replicate}

-- The decimal digits of a number that has at most `fuel` of them.
pub digits : (fuel : ℕ) → ℕ → Bytes
digits zero n = []
digits (suc fuel) n =
    let front = digits fuel (n / 10) in
    if ltb n 10 then (b'0' + n) ∷ [] else front ++ (b'0' + n % 10) ∷ []

-- `%0wd` of a number that is not negative. An int has at most 10 digits.
unfoldable pub format : (width : ℕ) → ℕ → Bytes
unfolding digits
format width n = let ds = digits 10 n in replicate (width - length ds) b'0' ++ ds

-- `atoi` of a text that starts with a digit, or with no number at all: the files hold no sign and no
-- blank.
pub atoi_from : ℕ → Bytes → ℕ
atoi_from acc [] = acc
atoi_from acc (c ∷ cs) =
    let rest = atoi_from (acc * 10 + (c - b'0')) cs in
    if leb b'0' c && leb c b'9' then rest else acc

unfoldable pub atoi : Bytes → ℕ
unfolding atoi_from
atoi s = atoi_from 0 s

-- Three digits, as long as they are enough.
pub format-three :
    (n : ℕ) → n < 1000 → format 3 n ≡ (b'0' + n / 100) ∷ (b'0' + n / 10 % 10) ∷ (b'0' + n % 10) ∷ []
unfolding format
format-three n h = ground arith

pub format-two : (n : ℕ) → n < 100 → format 2 n ≡ (b'0' + n / 10) ∷ (b'0' + n % 10) ∷ []
unfolding format
format-two n h = ground arith

pub atoi-format-three : (n : ℕ) → n < 1000 → atoi (format 3 n) ≡ n
unfolding atoi
atoi-format-three n h = rw (format-three n h) (ground arith)

pub atoi-format-two : (n : ℕ) → n < 100 → atoi (format 2 n) ≡ n
unfolding atoi
atoi-format-two n h = rw (format-two n h) (ground arith)

format_runs :
    (format 3 7 ≡ b'0' ∷ b'0' ∷ b'7' ∷ []) × (format 3 1024 ≡ b'1' ∷ b'0' ∷ b'2' ∷ b'4' ∷ [])
unfolding format
format_runs = (refl, refl)
