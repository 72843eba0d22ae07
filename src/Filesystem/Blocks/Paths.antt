-- ===== src/Filesystem/Blocks/Paths.antt =====
-- The names of the files in the hidden directory of Project 4/filesystem/our_lib.c differ.
use ece318_operating_systems.Prelude.{
  ℕ, ◌+◌, ◌<◌, ◌≡◌, refl, ◌∙◌, false, [], ◌∷◌, ◌++◌, ==_refl, length, length-append, arith,
}
use ece318_operating_systems.Filesystem.Bytes.{Bytes, bytes_eq}
use ece318_operating_systems.Filesystem.Decimal.{format, format-three}
use ece318_operating_systems.Filesystem.Stdio.{FilePath}
use ece318_operating_systems.Filesystem.Hashes.Table.{length-format-three}
use ece318_operating_systems.Filesystem.Blocks.{block_path, hashes_path}

pub bytes_eq-prefix : (dir xs ys : Bytes) → bytes_eq (dir ++ xs) (dir ++ ys) ≡ bytes_eq xs ys
bytes_eq-prefix [] xs ys = refl
bytes_eq-prefix (d ∷ dir) xs ys = rw (==_refl d) (bytes_eq-prefix dir xs ys)

pub length-block_path :
    (dir : FilePath) (id : ℕ) → id < 1000 → length (block_path dir (format 3 id)) ≡ length dir + 8
length-block_path dir id lt = omega (
  arith,
  length-append dir (b'/' ∷ (format 3 id ++ (b'.' ∷ b't' ∷ b'x' ∷ b't' ∷ []))),
  length-append (format 3 id) (b'.' ∷ b't' ∷ b'x' ∷ b't' ∷ []),
  length-format-three id lt,
)

pub block_path-ne :
    (dir : FilePath) (i j : ℕ)
    → i < 1000
    → j < 1000
    → ¬ (i ≡ j)
    → bytes_eq (block_path dir (format 3 i)) (block_path dir (format 3 j)) ≡ false
block_path-ne dir i j small small' ne =
    bytes_eq-prefix dir _ _ ∙ rw (format-three i small, format-three j small') (ground arith)

pub hashes_path-block_ne :
    (dir : FilePath) (i : ℕ)
    → i < 1000
    → bytes_eq (hashes_path dir) (block_path dir (format 3 i)) ≡ false
hashes_path-block_ne dir i small =
    bytes_eq-prefix dir _ _ ∙ rw (format-three i small) (ground arith)

pub block_path-hashes_ne :
    (dir : FilePath) (i : ℕ)
    → i < 1000
    → bytes_eq (block_path dir (format 3 i)) (hashes_path dir) ≡ false
block_path-hashes_ne dir i small =
    bytes_eq-prefix dir _ _ ∙ rw (format-three i small) (ground arith)
