-- ===== src/Filesystem/Kernel/Buffers/Names.antt =====
-- The attribute names that `bb_listxattr` of Project 4/filesystem/bbfs.c finds in a list.
use mathlib.Core.List.{append_assoc}
use ece318_operating_systems.Prelude.{
  ltb-true, ltb-false, ℕ, zero, suc, ◌+◌, ◌≤◌, ◌≡◌, refl, ap, subst, ◌∙◌, List, [], ◌∷◌, ◌++◌,
  length, length-append, arith, All,
}
use ece318_operating_systems.Filesystem.Bytes.{Bytes, drop, drop-length-append}
use ece318_operating_systems.Filesystem.Stdio.{c_string}
use ece318_operating_systems.Filesystem.Kernel.Buffers.{names_from}
use ece318_operating_systems.Filesystem.Kernel.Buffers.Links.{c_string-append}

-- Names one after the other, each with its NUL, as the kernel lists them.
abbrev pub encode_names : List Bytes → Bytes
encode_names [] = []
encode_names (n ∷ ns) = n ++ 0 ∷ encode_names ns

-- A name holds no NUL.
abbrev pub IsText : Bytes → Type 0
IsText n = c_string n ≡ n

names_from-place :
    (fuel : ℕ) (pre rest : Bytes) (ns : List Bytes)
    → length (encode_names ns) ≤ fuel
    → All IsText ns
    → names_from fuel
        (length pre + length (encode_names ns))
        (length pre)
        (pre ++ (encode_names ns ++ rest))
      ≡ ns
unfolding names_from
names_from-place zero pre rest [] enough texts = refl
names_from-place zero pre rest (n ∷ ns) enough texts =
    absurd (omega (arith, length-append n (0 ∷ encode_names ns)))
names_from-place (suc fuel) pre rest [] enough texts =
    rw (ltb-false (length pre) (length pre + 0) (omega arith)) refl
names_from-place (suc fuel) pre rest (n ∷ ns) enough texts =
    let list = pre ++ (encode_names (n ∷ ns) ++ rest) in
    let long = length-append n (0 ∷ encode_names ns) in
    let name : c_string (drop (length pre) list) ≡ n =
      ap c_string (
        drop-length-append pre (encode_names (n ∷ ns) ++ rest)
        ∙ append_assoc n (0 ∷ encode_names ns) rest)
      ∙ c_string-append n (encode_names ns ++ rest)
      ∙ texts.0 in
    let place : length pre + length n + 1 ≡ length (pre ++ (n ++ 0 ∷ [])) =
      omega (arith, length-append pre (n ++ 0 ∷ []), length-append n (0 ∷ [])) in
    let count : length pre + length (encode_names (n ∷ ns))
        ≡ length (pre ++ (n ++ 0 ∷ [])) + length (encode_names ns) =
      omega (arith, place, long) in
    let bytes : list ≡ (pre ++ (n ++ 0 ∷ [])) ++ (encode_names ns ++ rest) = simp append_assoc in
    rw
      (
        name,
        ltb-true (length pre) (length pre + length (encode_names (n ∷ ns))) (omega (arith, long)),
        place,
        count,
        bytes,
      )
      (ap (λ (l : List Bytes). n ∷ l)
        (names_from-place fuel (pre ++ (n ++ 0 ∷ [])) rest ns (omega (arith, long)) texts.1))

-- The loop of `bb_listxattr` over a list of names, each closed by a NUL, finds these names in order,
-- whatever lies behind them in the buffer.
pub names_from-encode_names :
    (ns : List Bytes) (rest : Bytes)
    → All IsText ns
    → names_from (length (encode_names ns)) (length (encode_names ns)) 0 (encode_names ns ++ rest)
      ≡ ns
names_from-encode_names ns rest texts =
    let count : 0 + length (encode_names ns) ≡ length (encode_names ns) = omega arith in
    subst (λ k. names_from (length (encode_names ns)) k 0 (encode_names ns ++ rest) ≡ ns) count
      (names_from-place (length (encode_names ns)) [] rest ns (omega arith) texts)
