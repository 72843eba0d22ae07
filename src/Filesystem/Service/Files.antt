-- ===== src/Filesystem/Service/Files.antt =====
-- Files by their names, in the abstract view of Project 4/filesystem.
use ece318_operating_systems.Prelude.{
  ℕ, zero, suc, ◌+◌, ◌≤◌, ◌<◌, ◌≡◌, refl, ◌∙◌, sym, subst, Bool-cases, inl, inr, true, false, List,
  [], ◌∷◌, ◌++◌, ◌==◌, length, All, arith,
}
use ece318_operating_systems.Filesystem.Bytes.{Bytes, bytes_eq, bytes_eq-eq, bytes_eq_comm}
use ece318_operating_systems.Filesystem.Blocks.Read.{Chunk, pointers}
use ece318_operating_systems.Filesystem.Delete.Pointers.{id_text}
use ece318_operating_systems.Filesystem.Service.{
  File, file_of, ids, occurs, uses, has_file, chunks_of, set_chunks, without, put_chunk, replaced,
}

-- The names all differ.
abbrev pub Named : List File → Type 0
Named [] = Unit
Named (f ∷ fs) = (has_file f.name fs ≡ false) × Named fs

pub pointers-ids : (cs : List Chunk) → pointers cs ≡ id_text (ids cs)
unfolding pointers id_text
pointers-ids [] = refl
pointers-ids (c ∷ cs) = rw (pointers-ids cs) refl

pub occurs-append : (i : ℕ) (xs ys : List ℕ) → occurs i (xs ++ ys) ≡ occurs i xs + occurs i ys
occurs-append i [] ys = omega arith
occurs-append i (x ∷ xs) ys = ground (arith, occurs-append i xs ys)

pub occurs-put_chunk :
    (i k : ℕ) (c : Chunk) (cs : List Chunk)
    → occurs i (ids (put_chunk k c cs)) + occurs i (replaced k cs)
      ≡ occurs i (ids cs) + occurs i (c.id ∷ [])
occurs-put_chunk i zero c [] = ground arith
occurs-put_chunk i (suc k) c [] = ground arith
occurs-put_chunk i zero c (d ∷ cs) = ground arith
occurs-put_chunk i (suc k) c (d ∷ cs) = ground (arith, occurs-put_chunk i k c cs)

pub length-put_chunk :
    (k n : ℕ) (c : Chunk) (cs : List Chunk)
    → k ≤ n
    → length cs ≤ suc n
    → length (put_chunk k c cs) ≤ suc n
length-put_chunk zero n c [] le le' = omega arith
length-put_chunk (suc k) n c [] le le' = omega arith
length-put_chunk zero n c (d ∷ cs) le le' = le'
length-put_chunk (suc k) zero c (d ∷ cs) le le' = absurd (omega arith)
length-put_chunk (suc k) (suc n) c (d ∷ cs) le le' =
    omega (arith, length-put_chunk k n c cs (omega arith) (omega arith))

pub All-put_chunk :
    (P : Chunk → Type 0) (k : ℕ) (c : Chunk) (cs : List Chunk)
    → All P cs
    → P c
    → All P (put_chunk k c cs)
All-put_chunk P zero c [] ps p = (p, tt)
All-put_chunk P (suc k) c [] ps p = (p, tt)
All-put_chunk P zero c (d ∷ cs) ps p = (p, ps.1)
All-put_chunk P (suc k) c (d ∷ cs) ps p = (ps.0, All-put_chunk P k c cs ps.1 p)

pub All-replaced :
    (P : ℕ → Type 0) (k : ℕ) (cs : List Chunk) → All P (ids cs) → All P (replaced k cs)
All-replaced P zero [] ps = tt
All-replaced P (suc k) [] ps = tt
All-replaced P zero (d ∷ cs) ps = (ps.0, tt)
All-replaced P (suc k) (d ∷ cs) ps = All-replaced P k cs ps.1

pub All-ids :
    (P : Chunk → Type 0) (Q : ℕ → Type 0) (cs : List Chunk)
    → ((c : Chunk) → P c → Q c.id)
    → All P cs
    → All Q (ids cs)
All-ids P Q [] f ps = tt
All-ids P Q (c ∷ cs) f ps = (f c ps.0, All-ids P Q cs f ps.1)

pub All-append : (P : ℕ → Type 0) (xs ys : List ℕ) → All P xs → All P ys → All P (xs ++ ys)
All-append P [] ys ps qs = qs
All-append P (x ∷ xs) ys ps qs = (ps.0, All-append P xs ys ps.1 qs)

-- A file that is there.
pub All-chunks_of :
    (P : File → Type 0) (n : Bytes) (fs : List File)
    → has_file n fs ≡ true
    → All P fs
    → P (file_of n (chunks_of n fs))
All-chunks_of P n [] there ps = absurd cc
All-chunks_of P n (f ∷ fs) there ps = elim (Bool-cases (bytes_eq n f.name)) [
  | inl e ↦ rw (e, bytes_eq-eq n f.name e) ps.0
  | inr e ↦ rw (e) (All-chunks_of P n fs (ground arith) ps.1)
]

-- The others are the files with other names.
pub All-others :
    (P Q : File → Type 0) (n : Bytes) (fs : List File)
    → has_file n fs ≡ false
    → ((f : File) → bytes_eq f.name n ≡ false → P f → Q f)
    → All P fs
    → All Q fs
All-others P Q n [] out f ps = tt
All-others P Q n (x ∷ fs) out f ps =
    (f x (bytes_eq_comm x.name n ∙ ground arith) ps.0, All-others P Q n fs (ground arith) f ps.1)

module _ (P Q : File → Type 0) (n : Bytes)
    (f : (x : File) → bytes_eq x.name n ≡ false → P x → Q x) where
  pub All-set_chunks :
      (cs : List Chunk) (fs : List File)
      → Named fs
      → Q (file_of n cs)
      → All P fs
      → All Q (set_chunks n cs fs)
  All-set_chunks cs [] named q ps = tt
  All-set_chunks cs (x ∷ fs) named q ps = elim (Bool-cases (bytes_eq n x.name)) [
    | inl e ↦
        let same = bytes_eq-eq n x.name e in
        rw (e) (
          subst (λ y. Q (file_of y cs)) same q,
          All-others P Q n fs (subst (λ y. has_file y fs ≡ false) (sym same) named.0) f ps.1,
        )
    | inr e ↦ rw (e) (f x (bytes_eq_comm x.name n ∙ e) ps.0, All-set_chunks cs fs named.1 q ps.1)
  ]

  pub All-without : (fs : List File) → Named fs → All P fs → All Q (without n fs)
  All-without [] named ps = tt
  All-without (x ∷ fs) named ps = elim (Bool-cases (bytes_eq n x.name)) [
    | inl e ↦ rw (e) (
        All-others P Q n fs
          (subst (λ y. has_file y fs ≡ false) (sym (bytes_eq-eq n x.name e)) named.0) f ps.1)
    | inr e ↦ rw (e) (f x (bytes_eq_comm x.name n ∙ e) ps.0, All-without fs named.1 ps.1)
  ]

pub has_file-set_chunks :
    (k n : Bytes) (cs : List Chunk) (fs : List File)
    → has_file k (set_chunks n cs fs) ≡ has_file k fs
has_file-set_chunks k n cs [] = refl
has_file-set_chunks k n cs (x ∷ fs) = ground (arith, has_file-set_chunks k n cs fs)

pub set_chunks-Named :
    (n : Bytes) (cs : List Chunk) (fs : List File) → Named fs → Named (set_chunks n cs fs)
set_chunks-Named n cs [] named = tt
set_chunks-Named n cs (x ∷ fs) named = elim (Bool-cases (bytes_eq n x.name)) [
  | inl e ↦ rw (e) named
  | inr e ↦ rw (e) (has_file-set_chunks x.name n cs fs ∙ named.0, set_chunks-Named n cs fs named.1)
]

pub without-keeps_out :
    (k n : Bytes) (fs : List File) → has_file k fs ≡ false → has_file k (without n fs) ≡ false
without-keeps_out k n [] out = refl
without-keeps_out k n (x ∷ fs) out = ground (arith, without-keeps_out k n fs)

pub without-Named : (n : Bytes) (fs : List File) → Named fs → Named (without n fs)
without-Named n [] named = tt
without-Named n (x ∷ fs) named = elim (Bool-cases (bytes_eq n x.name)) [
  | inl e ↦ rw (e) named.1
  | inr e ↦ rw (e) (without-keeps_out x.name n fs named.0, without-Named n fs named.1)
]

pub has_file-without : (n : Bytes) (fs : List File) → Named fs → has_file n (without n fs) ≡ false
has_file-without n [] named = refl
has_file-without n (x ∷ fs) named = elim (Bool-cases (bytes_eq n x.name)) [
  | inl e ↦ rw (e) (subst (λ y. has_file y fs ≡ false) (sym (bytes_eq-eq n x.name e)) named.0)
  | inr e ↦ rw (e, e) (has_file-without n fs named.1)
]

other_name : (k n x : Bytes) → bytes_eq k n ≡ false → bytes_eq n x ≡ true → bytes_eq k x ≡ false
other_name k n x ne e = subst (λ y. bytes_eq k y ≡ false) (bytes_eq-eq n x e) ne

module _ (k n : Bytes) (ne : bytes_eq k n ≡ false) where
  pub has_file-without_other : (fs : List File) → has_file k (without n fs) ≡ has_file k fs
  has_file-without_other [] = refl
  has_file-without_other (x ∷ fs) = elim (Bool-cases (bytes_eq n x.name)) [
    | inl e ↦ rw (e, other_name k n x.name ne e) refl
    | inr e ↦ rw (e, has_file-without_other fs) refl
  ]

  pub chunks_of-without : (fs : List File) → chunks_of k (without n fs) ≡ chunks_of k fs
  chunks_of-without [] = refl
  chunks_of-without (x ∷ fs) = elim (Bool-cases (bytes_eq n x.name)) [
    | inl e ↦ rw (e, other_name k n x.name ne e) refl
    | inr e ↦ rw (e, chunks_of-without fs) refl
  ]

pub uses-set_chunks :
    (i : ℕ) (n : Bytes) (cs : List Chunk) (fs : List File)
    → has_file n fs ≡ true
    → uses i (set_chunks n cs fs) + occurs i (ids (chunks_of n fs)) ≡ uses i fs + occurs i (ids cs)
uses-set_chunks i n cs [] there = absurd cc
uses-set_chunks i n cs (x ∷ fs) there = elim (Bool-cases (bytes_eq n x.name)) [
  | inl e ↦ rw (e) (omega arith)
  | inr e ↦ rw (e) (omega (arith, uses-set_chunks i n cs fs (ground arith)))
]

pub uses-without :
    (i : ℕ) (n : Bytes) (fs : List File)
    → uses i (without n fs) + occurs i (ids (chunks_of n fs)) ≡ uses i fs
uses-without i n [] = refl
uses-without i n (x ∷ fs) = elim (Bool-cases (bytes_eq n x.name)) [
  | inl e ↦ rw (e) (omega arith)
  | inr e ↦ rw (e) (omega (arith, uses-without i n fs))
]

-- What holds of each id that is used holds of each id of each file.
occurs-All : (P : ℕ → Type 0) (xs : List ℕ) → ((i : ℕ) → 0 < occurs i xs → P i) → All P xs
occurs-All P [] f = tt
occurs-All P (x ∷ xs) f = (f x (ground arith), occurs-All P xs (λ i lt. f i (ground arith)))

pub uses-All :
    (P : ℕ → Type 0) (fs : List File)
    → ((i : ℕ) → 0 < uses i fs → P i)
    → All (λ x. All P (ids x.chunks)) fs
uses-All P [] f = tt
uses-All P (x ∷ fs) f = (
  occurs-All P (ids x.chunks) (λ i lt. f i (omega arith)),
  uses-All P fs (λ i lt. f i (omega arith)),
)

pub occurs-of_All : (P : ℕ → Type 0) (i : ℕ) (xs : List ℕ) → All P xs → 0 < occurs i xs → P i
occurs-of_All P i [] ps lt = absurd (omega arith)
occurs-of_All P i (x ∷ xs) ps lt = elim (Bool-cases (i == x)) [
  | inl e ↦ let same : x ≡ i = ground arith in subst P same ps.0
  | inr e ↦ occurs-of_All P i xs ps.1 (ground arith)
]

pub uses-of_All :
    (P : ℕ → Type 0) (i : ℕ) (fs : List File)
    → All (λ x. All P (ids x.chunks)) fs
    → 0 < uses i fs
    → P i
uses-of_All P i [] ps lt = absurd (omega arith)
uses-of_All P i (x ∷ fs) ps lt = elim (Bool-cases (occurs i (ids x.chunks) == 0)) [
  | inl e ↦ uses-of_All P i fs ps.1 (ground arith)
  | inr e ↦ occurs-of_All P i (ids x.chunks) ps.0 (ground arith)
]

pub All-chunk_ids :
    (P : ℕ → Type 0) (n : Bytes) (fs : List File)
    → All (λ x. All P (ids x.chunks)) fs
    → All P (ids (chunks_of n fs))
All-chunk_ids P n [] ps = tt
All-chunk_ids P n (x ∷ fs) ps = elim (Bool-cases (bytes_eq n x.name)) [
  | inl e ↦ rw (e) ps.0
  | inr e ↦ rw (e) (All-chunk_ids P n fs ps.1)
]
