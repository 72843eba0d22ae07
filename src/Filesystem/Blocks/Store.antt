-- ===== src/Filesystem/Blocks/Store.antt =====
-- When the hidden directory of Project 4/filesystem is in order: the hashes file holds a table, and each
-- row that is in use has its block.
use ece318_operating_systems.Prelude.{
  ℕ, suc, ◌+◌, ◌≤◌, ◌<◌, ◌≡◌, ◌≢◌, sym, subst, ◌∙◌, true, false, Option, none, some, List, [], ◌∷◌,
  ◌++◌, ◌==◌, length, arith,
}
use ece318_operating_systems.Filesystem.Bytes.{Bytes, bytes_eq}
use ece318_operating_systems.Filesystem.Decimal.{format}
use ece318_operating_systems.Filesystem.Stdio.{FilePath, Disk, World, Env, put, c_string}
use ece318_operating_systems.Filesystem.Hashes.{generate_hash}
use ece318_operating_systems.Filesystem.Hashes.Table.{Row}
use ece318_operating_systems.Filesystem.Hashes.Compare.{Holds}
use ece318_operating_systems.Filesystem.Blocks.{block_path, hashes_path}

-- A property of all rows and their ids.
abbrev pub Rows : (ℕ → Row → Type 0) → ℕ → List Row → Type 0
Rows P i [] = Unit
Rows P i (r ∷ rs) = P i r × Rows P (suc i) rs

pub Rows-map :
    (P Q : ℕ → Row → Type 0) (i n : ℕ) (rs : List Row)
    → i + length rs ≤ n
    → ((j : ℕ) (r : Row) → i ≤ j → j < n → P j r → Q j r)
    → Rows P i rs
    → Rows Q i rs
Rows-map P Q i n [] le f h = tt
Rows-map P Q i n (r ∷ rs) le f h = (
  f i r (omega arith) (omega arith) h.0,
  Rows-map P Q (suc i) n rs (omega arith) (λ j x le' lt. f j x (omega arith) lt) h.1,
)

pub Rows-append :
    (P : ℕ → Row → Type 0) (i : ℕ) (rs : List Row) (r : Row)
    → Rows P i rs
    → P (i + length rs) r
    → Rows P i (rs ++ r ∷ [])
Rows-append P i [] r h p = let e : i + 0 ≡ i = omega arith in (subst (λ n. P n r) e p, tt)
Rows-append P i (x ∷ rs) r h p =
    let e : i + suc (length rs) ≡ suc i + length rs = omega arith in
    (h.0, Rows-append P (suc i) rs r h.1 (subst (λ n. P n r) e p))

pub Rows-replace :
    (P : ℕ → Row → Type 0) (i : ℕ) (before after : List Row) (r r' : Row)
    → ((j : ℕ) → P j r → P j r')
    → Rows P i (before ++ r ∷ after)
    → Rows P i (before ++ r' ∷ after)
Rows-replace P i [] after r r' f h = (f i h.0, h.1)
Rows-replace P i (x ∷ before) after r r' f h = (h.0, Rows-replace P (suc i) before after r r' f h.1)

-- The block of an id is there, and its text has the hash.
pub record HasBlock (env : Env) (dir : FilePath) (disk : Disk) (id : ℕ) (hash : Bytes)
    : Type 0 where
  pub text : Bytes
  pub on_disk : disk (block_path dir (format 3 id)) ≡ some text
  pub hash_of : generate_hash env text ≡ hash
  pub is_text : c_string text ≡ text

-- A row that is in use has its block, and a row that is not has none.
abbrev pub LiveRow : Env → FilePath → Disk → ℕ → Row → Type 0
LiveRow env dir disk id r =
    ((r.counter == 0) ≡ false → HasBlock env dir disk id r.hash)
    × ((r.counter == 0) ≡ true → disk (block_path dir (format 3 id)) ≡ none)

-- Where the hidden directory is, its files can be opened, and SHA-1 gives 20 bytes.
pub record Settled (env : Env) (dir : FilePath) : Type 0 where
  pub hashes_open : env.opens (hashes_path dir) ≡ true
  pub blocks_open : (id : ℕ) → id < 1000 → env.opens (block_path dir (format 3 id)) ≡ true
  pub short : length dir + 9 ≤ 4096
  pub digest : (text : Bytes) → length (env.sha1 text) ≡ 20

-- The state has the table in its hashes file, a row for each id up to the last one, and a block for each
-- row that is in use and for no other.
pub record IsStore (env : Env) (rs : List Row) (w : World) : Type 0 where
  pub named : w.bbs.hashesfile ≡ hashes_path w.bbs.hiddendir
  pub holds : Holds env rs w
  pub blocks : Rows (LiveRow env w.bbs.hiddendir w.disk) 1 rs

-- Writing another file leaves a block as it is.
pub HasBlock-put :
    (env : Env) (dir : FilePath) (disk : Disk) (id : ℕ) (hash : Bytes) (path : FilePath)
    (c : Option Bytes)
    → bytes_eq (block_path dir (format 3 id)) path ≡ false
    → HasBlock env dir disk id hash
    → HasBlock env dir (put disk path c) id hash
HasBlock-put env dir disk id hash path c ne b = record {
  text = b.text;
  on_disk = rw (ne) b.on_disk;
  hash_of = b.hash_of;
  is_text = b.is_text;
}

-- So it does to all blocks of a table.
pub Rows-put :
    (env : Env) (dir : FilePath) (disk : Disk) (path : FilePath) (c : Option Bytes) (i n : ℕ)
    (rs : List Row)
    → i + length rs ≤ n
    → ((id : ℕ) → id < n → bytes_eq (block_path dir (format 3 id)) path ≡ false)
    → Rows (LiveRow env dir disk) i rs
    → Rows (LiveRow env dir (put disk path c)) i rs
Rows-put env dir disk path c i n rs le ne =
    Rows-map (LiveRow env dir disk) (LiveRow env dir (put disk path c)) i n rs le
      (λ j r le' lt live. (
        λ used. HasBlock-put env dir disk j r.hash path c (ne j lt) (live.0 used),
        λ unused. rw (ne j lt) (live.1 unused),
      ))

pub Rows-at :
    (P : ℕ → Row → Type 0) (i : ℕ) (before after : List Row) (r : Row)
    → Rows P i (before ++ r ∷ after)
    → P (i + length before) r
Rows-at P i [] after r h = let e : i ≡ i + 0 = omega arith in subst (λ n. P n r) e h.0
Rows-at P i (x ∷ before) after r h =
    let e : suc i + length before ≡ i + suc (length before) = omega arith in
    subst (λ n. P n r) e (Rows-at P (suc i) before after r h.1)

-- A change at one row.
pub Rows-change :
    (P Q : ℕ → Row → Type 0) (i n : ℕ) (before after : List Row) (r r' : Row)
    → i + length (before ++ r ∷ after) ≤ n
    → ((j : ℕ) (x : Row) → j < n → j ≢ i + length before → P j x → Q j x)
    → (P (i + length before) r → Q (i + length before) r')
    → Rows P i (before ++ r ∷ after)
    → Rows Q i (before ++ r' ∷ after)
Rows-change P Q i n [] after r r' le f g h =
    let e : i + 0 ≡ i = omega arith in
    (
      subst (λ k. Q k r') e (g (subst (λ k. P k r) (sym e) h.0)),
      Rows-map P Q (suc i) n after (omega arith) (λ j x le' lt. f j x lt (omega arith)) h.1,
    )
Rows-change P Q i n (x ∷ before) after r r' le f g h =
    let e : i + suc (length before) ≡ suc i + length before = omega arith in
    (
      f i x (omega arith) (omega arith) h.0,
      Rows-change P Q (suc i) n before after r r' (omega arith)
          (λ j y lt ne. f j y lt (λ c. ne (c ∙ e)))
          (λ p. subst (λ k. Q k r') e (g (subst (λ k. P k r) (sym e) p))) h.1,
    )
