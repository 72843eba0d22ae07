-- ===== src/Filesystem/Hashes/Insert.antt =====
-- `write_hash` of Project 4/filesystem/our_lib.c, for the id that `compare_hashes` returns: one more
-- user of a row of the table, or a new row.
use ece318_operating_systems.Prelude.{
  ltb-true, ltb-false, subst, ◌⊎◌, ℕ, suc, ◌+◌, ◌≤◌, ◌<◌, ◌≡◌, refl, ap, inl, inr, Bool-cases, Bool,
  true, false, not, ◌&&◌, none, some, List, [], ◌∷◌, ◌++◌, ◌==◌, if◌then◌else◌, length,
  length-append, arith, All,
}
use ece318_operating_systems.Filesystem.Bytes.{Bytes, bytes_eq, bytes_eq-eq}
use ece318_operating_systems.Filesystem.Stdio.{World, Env, ok, set_file, open_content, put}
use ece318_operating_systems.Filesystem.Hashes.{bump_line, write_hash}
use ece318_operating_systems.Filesystem.Hashes.Table.{Row, row, IsRow, encode, find}
use ece318_operating_systems.Filesystem.Hashes.Update.{add_line-encode, bump_line-encode}

-- One more user of the content with a hash.
unfoldable pub insert : Bytes → List Row → List Row
insert h [] = row 1 h ∷ []
insert h (r ∷ rs) =
    if bytes_eq r.hash h && not (r.counter == 0)
    then row (r.counter + 1) r.hash ∷ rs
    else r ∷ insert h rs

-- The hash has a row that is in use, the first such one.
pub record Present (i : ℕ) (h : Bytes) (rs : List Row) : Type 0 where
  pub before : List Row
  pub at : Row
  pub after : List Row
  pub splits : rs ≡ before ++ at ∷ after
  pub hash_eq : at.hash ≡ h
  pub in_use : (at.counter == 0) ≡ false
  pub found : find i h rs ≡ some (i + length before)
  pub inserted : insert h rs ≡ before ++ row (at.counter + 1) at.hash ∷ after

-- It has none.
pub record Absent (i : ℕ) (h : Bytes) (rs : List Row) : Type 0 where
  pub not_found : find i h rs ≡ none
  pub appended : insert h rs ≡ rs ++ row 1 h ∷ []

and_left : (a b : Bool) → (a && b) ≡ true → a ≡ true
and_left true b e = refl
and_left false b e = e

and_right : (a b : Bool) → (a && b) ≡ true → b ≡ true
and_right true b e = e
and_right false b e = absurd cc

not-true : (b : Bool) → not b ≡ true → b ≡ false
not-true false e = refl
not-true true e = absurd cc

module _ (i : ℕ) (h : Bytes) (r : Row) (rs : List Row) where
  Present-here : (bytes_eq r.hash h && not (r.counter == 0)) ≡ true → Present i h (r ∷ rs)
  unfolding find insert
  Present-here e = record {
    before = [];
    at = r;
    after = rs;
    splits = refl;
    hash_eq = bytes_eq-eq r.hash h (and_left (bytes_eq r.hash h) (not (r.counter == 0)) e);
    in_use = not-true (r.counter == 0) (and_right (bytes_eq r.hash h) (not (r.counter == 0)) e);
    found = rw (e) (let f : i ≡ i + 0 = omega arith in ap (λ n. some n) f);
    inserted = rw (e) refl;
  }

  Present-later :
      (bytes_eq r.hash h && not (r.counter == 0)) ≡ false
      → Present (suc i) h rs
      → Present i h (r ∷ rs)
  unfolding find insert
  Present-later e p = record {
    before = r ∷ p.before;
    at = p.at;
    after = p.after;
    splits = ap (λ (l : List Row). r ∷ l) p.splits;
    hash_eq = p.hash_eq;
    in_use = p.in_use;
    found =
        rw (e, p.found)
          (let f : suc i + length p.before ≡ i + suc (length p.before) = omega arith in
            ap (λ n. some n) f);
    inserted = rw (e, p.inserted) refl;
  }

  Absent-later :
      (bytes_eq r.hash h && not (r.counter == 0)) ≡ false
      → Absent (suc i) h rs
      → Absent i h (r ∷ rs)
  unfolding find insert
  Absent-later e p = record {
    not_found = rw (e, p.not_found) refl;
    appended = rw (e, p.appended) refl;
  }

-- A hash is in use in a table or it is not.
pub insert-cases : (i : ℕ) (h : Bytes) (rs : List Row) → Present i h rs ⊎ Absent i h rs
unfolding find insert
insert-cases i h [] = inr (record { not_found = refl; appended = refl })
insert-cases i h (r ∷ rs) = elim (Bool-cases (bytes_eq r.hash h && not (r.counter == 0))) [
  | inl e ↦ inl (Present-here i h r rs e)
  | inr e ↦ elim (insert-cases (suc i) h rs) [
    | inl p ↦ inl (Present-later i h r rs e p)
    | inr p ↦ inr (Absent-later i h r rs e p)
  ]
]

pub All-split :
    (P : Row → Type 0) (xs ys : List Row) (r : Row)
    → All P (xs ++ r ∷ ys)
    → All P xs × P r × All P ys
All-split P [] ys r is = (tt, is.0, is.1)
All-split P (x ∷ xs) ys r is =
    let rest = All-split P xs ys r is.1 in ((is.0, rest.0), rest.1, rest.2)

raised-IsRow : (r : Row) → IsRow r → r.counter < 99 → IsRow (row (r.counter + 1) r.hash)
raised-IsRow r is below = record {
  counter_lt = omega arith;
  hash_length = is.hash_length;
  hash_text = is.hash_text;
}

module _ (h : Bytes) (rs : List Row) (small : 1 + length rs < 1000) (p : Present 1 h rs) where
  pub present_lt : 1 + length p.before ≤ length rs
  present_lt = omega (arith, ap length p.splits, length-append p.before (p.at ∷ p.after))

  bump_line-insert :
      All IsRow rs
      → p.at.counter < 99
      → bump_line (1 + length p.before) h (encode 1 rs) ≡ some (encode 1 (insert h rs))
  bump_line-insert is below =
      let parts = All-split IsRow p.before p.after p.at (subst (All IsRow) p.splits is) in
      rw (p.inserted, p.splits, ← p.hash_eq)
        (bump_line-encode p.before p.after p.at (omega (arith, present_lt, small)) parts.0 parts.1
          (raised-IsRow p.at parts.1 below))

-- There is room for one more user of each row.
abbrev pub HasRoom : Row → Type 0
HasRoom r = r.counter < 99

pub present-HasRoom :
    (h : Bytes) (rs : List Row) (p : Present 1 h rs) → All HasRoom rs → HasRoom p.at
present-HasRoom h rs p room =
    (All-split HasRoom p.before p.after p.at (subst (All HasRoom) p.splits room)).1

pub insert-IsRow :
    (h : Bytes) (rs : List Row)
    → All IsRow rs
    → All HasRoom rs
    → IsRow (row 1 h)
    → All IsRow (insert h rs)
unfolding insert
insert-IsRow h [] is room new = (new, tt)
insert-IsRow h (r ∷ rs) is room new =
    elim (Bool-cases (bytes_eq r.hash h && not (r.counter == 0))) [
      | inl e ↦ rw (e) (raised-IsRow r is.0 room.0, is.1)
      | inr e ↦ rw (e) (is.0, insert-IsRow h rs is.1 room.1 new)
    ]

pub length-insert-Present :
    (h : Bytes) (rs : List Row) (p : Present 1 h rs) → length (insert h rs) ≡ length rs
length-insert-Present h rs p = omega (
  arith,
  ap length p.splits,
  ap length p.inserted,
  length-append p.before (p.at ∷ p.after),
  length-append p.before (row (p.at.counter + 1) p.at.hash ∷ p.after),
)

pub length-insert-Absent :
    (h : Bytes) (rs : List Row) (p : Absent 1 h rs) → length (insert h rs) ≡ 1 + length rs
length-insert-Absent h rs p = omega (arith, ap length p.appended, length-append rs (row 1 h ∷ []))

-- The state after the table is written.
abbrev pub wrote : World → List Row → World
wrote w rs = record w { disk = put w.disk w.bbs.hashesfile (some (encode 1 rs)) }

module _ (env : Env) (h : Bytes) (rs : List Row) (w : World)
    (opens : open_content env w.disk w.bbs.hashesfile ≡ some (encode 1 rs))
    (last : w.bbs.last_id ≡ length rs) (small : 1 + length rs < 1000) where
  pub write_hash-new :
      IsRow (row 1 h)
      → Absent 1 h rs
      → write_hash env h (1 + length rs) w ≡ ok tt (wrote w (insert h rs))
  unfolding set_file write_hash encode
  write_hash-new is p =
      rw
        (
          write_hash,
          opens,
          last,
          ltb-true (length rs) (1 + length rs) (omega arith),
          add_line-encode rs h small is,
          p.appended,
        )
        refl

  pub write_hash-again :
      (p : Present 1 h rs)
      → All IsRow rs
      → p.at.counter < 99
      → write_hash env h (1 + length p.before) w ≡ ok tt (wrote w (insert h rs))
  unfolding set_file write_hash encode
  write_hash-again p is below =
      rw
        (
          write_hash,
          opens,
          last,
          ltb-false (length rs) (1 + length p.before) (omega (arith, present_lt h rs small p)),
          bump_line-insert h rs small p is below,
        )
        refl
