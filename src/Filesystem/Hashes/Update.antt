-- ===== src/Filesystem/Hashes/Update.antt =====
-- What `write_hash` of Project 4/filesystem/our_lib.c does to a hashes file that holds a table.
use mathlib.Core.List.{append_assoc, append-nil}
use ece318_operating_systems.Prelude.{
  leb-true, ℕ, suc, ◌+◌, ◌-◌, ◌*◌, ◌≤◌, ◌<◌, ◌≡◌, refl, ap, sym, ◌∙◌, false, some, List, [], ◌∷◌,
  ◌++◌, ◌==◌, length, length-append, arith, All,
}
use ece318_operating_systems.Filesystem.Bytes.{
  Bytes, drop, drop-past, take-all, replicate, take-length-append, drop-length-append,
}
use ece318_operating_systems.Filesystem.Decimal.{format, atoi-format-two}
use ece318_operating_systems.Filesystem.Stdio.{fwrite, write_at, seek_back}
use ece318_operating_systems.Filesystem.Hashes.{line, add_line, bump_line}
use ece318_operating_systems.Filesystem.Hashes.Table.{
  Row, row, IsRow, encode, length-line, length-encode, length-format-three, length-format-two,
}
use ece318_operating_systems.Filesystem.Hashes.Compare.{fread-part}

pub encode-append :
    (i : ℕ) (xs ys : List Row) → encode i (xs ++ ys) ≡ encode i xs ++ encode (i + length xs) ys
unfolding encode
encode-append i [] ys = ap (λ n. encode n ys) (omega arith)
encode-append i (x ∷ xs) ys =
    let e : suc i + length xs ≡ i + suc (length xs) = omega arith in
    rw (encode-append (suc i) xs ys, e) (simp append_assoc)

drop-append-length : (xs ys : Bytes) (k : ℕ) → drop (length xs + k) (xs ++ ys) ≡ drop k ys
drop-append-length [] ys k = let e : 0 + k ≡ k = omega arith in ap (λ n. drop n ys) e
drop-append-length (x ∷ xs) ys k =
    let e : suc (length xs) + k ≡ suc (length xs + k) = omega arith in
    ap (λ n. drop n (x ∷ (xs ++ ys))) e ∙ drop-append-length xs ys k

gap-none : (p : ℕ) (c : Bytes) → p ≤ length c → replicate {A = ℕ} (p - length c) 0 ≡ []
gap-none p c h = let e : p - length c ≡ 0 = omega arith in ap (λ n. replicate {A = ℕ} n 0) e

-- Bytes written over as many others.
pub write_at-part :
    (content pre mid post bs : Bytes) (p : ℕ)
    → content ≡ pre ++ (mid ++ post)
    → length mid ≡ length bs
    → p ≡ length pre
    → write_at content p bs ≡ pre ++ (bs ++ post)
unfolding write_at
write_at-part content pre mid post bs p c e f =
    rw
      (
        c,
        f,
        ← e,
        take-length-append pre (mid ++ post),
        gap-none (length pre) (pre ++ (mid ++ post))
            (omega (arith, length-append pre (mid ++ post))),
        drop-append-length pre (mid ++ post) (length mid),
        drop-length-append mid post,
      )
      refl

-- Bytes written at the end.
pub write_at-end : (content bs : Bytes) → write_at content (length content) bs ≡ content ++ bs
unfolding write_at
write_at-end content bs =
    rw
      (
        take-all (length content) content (omega arith),
        gap-none (length content) content (omega arith),
        drop-past (length content + length bs) content (omega arith),
      )
      (ap (λ (l : Bytes). content ++ l) (append-nil bs))

one_plus_ne : (n : ℕ) → ((1 + n) == 0) ≡ false
one_plus_ne n = ground arith

encode-one : (i : ℕ) (r : Row) → encode i (r ∷ []) ≡ line i r.counter r.hash
unfolding encode
encode-one i r = append-nil (line i r.counter r.hash)

-- The row of a new id goes to the end.
pub add_line-encode :
    (rs : List Row) (h : Bytes)
    → 1 + length rs < 1000
    → IsRow (row 1 h)
    → add_line (1 + length rs) h (encode 1 rs) ≡ some (encode 1 (rs ++ row 1 h ∷ []))
unfolding add_line fwrite
add_line-encode rs h small is =
    rw
      (
        length-line (1 + length rs) (row 1 h) small is,
        write_at-end (encode 1 rs) (line (1 + length rs) 1 h),
        encode-append 1 rs (row 1 h ∷ []),
        encode-one (1 + length rs) (row 1 h),
      )
      refl

-- The counter of an id in the table goes up by one.
module _ (before after : List Row) (r : Row) (small : 1 + length before < 1000)
    (fit : All IsRow before) (is : IsRow r) (up : IsRow (row (r.counter + 1) r.hash)) where
  abbrev id : ℕ
  id = 1 + length before

  at_row :
      encode 1 (before ++ r ∷ after)
      ≡ encode 1 before ++ (line id r.counter r.hash ++ encode (suc id) after)
  unfolding encode
  at_row = encode-append 1 before (r ∷ after)

  at_counter :
      encode 1 (before ++ r ∷ after)
      ≡ (encode 1 before ++ format 3 id)
        ++ (format 2 r.counter ++ (r.hash ++ encode (suc id) after))
  at_counter = at_row ∙ simp append_assoc

  after_row :
      encode 1 (before ++ row (r.counter + 1) r.hash ∷ after)
      ≡ encode 1 before ++ (line id (r.counter + 1) r.hash ++ encode (suc id) after)
  unfolding encode
  after_row = encode-append 1 before (row (r.counter + 1) r.hash ∷ after)

  pub bump_line-encode :
      bump_line id r.hash (encode 1 (before ++ r ∷ after))
      ≡ some (encode 1 (before ++ row (r.counter + 1) r.hash ∷ after))
  unfolding bump_line fwrite seek_back
  bump_line-encode =
      let len = length-encode 1 before (omega (arith, small)) fit in
      let l3 = length-format-three id small in
      rw
        (
          one_plus_ne (length before),
          fread-part (encode 1 (before ++ r ∷ after)) (encode 1 before ++ format 3 id)
              (format 2 r.counter) (r.hash ++ encode (suc id) after) 2 ((id - 1) * 45 + 3)
              at_counter (length-format-two r.counter is.counter_lt)
              (omega (arith, length-append (encode 1 before) (format 3 id), len, l3)),
          length-format-two r.counter is.counter_lt,
          atoi-format-two r.counter is.counter_lt,
          length-line id (row (r.counter + 1) r.hash) small up,
          leb-true 5 ((id - 1) * 45 + 3 + 2) (omega arith),
          write_at-part (encode 1 (before ++ r ∷ after)) (encode 1 before)
              (line id r.counter r.hash) (encode (suc id) after) (line id (r.counter + 1) r.hash)
              ((id - 1) * 45 + 3 + 2 - 5) at_row
              (length-line id r small is
                ∙ sym (length-line id (row (r.counter + 1) r.hash) small up))
              (omega (arith, len)),
          after_row,
        )
        refl
