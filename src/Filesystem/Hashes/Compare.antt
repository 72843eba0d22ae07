-- ===== src/Filesystem/Hashes/Compare.antt =====
-- What `compare_hashes` of Project 4/filesystem/our_lib.c finds in a hashes file that holds a table.
use mathlib.Core.List.{append_assoc}
use native.Mathlib.Nat.{add-zero}
use ece318_operating_systems.Prelude.{
  leb-true, ℕ, zero, suc, ◌+◌, ◌-◌, ◌≤◌, ◌<◌, ◌≡◌, refl, ap, Bool, true, false, not, ◌&&◌, Option,
  none, some, List, [], ◌∷◌, ◌++◌, ◌==◌, if◌then◌else◌, length, length-append, arith, All,
}
use ece318_operating_systems.Filesystem.Bytes.{
  Bytes, bytes_eq, drop-past, take-nil, take-length-append, drop-length-append,
}
use ece318_operating_systems.Filesystem.Decimal.{format, atoi, atoi-format-three}
use ece318_operating_systems.Filesystem.Stdio.{
  World, Env, ok, stream, fread, seek_back, content_of, put,
}
use ece318_operating_systems.Filesystem.Hashes.{line, compare_loop, search_hashes, compare_hashes}
use ece318_operating_systems.Filesystem.Hashes.Table.{
  Row, IsRow, encode, find, length-line, length-encode, length-format-three, length-format-two,
  format-two-zero,
}

-- Reading a part of a content that is known.
pub fread-part :
    (content pre mid post : Bytes) (n p : ℕ)
    → content ≡ pre ++ (mid ++ post)
    → length mid ≡ n
    → p ≡ length pre
    → fread n (stream content p) ≡ (mid, stream content (p + n))
unfolding fread
fread-part content pre mid post n p c e f =
    rw (c, f, drop-length-append pre (mid ++ post), ← e, take-length-append mid post)

pub fread-end :
    (content : Bytes) (n p : ℕ)
    → length content ≤ p
    → fread n (stream content p) ≡ ([], stream content p)
unfolding fread
fread-end content n p h =
    rw (drop-past p content h, take-nil {A = ℕ} n) (ap (λ q. ([], stream content q)) (add-zero p))

-- At the end of the file the loop stops.
compare_loop-end :
    (fuel : ℕ) (h content : Bytes) (p : ℕ)
    → length content ≤ p
    → compare_loop (suc fuel) h (stream content p) ≡ some none
unfolding compare_loop
compare_loop-end fuel h content p e = rw (fread-end content 2 p e)

-- One round, at the counter of a row.
module _ (content pre post h : Bytes) (i : ℕ) (r : Row) (p : ℕ) (small : i < 1000) (is : IsRow r)
    (c : content ≡ pre ++ (line i r.counter r.hash ++ post)) (at : p ≡ length pre + 3) where
  at_counter : content ≡ (pre ++ format 3 i) ++ (format 2 r.counter ++ (r.hash ++ post))
  at_counter = rw c (simp append_assoc)

  at_hash : content ≡ ((pre ++ format 3 i) ++ format 2 r.counter) ++ (r.hash ++ post)
  at_hash = rw c (simp append_assoc)

  at_id : content ≡ pre ++ (format 3 i ++ (format 2 r.counter ++ (r.hash ++ post)))
  at_id = rw c (simp append_assoc)

  -- Going back a whole line from behind the hash leads to the id.
  id-back : atoi (fread 3 (seek_back 45 (stream content (p + 2 + 40)))).0 ≡ i
  unfolding seek_back
  id-back =
      rw
        (
          leb-true 45 (p + 2 + 40) (omega (arith, at)),
          fread-part content pre (format 3 i) (format 2 r.counter ++ (r.hash ++ post)) 3
              (p + 2 + 40 - 45) at_id (length-format-three i small) (omega (arith, at)),
        )
        (atoi-format-three i small)

  compare_loop-round :
      (fuel : ℕ)
      → compare_loop (suc fuel) h (stream content p) ≡ (
          if bytes_eq r.hash h && not (r.counter == 0)
          then some (some i)
          else compare_loop fuel h (fread 3 (stream content (p + 2 + 40))).1)
  unfolding compare_loop seek_back
  compare_loop-round fuel =
      let l3 = length-format-three i small in
      let l2 = length-format-two r.counter is.counter_lt in
      rw
        (
          fread-part content (pre ++ format 3 i) (format 2 r.counter) (r.hash ++ post) 2 p
              at_counter l2 (rw (length-append pre (format 3 i), l3) at),
          fread-part content ((pre ++ format 3 i) ++ format 2 r.counter) r.hash post 40 (p + 2)
              at_hash is.hash_length
              (rw
                (
                  length-append (pre ++ format 3 i) (format 2 r.counter),
                  length-append pre (format 3 i),
                  l3,
                  l2,
                )
                (omega arith)),
          l2,
          is.hash_length,
          is.hash_text,
          format-two-zero r.counter is.counter_lt,
          id-back,
        )
        refl

if_some :
    (b : Bool) (x : ℕ) (y : Option ℕ)
    → (if b then some (some x) else some y) ≡ some (if b then some x else y)
if_some true x y = refl
if_some false x y = refl

-- Reading the id that a table starts with leaves the rest of the line to be read.
fread-id :
    (content pre h : Bytes) (i : ℕ) (r : Row) (rs : List Row) (q : ℕ)
    → content ≡ pre ++ encode i (r ∷ rs)
    → q ≡ length pre
    → i < 1000
    → (fread 3 (stream content q)).1 ≡ stream content (q + 3)
unfolding encode
fread-id content pre h i r rs q c at small =
    rw
      (fread-part content pre (format 3 i) ((format 2 r.counter ++ r.hash) ++ encode (suc i) rs) 3 q
        (rw c (simp append_assoc)) (length-format-three i small) at)
      refl

-- The loop, from an id that is just read, looks the hash up in the rest of the table.
compare_loop-find :
    (rs : List Row) (content pre h : Bytes) (i q fuel : ℕ)
    → content ≡ pre ++ encode i rs
    → q ≡ length pre
    → i + length rs ≤ 1000
    → All IsRow rs
    → length rs < fuel
    → compare_loop fuel h (fread 3 (stream content q)).1 ≡ some (find i h rs)
unfolding encode find
compare_loop-find rs content pre h i q zero c at small is enough = absurd (omega arith)
compare_loop-find [] content pre h i q (suc fuel) c at small is enough =
    let end : length content ≤ q = omega (arith, ap length c, length-append pre [], at) in
    rw (fread-end content 3 q end, compare_loop-end fuel h content q end) refl
compare_loop-find (r ∷ rs) content pre h i q (suc fuel) c at small is enough =
    rw
      (
        fread-id content pre h i r rs q c at (omega arith),
        compare_loop-round content pre (encode (suc i) rs) h i r (q + 3) (omega arith) is.0 c
            (omega (arith, at)) fuel,
        compare_loop-find rs content (pre ++ line i r.counter r.hash) h (suc i) (q + 3 + 2 + 40)
            fuel (rw c (simp append_assoc))
            (omega (
              arith,
              at,
              length-append pre (line i r.counter r.hash),
              length-line i r (omega arith) is.0,
            ))
            (omega arith) is.1 (omega arith),
      )
      (if_some (bytes_eq r.hash h && not (r.counter == 0)) i (find (suc i) h rs))

-- The state has the table in its hashes file, with a row for each id up to the last one.
pub record Holds (env : Env) (rs : List Row) (w : World) : Type 0 where
  pub opens : env.opens w.bbs.hashesfile ≡ true
  pub file : content_of w.disk w.bbs.hashesfile ≡ encode 1 rs
  pub rows : All IsRow rs
  pub last : w.bbs.last_id ≡ length rs
  pub small : length rs < 1000

-- The id a hash has in a table: the one that it is found at, else the next.
abbrev pub or_next : Option ℕ → ℕ → ℕ
or_next none last = last + 1
or_next (some id) last = id

abbrev pub id_for : Bytes → List Row → ℕ
id_for h rs = or_next (find 1 h rs) (length rs)

-- Mode ab+ creates the file.
abbrev pub touched : World → Bytes → World
touched w content = record w { disk = put w.disk w.bbs.hashesfile (some content) }

search_hashes-found :
    (h content : Bytes) (w : World) (r : Option ℕ)
    → compare_loop (suc (length content)) h (stream content 3) ≡ some r
    → search_hashes h content w ≡ ok (or_next r w.bbs.last_id) (touched w content)
unfolding search_hashes
search_hashes-found h content w none e = rw (search_hashes, e) refl
search_hashes-found h content w (some id) e = rw (search_hashes, e) refl

search-find :
    (h : Bytes) (rs : List Row)
    → 1 + length rs ≤ 1000
    → All IsRow rs
    → compare_loop (suc (length (encode 1 rs))) h (stream (encode 1 rs) 3) ≡ some (find 1 h rs)
unfolding encode find
search-find h [] small is = compare_loop-end 0 h [] 3 (omega arith)
search-find h (r ∷ rs) small is =
    rw (← fread-id (encode 1 (r ∷ rs)) [] h 1 r rs 0 refl refl (omega arith)) (
      compare_loop-find (r ∷ rs) (encode 1 (r ∷ rs)) [] h 1 0 (suc (length (encode 1 (r ∷ rs))))
        refl refl small is (omega (arith, length-encode 1 (r ∷ rs) small is)))

-- On a hashes file that holds a table whose ids are below 1000, `compare_hashes` returns the id of
-- the first row with the hash and a counter other than 0, and the next id after the last one when
-- there is no such row; it changes no content.
pub compare_hashes-Finds :
    (env : Env) (rs : List Row) (h : Bytes) (w : World)
    → Holds env rs w
    → compare_hashes env h w ≡ ok (id_for h rs) (touched w (encode 1 rs))
unfolding compare_hashes
compare_hashes-Finds env rs h w is =
    rw
      (
        is.opens,
        is.file,
        search_hashes-found h (encode 1 rs) w (find 1 h rs)
            (search-find h rs (omega (arith, is.small)) is.rows),
      )
      (ap (λ n. ok (or_next (find 1 h rs) n) (touched w (encode 1 rs))) is.last)
