-- ===== src/Filesystem/Delete/Loop.antt =====
-- `delete_blocks` of Project 4/filesystem/our_lib.c, on a hidden directory that is in order.
use ece318_operating_systems.Prelude.{
  ℕ, zero, suc, ◌+◌, ◌-◌, ◌≤◌, ◌<◌, ◌≡◌, refl, ap, sym, subst, ◌∙◌, Bool-cases, inl, inr, true,
  false, ◌⊎◌, none, some, List, [], ◌∷◌, ◌++◌, ◌==◌, length, length-append, arith, All,
}
use ece318_operating_systems.Filesystem.Bytes.{bytes_eq, bytes_eq_refl}
use ece318_operating_systems.Filesystem.Decimal.{format}
use ece318_operating_systems.Filesystem.Stdio.{
  FilePath, Disk, put, is_some, World, Env, Returns, Returns-and_then, Returns-map, content_of,
}
use ece318_operating_systems.Filesystem.Hashes.Table.{Row, row, IsRow, encode, length-format-three}
use ece318_operating_systems.Filesystem.Hashes.Insert.{All-split}
use ece318_operating_systems.Filesystem.Blocks.{block_path}
use ece318_operating_systems.Filesystem.Blocks.Store.{LiveRow, Rows}
use ece318_operating_systems.Filesystem.Delete.{Sweep, ReadAhead, release_block, delete_loop}
use ece318_operating_systems.Filesystem.Delete.Round.{
  lower, dropped, release_block-used, release_block-unused,
}
use ece318_operating_systems.Filesystem.Delete.Release.{
  release, split_at, lower_at-IsRow, length-lower_at, NoBlock, NotBlock, dropped-blocks,
}
use ece318_operating_systems.Filesystem.Delete.Pointers.{
  id_text, ahead_of, read_ahead-ready, read_ahead-end,
}

unfoldable pub release_all : List ℕ → List Row → List Row
release_all [] rs = rs
release_all (i ∷ ids) rs = release_all ids (release i rs)

-- The streams and the disk stand for a table that is in order.
pub record Going (env : Env) (rs : List Row) (s : Sweep) (w : World) : Type 0 where
  pub table : s.hashesfile.content ≡ encode 1 rs
  pub rows : All IsRow rs
  pub small : 1 + length rs ≤ 1000
  pub blocks : Rows (LiveRow env w.bbs.hiddendir w.disk) 1 rs

-- A block has the content that it had, or is gone.
abbrev pub SameOrGone : FilePath → Disk → Disk → ℕ → Type 0
SameOrGone dir old new id =
    (new (block_path dir (format 3 id)) ≡ old (block_path dir (format 3 id)))
    ⊎ (new (block_path dir (format 3 id)) ≡ none)

-- What a round, or several, leave as it was: all files but the pointers and the blocks, which at most go.
pub record Kept (fpath : FilePath) (w after : World) : Type 0 where
  pub same_bbs : after.bbs ≡ w.bbs
  pub shorter : length (content_of after.disk fpath) ≤ length (content_of w.disk fpath)
  pub files :
      (path : FilePath)
      → bytes_eq path fpath ≡ false
      → NoBlock w.bbs.hiddendir path
      → after.disk path ≡ w.disk path
  pub blocks : (id : ℕ) → id < 1000 → SameOrGone w.bbs.hiddendir w.disk after.disk id
  pub there : is_some (w.disk fpath) ≡ true → is_some (after.disk fpath) ≡ true

abbrev pub After : Env → FilePath → List Row → Sweep → World → Sweep → World → Type 0
After env fpath rs s w s' w' =
    Going env rs s' w' × (s'.pointers_file ≡ s.pointers_file) × Kept fpath w w'

Kept-refl : (fpath : FilePath) (w : World) → Kept fpath w w
Kept-refl fpath w = record {
  same_bbs = refl;
  shorter = omega arith;
  files = λ path ne no. refl;
  blocks = λ id lt. inl refl;
  there = λ e. e;
}

module _ (env : Env) (fpath : FilePath) (opens : env.opens fpath ≡ true) where
  module _ (w : World) (apart : NotBlock w.bbs.hiddendir fpath)
      (apart' : NoBlock w.bbs.hiddendir fpath) where
    -- With the pointers emptied and a block removed, the other blocks are as they were.
    emptied-SameOrGone :
        (block_id id : ℕ)
        → id < 1000
        → SameOrGone w.bbs.hiddendir w.disk
            (put (put w.disk fpath (some [])) (block_path w.bbs.hiddendir (format 3 block_id)) none)
            id
    emptied-SameOrGone block_id id lt =
        elim (Bool-cases (
          bytes_eq (block_path w.bbs.hiddendir (format 3 id))
            (block_path w.bbs.hiddendir (format 3 block_id)))) [
              | inl e ↦ inr (rw (e) refl)
              | inr e ↦ inl (rw (e, apart id lt) refl)
            ]

    dropped-Kept :
        (block_id c : ℕ)
        → block_id < 1000
        → Kept fpath w (dropped fpath (block_path w.bbs.hiddendir (format 3 block_id)) c w)
    dropped-Kept block_id c lt = elim (Bool-cases (c == 1)) [
      | inl e ↦ rw (e) (record {
        same_bbs = refl;
        shorter = rw (content_of, apart' block_id lt, bytes_eq_refl fpath) (omega arith);
        files = λ path ne no. rw (no block_id lt, ne) refl;
        blocks = λ id lt'. emptied-SameOrGone block_id id lt';
        there = λ e. rw (apart' block_id lt, bytes_eq_refl fpath) refl;
      })
      | inr e ↦ rw (e) (Kept-refl fpath w)
    ]

    round-split :
        (before after : List Row) (r : Row) (s : Sweep)
        → All IsRow (before ++ lower r ∷ after)
        → 1 + length (before ++ lower r ∷ after) ≤ 1000
        → Going env (before ++ r ∷ after) s w
        → Returns
            (After env fpath (before ++ lower r ∷ after) s w)
            (release_block env fpath (format 3 (1 + length before)) s w)
    round-split before after r s rows small going =
        let parts = All-split IsRow before after r going.rows in
        let lt : 1 + length before < 1000 =
          omega (arith, small, length-append before (lower r ∷ after)) in
        elim (Bool-cases (r.counter == 0)) [
          | inl e ↦
              let same : r ≡ lower r = ap (λ c. row c r.hash) (ground arith) in
              rw
                (release_block-unused env fpath w before after r s opens lt parts.0 parts.1
                  going.table e)
                (
                  record {
                    table = going.table ∙ ap (λ x. encode 1 (before ++ x ∷ after)) same;
                    rows = rows;
                    small = small;
                    blocks =
                        subst
                          (λ x. Rows (LiveRow env w.bbs.hiddendir w.disk) 1 (before ++ x ∷ after))
                          same going.blocks;
                  },
                  refl,
                  Kept-refl fpath w,
                )
          | inr e ↦
              rw
                (release_block-used env fpath w before after r s opens lt parts.0 parts.1
                  going.table e)
                (
                  record {
                    table = refl;
                    rows = rows;
                    small = small;
                    blocks =
                        dropped-blocks env fpath w before after r going.small apart going.blocks;
                  },
                  refl,
                  dropped-Kept (1 + length before) r.counter lt,
                )
        ]

    round :
        (block_id : ℕ) (rs : List Row) (s : Sweep)
        → 0 < block_id
        → block_id ≤ length rs
        → Going env rs s w
        → Returns
            (After env fpath (release block_id rs) s w)
            (release_block env fpath (format 3 block_id) s w)
    round block_id rs s pos le going =
        let p = split_at (block_id - 1) rs (omega arith) in
        let e : 1 + length p.before ≡ block_id = omega (arith, p.place) in
        subst
          (λ i.
            Returns (After env fpath (release block_id rs) s w)
              (release_block env fpath (format 3 i) s w))
          e
          (subst
            (λ l.
              Returns (After env fpath l s w)
                (release_block env fpath (format 3 (1 + length p.before)) s w))
            (sym p.lowered)
            (round-split p.before p.after p.at s
              (subst (All IsRow) p.lowered (lower_at-IsRow (block_id - 1) rs going.rows))
              (omega (arith, ap length p.lowered, length-lower_at (block_id - 1) rs, going.small))
              (subst (λ l. Going env l s w) p.splits going)))

Going-moved :
    (env : Env) (rs : List Row) (s : Sweep) (at : ReadAhead) (w : World)
    → Going env rs s w
    → Going env rs (record s { pointers_file = at }) w
Going-moved env rs s at w g = record {
  table = g.table;
  rows = g.rows;
  small = g.small;
  blocks = g.blocks;
}

Kept-trans : (fpath : FilePath) (w v u : World) → Kept fpath w v → Kept fpath v u → Kept fpath w u
Kept-trans fpath w v u k l = record {
  same_bbs = l.same_bbs ∙ k.same_bbs;
  shorter = omega (arith, k.shorter, l.shorter);
  files = λ path ne no.
      l.files path ne (subst (λ b. NoBlock b.hiddendir path) (sym k.same_bbs) no)
      ∙ k.files path ne no;
  blocks = λ id lt.
      elim (subst (λ b. SameOrGone b.hiddendir v.disk u.disk id) k.same_bbs (l.blocks id lt)) [
        | inl e ↦ elim (k.blocks id lt) [ inl f ↦ inl (e ∙ f) | inr f ↦ inr (e ∙ f) ]
        | inr e ↦ inr e
      ];
  there = λ e. l.there (k.there e);
}

-- An id of a table.
abbrev pub InRange : ℕ → ℕ → Type 0
InRange m i = 0 < i × i ≤ m

module _ (env : Env) (fpath : FilePath) (opens : env.opens fpath ≡ true) (m : ℕ) where
  abbrev pub Ended : List Row → World → Sweep → World → Type 0
  Ended rs w s' w' = Going env rs s' w' × Kept fpath w w'

  pub loop-Releases :
      (ids : List ℕ) (rs : List Row) (s : Sweep) (w : World) (fuel n : ℕ)
      → NotBlock w.bbs.hiddendir fpath
      → NoBlock w.bbs.hiddendir fpath
      → s.pointers_file ≡ ahead_of (id_text ids) n
      → length (content_of w.disk fpath) ≤ n
      → m ≡ length rs
      → All (InRange m) ids
      → length ids < fuel
      → Going env rs s w
      → Returns (Ended (release_all ids rs) w) (delete_loop fuel env fpath s w)
  unfolding delete_loop id_text release_all
  loop-Releases ids rs s w zero n apart apart' ready le len range enough going =
      absurd (omega arith)
  loop-Releases [] rs s w (suc fuel) n apart apart' ready le len range enough going =
      rw (ready, read_ahead-end env (content_of w.disk fpath) n le)
        (Going-moved env rs s (ahead_of [] n) w going, Kept-refl fpath w)
  loop-Releases (i ∷ ids) rs s w (suc fuel) n apart apart' ready le len range enough going =
      let lt : i < 1000 = omega (arith, range.0.1, len, going.small) in
      rw
        (
          ready,
          read_ahead-ready env (content_of w.disk fpath) i n (id_text ids) lt,
          length-format-three i lt,
        )
        (Returns-and_then
          (After env fpath (release i rs) (record s { pointers_file = ahead_of (id_text ids) n }) w)
          (Ended (release_all ids (release i rs)) w)
          (release_block env fpath (format 3 i)
            (record s { pointers_file = ahead_of (id_text ids) n }) w)
          (delete_loop fuel env fpath)
          (round env fpath opens w apart apart' i rs
            (record s { pointers_file = ahead_of (id_text ids) n }) range.0.0
            (omega (arith, range.0.1, len))
            (Going-moved env rs s (ahead_of (id_text ids) n) w going))
          (λ s' v p.
            Returns-map (Ended (release_all ids (release i rs)) v)
              (Ended (release_all ids (release i rs)) w) (delete_loop fuel env fpath s' v)
              (λ s'' u q. (q.0, Kept-trans fpath w v u p.2 q.1))
              (loop-Releases ids (release i rs) s' v fuel n
                (subst (λ b. NotBlock b.hiddendir fpath) (sym p.2.same_bbs) apart)
                (subst (λ b. NoBlock b.hiddendir fpath) (sym p.2.same_bbs) apart') p.1
                (omega (arith, le, p.2.shorter)) (len ∙ sym (length-lower_at (i - 1) rs)) range.1
                (omega arith) p.0)))
