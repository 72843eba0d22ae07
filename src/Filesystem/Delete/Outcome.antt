-- ===== src/Filesystem/Delete/Outcome.antt =====
-- What `delete_blocks` of Project 4/filesystem/our_lib.c does to a hidden directory that is in order.
use ece318_operating_systems.Prelude.{
  ℕ, suc, ◌-◌, ◌*◌, ◌≤◌, ◌<◌, ◌≡◌, refl, ap, sym, subst, ◌∙◌, Option, Option-cases, inl, inr, true,
  false, none, some, List, [], ◌∷◌, ◌++◌, length, length-append, arith, All,
}
use ece318_operating_systems.Filesystem.Bytes.{Bytes, bytes_eq, bytes_eq_refl}
use ece318_operating_systems.Filesystem.Decimal.{format}
use ece318_operating_systems.Filesystem.Stdio.{
  FilePath, World, Env, Returns, Returns-and_then, ok, put, stream, content_of, open_content,
  set_file, is_some,
}
use ece318_operating_systems.Filesystem.Hashes.Table.{
  Row, encode, length-encode, length-format-three,
}
use ece318_operating_systems.Filesystem.Blocks.Paths.{block_path-hashes_ne}
use ece318_operating_systems.Filesystem.Blocks.Store.{LiveRow, Rows, Rows-put, IsStore}
use ece318_operating_systems.Filesystem.Delete.{Sweep, delete_loop, delete_with, delete_blocks}
use ece318_operating_systems.Filesystem.Delete.Release.{NoBlock, NotBlock, release, length-lower_at}
use ece318_operating_systems.Filesystem.Delete.Pointers.{
  id_text, ahead_of, read_ahead-ready, read_ahead-first,
}
use ece318_operating_systems.Filesystem.Delete.Loop.{
  release_all, InRange, Going, Ended, loop-Releases, SameOrGone,
}

length-id_text :
    (m : ℕ) (ids : List ℕ) → m < 1000 → All (InRange m) ids → length (id_text ids) ≡ 3 * length ids
unfolding id_text
length-id_text m [] lt range = refl
length-id_text m (i ∷ ids) lt range = omega (
  arith,
  length-append (format 3 i) (id_text ids),
  length-format-three i (omega (arith, range.0.1)),
  length-id_text m ids lt range.1,
)

pub length-release_all : (ids : List ℕ) (rs : List Row) → length (release_all ids rs) ≡ length rs
unfolding release_all
length-release_all [] rs = refl
length-release_all (i ∷ ids) rs = length-release_all ids (release i rs) ∙ length-lower_at (i - 1) rs

-- The state of the loop at its start.
abbrev pub started : Bytes → Sweep
started hashes = record {
  pointers_file = ahead_of [] 0;
  hashesfile = stream hashes 0;
  usage = none;
  hash = none;
}

abbrev pub started_at : Bytes → Bytes → Sweep
started_at hashes bs = record {
  pointers_file = ahead_of bs (length bs);
  hashesfile = stream hashes 0;
  usage = none;
  hash = none;
}

-- The first read gets all the pointers, when they fit the buffer.
delete_loop-first :
    (env : Env) (fpath : FilePath) (w : World) (hashes : Bytes) (ids : List ℕ) (m fuel : ℕ)
    → m < 1000
    → All (InRange m) ids
    → content_of w.disk fpath ≡ id_text ids
    → length (id_text ids) ≤ env.buffer_size
    → delete_loop (suc fuel) env fpath (started hashes) w
      ≡ delete_loop (suc fuel) env fpath (started_at hashes (id_text ids)) w
unfolding delete_loop id_text
delete_loop-first env fpath w hashes [] m fuel lt range content fits = refl
delete_loop-first env fpath w hashes (i ∷ ids) m fuel lt range content fits =
    let small : i < 1000 = omega (arith, range.0.1) in
    let long : 3 ≤ length (format 3 i ++ id_text ids) =
      omega (arith, length-append (format 3 i) (id_text ids), length-format-three i small) in
    rw
      (
        content,
        read_ahead-first env (format 3 i ++ id_text ids) long fits,
        read_ahead-ready env (format 3 i ++ id_text ids) i (length (format 3 i ++ id_text ids))
            (id_text ids) small,
        length-format-three i small,
      )
      refl

-- What is known of the state after the blocks of a file are released.
pub record Released (env : Env) (rs : List Row) (fpath : FilePath) (w after : World) : Type 0 where
  pub store : IsStore env rs after
  pub same_bbs : after.bbs ≡ w.bbs
  pub files :
      (path : FilePath)
      → bytes_eq path fpath ≡ false
      → bytes_eq path w.bbs.hashesfile ≡ false
      → NoBlock w.bbs.hiddendir path
      → after.disk path ≡ w.disk path
  pub blocks : (id : ℕ) → id < 1000 → SameOrGone w.bbs.hiddendir w.disk after.disk id
  pub there : is_some (w.disk fpath) ≡ true → is_some (after.disk fpath) ≡ true

-- A file of the user: it is no file of the block store.
pub record Apart (w : World) (fpath : FilePath) : Type 0 where
  pub no_block : NoBlock w.bbs.hiddendir fpath
  pub not_block : NotBlock w.bbs.hiddendir fpath
  pub no_hashes : bytes_eq fpath w.bbs.hashesfile ≡ false

module _ (env : Env) (rs : List Row) (w : World) (fpath : FilePath) (ids : List ℕ)
    (is : IsStore env rs w) (apart : Apart w fpath) (opens : env.opens fpath ≡ true)
    (there : w.disk w.bbs.hashesfile ≡ some (encode 1 rs))
    (pointing : w.disk fpath ≡ some (id_text ids)) (range : All (InRange (length rs)) ids)
    (fits : length (id_text ids) ≤ env.buffer_size) where
  going : Going env rs (started_at (encode 1 rs) (id_text ids)) w
  going = record {
    table = refl;
    rows = is.holds.rows;
    small = omega (arith, is.holds.small);
    blocks = is.blocks;
  }

  content_eq : content_of w.disk fpath ≡ id_text ids
  content_eq = rw (content_of, pointing) refl

  abbrev fuel : ℕ
  fuel = length (id_text ids)

  swept :
      Returns
        (Ended env fpath opens (length rs) (release_all ids rs) w)
        (delete_loop (suc fuel) env fpath (started (encode 1 rs)) w)
  swept =
      rw
        (delete_loop-first env fpath w (encode 1 rs) ids (length rs) fuel
          (omega (arith, is.holds.small)) range content_eq fits)
        (loop-Releases env fpath opens (length rs) ids rs (started_at (encode 1 rs) (id_text ids)) w
          (suc fuel) fuel apart.not_block apart.no_block refl (omega (arith, ap length content_eq))
          refl range
          (omega (arith, length-id_text (length rs) ids (omega (arith, is.holds.small)) range))
          going)

  closed-Released :
      (s : Sweep) (v : World)
      → Ended env fpath opens (length rs) (release_all ids rs) w s v
      → Released env
          (release_all ids rs)
          fpath
          w
          (record v { disk = put v.disk w.bbs.hashesfile (some s.hashesfile.content) })
  closed-Released s v (g, k) =
      subst
        (λ b.
          Released env (release_all ids rs) fpath w
            (record { bbs = b; disk = put v.disk w.bbs.hashesfile (some s.hashesfile.content) }))
        (sym k.same_bbs)
        (record {
          store = record {
            named = is.named;
            holds = record {
              opens = is.holds.opens;
              file = rw (content_of, bytes_eq_refl w.bbs.hashesfile) g.table;
              rows = g.rows;
              last = is.holds.last ∙ sym (length-release_all ids rs);
              small = omega (arith, is.holds.small, length-release_all ids rs);
            };
            blocks =
                Rows-put env w.bbs.hiddendir v.disk w.bbs.hashesfile (some s.hashesfile.content) 1
                  1000 (release_all ids rs) g.small
                  (λ id lt. rw (is.named) (block_path-hashes_ne w.bbs.hiddendir id lt))
                  (subst (λ b. Rows (LiveRow env b.hiddendir v.disk) 1 (release_all ids rs))
                    k.same_bbs g.blocks);
          };
          same_bbs = refl;
          files = λ path ne ne' no. rw (ne') (k.files path ne no);
          blocks =
              λ id lt. rw (is.named, block_path-hashes_ne w.bbs.hiddendir id lt) (k.blocks id lt);
          there = λ e. rw (apart.no_hashes) (k.there e);
        })

  on_table-Releases :
      Returns
        (λ _ after. Released env (release_all ids rs) fpath w after)
        (delete_blocks env fpath w)
  unfolding delete_blocks delete_with open_content set_file
  on_table-Releases =
      rw (is.holds.opens, opens, there, pointing)
        (Returns-and_then (Ended env fpath opens (length rs) (release_all ids rs) w)
          (λ _ after. Released env (release_all ids rs) fpath w after)
          (delete_loop (suc fuel) env fpath (started (encode 1 rs)) w)
          (λ s v.
            ok tt (record v { disk = put v.disk w.bbs.hashesfile (some s.hashesfile.content) }))
          swept closed-Released)

abbrev text_of : Option Bytes → Bytes
text_of none = []
text_of (some c) = c

none-InRange : (ids : List ℕ) (m : ℕ) → m ≡ 0 → All (InRange m) ids → ids ≡ []
none-InRange [] m e range = refl
none-InRange (i ∷ ids) m e range = absurd (omega (arith, range.0.0, range.0.1))

-- A table without a hashes file has no rows.
no_rows :
    (env : Env) (rs : List Row) (w : World)
    → IsStore env rs w
    → w.disk w.bbs.hashesfile ≡ none
    → length rs ≡ 0
no_rows env rs w is gone = omega (
  arith,
  length-encode 1 rs (omega (arith, is.holds.small)) is.holds.rows,
  ap length (sym is.holds.file),
  ap (λ c. length (text_of c)) gone,
)

module _ (env : Env) (rs : List Row) (w : World) (fpath : FilePath) (ids : List ℕ)
    (is : IsStore env rs w) (apart : Apart w fpath) (opens : env.opens fpath ≡ true)
    (pointing : w.disk fpath ≡ some (id_text ids)) (range : All (InRange (length rs)) ids)
    (fits : length (id_text ids) ≤ env.buffer_size) where
  -- Nothing is released, since there is nothing to point to.
  nothing-Released : w.disk w.bbs.hashesfile ≡ none → Released env (release_all ids rs) fpath w w
  unfolding release_all
  nothing-Released gone =
      subst (λ l. Released env (release_all l rs) fpath w w)
        (sym (none-InRange ids (length rs) (no_rows env rs w is gone) range))
        (record {
          store = is;
          same_bbs = refl;
          files = λ path ne ne' no. refl;
          blocks = λ id lt. inl refl;
          there = λ e. e;
        })

  -- Deleting the blocks of a file, in a hidden directory that is in order: each pointer of the file takes
  -- one user away from its id (from 0, none), and the directory is in order again, so that the blocks
  -- without a user are gone and the others are as they were; of the other files only the file itself and
  -- the hashes file change. It is needed that the pointers are ids of the table and fit the
  -- buffer of the stream.
  pub delete_blocks-Releases :
      Returns
        (λ _ after. Released env (release_all ids rs) fpath w after)
        (delete_blocks env fpath w)
  unfolding delete_blocks open_content
  delete_blocks-Releases = elim (Option-cases (w.disk w.bbs.hashesfile)) [
    | inl gone ↦ rw (is.holds.opens, opens, gone, pointing) (nothing-Released gone)
    | inr (c, there) ↦
        on_table-Releases env rs w fpath ids is apart opens
          (there ∙ ap (λ x. some x) (sym (ap text_of there) ∙ is.holds.file)) pointing range fits
  ]
