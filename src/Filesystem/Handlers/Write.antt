-- ===== src/Filesystem/Handlers/Write.antt =====
-- What `write_blocks` of Project 4/filesystem/our_lib.c returns, and where `bb_write` of bbfs.c puts it.
use ece318_operating_systems.Prelude.{
  inl, inr, ltb, ltb-true, ltb-false, ℕ, ◌+◌, ◌*◌, ◌≤◌, ◌<◌, ◌≡◌, refl, ap, subst, ◌∙◌, ◌↔◌, true,
  some, List, ◌∷◌, arith, length, length-append, All,
}
use ece318_operating_systems.Filesystem.Bytes.{Bytes, take}
use ece318_operating_systems.Filesystem.Decimal.{format}
use ece318_operating_systems.Filesystem.Stdio.{
  fault, pure, when_else, World, Env, Returns, Returns-and_then, c_string,
}
use ece318_operating_systems.Filesystem.Hashes.{generate_hash}
use ece318_operating_systems.Filesystem.Hashes.Table.{Row, length-format-three}
use ece318_operating_systems.Filesystem.Hashes.Compare.{id_for, or_next}
use ece318_operating_systems.Filesystem.Hashes.Insert.{
  insert, insert-cases, HasRoom, length-insert-Present, length-insert-Absent,
}
use ece318_operating_systems.Filesystem.Blocks.{block_path, generate_block, write_blocks}
use ece318_operating_systems.Filesystem.Blocks.Paths.{
  length-block_path, block_path-hashes_ne, block_path-ne,
}
use ece318_operating_systems.Filesystem.Blocks.Store.{IsStore, Settled}
use ece318_operating_systems.Filesystem.Blocks.Generated.{Generated}
use ece318_operating_systems.Filesystem.Blocks.Generate.{generate_block-Generates}
use ece318_operating_systems.Filesystem.Blocks.Read.{Chunk, chunk, IsStored}
use ece318_operating_systems.Filesystem.Handlers.{pointer_offset}

-- Blocks are written at multiples of 4096, and the pointer to the block number `k` belongs at `3 * k`.
-- That is where `bb_write` puts it exactly for the numbers up to 150.
pub pointer_offset-exact : (k : ℕ) → (pointer_offset (k * 4096) ≡ k * 3) ↔ (k ≤ 150)
unfolding pointer_offset
pointer_offset-exact k = (λ e. omega (arith, e), λ le. omega arith)

pub id_for_lt : (h : Bytes) (rs : List Row) → id_for h rs ≤ length rs + 1
id_for_lt h rs = elim (insert-cases 1 h rs) [
  | inl p ↦ omega (
    arith,
    ap length p.splits,
    length-append p.before (p.at ∷ p.after),
    ap (λ f. or_next f (length rs)) p.found,
  )
  | inr p ↦ omega (arith, ap (λ f. or_next f (length rs)) p.not_found)
]

-- A stored block of a file has an id of the table.
abbrev pub Listed : Env → List Row → World → Chunk → Type 0
Listed env rs w c = IsStored env w.bbs.hiddendir w.disk c × c.id ≤ length rs

-- No other text has the hash of this one.
abbrev pub Unique : Env → Bytes → Type 0
Unique env text =
    (t : Bytes) → c_string t ≡ t → generate_hash env t ≡ generate_hash env text → t ≡ c_string text

module _ (env : Env) (rs : List Row) (w : World) (block_data : Bytes)
    (settled : Settled env w.bbs.hiddendir) (is : IsStore env rs w) (room : All HasRoom rs)
    (small : 1 + length rs < 1000) (usable : (n : ℕ) → n ≤ env.usable n) where
  abbrev hash : Bytes
  hash = generate_hash env block_data

  -- The id fits where `write_blocks` prints it.
  id-fits : ltb (length (format 3 (id_for hash rs))) (env.usable 4) ≡ true
  id-fits = ltb-true (length (format 3 (id_for hash rs))) (env.usable 4) (
      omega (
        arith,
        usable 4,
        length-format-three (id_for hash rs) (omega (arith, id_for_lt hash rs, small)),
      ))

  printed :
      (id : ℕ) (v : World)
      → (id ≡ id_for hash rs) × Generated env rs w hash v
      → Returns
          (λ ids after. (ids ≡ format 3 (id_for hash rs)) × Generated env rs w hash after)
          (when_else
            (ltb (length (format 3 id)) (env.usable (3 + 1)))
            (pure (format 3 id))
            (λ _. fault)
            v)
  printed id v (e, g) = rw (e, id-fits) (refl, g)

  pub write_blocks-prints :
      (buf : Bytes) (size : ℕ)
      → size ≤ 4096
      → size ≤ length buf
      → take size buf ≡ block_data
      → Returns
          (λ ids after. (ids ≡ format 3 (id_for hash rs)) × Generated env rs w hash after)
          (write_blocks env buf size w)
  unfolding write_blocks
  write_blocks-prints buf size fits there same =
      rw (ltb-false 4096 size fits, ltb-false (length buf) size there, same)
        (Returns-and_then (λ id v. (id ≡ id_for hash rs) × Generated env rs w hash v)
          (λ ids after. (ids ≡ format 3 (id_for hash rs)) × Generated env rs w hash after)
          (generate_block env block_data w)
          (λ id.
            when_else (ltb (length (format 3 id)) (env.usable (3 + 1))) (pure (format 3 id))
              (λ _. fault))
          (generate_block-Generates env rs w block_data settled is room small) printed)

  abbrev rs' : List Row
  rs' = insert hash rs

  abbrev new_chunk : Chunk
  new_chunk = chunk (id_for hash rs) (c_string block_data)

  pub longer : (length rs ≤ length rs') × (id_for hash rs ≤ length rs')
  longer = elim (insert-cases 1 hash rs) [
    | inl p ↦ (
      omega (arith, length-insert-Present hash rs p),
      omega (
        arith,
        length-insert-Present hash rs p,
        ap length p.splits,
        length-append p.before (p.at ∷ p.after),
        ap (λ f. or_next f (length rs)) p.found,
      ),
    )
    | inr p ↦ (
      omega (arith, length-insert-Absent hash rs p),
      omega (arith, length-insert-Absent hash rs p, ap (λ f. or_next f (length rs)) p.not_found),
    )
  ]

  module _ (v : World) (g : Generated env rs w hash v) where
    pub old_chunk : (c : Chunk) → Listed env rs w c → Listed env rs' v c
    old_chunk c (s, le) = (
      record {
        id_lt = s.id_lt;
        opens = rw (g.same_dir) s.opens;
        on_disk = rw (g.same_dir) (
            g.kept (block_path w.bbs.hiddendir (format 3 c.id))
              (rw (is.named) (block_path-hashes_ne w.bbs.hiddendir c.id s.id_lt))
              (block_path-ne w.bbs.hiddendir c.id (w.bbs.last_id + 1) s.id_lt
                (omega (arith, is.holds.last, small)) (omega (arith, is.holds.last)))
            ∙ s.on_disk);
        is_text = s.is_text;
        short = rw (g.same_dir) s.short;
      },
      omega (arith, longer.0),
    )

    pub stored_chunk : Unique env block_data → Listed env rs' v new_chunk
    stored_chunk unique =
        let lt : id_for hash rs < 1000 = omega (arith, id_for_lt hash rs, small) in
        let same = unique g.block.text g.block.is_text g.block.hash_of in
        (
          record {
            id_lt = lt;
            opens = rw (g.same_dir) (settled.blocks_open (id_for hash rs) lt);
            on_disk = rw (g.same_dir) (g.block.on_disk ∙ ap (λ t. some t) same);
            is_text = subst (λ t. c_string t ≡ t) same g.block.is_text;
            short = rw (g.same_dir) (
                omega
                  (arith, length-block_path w.bbs.hiddendir (id_for hash rs) lt, settled.short));
          },
          longer.1,
        )
