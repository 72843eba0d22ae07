-- ===== src/Filesystem/Service/Pointer.antt =====
-- The place of a pointer that `bb_write` of Project 4/filesystem/bbfs.c writes, and its id.
use mathlib.Core.List.{append_assoc, append-nil}
use ece318_operating_systems.Prelude.{
  ℕ, zero, suc, ◌+◌, ◌*◌, ◌≤◌, ◌<◌, ◌≡◌, refl, ap, sym, ◌∙◌, inl, inr, List, [], ◌∷◌, ◌++◌, length,
  length-append, All, arith,
}
use ece318_operating_systems.Filesystem.Bytes.{Bytes}
use ece318_operating_systems.Filesystem.Decimal.{format}
use ece318_operating_systems.Filesystem.Stdio.{FilePath, BbState, Disk, write_at}
use ece318_operating_systems.Filesystem.Hashes.Table.{Row, length-format-three}
use ece318_operating_systems.Filesystem.Hashes.Compare.{id_for, or_next}
use ece318_operating_systems.Filesystem.Hashes.Update.{write_at-part, write_at-end}
use ece318_operating_systems.Filesystem.Hashes.Insert.{insert-cases}
use ece318_operating_systems.Filesystem.Blocks.{hashes_path}
use ece318_operating_systems.Filesystem.Blocks.Read.{Chunk, pointers}
use ece318_operating_systems.Filesystem.Service.{ids, put_chunk}
use ece318_operating_systems.Filesystem.Service.Sound.{world_of}

pub id_for_pos : (h : Bytes) (rs : List Row) → 0 < id_for h rs
id_for_pos h rs = elim (insert-cases 1 h rs) [
  | inl p ↦ omega (arith, ap (λ f. or_next f (length rs)) p.found)
  | inr p ↦ omega (arith, ap (λ f. or_next f (length rs)) p.not_found)
]

-- A pointer that is written over another one, or behind them all.
pub pointers-put_chunk :
    (pre : Bytes) (k : ℕ) (c : Chunk) (cs : List Chunk)
    → k ≤ length cs
    → c.id < 1000
    → All (λ i. i < 1000) (ids cs)
    → write_at (pre ++ pointers cs) (length pre + 3 * k) (format 3 c.id)
      ≡ pre ++ pointers (put_chunk k c cs)
unfolding pointers
pointers-put_chunk pre zero c [] le lt small =
    let e : length pre + 3 * 0 ≡ length pre = omega arith in
    rw (append-nil pre, e, append-nil (format 3 c.id)) (write_at-end pre (format 3 c.id))
pointers-put_chunk pre (suc k) c [] le lt small = absurd (omega arith)
pointers-put_chunk pre zero c (d ∷ cs) le lt small =
    write_at-part (pre ++ (format 3 d.id ++ pointers cs)) pre (format 3 d.id) (pointers cs)
      (format 3 c.id) (length pre + 3 * 0) refl
      (length-format-three d.id small.0 ∙ sym (length-format-three c.id lt)) (omega arith)
pointers-put_chunk pre (suc k) c (d ∷ cs) le lt small =
    let e : length pre + 3 * suc k ≡ length (pre ++ format 3 d.id) + 3 * k =
      omega (arith, length-append pre (format 3 d.id), length-format-three d.id small.0) in
    rw
      (
        e,
        ← append_assoc pre (format 3 d.id) (pointers cs),
        ← append_assoc pre (format 3 d.id) (pointers (put_chunk k c cs)),
      )
      (pointers-put_chunk (pre ++ format 3 d.id) k c cs (omega arith) lt small.1)

pub bbs_fields :
    (root dir : FilePath) (n : ℕ) (disk : Disk) (b : BbState)
    → b.rootdir ≡ root
    → b.hiddendir ≡ dir
    → b.hashesfile ≡ hashes_path b.hiddendir
    → b.last_id ≡ n
    → b ≡ (world_of root dir n disk).bbs
bbs_fields root dir n disk b r d h l = rw (← r, ← d, ← h, ← l) refl
