-- ===== src/Filesystem/Handlers/Truncate.antt =====
-- What `bb_truncate` of Project 4/filesystem/bbfs.c does to a file.
use mathlib.Core.List.{append-nil}
use ece318_operating_systems.Prelude.{
  ltb-true, ℕ, zero, suc, ◌+◌, ◌-◌, ◌≡◌, ◌<◌, ◌↔◌, refl, ap, sym, ◌∙◌, true, some, [], ◌∷◌, ◌++◌,
  length, length-append, arith,
}
use ece318_operating_systems.Filesystem.Bytes.{Bytes, bytes_eq_refl, take, take-all, replicate}
use ece318_operating_systems.Filesystem.Stdio.{World, Returns}
use ece318_operating_systems.Filesystem.Handlers.{bb_fullpath, bb_truncate, resized, truncate}

length-replicate : (n : ℕ) → length (replicate {A = ℕ} n 0) ≡ n
length-replicate zero = refl
length-replicate (suc n) = ap (λ k. suc k) (length-replicate n)

length-take_rest : (n : ℕ) (c : Bytes) → length (take n c) + (n - length c) ≡ n
length-take_rest zero c = omega arith
length-take_rest (suc n) [] = omega arith
length-take_rest (suc n) (b ∷ c) = omega (arith, length-take_rest n c)

length-resized : (n : ℕ) (c : Bytes) → length (resized n c) ≡ n
length-resized n c = omega (
  arith,
  length-append (take n c) (replicate (n - length c) 0),
  length-replicate (n - length c),
  length-take_rest n c,
)

resized-same : (n : ℕ) (c : Bytes) → n ≡ length c → resized n c ≡ c
resized-same n c e =
    let z : n - length c ≡ 0 = omega arith in rw (take-all n c (omega arith), z) (append-nil c)

some-inj : (c d : Bytes) → some c ≡ some d → c ≡ d
some-inj c d e = cc

-- `bb_truncate` of a file that is there succeeds, and the file keeps its pointers exactly when the new
-- size is the length of the pointers, whatever the size of the blocks is.
pub bb_truncate-Keeps :
    (w : World) (path content : Bytes) (newsize : ℕ)
    → length (w.bbs.rootdir ++ path) < 4096
    → w.disk (w.bbs.rootdir ++ path) ≡ some content
    → Returns
        (λ done after.
          (done ≡ true)
          × ((after.disk (w.bbs.rootdir ++ path) ≡ some content) ↔ (newsize ≡ length content)))
        (bb_truncate path newsize w)
unfolding bb_truncate bb_fullpath truncate
bb_truncate-Keeps w path content newsize short there =
    rw
      (
        ltb-true (length (w.bbs.rootdir ++ path)) 4096 short,
        truncate,
        there,
        bytes_eq_refl (w.bbs.rootdir ++ path),
      )
      (
        refl,
        (
          λ e.
              sym (length-resized newsize content)
              ∙ ap length (some-inj (resized newsize content) content e),
          λ e. ap (λ c. some c) (resized-same newsize content e),
        ),
      )
