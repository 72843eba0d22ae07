-- ===== src/Filesystem/Delete/Pointers.antt =====
-- How `delete_blocks` of Project 4/filesystem/our_lib.c reads the pointers of a file that gets shorter.
use ece318_operating_systems.Prelude.{
  ℕ, suc, ◌+◌, ◌≤◌, ◌<◌, ◌≡◌, refl, subst, List, [], ◌∷◌, ◌++◌, ==_refl, length, arith,
}
use ece318_operating_systems.Filesystem.Bytes.{
  Bytes, take-all, drop-past, take-nil, take-length-append, drop-length-append,
}
use ece318_operating_systems.Filesystem.Decimal.{format}
use ece318_operating_systems.Filesystem.Stdio.{Env}
use ece318_operating_systems.Filesystem.Hashes.Table.{length-format-three}
use ece318_operating_systems.Filesystem.Delete.{ReadAhead, read_ahead}

-- The file of the pointers to ids.
unfoldable pub id_text : List ℕ → Bytes
id_text [] = []
id_text (i ∷ ids) = format 3 i ++ id_text ids

abbrev pub ahead_of : Bytes → ℕ → ReadAhead
ahead_of bs n = record { ahead = bs; at = n }

pub read_ahead-front :
    (env : Env) (content front rest : Bytes) (n : ℕ)
    → read_ahead env (length front) content (ahead_of (front ++ rest) n) ≡ (front, ahead_of rest n)
unfolding read_ahead
read_ahead-front env content front rest n =
    rw (take-length-append front rest, drop-length-append front rest, ==_refl (length front)) refl

pub read_ahead-ready :
    (env : Env) (content : Bytes) (i n : ℕ) (rest : Bytes)
    → i < 1000
    → read_ahead env 3 content (ahead_of (format 3 i ++ rest) n) ≡ (format 3 i, ahead_of rest n)
read_ahead-ready env content i n rest lt =
    subst
      (λ k.
        read_ahead env k content (ahead_of (format 3 i ++ rest) n) ≡ (format 3 i, ahead_of rest n))
      (length-format-three i lt) (read_ahead-front env content (format 3 i) rest n)

-- Nothing more is read at the end, also when the file got shorter.
pub read_ahead-end :
    (env : Env) (content : Bytes) (n : ℕ)
    → length content ≤ n
    → (read_ahead env 3 content (ahead_of [] n)).0 ≡ []
unfolding read_ahead
read_ahead-end env content n le = rw (drop-past n content le, take-nil {A = ℕ} env.buffer_size) refl

-- What a content that fits the buffer is read as.
pub read_ahead-first :
    (env : Env) (content : Bytes)
    → 3 ≤ length content
    → length content ≤ env.buffer_size
    → read_ahead env 3 content (ahead_of [] 0)
      ≡ read_ahead env 3 content (ahead_of content (length content))
unfolding read_ahead
read_ahead-first env [] some_bytes fits = absurd (omega arith)
read_ahead-first env (a ∷ []) some_bytes fits = absurd (omega arith)
read_ahead-first env (a ∷ b ∷ []) some_bytes fits = absurd (omega arith)
read_ahead-first env (a ∷ b ∷ c ∷ content) some_bytes fits =
    let e : 0 + suc (suc (suc (length content))) ≡ suc (suc (suc (length content))) = omega arith in
    rw (take-all env.buffer_size (a ∷ b ∷ c ∷ content) fits, e) refl
