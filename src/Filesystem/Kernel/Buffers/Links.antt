-- ===== src/Filesystem/Kernel/Buffers/Links.antt =====
-- What `bb_readlink` and `bb_listxattr` of Project 4/filesystem/bbfs.c make of the bytes that the kernel
-- fills in.
use ece318_operating_systems.Prelude.{
  ltb-true, leb-true, ℕ, zero, suc, ◌-◌, ◌^◌, ◌≤◌, ◌<◌, ◌≡◌, refl, ap, Bool-cases, inl, inr, some,
  List, [], ◌∷◌, ◌++◌, ◌==◌, length, length-append, arith,
}
use ece318_operating_systems.Filesystem.Bytes.{Bytes, drop, take-length-append}
use ece318_operating_systems.Filesystem.Stdio.{c_string}
use ece318_operating_systems.Filesystem.Kernel.{
  ℤ, pos, readlink, Outcome, Os, Process, Ends, log_syscall, log_retstat, log_msg, system, ◌>>=◌,
  of_option, Message,
}
use ece318_operating_systems.Filesystem.Kernel.Status.{Quiet, log_msg-then, path-then}
use ece318_operating_systems.Filesystem.Kernel.Buffers.{
  printed, fill, put_nul, less_one, terminate, bb_readlink,
}

length-drop : (n : ℕ) (xs : Bytes) → length (drop n xs) ≡ length xs - n
length-drop zero xs = omega arith
length-drop (suc n) [] = omega arith
length-drop (suc n) (x ∷ xs) = omega (arith, length-drop n xs)

-- A text in a buffer ends at the first NUL.
pub c_string-append : (out rest : Bytes) → c_string (out ++ 0 ∷ rest) ≡ c_string out
unfolding c_string
c_string-append [] rest = refl
c_string-append (c ∷ out) rest = elim (Bool-cases (c == 0)) [
  | inl e ↦ rw (e) refl
  | inr e ↦ rw (e) (ap (λ (l : Bytes). c ∷ l) (c_string-append out rest))
]

less_one-pos : (size : ℕ) → 0 < size → size < 2 ^ 64 → less_one size ≡ size - 1
less_one-pos size some_room small = omega arith

-- A result that fits with its NUL: the buffer keeps its length.
module _ (buffer out : Bytes) (fits : length out < length buffer) where
  abbrev filled : Bytes
  filled = out ++ drop (length out) buffer

  length-filled : length filled ≡ length buffer
  length-filled =
      omega (arith, length-append out (drop (length out) buffer), length-drop (length out) buffer)

  fill-fits : fill buffer out ≡ some filled
  unfolding fill
  fill-fits = rw (leb-true (length out) (length buffer) (omega arith)) refl

  abbrev terminated : Bytes
  terminated = out ++ 0 ∷ drop (suc (length out)) filled

  put_nul-filled : put_nul (length out) filled ≡ some terminated
  unfolding put_nul
  put_nul-filled =
      rw
        (
          ltb-true (length out) (length filled) (omega (arith, length-filled)),
          take-length-append out (drop (length out) buffer),
        )
        refl

  length-terminated : length terminated ≡ length buffer
  length-terminated = omega (
    arith,
    length-append out (0 ∷ drop (suc (length out)) filled),
    length-drop (suc (length out)) filled,
    length-filled,
  )

module _ {K : Type 0} (os : Os K) (quiet : Quiet os) where
  terminate-Quiet :
      (buffer out : Bytes) (p : Process K) (fits : length out < length buffer)
      → Ends
          (λ r q. (r.0 ≡ pos 0) × (c_string r.1 ≡ c_string out) × (length r.1 ≡ length buffer))
          (terminate os (pos (length out)) (filled buffer out fits) p)
  unfolding terminate
  terminate-Quiet buffer out p fits = rw (put_nul-filled buffer out fits) (
      log_msg-then os quiet _ _ _ p (
        refl,
        c_string-append out (drop (suc (length out)) (filled buffer out fits)),
        length-terminated buffer out fits,
      ))

  module _ (path buffer : Bytes) (size : ℕ) (p : Process K) where
    -- What the kernel is asked for, and what it says: it fills in so many bytes as it returns, and no more
    -- than it is asked for.
    abbrev pub target : Outcome
    target = (os.call (readlink (os.rootdir ++ path) (size - 1)) p.errno p.kernel).0

    abbrev pub IsFilled : Type 0
    IsFilled = (target.ret ≡ pos (length target.out)) × length target.out ≤ size - 1

    abbrev Terminated : ℤ × Bytes → Process K → Type 0
    Terminated r q =
        (r.0 ≡ pos 0) × (c_string r.1 ≡ c_string target.out) × (length r.1 ≡ length buffer)

    linked :
        (log : List Message)
        → length buffer ≡ size
        → 0 < size
        → size < 2 ^ 64
        → IsFilled
        → Ends Terminated (
            (system os (readlink (os.rootdir ++ path) (less_one size)) >>= λ o.
            (of_option (fill buffer o.out) >>= λ filled.
            (log_syscall os "readlink" o.ret >>= λ retstat. terminate os retstat filled)))
              (record p { log = log }))
    unfolding log_syscall log_retstat log_msg
    linked log room some_room small (ret, le) =
        let fits : length target.out < length buffer = omega arith in
        rw (less_one-pos size some_room small, fill-fits buffer target.out fits, ret)
          (terminate-Quiet buffer target.out _ fits)

    -- `bb_readlink` with a buffer of at least one byte asks for one byte less than it has, returns 0 when the
    -- kernel does not fail, and leaves the target of the link in the buffer, up to a NUL that lies in it;
    -- nothing is written past the buffer. It is needed that the buffer holds a NUL when it comes, since it is
    -- printed before it is filled, that the path fits, and that printing leaves `errno` as it is.
    pub bb_readlink-Terminates :
        (shown : Bytes)
        → printed buffer ≡ some shown
        → length (os.rootdir ++ path) < 4096
        → length buffer ≡ size
        → 0 < size
        → size < 2 ^ 64
        → IsFilled
        → Ends
            (λ r q.
              (r.0 ≡ pos 0) × (c_string r.1 ≡ c_string target.out) × (length r.1 ≡ length buffer))
            (bb_readlink os path buffer size p)
    unfolding bb_readlink
    bb_readlink-Terminates shown has_nul fit room some_room small is = rw (has_nul) (
        log_msg-then os quiet _ _ _ p
          (path-then os quiet _ path _ _ fit (linked _ room some_room small is)))
