-- ===== src/Filesystem/Kernel/Examples.antt =====
-- The theorems on the calls of the kernel of Project 4/filesystem, for a small kernel.
use ece318_operating_systems.Prelude.{
  ℕ, zero, suc, ◌≡◌, refl, Bool, List, [], ◌∷◌, if◌then◌else◌, length, ltb, arith,
}
use ece318_operating_systems.Filesystem.Bytes.{Bytes}
use ece318_operating_systems.Filesystem.Stdio.{c_string}
use ece318_operating_systems.Filesystem.Kernel.{
  pos, negsuc, neg, is_neg, Call, readlink, readdir, Outcome, Os, Process, Ends, log_syscall,
}
use ece318_operating_systems.Filesystem.Kernel.Dumps.{FuseFileInfo}
use ece318_operating_systems.Filesystem.Kernel.Status.{
  Quiet, Answers, error_message, log_syscall-Status,
}
use ece318_operating_systems.Filesystem.Kernel.Calls.Plain.{
  makes_link, handle_plain, kernel_call, handle_plain-Answers,
}
use ece318_operating_systems.Filesystem.Kernel.Buffers.{bb_readlink, names_from}
use ece318_operating_systems.Filesystem.Kernel.Buffers.Links.{bb_readlink-Terminates}
use ece318_operating_systems.Filesystem.Kernel.Buffers.Names.{names_from-encode_names}
use ece318_operating_systems.Filesystem.Kernel.Directory.{bb_readdir}
use ece318_operating_systems.Filesystem.Kernel.Directory.Offers.{all_offered, bb_readdir-Offers}

-- Its state is the number of the entries that a directory has left. Links lead to `ab`; other calls
-- fail with the error 2.
abbrev small_call : Call → ℕ → ℕ → Outcome × ℕ
small_call (readlink path size) errno k =
    (record { ret = pos 2; errno = errno; out = b'a' ∷ b'b' ∷ [] }, k)
small_call (readdir fd) errno zero = (record { ret = pos 0; errno = errno; out = [] }, 0)
small_call (readdir fd) errno (suc k) = (record { ret = pos 8; errno = errno; out = b'e' ∷ [] }, k)
small_call c errno k = (record { ret = negsuc 0; errno = 2; out = [] }, k)

abbrev small : Os ℕ
small = record {
  call = small_call;
  print = λ m e. e;
  strerror = λ e. [];
  rootdir = b'/' ∷ b'r' ∷ [];
}

small-Quiet : Quiet small
small-Quiet m e = refl

abbrev process : Process ℕ
process = record { kernel = 2; errno = 0; log = [] }

abbrev fi : FuseFileInfo
fi = record {
  flags = 0;
  fh_old = 0;
  writepage = 0;
  direct_io = 0;
  keep_cache = 0;
  fh = 5;
  lock_owner = 0;
}

abbrev name : Bytes
name = b'/' ∷ b'f' ∷ []

handle_plain-Answers_example :
    Ends
      (Answers small small-Quiet (kernel_call small (makes_link name name)) process)
      (handle_plain small (makes_link name name) process)
handle_plain-Answers_example =
    handle_plain-Answers small small-Quiet (makes_link name name) process (omega arith, omega arith)

log_syscall-Status_example :
    Ends
      (λ r q.
        (q.kernel ≡ process.kernel)
        × (q.errno ≡ (
            if is_neg (negsuc 0)
            then small.print (error_message small "link" process.errno) process.errno
            else process.errno))
        × (r ≡ (if is_neg (negsuc 0) then neg q.errno else negsuc 0)))
      (log_syscall small "link" (negsuc 0) process)
log_syscall-Status_example = log_syscall-Status small "link" (negsuc 0) process

abbrev link_buffer : Bytes
link_buffer = 7 ∷ 0 ∷ 7 ∷ 7 ∷ []

bb_readlink-Terminates_example :
    Ends
      (λ r q.
        (r.0 ≡ pos 0)
        × (c_string r.1 ≡ c_string (b'a' ∷ b'b' ∷ []))
        × (length r.1 ≡ length {A = ℕ} link_buffer))
      (bb_readlink small name link_buffer 4 process)
bb_readlink-Terminates_example =
    bb_readlink-Terminates small small-Quiet name link_buffer 4 process (7 ∷ []) refl (omega arith)
      refl (omega arith) (omega arith) (refl, omega arith)

names_from-encode_names_example :
    names_from 5 5 0 (b'a' ∷ 0 ∷ b'b' ∷ b'c' ∷ 0 ∷ 7 ∷ 7 ∷ [])
    ≡ (b'a' ∷ []) ∷ (b'b' ∷ b'c' ∷ []) ∷ []
unfolding c_string
names_from-encode_names_example =
    names_from-encode_names ((b'a' ∷ []) ∷ (b'b' ∷ b'c' ∷ []) ∷ []) (7 ∷ 7 ∷ []) (refl, (refl, tt))

-- A buffer with room for one entry.
abbrev accepts_one : List Bytes → Bytes → Bool
accepts_one taken n = ltb (length taken) 1

bb_readdir-Offers_example :
    Ends
      (λ r q.
        r ≡ all_offered small fi small-Quiet accepts_one ((b'e' ∷ []) ∷ (b'e' ∷ []) ∷ []) process)
      (bb_readdir small 2 name 0 0 0 0 accepts_one fi process)
bb_readdir-Offers_example =
    bb_readdir-Offers small fi small-Quiet accepts_one ((b'e' ∷ []) ∷ (b'e' ∷ []) ∷ []) 2 name 0 0 0
      0 process (omega arith) (refl, refl, (refl, refl, refl))
