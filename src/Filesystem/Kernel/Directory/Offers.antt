-- ===== src/Filesystem/Kernel/Directory/Offers.antt =====
-- What `bb_readdir` of Project 4/filesystem/bbfs.c hands to FUSE of a directory.
use ece318_operating_systems.Prelude.{
  ℕ, zero, suc, ◌≤◌, ◌<◌, ◌≡◌, refl, Bool, Bool-cases, inl, inr, true, false, List, [], ◌∷◌, ◌++◌,
  ◌==◌, if◌then◌else◌, length, arith,
}
use ece318_operating_systems.Filesystem.Bytes.{Bytes}
use ece318_operating_systems.Filesystem.Kernel.{
  Message, ℤ, pos, neg, to_u64, text, msg, readdir, Outcome, Os, Process, Ends, log_error,
}
use ece318_operating_systems.Filesystem.Kernel.Dumps.{FuseFileInfo, log_fi}
use ece318_operating_systems.Filesystem.Kernel.Status.{
  Quiet, log_msg-Quiet, log_all-then, log_msg-then, error_message,
}
use ece318_operating_systems.Filesystem.Kernel.Directory.{
  no_memory, fill_loop, read_entries, bb_readdir,
}

-- The entries that a buffer takes, in order, until it refuses one; and whether it took them all.
abbrev pub offer : (List Bytes → Bytes → Bool) → (taken names : List Bytes) → Bool × List Bytes
offer accepts taken [] = (true, taken)
offer accepts taken (n ∷ ns) =
    let rest = offer accepts (taken ++ n ∷ []) ns in
    if accepts taken n then rest else (false, taken)

module _ {K : Type 0} (os : Os K) (fi : FuseFileInfo) where
  abbrev pub next_entry : ℕ → K → Outcome × K
  next_entry errno k = os.call (readdir fi.fh) errno k

  -- The directory gives these entries one after the other, and then NULL.
  abbrev pub Lists : List Bytes → ℕ → K → Type 0
  Lists [] errno k = (to_u64 (next_entry errno k).0.ret == 0) ≡ true
  Lists (n ∷ ns) errno k =
      ((to_u64 (next_entry errno k).0.ret == 0) ≡ false)
      × ((next_entry errno k).0.out ≡ n)
      × Lists ns (next_entry errno k).0.errno (next_entry errno k).1

  abbrev pub outcome : Bool × List Bytes → ℤ × List Bytes
  outcome (all, taken) = (if all then pos 0 else no_memory, taken)

  module _ (quiet : Quiet os) (accepts : List Bytes → Bytes → Bool) where
    abbrev calling : Bytes → Message
    calling n = msg "calling filler with name %s\n" (text n ∷ [])

    refused :
        (ns : List Bytes) (n : Bytes) (taken : List Bytes) (fuel : ℕ) (p : Process K)
        → accepts taken n ≡ false
        → Ends
            (λ r q. r ≡ outcome (offer accepts taken (n ∷ ns)))
            (fill_loop os (suc fuel) accepts fi taken n p)
    unfolding fill_loop
    refused ns n taken fuel p e =
        rw
          (
            log_msg-Quiet os quiet (calling n) p,
            e,
            log_msg-Quiet os quiet (msg "    ERROR bb_readdir filler:  buffer full" [])
                (record p { log = calling n ∷ p.log }),
          )
          refl

    -- What is returned of a directory with these entries.
    abbrev pub all_offered : List Bytes → Process K → ℤ × List Bytes
    all_offered [] p = (neg (next_entry p.errno p.kernel).0.errno, [])
    all_offered (n ∷ ns) p = outcome (offer accepts [] (n ∷ ns))

    fill_loop-Offers :
        (ns : List Bytes) (n : Bytes) (taken : List Bytes) (fuel : ℕ) (p : Process K)
        → length ns < fuel
        → Lists ns p.errno p.kernel
        → Ends
            (λ r q. r ≡ outcome (offer accepts taken (n ∷ ns)))
            (fill_loop os fuel accepts fi taken n p)
    unfolding fill_loop log_fi
    fill_loop-Offers ns n taken zero p enough lists = absurd (omega arith)
    fill_loop-Offers [] n taken (suc fuel) p enough lists = elim (Bool-cases (accepts taken n)) [
      | inl e ↦
          rw (log_msg-Quiet os quiet (calling n) p, e, lists)
            (log_all-then os quiet _ _ _ _ (λ log. refl))
      | inr e ↦ refused [] n taken fuel p e
    ]
    fill_loop-Offers (m ∷ ns) n taken (suc fuel) p enough lists =
        elim (Bool-cases (accepts taken n)) [
          | inl e ↦
              rw (log_msg-Quiet os quiet (calling n) p, e, lists.0, lists.1)
                (fill_loop-Offers ns m (taken ++ n ∷ []) fuel _ (omega arith) lists.2)
          | inr e ↦ refused (m ∷ ns) n taken fuel p e
        ]

    none_left :
        (fuel : ℕ) (o : Outcome) (p : Process K)
        → Ends (λ r q. r ≡ (neg p.errno, [])) (read_entries os fuel accepts fi o true p)
    unfolding log_error
    none_left fuel o p =
        rw (log_msg-Quiet os quiet (error_message os "bb_readdir readdir" p.errno) p) refl

    -- The entries of a directory are offered one after the other, until one is refused: the result is 0 if
    -- all are taken and -ENOMEM otherwise, with those that are taken. Where the directory has no entry
    -- left at the start, minus the `errno` of that moment is returned, which the end of a directory does
    -- not set. It is needed that printing leaves `errno` as it is, and the fuel is one for each entry.
    pub bb_readdir-Offers :
        (ns : List Bytes) (fuel : ℕ) (path : Bytes) (buf_addr filler_addr offset fi_addr : ℕ)
        (p : Process K)
        → length ns ≤ fuel
        → Lists ns p.errno p.kernel
        → Ends
            (λ r q. r ≡ all_offered ns p)
            (bb_readdir os fuel path buf_addr filler_addr offset fi_addr accepts fi p)
    unfolding bb_readdir
    bb_readdir-Offers [] fuel path buf_addr filler_addr offset fi_addr p enough lists =
        log_msg-then os quiet _ _ _ _ (
          log_msg-then os quiet _ _ _ _
            (rw (lists) (none_left fuel (next_entry p.errno p.kernel).0 _)))
    bb_readdir-Offers (n ∷ ns) fuel path buf_addr filler_addr offset fi_addr p enough lists =
        log_msg-then os quiet _ _ _ _ (
          log_msg-then os quiet _ _ _ _
            (rw (lists.0, lists.1) (fill_loop-Offers ns n [] fuel _ (omega arith) lists.2)))
