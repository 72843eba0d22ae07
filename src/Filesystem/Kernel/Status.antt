-- ===== src/Filesystem/Kernel/Status.antt =====
-- What the handlers of Project 4/filesystem return of a call: `log_syscall` and `log_error` of log.c.
use Prim.Native.String.{String, ◌++◌ as ◌<>◌}
use ece318_operating_systems.Prelude.{
  ltb-true, ℕ, ◌≡◌, ◌<◌, some, refl, List, [], ◌∷◌, ◌++◌, if◌then◌else◌, length,
}
use ece318_operating_systems.Filesystem.Bytes.{Bytes}
use ece318_operating_systems.Filesystem.Stdio.{FilePath}
use ece318_operating_systems.Filesystem.Kernel.{
  ℤ, pos, negsuc, neg, is_neg, text, msg, Message, Call, Outcome, Os, Process, Io, Ends, ◌>>=◌,
  system, log_msg, log_all, log_error, log_retstat, log_syscall, logged_fullpath,
}

-- What a handler returns of a call.
abbrev pub status : Outcome → ℤ
status o = if is_neg o.ret then neg o.errno else o.ret

abbrev pub error_message : {K : Type 0} → Os K → String → ℕ → Message
error_message os func errno =
    msg ("    ERROR " <> (func <> ": %s\n")) (text (os.strerror errno) ∷ [])

-- Printing leaves `errno` as it is.
abbrev pub Quiet : {K : Type 0} → Os K → Type 0
Quiet os = (m : Message) (e : ℕ) → os.print m e ≡ e

module _ {K : Type 0} (os : Os K) where
  -- `log_syscall` makes no call; a result that is not negative is returned and `errno` kept, also when
  -- printing changes it. For a negative one the error is returned that `errno` holds after the error
  -- message has been printed, which is not always that of the call.
  pub log_syscall-Status :
      (func : String) (retstat : ℤ) (p : Process K)
      → Ends
          (λ r q.
            (q.kernel ≡ p.kernel)
            × (q.errno ≡ (
                if is_neg retstat
                then os.print (error_message os func p.errno) p.errno
                else p.errno))
            × (r ≡ (if is_neg retstat then neg q.errno else retstat)))
          (log_syscall os func retstat p)
  unfolding log_syscall log_retstat log_msg log_error
  log_syscall-Status func (pos n) p = (refl, refl, refl)
  log_syscall-Status func (negsuc n) p = (refl, refl, refl)

  module _ (quiet : Quiet os) where
    pub log_msg-Quiet :
        (m : Message) (p : Process K) → log_msg os m p ≡ some (tt, record p { log = m ∷ p.log })
    unfolding log_msg
    log_msg-Quiet m p = rw (quiet m p.errno) refl

    -- The log after several messages.
    abbrev pub logged : List Message → List Message → List Message
    logged [] log = log
    logged (m ∷ ms) log = logged ms (m ∷ log)

    pub log_all-Quiet :
        (ms : List Message) (p : Process K)
        → log_all os ms p ≡ some (tt, record p { log = logged ms p.log })
    unfolding log_all
    log_all-Quiet [] p = refl
    log_all-Quiet (m ∷ ms) p =
        rw (log_msg-Quiet m p) (log_all-Quiet ms (record p { log = m ∷ p.log }))

    -- Messages change only the log.
    pub log_all-then :
        {A : Type 0} (Q : A → Process K → Type 0) (ms : List Message) (k : Io K A) (p : Process K)
        → ((log : List Message) → Ends Q (k (record p { log = log })))
        → Ends Q ((log_all os ms >>= λ _. k) p)
    log_all-then Q ms k p f = rw (log_all-Quiet ms p) (f (logged ms p.log))

    pub log_msg-then :
        {A : Type 0} (Q : A → Process K → Type 0) (m : Message) (k : Io K A) (p : Process K)
        → Ends Q (k (record p { log = m ∷ p.log }))
        → Ends Q ((log_msg os m >>= λ _. k) p)
    log_msg-then Q m k p f = rw (log_msg-Quiet m p) f

    pub quiet_status :
        (func : String) (ret : ℤ) (p : Process K)
        → Ends
            (λ r q. (r ≡ (if is_neg ret then neg p.errno else ret)) × (q.kernel ≡ p.kernel))
            (log_syscall os func ret p)
    unfolding log_syscall log_retstat log_msg log_error
    quiet_status func (pos n) p = (refl, refl)
    quiet_status func (negsuc n) p = rw (quiet (error_message os func p.errno) p.errno) (refl, refl)

    -- The call is made, once, and its result or error is returned.
    abbrev pub Answers : Call → Process K → ℤ → Process K → Type 0
    Answers c p r q =
        (r ≡ status (os.call c p.errno p.kernel).0) × (q.kernel ≡ (os.call c p.errno p.kernel).1)

    abbrev pub call_and_log : Call → String → Io K ℤ
    call_and_log c func = system os c >>= λ o. log_syscall os func o.ret

    pub called :
        (c : Call) (func : String) (p : Process K) → Ends (Answers c p) (call_and_log c func p)
    called c func p =
        let r = os.call c p.errno p.kernel in
        quiet_status func r.0.ret (record p { kernel = r.1; errno = r.0.errno })

    abbrev pub path_message : Bytes → Message
    path_message path =
        msg "    bb_fullpath:  rootdir = \"%s\", path = \"%s\", fpath = \"%s\"\n"
          (text os.rootdir ∷ text path ∷ text (os.rootdir ++ path) ∷ [])

    pub logged_fullpath-Quiet :
        (path : Bytes) (p : Process K)
        → length (os.rootdir ++ path) < 4096
        → logged_fullpath os path p
          ≡ some (os.rootdir ++ path, record p { log = path_message path ∷ p.log })
    unfolding logged_fullpath
    logged_fullpath-Quiet path p fit =
        rw (ltb-true (length (os.rootdir ++ path)) 4096 fit, log_msg-Quiet (path_message path) p)
          refl

    pub path-then :
        {A : Type 0} (Q : A → Process K → Type 0) (path : Bytes) (k : FilePath → Io K A)
        (p : Process K)
        → length (os.rootdir ++ path) < 4096
        → Ends Q (k (os.rootdir ++ path) (record p { log = path_message path ∷ p.log }))
        → Ends Q ((logged_fullpath os path >>= k) p)
    path-then Q path k p fit e = rw (logged_fullpath-Quiet path p fit) e

    module _ (m : Message) (path : Bytes) (fit : length (os.rootdir ++ path) < 4096)
        (p : Process K) where
      -- A handler that logs a message, makes the path and calls with it.
      pub path-Answers :
          (c : FilePath → Call) (func : String)
          → Ends (Answers (c (os.rootdir ++ path)) p) (
              (log_msg os m >>= λ _.
              (logged_fullpath os path >>= λ fpath. call_and_log (c fpath) func))
                p)
      path-Answers c func =
          rw (log_msg-Quiet m p, logged_fullpath-Quiet path (record p { log = m ∷ p.log }) fit)
            (called (c (os.rootdir ++ path)) func
              (record p { log = path_message path ∷ m ∷ p.log }))

    pub message-Answers :
        (m : Message) (c : Call) (func : String) (p : Process K)
        → Ends (Answers c p) ((log_msg os m >>= λ _. call_and_log c func) p)
    message-Answers m c func p =
        rw (log_msg-Quiet m p) (called c func (record p { log = m ∷ p.log }))

    pub messages-Answers :
        (m : Message) (ms : List Message) (c : Call) (func : String) (p : Process K)
        → Ends
            (Answers c p)
            ((log_msg os m >>= λ _. (log_all os ms >>= λ _. call_and_log c func)) p)
    messages-Answers m ms c func p =
        rw (log_msg-Quiet m p, log_all-Quiet ms (record p { log = m ∷ p.log }))
          (called c func (record p { log = logged ms (m ∷ p.log) }))

    pub paths-Answers :
        (m : Message) (path newpath : Bytes) (c : FilePath → FilePath → Call) (func : String)
        (p : Process K)
        → length (os.rootdir ++ path) < 4096
        → length (os.rootdir ++ newpath) < 4096
        → Ends (Answers (c (os.rootdir ++ path) (os.rootdir ++ newpath)) p) (
            (log_msg os m >>= λ _.
            (logged_fullpath os path >>= λ f.
            (logged_fullpath os newpath >>= λ g. call_and_log (c f g) func)))
              p)
    paths-Answers m path newpath c func p fit fit' =
        rw
          (
            log_msg-Quiet m p,
            logged_fullpath-Quiet path (record p { log = m ∷ p.log }) fit,
            logged_fullpath-Quiet newpath (record p { log = path_message path ∷ m ∷ p.log }) fit',
          )
          (called (c (os.rootdir ++ path) (os.rootdir ++ newpath)) func
            (record p { log = path_message newpath ∷ path_message path ∷ m ∷ p.log }))
