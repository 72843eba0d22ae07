-- ===== src/Scheduler/Dispatch/Accounts.antt =====
-- The burst accounts that `schedule` of Project 2/schedule.c keeps.
use mathlib.Core.Path.{ap₂}
use ece318_operating_systems.Prelude.{
  ℕ, ◌≡◌, refl, ◌≢◌, inl, inr, Bool, true, false, ◌&&◌, List, [], ◌==◌, ==_refl, ==_ne, Bool-cases,
  if◌then◌else◌, arith, has, has-ne, ap, sym, subst, ◌∙◌,
}
use ece318_operating_systems.Scheduler.Machine.{Ptr, null, Machine, Vm}
use ece318_operating_systems.Scheduler.Queue.Ring.{IsRing, head-next-ne-null}
use ece318_operating_systems.Scheduler.Queue.Remove.{on-next-ne-null}
use ece318_operating_systems.Scheduler.Queue.Operations.{IsMonotone}
use ece318_operating_systems.Scheduler.Dispatch.{burst_average}
use ece318_operating_systems.Scheduler.Dispatch.Account.{burst_now}
use ece318_operating_systems.Scheduler.Dispatch.Finite.{prepared, IsBounded}
use ece318_operating_systems.Scheduler.Dispatch.Choose.{
  IsSound, Switches, handed, Search, schedule-handed,
}
use ece318_operating_systems.Scheduler.Dispatch.Outcome.{
  final, final_same, graded_pred, graded_current,
}

-- What the accounts of a task come to: its prediction and its burst so far.
abbrev pub account : Machine → Ptr → ℕ × ℕ
account n c = (n.task.next_burst_pred c, n.task.last_burst_time c)

-- The accounts in `n`, handed to the switch to `p`, against those in `m`.
pub record Accounts (vm : Vm) (m : Machine) (xs : List Ptr) (p : Ptr) (n : Machine) : Type 0 where
  pub kept :
      p ≡ m.current → account n m.current ≡ (m.task.next_burst_pred m.current, burst_now vm m)
  pub yielded :
      has m.current xs ≡ true
      → p ≢ m.current
      → account n m.current
        ≡ (burst_average vm (burst_now vm m) (m.task.next_burst_pred m.current), burst_now vm m)
  pub left :
      m.task.next m.current ≡ null
      → m.task.prev m.current ≡ null
      → account n m.current ≡ (
        burst_average vm
            (burst_now vm m)
            (burst_average vm (burst_now vm m) (m.task.next_burst_pred m.current)),
        0,
      )
  pub idle : m.current ≡ m.rq.head → account n m.current ≡ account m m.current
  pub others : (c : Ptr) → c ≢ m.current → account n c ≡ account m c

and_false : (b : Bool) → (b && false) ≡ false
and_false true = refl
and_false false = refl

-- The accounts when the search starts.
module _ (vm : Vm) (m : Machine) (xs : List Ptr) (ring : IsRing m xs) where
  prepared_on :
      has m.current xs ≡ true
      → account (prepared vm m) m.current
        ≡ (burst_average vm (burst_now vm m) (m.task.next_burst_pred m.current), burst_now vm m)
  prepared_on on =
      let linked = on-next-ne-null m.current m xs ring on in
      let e : (m.task.next m.current == null) ≡ false = ground arith in
      let f : (m.current == m.rq.head) ≡ false = ==_ne _ _ (has-ne _ _ xs on ring.no_head) in
      simp (e, f, ==_refl m.current)

  off_queue : m.task.next m.current ≡ null → has m.current xs ≡ false
  off_queue en = elim (Bool-cases (has m.current xs)) [
    | inl on ↦ absurd (on-next-ne-null m.current m xs ring on en)
    | inr off ↦ off
  ]

  prepared_left :
      m.task.next m.current ≡ null
      → m.task.prev m.current ≡ null
      → account (prepared vm m) m.current ≡ (
        burst_average vm
            (burst_now vm m)
            (burst_average vm (burst_now vm m) (m.task.next_burst_pred m.current)),
        0,
      )
  prepared_left en ep =
      let f : (m.current == m.rq.head) ≡ false =
        ==_ne _ _ λ e. head-next-ne-null m xs ring (subst (λ c. m.task.next c ≡ null) e en) in
      simp (f, en, ep, ==_refl m.current)

  prepared_idle : m.current ≡ m.rq.head → account (prepared vm m) m.current ≡ account m m.current
  prepared_idle e = let f : (m.current == m.rq.head) ≡ true = ground arith in simp (f, and_false)

  prepared_others : (c : Ptr) → c ≢ m.current → account (prepared vm m) c ≡ account m c
  prepared_others c ne = ground arith

handed_pred :
    (vm : Vm) (pred : ℕ) (p : Ptr) (g : Machine) (c : Ptr)
    → (handed vm pred p g).task.next_burst_pred c
      ≡ (if p == g.current && c == g.current then pred else g.task.next_burst_pred c)
handed_pred vm pred p g c = elim (Bool-cases (p == g.current)) [ inl e ↦ rw e | inr e ↦ rw e ]

module _ (vm : Vm) (m : Machine) (xs : List Ptr) (mono : IsMonotone vm) (bounded : IsBounded vm)
    (sound : IsSound vm m xs) (p : Ptr) (s : Search vm m xs p) where
  abbrev n : Machine
  n = final vm m xs mono bounded sound p s

  final_burst : n.task.last_burst_time ≡ (prepared vm m).task.last_burst_time
  final_burst =
      final_same vm m xs mono bounded sound p s (λ n. n.task.last_burst_time) (λ n. refl)
        (λ n. refl) (λ n c. refl) (λ n g. refl) (λ n w r. refl)

  -- The prediction goes back to the old one where the current task is chosen again.
  final_pred :
      (c : Ptr)
      → n.task.next_burst_pred c ≡ (
          if p == m.current && c == m.current
          then m.task.next_burst_pred m.current
          else (prepared vm m).task.next_burst_pred c)
  final_pred c =
      handed_pred vm (m.task.next_burst_pred m.current) p s.graded c
      ∙ ap₂
          (λ (x : Ptr) (q : Ptr → ℕ).
            if p == x && c == x then m.task.next_burst_pred m.current else q c)
          (graded_current vm m xs mono bounded sound p s)
          (graded_pred vm m xs mono bounded sound p s)

  final_account :
      (c : Ptr)
      → (p == m.current && c == m.current) ≡ false
      → account n c ≡ account (prepared vm m) c
  final_account c e =
      ap₂ (λ a b. (a, b)) (final_pred c ∙ rw e) (ap (λ (f : Ptr → ℕ). f c) final_burst)

  final_kept :
      p ≡ m.current → account n m.current ≡ (m.task.next_burst_pred m.current, burst_now vm m)
  final_kept e =
      let on = subst (λ c. has c xs ≡ true) e s.on in
      let f : (p == m.current) ≡ true = ground arith in
      ap₂ (λ a b. (a, b)) (final_pred m.current ∙ rw (f, ==_refl m.current))
        (ap (λ (f : Ptr → ℕ). f m.current) final_burst
          ∙ ap (λ (a : ℕ × ℕ). a.1) (prepared_on vm m xs sound.ring on))

  -- A task that is on the list is not the chosen one unless it is that one.
  final_off : has m.current xs ≡ false → (p == m.current && m.current == m.current) ≡ false
  final_off off =
      let e : (p == m.current) ≡ false = ==_ne _ _ (has-ne p m.current xs s.on off) in rw e

-- What `schedule` does to the accounts of a sound machine with tasks behind the head, on a monotone clock
-- below ULLONG_MAX, with double arithmetic that is cut to numbers below ULLONG_MAX. Chosen again, the current task keeps its prediction and its
-- burst goes on. Still queued but not chosen, its prediction becomes the average with the burst so
-- far, which goes on. Taken off the queue, it is averaged with the burst so far a second time, and
-- its burst starts anew. Where init was running, and for every other task, nothing changes. The
-- average of a burst L and a prediction P is the whole part of (2 L + P) / 3 where 2 L + P is below 2^53, and
-- otherwise what the parameter for double arithmetic gives.
pub schedule-Accounts :
    (vm : Vm) (m : Machine) (xs : List Ptr)
    → IsMonotone vm
    → IsBounded vm
    → IsSound vm m xs
    → xs ≢ []
    → Switches vm m (Accounts vm m xs)
schedule-Accounts vm m xs mono bounded sound some_task =
    let (p, s, ran) = schedule-handed vm m xs mono bounded sound some_task in
    let same = final_account vm m xs mono bounded sound p s in
    (
      p,
      final vm m xs mono bounded sound p s,
      ran,
      record {
        kept = final_kept vm m xs mono bounded sound p s;
        yielded = λ on ne.
            let e : (p == m.current) ≡ false = ==_ne _ _ ne in
            same m.current (rw e) ∙ prepared_on vm m xs sound.ring on;
        left = λ en ep.
            same m.current
              (final_off vm m xs mono bounded sound p s (off_queue vm m xs sound.ring en))
            ∙ prepared_left vm m xs sound.ring en ep;
        idle = λ e.
            same m.current (
              final_off vm m xs mono bounded sound p s
                (subst (λ c. has c xs ≡ false) (sym e) sound.ring.no_head))
            ∙ prepared_idle vm m xs sound.ring e;
        others = λ c ne.
            let e : (c == m.current) ≡ false = ==_ne _ _ ne in
            same c (rw e (and_false (p == m.current))) ∙ prepared_others vm m xs sound.ring c ne;
      },
    )
