-- ===== src/Scheduler/Dispatch/Finite.antt =====
-- The values that the choice of Project 2/schedule.c divides by stay below ULLONG_MAX.
use native.Mathlib.Nat.{le_trans}
use ece318_operating_systems.Prelude.{
  ℕ, ◌≤◌, ◌<◌, ◌≡◌, inl, inr, false, List, ◌==◌, ◌+◌, ◌*◌, ◌^◌, ltb, Bool-cases, arith, All,
  All-map, All-of_has, has-All,
}
use ece318_operating_systems.Scheduler.Machine.{Ptr, Machine, Vm, sub64, u64_mod, ullong_max}
use ece318_operating_systems.Scheduler.Queue.Operations.{IsMonotone}
use ece318_operating_systems.Scheduler.Select.Waiting.{Waits}
use ece318_operating_systems.Scheduler.Dispatch.{burst_average}
use ece318_operating_systems.Scheduler.Dispatch.Account.{burst_now, charged, retired, rested}

-- The machine when the search for the next task starts.
abbrev pub prepared : Vm → Machine → Machine
prepared vm m = rested (retired vm (charged vm m))

-- The readings fit the type of the clock, short of its last value, and so does what is cut from a double: the
-- largest one below 2^64 is 2^64 - 2048.
pub record IsBounded (vm : Vm) : Type 0 where
  pub clock : (i : ℕ) → vm.sched_clock i < ullong_max
  pub average :
      (last_burst pred : ℕ)
      → last_burst < u64_mod
      → pred < ullong_max
      → vm.rounded_average last_burst pred < ullong_max

module _ (vm : Vm) (bounded : IsBounded vm) where
  burst_average-lt :
      (last_burst pred : ℕ)
      → last_burst < u64_mod
      → pred < ullong_max
      → burst_average vm last_burst pred < ullong_max
  burst_average-lt last_burst pred p q = elim (Bool-cases (ltb (2 * last_burst + pred) (2 ^ 53))) [
    | inl e ↦ rw (e) (omega arith)
    | inr e ↦ rw (e) (bounded.average last_burst pred p q)
  ]

  charged-lt :
      (m : Machine) (c : Ptr)
      → m.task.next_burst_pred c < ullong_max
      → (charged vm m).task.next_burst_pred c < ullong_max
  charged-lt m c h = ground (arith, burst_average-lt (burst_now vm m) (m.task.next_burst_pred c))

  retired-lt :
      (m : Machine) (c : Ptr)
      → ((m.current == m.rq.head) ≡ false → m.task.last_burst_time m.current < u64_mod)
      → m.task.next_burst_pred c < ullong_max
      → (retired vm m).task.next_burst_pred c < ullong_max
  retired-lt m c b h = elim (Bool-cases (m.current == m.rq.head)) [
    | inl e ↦ ground arith
    | inr e ↦
        ground (
          arith,
          burst_average-lt (m.task.last_burst_time m.current) (m.task.next_burst_pred c),
          b e,
        )
  ]

  pub prepared-lt :
      (m : Machine) (c : Ptr)
      → m.task.next_burst_pred c < ullong_max
      → (prepared vm m).task.next_burst_pred c < ullong_max
  prepared-lt m c h = retired-lt (charged vm m) c (λ e. ground arith) (charged-lt m c h)

-- No task behind the head was queued or last ran after the present.
abbrev pub IsTimely : Vm → Machine → List Ptr → Type 0
IsTimely vm m xs = All (λ c. m.task.last_run_or_in_queue c ≤ vm.sched_clock m.readings) xs

sub64-lt : (a b : ℕ) → b ≤ a → a < ullong_max → sub64 a b < ullong_max
sub64-lt a b p q = omega arith

module _ (vm : Vm) (mono : IsMonotone vm) (bounded : IsBounded vm) where
  pub waiting-lt :
      (m w : Machine) (xs : List Ptr)
      → IsTimely vm m xs
      → Waits vm m xs w
      → All (λ y. w.task.waiting_in_rq y < ullong_max) xs
  waiting-lt m w xs timely waits = All-of_has xs λ c i. elim (waits.on c i) [
    | inl (same, zero_wait) ↦ omega (arith, zero_wait)
    | inr (other, (r, lo, hi, e)) ↦
        let past =
          has-All (λ c. m.task.last_run_or_in_queue c ≤ vm.sched_clock m.readings) c xs i timely in
        rw e (
          sub64-lt (vm.sched_clock r) (m.task.last_run_or_in_queue c)
            (omega (arith, past, mono m.readings r lo)) (bounded.clock r))
  ]

  pub prepared-IsTimely :
      (m : Machine) (xs : List Ptr) → IsTimely vm m xs → IsTimely vm (prepared vm m) xs
  prepared-IsTimely m xs timely =
      All-map xs (λ c h. le_trans h (mono m.readings (charged vm m).readings (ground arith))) timely
