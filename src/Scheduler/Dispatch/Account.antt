-- ===== src/Scheduler/Dispatch/Account.antt =====
-- What `schedule` of Project 2/schedule.c does to the accounts of the current task before it looks
-- for the next one.
use ece318_operating_systems.Prelude.{
  ℕ, ◌+◌, ◌≡◌, ◌≢◌, inl, inr, Bool, not, ◌&&◌, Option, none, some, ◌==◌, ==_refl, ==_ne, Bool-cases,
  if◌then◌else◌,
}
use ece318_operating_systems.Scheduler.Machine.{
  Ptr, null, Machine, Vm, ok, load, assign, sched_clock, assign-ok, update, add64, sub64,
}
use ece318_operating_systems.Scheduler.Dispatch.{
  burst_average, charge, finish, retire, clear_reschedule,
}

-- The burst so far, and its prediction, at the reading `r`.
abbrev pub burst_now : Vm → Machine → ℕ
burst_now vm m =
    add64 (m.task.last_burst_time m.current)
      (sub64 (vm.sched_clock m.readings) (m.task.time_started m.current))

abbrev pub charged : Vm → Machine → Machine
charged vm m =
    let idle = m.current == m.rq.head in
    let pick = λ (f g : Ptr → ℕ). if idle then f else g in
    record m {
      task = record m.task {
        last_burst_time =
            pick m.task.last_burst_time (update m.task.last_burst_time m.current (burst_now vm m));
        total_execution_time = pick m.task.total_execution_time (
            update m.task.total_execution_time m.current (
              add64 (m.task.total_execution_time m.current)
                (sub64 (vm.sched_clock (m.readings + 1)) (m.task.time_started m.current))));
        next_burst_pred = pick m.task.next_burst_pred (
            update m.task.next_burst_pred m.current
              (burst_average vm (burst_now vm m) (m.task.next_burst_pred m.current)));
      };
      readings = if idle then m.readings else m.readings + 1 + 1;
    }

abbrev pub temp_burst_pred : Machine → Option ℕ
temp_burst_pred m = if m.current == m.rq.head then none else some (m.task.next_burst_pred m.current)

pub charge-ok :
    (vm : Vm) (m : Machine) → m.current ≢ null → charge vm m ≡ ok (temp_burst_pred m) (charged vm m)
unfolding charge load assign sched_clock
charge-ok vm m cn = elim (Bool-cases (m.current == m.rq.head)) [
  | inl e ↦ rw e
  | inr e ↦ simp (e, ==_ne m.current null cn, ==_refl m.current)
]

abbrev pub has_left : Machine → Bool
has_left m =
    m.task.next m.current == null && m.task.prev m.current == null && not (m.current == m.rq.head)

abbrev pub retired : Vm → Machine → Machine
retired vm m = record m {
  task = record m.task {
    next_burst_pred =
        if has_left m
        then update m.task.next_burst_pred m.current
            (burst_average vm (m.task.last_burst_time m.current) (m.task.next_burst_pred m.current))
        else m.task.next_burst_pred;
    last_burst_time =
        if has_left m then update m.task.last_burst_time m.current 0 else m.task.last_burst_time;
  };
}

pub retire-ok : (vm : Vm) (m : Machine) → m.current ≢ null → retire vm m ≡ ok tt (retired vm m)
unfolding retire finish load assign
retire-ok vm m cn = elim (Bool-cases (has_left m)) [
  | inl e ↦ simp (==_ne m.current null cn, e)
  | inr e ↦ simp (==_ne m.current null cn, e)
]

abbrev pub rested : Machine → Machine
rested m = record m {
  task = record m.task { need_reschedule = update m.task.need_reschedule m.current 0 };
}

pub clear_reschedule-ok : (m : Machine) → m.current ≢ null → clear_reschedule m ≡ ok tt (rested m)
unfolding clear_reschedule
clear_reschedule-ok m cn = rw (assign-ok cn)
