-- ===== src/Scheduler/Sample.antt =====
-- A small machine of Project 2/schedule.c: the head is task 1, and the tasks 2 and 3 are queued.
use Prim.Native.Nat.{min}
use ece318_operating_systems.Prelude.{◌^◌, ℕ, ◌*◌, ◌/◌, ◌+◌, ◌-◌, refl, [], ◌∷◌, arith}
use ece318_operating_systems.Scheduler.Machine.{Ptr, sleep_normal, TaskStruct, Machine, Vm, update}
use ece318_operating_systems.Scheduler.Queue.Ring.{IsRing}
use ece318_operating_systems.Scheduler.Queue.Operations.{IsMonotone}
use ece318_operating_systems.Scheduler.Dispatch.Finite.{IsBounded}
use ece318_operating_systems.Scheduler.Dispatch.Choose.{IsSound}
use ece318_operating_systems.Scheduler.System.{IsSwitch}

-- A clock that advances by 10 at each reading, up to 10000, and a switch that only switches.
abbrev pub vm : Vm
vm = record {
  sched_clock = λ i. min (10 * i) 10000;
  context_switch = λ p m. record m { current = p };
  rounded_average = λ last_burst pred. min ((2 * last_burst + pred) / 3) (2 ^ 64 - 2048);
}

pub vm-IsMonotone : IsMonotone vm
vm-IsMonotone i j h = omega arith

pub vm-IsBounded : IsBounded vm
vm-IsBounded = record { clock = λ i. omega arith; average = λ last_burst pred p q. omega arith }

pub vm-IsSwitch : IsSwitch vm
vm-IsSwitch p m = refl

-- Init at 1, then the tasks 2 (which runs) and 3; 4 is off the queue.
abbrev pub zeros : Ptr → ℕ
zeros c = 0

abbrev pub tasks : TaskStruct
tasks = record {
  thread_info = zeros;
  time_slice = zeros;
  sleep_type = λ c. sleep_normal;
  need_reschedule = update zeros 2 1;
  prev = update (update (update zeros 1 3) 2 1) 3 2;
  next = update (update (update zeros 1 2) 2 3) 3 1;
  last_burst_time = update zeros 2 5;
  next_burst_pred = update (update zeros 2 60) 3 10;
  last_run_or_in_queue = update zeros 3 20;
  waiting_in_rq = zeros;
  time_started = update zeros 2 30;
  goodness = zeros;
  total_processing_time = zeros;
  total_waiting_time = zeros;
  total_execution_time = zeros;
}

abbrev pub machine : Machine
machine = record {
  task = tasks;
  rq = record { nr_running = 3; head = 1 };
  current = 2;
  readings = 4;
}

pub machine-IsRing : IsRing machine (2 ∷ 3 ∷ [])
machine-IsRing = record {
  links = omega arith;
  head_ne_null = omega arith;
  no_null = refl;
  no_head = refl;
  distinct = (refl, (refl, tt));
  counted = refl;
  in_range = omega arith;
}

pub machine-IsSound : IsSound vm machine (2 ∷ 3 ∷ [])
machine-IsSound = record {
  ring = machine-IsRing;
  current_ne_null = omega arith;
  timely = omega arith;
  finite = omega arith;
}
