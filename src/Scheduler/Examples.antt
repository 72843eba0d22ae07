-- ===== src/Scheduler/Examples.antt =====
-- The theorems on Project 2/schedule.c at concrete queues, and runs of the code.
use ece318_operating_systems.Prelude.{
  ℕ, ◌≤◌, ◌<◌, ◌≡◌, refl, ◌≢◌, ◌⊎◌, false, List, [], ◌∷◌, arith, has, All,
}
use ece318_operating_systems.Scheduler.Machine.{
  Ptr, null, Machine, Run, Returns, ok, load, assign, sched_clock, ullong_max,
}
use ece318_operating_systems.Scheduler.Queue.Ring.{IsRing}
use ece318_operating_systems.Scheduler.Queue.Operations.{
  Enqueues, SameButQueue, stats, SameElse, activate_task-Enqueues, deactivate_task-IsRing,
  initschedule-IsRing, sched_fork-fresh,
}
use ece318_operating_systems.Scheduler.Dispatch.{
  schedule, schedule_alone, schedule_among, charge, retire, finish, clear_reschedule, hand_over,
  restore, switch,
}
use ece318_operating_systems.Scheduler.Queue.{
  stamp, set_stamp, initschedule, sched_fork, activate_task, wake_up_new_task, deactivate_task,
}
use ece318_operating_systems.Scheduler.Queue.Remove.{dequeued, deactivate_task-ok}
use ece318_operating_systems.Scheduler.Select.{
  update_waiting_in_rq, update_waiting_loop, update_waiting, get_min_goodness, min_goodness_loop,
  get_min_exp_burst, min_exp_burst_loop, get_max_waiting_in_rq, max_waiting_loop, calc_goodness,
  divide,
}
use ece318_operating_systems.Scheduler.Dispatch.Choose.{IsSound, Switches}
use ece318_operating_systems.Scheduler.Dispatch.Outcome.{Schedules, schedule-Schedules}
use ece318_operating_systems.Scheduler.Dispatch.Accounts.{Accounts, schedule-Accounts}
use ece318_operating_systems.Scheduler.System.{
  deactivates, ticks, handle, after, Trace, done, call, Effect,
}
use ece318_operating_systems.Scheduler.System.Refinement.{handle-IsSound, Trace-IsSound}
use ece318_operating_systems.Scheduler.Select.Aging.{calc_goodness_mono}
use ece318_operating_systems.Scheduler.Select.Choice.{
  IsFirstLeast, IsLastGreatest, get_min_exp_burst-IsFirstLeast,
  get_max_waiting_in_rq-IsLastGreatest,
}
use ece318_operating_systems.Scheduler.Select.Goodness.{Chooses, get_min_goodness-IsLastLeast}
use ece318_operating_systems.Scheduler.Select.Waiting.{Waits, update_waiting_in_rq-Waits}
use ece318_operating_systems.Scheduler.Sample.{
  vm, vm-IsMonotone, vm-IsBounded, vm-IsSwitch, machine, machine-IsRing, machine-IsSound,
}

-- One call of `schedule`, with all that it calls open.
scheduled : Run (Unit {0})
unfolding schedule schedule_alone schedule_among charge retire finish clear_reschedule hand_over
    restore switch stamp set_stamp sched_clock load assign update_waiting_in_rq update_waiting_loop
    update_waiting get_min_goodness min_goodness_loop get_min_exp_burst min_exp_burst_loop
    get_max_waiting_in_rq max_waiting_loop calc_goodness divide
scheduled = schedule vm machine

-- Task 2 has run from 30 to 40, after 5 before: 15, and the prediction becomes (2 * 15 + 60) / 3.
-- Task 3 has the least prediction and has waited longest, so it is chosen.
schedule_runs :
    Returns
      (λ _ n.
        (n.current ≡ 3)
        × (n.task.next_burst_pred 2 ≡ 30)
        × (n.task.last_burst_time 2 ≡ 15)
        × (n.task.goodness 3 ≡ 1)
        × (n.task.goodness 2 ≡ 82)
        × (n.task.time_started 3 ≡ 70))
      scheduled
unfolding scheduled
schedule_runs = (refl, refl, refl, refl, refl, refl)

schedule-Schedules_example : Switches vm machine (Schedules vm machine (2 ∷ 3 ∷ []))
schedule-Schedules_example =
    schedule-Schedules vm machine (2 ∷ 3 ∷ []) vm-IsMonotone vm-IsBounded machine-IsSound (cc)

schedule-Accounts_example : Switches vm machine (Accounts vm machine (2 ∷ 3 ∷ []))
schedule-Accounts_example =
    schedule-Accounts vm machine (2 ∷ 3 ∷ []) vm-IsMonotone vm-IsBounded machine-IsSound (cc)

get_min_goodness-IsLastLeast_example :
    Returns (Chooses machine (2 ∷ 3 ∷ [])) (get_min_goodness machine)
get_min_goodness-IsLastLeast_example =
    get_min_goodness-IsLastLeast machine (2 ∷ 3 ∷ []) machine-IsRing (cc) (omega arith)
      (omega arith)

get_min_exp_burst-IsFirstLeast_example :
    Returns
      (λ p m'.
        (m' ≡ machine)
        × (((p ≡ null) × All (λ y. machine.task.next_burst_pred y ≡ ullong_max) (2 ∷ 3 ∷ []))
            ⊎ (IsFirstLeast machine.task.next_burst_pred (2 ∷ 3 ∷ []) p
                × (p ≢ null)
                × (machine.task.next_burst_pred p < ullong_max))))
      (get_min_exp_burst machine)
get_min_exp_burst-IsFirstLeast_example =
    get_min_exp_burst-IsFirstLeast machine (2 ∷ 3 ∷ []) machine-IsRing (omega arith)

get_max_waiting_in_rq-IsLastGreatest_example :
    Returns
      (λ p m'.
        (m' ≡ machine)
        × (((p ≡ null) × (◌≡◌ {A = List Ptr} (2 ∷ 3 ∷ []) []))
            ⊎ (IsLastGreatest machine.task.waiting_in_rq (2 ∷ 3 ∷ []) p × (p ≢ null))))
      (get_max_waiting_in_rq machine)
get_max_waiting_in_rq-IsLastGreatest_example =
    get_max_waiting_in_rq-IsLastGreatest machine (2 ∷ 3 ∷ []) machine-IsRing

update_waiting_in_rq-Waits_example :
    Returns (λ _. Waits vm machine (2 ∷ 3 ∷ [])) (update_waiting_in_rq vm machine)
update_waiting_in_rq-Waits_example =
    update_waiting_in_rq-Waits vm machine (2 ∷ 3 ∷ []) machine-IsRing

activate_task-Enqueues_example :
    Returns (λ _. Enqueues vm 4 (2 ∷ 3 ∷ []) machine) (activate_task vm 4 machine)
    × Returns (λ _. Enqueues vm 4 (2 ∷ 3 ∷ []) machine) (wake_up_new_task vm 4 machine)
activate_task-Enqueues_example =
    activate_task-Enqueues vm 4 machine (2 ∷ 3 ∷ []) vm-IsMonotone machine-IsRing (omega arith) refl
      (omega arith)

deactivate_task-IsRing_example :
    Returns
      (λ _ m'.
        IsRing m' (2 ∷ [])
        × (has 3 (m'.rq.head ∷ 2 ∷ []) ≡ false)
        × (m'.task.next 3 ≡ null)
        × (m'.task.prev 3 ≡ null)
        × SameButQueue 3 machine m'
        × (m'.task.last_run_or_in_queue ≡ machine.task.last_run_or_in_queue)
        × (m'.readings ≡ machine.readings))
      (deactivate_task 3 machine)
deactivate_task-IsRing_example = deactivate_task-IsRing 3 machine (2 ∷ 3 ∷ []) machine-IsRing refl

abbrev unstarted : Machine
unstarted = record machine { rq = record { nr_running = 0; head = null } }

initschedule-IsRing_example :
    Returns (λ _ m'. IsRing m' [] × (m'.rq.head ≡ 1) × (m'.current ≡ 2)) (initschedule 1 unstarted)
initschedule-IsRing_example = initschedule-IsRing 1 unstarted (omega arith) refl

sched_fork-fresh_example :
    Returns
      (λ _ m'.
        IsRing m' (2 ∷ 3 ∷ [])
        × (m'.rq ≡ machine.rq)
        × (m'.current ≡ machine.current)
        × (stats m'.task 4
            ≡ 100 ∷ 0 ∷ 0 ∷ 0 ∷ 0 ∷ 0 ∷ 0 ∷ vm.sched_clock machine.readings ∷ 0 ∷ 0 ∷ [])
        × ((c : Ptr) → c ≢ 4 → stats m'.task c ≡ stats machine.task c)
        × SameElse machine.task m'.task)
      (sched_fork vm 4 machine)
sched_fork-fresh_example = sched_fork-fresh vm 4 machine (2 ∷ 3 ∷ []) (omega arith) machine-IsRing

calc_goodness_mono_example :
    (g g' : ℕ) × ((calc_goodness 30 10 40 40 machine ≡ ok g machine)
      × (calc_goodness 70 10 40 0 machine ≡ ok g' machine)
      × (calc_goodness 10 10 40 40 machine ≡ ok 1 machine)
      × (1 ≤ g)
      × (g ≤ g'))
calc_goodness_mono_example =
    calc_goodness_mono machine 30 70 10 40 40 0 (omega arith) (omega arith) (omega arith)
      (omega arith) (omega arith) (omega arith) (omega arith)

handle-IsSound_example :
    Returns
      (λ _ n.
        IsSound vm n (after (ticks 2) (2 ∷ 3 ∷ []))
        × (n.rq.head ≡ 1)
        × Effect vm machine (2 ∷ 3 ∷ []) (ticks 2) n)
      (handle vm (ticks 2) machine)
handle-IsSound_example =
    handle-IsSound vm vm-IsMonotone vm-IsBounded vm-IsSwitch (ticks 2) machine (2 ∷ 3 ∷ [])
      machine-IsSound tt

-- Task 2 goes to sleep; the next tick can only choose task 3.
abbrev asleep : Machine
asleep = dequeued 2 machine

one_call : Trace vm machine (2 ∷ 3 ∷ []) asleep (after (deactivates 2) (2 ∷ 3 ∷ []))
unfolding handle
one_call =
    call (deactivates 2) refl (deactivate_task-ok 2 machine (2 ∷ 3 ∷ []) machine-IsRing refl) done

Trace-IsSound_example :
    IsSound vm asleep (after (deactivates 2) (2 ∷ 3 ∷ [])) × (asleep.rq.head ≡ machine.rq.head)
Trace-IsSound_example =
    Trace-IsSound vm vm-IsMonotone vm-IsBounded vm-IsSwitch one_call machine-IsSound
