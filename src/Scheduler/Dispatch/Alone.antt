-- ===== src/Scheduler/Dispatch/Alone.antt =====
-- `schedule` and `scheduler_tick` of Project 2/schedule.c on a queue that holds init alone.
use ece318_operating_systems.Prelude.{◌≡◌, [], arith, ◌==◌, ◌≢◌, true}
use ece318_operating_systems.Scheduler.Machine.{Ptr, null, Machine, Vm, ok, update}
use ece318_operating_systems.Scheduler.Queue.Ring.{IsRing}
use ece318_operating_systems.Scheduler.Dispatch.{schedule, schedule_alone, switch, scheduler_tick}
use ece318_operating_systems.Scheduler.Dispatch.Account.{clear_reschedule-ok}

-- Where init is the only task, a tick switches to it, reads no clock and changes nothing but the
-- current task's request to reschedule, whichever task was running and whatever the tick is told.
pub scheduler_tick-alone :
    (vm : Vm) (told : Ptr) (m : Machine)
    → IsRing m []
    → m.current ≢ null
    → scheduler_tick vm told m
      ≡ ok tt (
          vm.context_switch m.rq.head (record m {
            task = record m.task { need_reschedule = update m.task.need_reschedule m.current 0 };
          }))
unfolding scheduler_tick schedule schedule_alone switch
scheduler_tick-alone vm told m ring cn =
    let one : (m.rq.nr_running == 1) ≡ true = ground (arith, ring.counted) in
    rw (one, clear_reschedule-ok m cn)
