-- ===== src/Scheduler/System/Refinement.antt =====
-- The run queue of Project 2/schedule.c refines a list of tasks, whatever the order of the calls.
use ece318_operating_systems.Prelude.{
  ◌≤◌, ◌≡◌, refl, ◌≢◌, true, List, [], ◌∷◌, has, has-ne, erase, All, All-map, arith, subst, ◌∙◌,
}
use ece318_operating_systems.Scheduler.Machine.{Ptr, null, Machine, Vm, Returns}
use ece318_operating_systems.Scheduler.Queue.Ring.{IsRing-same}
use ece318_operating_systems.Scheduler.Queue.Insert.{
  linked, enqueued, activate_task-ok, wake_up_new_task-ok, enqueued-IsRing,
}
use ece318_operating_systems.Scheduler.Queue.Remove.{dequeued, deactivate_task-ok, dequeued-IsRing}
use ece318_operating_systems.Scheduler.Queue.Operations.{IsMonotone}
use ece318_operating_systems.Scheduler.Dispatch.{scheduler_tick}
use ece318_operating_systems.Scheduler.Dispatch.Finite.{IsBounded}
use ece318_operating_systems.Scheduler.Dispatch.Choose.{IsSound, Search}
use ece318_operating_systems.Scheduler.Dispatch.Outcome.{schedule-Schedules, stamped_timely}
use ece318_operating_systems.Scheduler.Dispatch.Alone.{scheduler_tick-alone}
use ece318_operating_systems.Scheduler.System.{
  Event, wakes_up, activates, deactivates, ticks, handle, after, MayEnter, Allowed, Effect,
  IsSwitch, Trace, done, call,
}

All-erase : (P : Ptr → Type 0) (p : Ptr) (xs : List Ptr) → All P xs → All P (erase xs p)
All-erase P p [] a = tt
All-erase P p (x ∷ xs) a = ground (arith, All-erase P p xs a.1)

module _ (vm : Vm) (mono : IsMonotone vm) (bounded : IsBounded vm) (switch : IsSwitch vm) where
  enqueued-IsSound :
      (p : Ptr) (m : Machine) (xs : List Ptr)
      → IsSound vm m xs
      → MayEnter vm m xs p
      → IsSound vm (enqueued vm p m) (p ∷ xs)
  enqueued-IsSound p m xs sound may =
      let timely = λ (y : Ptr) (h : m.task.last_run_or_in_queue y ≤ vm.sched_clock m.readings).
        stamped_timely vm mono p (record m { task = linked m.task m.rq.head p }) y h in
      record {
        ring = enqueued-IsRing vm p m xs sound.ring may.ne_null may.out may.room;
        current_ne_null = sound.current_ne_null;
        timely = (timely p may.timely, All-map xs timely sound.timely);
        finite = (may.finite, sound.finite);
      }

  dequeued-IsSound :
      (p : Ptr) (m : Machine) (xs : List Ptr)
      → IsSound vm m xs
      → has p xs ≡ true
      → IsSound vm (dequeued p m) (erase xs p)
  dequeued-IsSound p m xs sound on = record {
    ring = dequeued-IsRing p m xs sound.ring on;
    current_ne_null = sound.current_ne_null;
    timely = All-erase _ p xs sound.timely;
    finite = All-erase _ p xs sound.finite;
  }

  tick_alone-IsSound :
      (p : Ptr) (m : Machine)
      → IsSound vm m []
      → Returns
          (λ _ n. IsSound vm n [] × (n.rq.head ≡ m.rq.head) × (n.current ≡ m.rq.head))
          (scheduler_tick vm p m)
  tick_alone-IsSound p m sound =
      rw (scheduler_tick-alone vm p m sound.ring sound.current_ne_null, switch _ _)
        (
          record {
            ring = IsRing-same m _ [] sound.ring refl refl refl;
            current_ne_null = sound.ring.head_ne_null;
            timely = tt;
            finite = tt;
          },
          refl,
          refl,
        )

  tick-IsSound :
      (p : Ptr) (m : Machine) (xs : List Ptr)
      → IsSound vm m xs
      → xs ≢ []
      → Returns
          (λ _ n. IsSound vm n xs × (n.rq.head ≡ m.rq.head) × Search vm m xs n.current)
          (scheduler_tick vm p m)
  unfolding scheduler_tick
  tick-IsSound p m xs sound some_task =
      let (q, n, ran, s) = schedule-Schedules vm m xs mono bounded sound some_task in
      rw (ran, switch q n)
        (
          record {
            ring = IsRing-same n _ xs s.sound.ring refl refl refl;
            current_ne_null = has-ne q null xs s.on sound.ring.no_null;
            timely = s.sound.timely;
            finite = s.sound.finite;
          },
          s.same_head,
          s.search,
        )

  -- On a monotone clock below ULLONG_MAX, with double arithmetic that is cut to numbers below ULLONG_MAX and a
  -- context switch that only switches: in a sound state every call that the virtual machine may make runs
  -- without a fault, and leaves a sound state, where the queue holds init and then what the list says. A
  -- tick makes init current when the list is empty, and otherwise the last of the tasks with the least
  -- goodness, by the predictions and the waiting times of the moment; the other calls keep the current task, and
  -- `deactivate_task` leaves its task without links.
  pub handle-IsSound :
      (e : Event) (m : Machine) (xs : List Ptr)
      → IsSound vm m xs
      → Allowed vm m xs e
      → Returns
          (λ _ n. IsSound vm n (after e xs) × (n.rq.head ≡ m.rq.head) × Effect vm m xs e n)
          (handle vm e m)
  unfolding handle after
  handle-IsSound (wakes_up p) m xs sound may =
      rw (wake_up_new_task-ok vm p m xs sound.ring may.ne_null may.out)
        (enqueued-IsSound p m xs sound may, refl, refl)
  handle-IsSound (activates p) m xs sound may =
      rw (activate_task-ok vm p m xs sound.ring may.ne_null may.out)
        (enqueued-IsSound p m xs sound may, refl, refl)
  handle-IsSound (deactivates p) m xs sound on =
      rw (deactivate_task-ok p m xs sound.ring on)
        (dequeued-IsSound p m xs sound on, refl, (refl, ground arith, ground arith))
  handle-IsSound (ticks p) m [] sound may = tick_alone-IsSound p m sound
  handle-IsSound (ticks p) m (x ∷ xs) sound may = tick-IsSound p m (x ∷ xs) sound (cc)

  -- Under the same assumptions, after any sequence of such calls the queue is the list that the calls make of it, the head is
  -- still init, and the state is one in which the next call runs.
  pub Trace-IsSound :
      {m n : Machine} {xs ys : List Ptr}
      → Trace vm m xs n ys
      → IsSound vm m xs
      → IsSound vm n ys × (n.rq.head ≡ m.rq.head)
  Trace-IsSound done sound = (sound, refl)
  Trace-IsSound (call {m} {n = mid} {xs} e may ran rest) sound =
      let step =
        subst
          (Returns
            (λ _ n. IsSound vm n (after e xs) × (n.rq.head ≡ m.rq.head) × Effect vm m xs e n))
          ran (handle-IsSound e m xs sound may) in
      let (last, same) = Trace-IsSound rest step.0 in (last, same ∙ step.1)
