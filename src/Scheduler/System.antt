-- ===== src/Scheduler/System.antt =====
-- The operations of Project 2/schedule.c as the virtual machine calls them: events in any order, over
-- the abstract view of the run queue, a list of the tasks behind init.
pub mod Refinement
use ece318_operating_systems.Prelude.{
  ℕ, suc, ◌+◌, ◌-◌, ◌^◌, ◌≤◌, ◌<◌, ◌≡◌, ◌≢◌, Bool, true, false, List, [], ◌∷◌, has, erase,
  if◌then◌else◌,
}
use ece318_operating_systems.Scheduler.Machine.{
  Ptr, null, TaskStruct, Machine, Vm, Cmd, ok, u64_mod, ullong_max,
}
use ece318_operating_systems.Scheduler.Queue.{wake_up_new_task, activate_task, deactivate_task}
use ece318_operating_systems.Scheduler.Dispatch.{scheduler_tick}
use ece318_operating_systems.Scheduler.Dispatch.Choose.{Search}

-- The calls from outside; each names the task that it is about.
pub data Event : Type 0 where
  wakes_up activates deactivates ticks : Ptr → Event

unfoldable pub handle : Vm → Event → Cmd (Unit {0})
handle vm (wakes_up p) = wake_up_new_task vm p
handle vm (activates p) = activate_task vm p
handle vm (deactivates p) = deactivate_task p
handle vm (ticks p) = scheduler_tick vm p

-- What the event does to the list.
unfoldable pub after : Event → List Ptr → List Ptr
after (wakes_up p) xs = p ∷ xs
after (activates p) xs = p ∷ xs
after (deactivates p) xs = erase xs p
after (ticks p) xs = xs

abbrev pub is_empty : List Ptr → Bool
is_empty [] = true
is_empty (x ∷ xs) = false

-- A task that may be put on the queue: it is not there, it has not run in the future, its prediction
-- is finite, and the counter of running tasks has room.
pub record MayEnter (vm : Vm) (m : Machine) (xs : List Ptr) (p : Ptr) : Type 0 where
  pub ne_null : p ≢ null
  pub out : has p (m.rq.head ∷ xs) ≡ false
  pub timely : m.task.last_run_or_in_queue p ≤ vm.sched_clock m.readings
  pub finite : m.task.next_burst_pred p < ullong_max
  pub room : suc m.rq.nr_running < u64_mod

-- When the virtual machine makes the call.
abbrev pub Allowed : Vm → Machine → List Ptr → Event → Type 0
Allowed vm m xs (wakes_up p) = MayEnter vm m xs p
Allowed vm m xs (activates p) = MayEnter vm m xs p
Allowed vm m xs (deactivates p) = has p xs ≡ true
Allowed vm m xs (ticks p) = Unit

-- Which task runs after the call, in `n`. Only a tick changes that: to init if it is alone, else to
-- the task of the list that the search by goodness finds: the last of those with the least goodness, by
-- predictions and waiting times of the moment. A task that was taken off has no links.
abbrev pub Effect : Vm → Machine → List Ptr → Event → Machine → Type 0
Effect vm m xs (wakes_up p) n = n.current ≡ m.current
Effect vm m xs (activates p) n = n.current ≡ m.current
Effect vm m xs (deactivates p) n =
    (n.current ≡ m.current) × (n.task.next p ≡ null) × (n.task.prev p ≡ null)
Effect vm m xs (ticks p) n = if is_empty xs then n.current ≡ m.rq.head else Search vm m xs n.current

-- The switch makes the task the current one, and touches no task and not the queue.
abbrev pub IsSwitch : Vm → Type 0
IsSwitch vm = (p : Ptr) (m : Machine) → vm.context_switch p m ≡ record m { current = p }

-- Calls made one after the other, with the machine and the list before and after.
pub data Trace (vm : Vm) : Machine → List Ptr → Machine → List Ptr → Type 0 where
  done : {m : Machine} {xs : List Ptr} → Trace vm m xs m xs
  call :
      {m n k : Machine} {xs zs : List Ptr} (e : Event)
      → Allowed vm m xs e
      → handle vm e m ≡ ok tt n
      → Trace vm n (after e xs) k zs
      → Trace vm m xs k zs
