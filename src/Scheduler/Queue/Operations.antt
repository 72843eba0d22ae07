-- ===== src/Scheduler/Queue/Operations.antt =====
-- The operations of Project 2/schedule.c on the run queue keep its shape: what each does to the list
-- of waiting tasks.
use ece318_operating_systems.Prelude.{
  ℕ, suc, ◌+◌, ◌<◌, ◌≤◌, ◌≡◌, refl, ◌≢◌, false, true, List, [], ◌∷◌, arith, has, erase, ==_refl,
  ==_ne, not-mem-erase,
}
use ece318_operating_systems.Scheduler.Machine.{
  Ptr, null, TaskStruct, Machine, Vm, Returns, sched_clock, u64_mod, assign, not_null,
}
use ece318_operating_systems.Scheduler.Queue.{
  initschedule, sched_fork, wake_up_new_task, activate_task, deactivate_task,
}
use ece318_operating_systems.Scheduler.Queue.Ring.{IsRing, IsRing-same}
use ece318_operating_systems.Scheduler.Queue.Insert.{
  activate_task-ok, wake_up_new_task-ok, enqueued, enqueued-IsRing,
}
use ece318_operating_systems.Scheduler.Queue.Remove.{
  deactivate_task-ok, dequeued-IsRing, on-ne-head,
}

-- `m'` holds what `m` does, in every field of every task, but for links and the time of the last run of
-- `p`, the counter and the readings of the clock.
abbrev pub SameButQueue : Ptr → Machine → Machine → Type 0
SameButQueue p m m' =
    (m'.rq.head ≡ m.rq.head)
    × (m'.current ≡ m.current)
    × (m'.task ≡ record m.task {
      prev = m'.task.prev;
      next = m'.task.next;
      last_run_or_in_queue = m'.task.last_run_or_in_queue;
    })
    × ((c : Ptr) → c ≢ p → m'.task.last_run_or_in_queue c ≡ m.task.last_run_or_in_queue c)

-- The readings of the clock never go down.
abbrev pub IsMonotone : Vm → Type 0
IsMonotone vm = (i j : ℕ) → i ≤ j → vm.sched_clock i ≤ vm.sched_clock j

-- `p` became the first of the tasks behind the head, and its stamp is at least its old one and the
-- time of the call.
abbrev pub Enqueues : Vm → Ptr → List Ptr → Machine → Machine → Type 0
Enqueues vm p xs m m' =
    IsRing m' (p ∷ xs)
    × SameButQueue p m m'
    × (m.task.last_run_or_in_queue p ≤ m'.task.last_run_or_in_queue p)
    × (vm.sched_clock m.readings ≤ m'.task.last_run_or_in_queue p)

module _ (vm : Vm) (p : Ptr) (m : Machine) (xs : List Ptr) (mono : IsMonotone vm)
    (ring : IsRing m xs) (pn : p ≢ null) (out : has p (m.rq.head ∷ xs) ≡ false)
    (room : suc m.rq.nr_running < u64_mod) where
  enqueued-Enqueues : Enqueues vm p xs m (enqueued vm p m)
  enqueued-Enqueues = (
    enqueued-IsRing vm p m xs ring pn out room,
    (refl, refl, refl, λ c ne. ground arith),
    ground (arith, mono m.readings (m.readings + 1) (omega arith)),
    ground (arith, mono m.readings (m.readings + 1) (omega arith)),
  )

  -- On a clock that never goes back, `activate_task` and `wake_up_new_task` of a task that is not on
  -- the queue, with room in the counter, make no fault and put it right behind the head. Its stamp is
  -- at least the old one and the time of the call. The head, the current task, the stamps of the others
  -- and every other field of every task but the links stay.
  pub activate_task-Enqueues :
      Returns (λ _. Enqueues vm p xs m) (activate_task vm p m)
      × Returns (λ _. Enqueues vm p xs m) (wake_up_new_task vm p m)
  activate_task-Enqueues = (
    rw (activate_task-ok vm p m xs ring pn out) enqueued-Enqueues,
    rw (wake_up_new_task-ok vm p m xs ring pn out) enqueued-Enqueues,
  )

-- `deactivate_task` of a task on the queue makes no fault. It takes the task out, the others keep
-- their order, and its own links become NULL. Apart from links and counter nothing is changed: not the head,
-- the current task, a reading of the clock, or any other field of any task.
pub deactivate_task-IsRing :
    (p : Ptr) (m : Machine) (xs : List Ptr)
    → IsRing m xs
    → has p xs ≡ true
    → Returns
        (λ _ m'.
          IsRing m' (erase xs p)
          × (has p (m'.rq.head ∷ erase xs p) ≡ false)
          × (m'.task.next p ≡ null)
          × (m'.task.prev p ≡ null)
          × SameButQueue p m m'
          × (m'.task.last_run_or_in_queue ≡ m.task.last_run_or_in_queue)
          × (m'.readings ≡ m.readings))
        (deactivate_task p m)
deactivate_task-IsRing p m xs ring on = rw (deactivate_task-ok p m xs ring on) (
  dequeued-IsRing p m xs ring on,
  ground (arith, not-mem-erase p xs ring.distinct, on-ne-head p m xs ring on),
  ground arith,
  ground arith,
  (refl, refl, refl, λ c ne. refl),
  refl,
  refl,
)

-- `initschedule` on a counter of 0 makes the seed task the head of a queue with no other task.
pub initschedule-IsRing :
    (seed : Ptr) (m : Machine)
    → seed ≢ null
    → m.rq.nr_running ≡ 0
    → Returns
        (λ _ m'. IsRing m' [] × (m'.rq.head ≡ seed) × (m'.current ≡ m.current))
        (initschedule seed m)
unfolding initschedule assign
initschedule-IsRing seed m sn none_yet = simp (not_null sn) (
  record {
    links = ground arith;
    head_ne_null = sn;
    no_null = refl;
    no_head = refl;
    distinct = tt;
    counted = omega arith;
    in_range = omega arith;
  },
  refl,
  refl,
)

-- What `sched_fork` sets of a task.
abbrev pub stats : TaskStruct → Ptr → List ℕ
stats t c =
    t.time_slice c
    ∷ t.last_burst_time c
    ∷ t.last_run_or_in_queue c
    ∷ t.next_burst_pred c
    ∷ t.time_started c
    ∷ t.goodness c
    ∷ t.waiting_in_rq c
    ∷ t.total_processing_time c
    ∷ t.total_execution_time c
    ∷ t.total_waiting_time c
    ∷ []

-- The fields that it leaves alone for every task.
abbrev pub SameElse : TaskStruct → TaskStruct → Type 0
SameElse t t' =
    (t'.thread_info ≡ t.thread_info)
    × (t'.sleep_type ≡ t.sleep_type)
    × (t'.need_reschedule ≡ t.need_reschedule)
    × (t'.prev ≡ t.prev)
    × (t'.next ≡ t.next)

-- `sched_fork` gives a task a slice of 100, no history and the time of its birth, on the queue or off it.
-- It changes no field of another task, no link, neither the queue nor the current task.
pub sched_fork-fresh :
    (vm : Vm) (p : Ptr) (m : Machine) (xs : List Ptr)
    → p ≢ null
    → IsRing m xs
    → Returns
        (λ _ m'.
          IsRing m' xs
          × (m'.rq ≡ m.rq)
          × (m'.current ≡ m.current)
          × (stats m'.task p ≡ 100 ∷ 0 ∷ 0 ∷ 0 ∷ 0 ∷ 0 ∷ 0 ∷ vm.sched_clock m.readings ∷ 0 ∷ 0 ∷ [])
          × ((c : Ptr) → c ≢ p → stats m'.task c ≡ stats m.task c)
          × SameElse m.task m'.task)
        (sched_fork vm p m)
unfolding sched_fork assign sched_clock
sched_fork-fresh vm p m xs pn ring = simp (not_null pn) (
  IsRing-same m _ xs ring refl refl refl,
  refl,
  refl,
  simp (==_refl p),
  λ c ne. simp (==_ne c p ne),
  (refl, refl, refl, refl, refl),
)
