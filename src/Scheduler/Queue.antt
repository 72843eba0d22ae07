-- ===== src/Scheduler/Queue.antt =====
-- The run queue of Project 2/schedule.c: a circular, doubly linked list behind `rq->head`, the init
-- task. `initschedule`, `sched_fork`, `wake_up_new_task`, `activate_task` and `deactivate_task`, line
-- by line.
pub mod Ring
pub mod Insert
pub mod Remove
pub mod Operations
use ece318_operating_systems.Prelude.{ℕ, ◌+◌, ◌-◌, ◌%◌, ◌^◌, Bool, true, false, ltb, if◌then◌else◌}
use ece318_operating_systems.Scheduler.Machine.{
  Ptr, null, TaskStruct, Runqueue, Machine, Vm, Cmd, pure, ◌>>=◌, ◌>>◌, gets, load, assign, update,
  sched_clock, ok, u64_mod,
}

-- `rq->nr_running++` and `rq->nr_running--`, an unsigned long.
abbrev pub incremented : ℕ → ℕ
incremented n = (n + 1) % u64_mod

abbrev pub decremented : ℕ → ℕ
decremented n = (n + u64_mod - 1) % u64_mod

abbrev pub set_rq : (Runqueue → Runqueue) → Cmd (Unit {0})
set_rq f m = ok tt (record m { rq = f m.rq })

-- There is one run queue: `newrq` is the one that `rq` points to.
unfoldable pub initschedule : Ptr → Cmd (Unit {0})
initschedule seed_task = do
  assign seed_task (λ t. record t { prev = update t.prev seed_task seed_task })
  assign seed_task (λ t. record t { next = update t.next seed_task seed_task })
  set_rq (λ q. record q { head = seed_task })
  set_rq (λ q. record q { nr_running = incremented q.nr_running })

unfoldable pub sched_fork : Vm → Ptr → Cmd (Unit {0})
sched_fork vm p = do
  assign p (λ t. record t { time_slice = update t.time_slice p 100 })
  assign p (λ t. record t { last_burst_time = update t.last_burst_time p 0 })
  assign p (λ t. record t { last_run_or_in_queue = update t.last_run_or_in_queue p 0 })
  assign p (λ t. record t { next_burst_pred = update t.next_burst_pred p 0 })
  assign p (λ t. record t { time_started = update t.time_started p 0 })
  assign p (λ t. record t { goodness = update t.goodness p 0 })
  assign p (λ t. record t { waiting_in_rq = update t.waiting_in_rq p 0 })
  now ← sched_clock vm
  assign p (λ t. record t { total_processing_time = update t.total_processing_time p now })
  assign p (λ t. record t { total_execution_time = update t.total_execution_time p 0 })
  assign p (λ t. record t { total_waiting_time = update t.total_waiting_time p 0 })

-- The four assignments that link `p` in behind the head.
unfoldable pub link_behind_head : Ptr → Cmd (Unit {0})
link_behind_head p = do
  head ← gets (λ m. m.rq.head)
  first ← load head (λ t. t.next)
  assign p (λ t. record t { next = update t.next p first })
  assign p (λ t. record t { prev = update t.prev p head })
  after ← load p (λ t. t.next)
  assign after (λ t. record t { prev = update t.prev after p })
  before ← load p (λ t. t.prev)
  assign before (λ t. record t { next = update t.next before p })

unfoldable pub set_stamp : Vm → Ptr → Cmd (Unit {0})
set_stamp vm p = do
  later ← sched_clock vm
  assign p (λ t. record t { last_run_or_in_queue = update t.last_run_or_in_queue p later })

-- `if (sched_clock() > p->lastRunOrInQueue) p->lastRunOrInQueue = sched_clock();`
unfoldable pub stamp : Vm → Ptr → Cmd (Unit {0})
stamp vm p = do
  now ← sched_clock vm
  last ← load p (λ t. t.last_run_or_in_queue)
  if ltb last now then set_stamp vm p else pure tt

unfoldable pub wake_up_new_task : Vm → Ptr → Cmd (Unit {0})
wake_up_new_task vm p = do
  link_behind_head p
  stamp vm p
  set_rq (λ q. record q { nr_running = incremented q.nr_running })

unfoldable pub activate_task : Vm → Ptr → Cmd (Unit {0})
activate_task vm p = do
  link_behind_head p
  stamp vm p
  set_rq (λ q. record q { nr_running = incremented q.nr_running })

-- The assignments that take `p` out of the list.
unfoldable pub unlink : Ptr → Cmd (Unit {0})
unlink p = do
  before ← load p (λ t. t.prev)
  after ← load p (λ t. t.next)
  assign before (λ t. record t { next = update t.next before after })
  after ← load p (λ t. t.next)
  before ← load p (λ t. t.prev)
  assign after (λ t. record t { prev = update t.prev after before })
  assign p (λ t. record t { prev = update t.prev p null })
  assign p (λ t. record t { next = update t.next p null })

unfoldable pub deactivate_task : Ptr → Cmd (Unit {0})
deactivate_task p = do unlink p; set_rq (λ q. record q { nr_running = decremented q.nr_running })
