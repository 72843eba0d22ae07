-- ===== src/Scheduler/Dispatch.antt =====
-- `schedule` and `scheduler_tick` of Project 2/schedule.c. The selection by goodness is modelled, as
-- the source has it; the selection by the least prediction alone stands there in a comment.
pub mod Account
pub mod Alone
pub mod Accounts
pub mod Outcome
pub mod Choose
pub mod Finite
use ece318_operating_systems.Prelude.{
  ℕ, ◌+◌, ◌*◌, ◌/◌, ◌%◌, ◌^◌, Bool, true, false, not, ◌&&◌, Option, none, some, ◌==◌, ltb,
  if◌then◌else◌,
}
use ece318_operating_systems.Scheduler.Machine.{
  Ptr, null, TaskStruct, Machine, Vm, Cmd, ok, fault, pure, ◌>>=◌, ◌>>◌, gets, load, assign, update,
  sched_clock, add64, sub64,
}
use ece318_operating_systems.Scheduler.Queue.{stamp}
use ece318_operating_systems.Scheduler.Select.{get_min_goodness, update_waiting_in_rq}

-- `(lastBurstTime + 0.5*nextBurstPred) / (1+0.5)` with doubles, cut to a whole number. Below 2^53 the sum
-- 2 L + P needs no more than the 53 bits of a double, and the quotient is less than 2^52, where a
-- rounded number is not further from it than 1/4: it is cut to that of the exact (2 L + P) / 3. Above,
-- what doubles make of it is a parameter.
abbrev pub burst_average : Vm → (last_burst pred : ℕ) → ℕ
burst_average vm last_burst pred =
    if ltb (2 * last_burst + pred) (2 ^ 53)
    then (2 * last_burst + pred) / 3
    else vm.rounded_average last_burst pred

unfoldable pub switch : Vm → Ptr → Cmd (Unit {0})
switch vm p m = ok tt (vm.context_switch p m)

-- `current->need_reschedule = 0;`
unfoldable pub clear_reschedule : Cmd (Unit {0})
clear_reschedule = do
  current ← gets (λ m. m.current)
  assign current (λ t. record t { need_reschedule = update t.need_reschedule current 0 })

-- The branch for a queue that holds init alone.
unfoldable pub schedule_alone : Vm → Cmd (Unit {0})
schedule_alone vm = do clear_reschedule; curr ← gets (λ m. m.rq.head); switch vm curr

-- The accounts of the current task. The result is `tempBurstPred`, which stays without a value
-- where the current task is the head.
unfoldable pub charge : Vm → Cmd (Option ℕ)
charge vm = do
  current ← gets (λ m. m.current)
  head ← gets (λ m. m.rq.head)
  if current == head then pure none else do
    now ← sched_clock vm
    started ← load current (λ t. t.time_started)
    burst ← load current (λ t. t.last_burst_time)
    assign current (λ t. record t {
      last_burst_time = update t.last_burst_time current (add64 burst (sub64 now started));
    })
    later ← sched_clock vm
    started ← load current (λ t. t.time_started)
    total ← load current (λ t. t.total_execution_time)
    assign current (λ t. record t {
      total_execution_time =
          update t.total_execution_time current (add64 total (sub64 later started));
    })
    temp_burst_pred ← load current (λ t. t.next_burst_pred)
    burst ← load current (λ t. t.last_burst_time)
    assign current (λ t. record t {
      next_burst_pred = update t.next_burst_pred current (burst_average vm burst temp_burst_pred);
    })
    pure (some temp_burst_pred)

-- The final prediction of a task that has left the queue; its burst starts anew.
unfoldable pub finish : Vm → Ptr → Cmd (Unit {0})
finish vm current = do
  pred ← load current (λ t. t.next_burst_pred)
  burst ← load current (λ t. t.last_burst_time)
  assign current (λ t. record t {
    next_burst_pred = update t.next_burst_pred current (burst_average vm burst pred);
  })
  assign current (λ t. record t { last_burst_time = update t.last_burst_time current 0 })

-- Whether the current task has left the queue is read off its links.
unfoldable pub retire : Vm → Cmd (Unit {0})
retire vm = do
  current ← gets (λ m. m.current)
  head ← gets (λ m. m.rq.head)
  next ← load current (λ t. t.next)
  prev ← load current (λ t. t.prev)
  if next == null && prev == null && not (current == head) then finish vm current else pure tt

-- `current->nextBurstPred = tempBurstPred;`, a fault if that variable was never given a value.
unfoldable pub restore : Ptr → Option ℕ → Cmd (Unit {0})
restore current none = λ _. fault
restore current (some pred) =
    assign current (λ t. record t { next_burst_pred = update t.next_burst_pred current pred })

-- After the choice: the chosen task's start, and what the current one keeps.
unfoldable pub hand_over : Vm → Option ℕ → Ptr → Cmd (Unit {0})
hand_over vm temp_burst_pred curr = do
  now ← sched_clock vm
  assign curr (λ t. record t { time_started = update t.time_started curr now })
  current ← gets (λ m. m.current)
  nr_running ← gets (λ m. m.rq.nr_running)
  if not (curr == current)
      then stamp vm current
      else (if not (nr_running == 1) then restore current temp_burst_pred else pure tt)
  switch vm curr

unfoldable pub schedule_among : Vm → Cmd (Unit {0})
schedule_among vm = do
  temp_burst_pred ← charge vm
  retire vm
  clear_reschedule
  update_waiting_in_rq vm
  curr ← get_min_goodness
  hand_over vm temp_burst_pred curr

unfoldable pub schedule : Vm → Cmd (Unit {0})
schedule vm = do
  nr_running ← gets (λ m. m.rq.nr_running)
  if nr_running == 1 then schedule_alone vm else schedule_among vm

unfoldable pub scheduler_tick : Vm → Ptr → Cmd (Unit {0})
scheduler_tick vm p = schedule vm
