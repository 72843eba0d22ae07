-- ===== src/Scheduler/Select.antt =====
-- The loops of Project 2/schedule.c over the run queue: `updateWaitingInRQ`, `getMinGoodness`,
-- `getMinExpBurst` and `getMaxWaitingInRQ`. Each walks from `rq->head->next` until it has come round
-- to the head or has made `rq->nr_running` rounds, so the rounds left are the recursion's argument.
pub mod Walk
pub mod Choice
pub mod Goodness
pub mod Aging
pub mod Waiting
use ece318_operating_systems.Prelude.{
  ℕ, zero, suc, ◌+◌, ◌*◌, ◌/◌, ◌%◌, ◌^◌, Bool, true, false, ◌==◌, ltb, leb, if◌then◌else◌,
}
use ece318_operating_systems.Scheduler.Machine.{
  Ptr, null, TaskStruct, Machine, Vm, Cmd, pure, fault, ◌>>=◌, ◌>>◌, gets, load, assign, update,
  sched_clock, u64_mod, ullong_max, add64, sub64,
}

unfoldable pub min_exp_burst_loop : ℕ → Ptr → Ptr → ℕ → Cmd Ptr
min_exp_burst_loop zero temp_task curr min_exp_burst = pure curr
min_exp_burst_loop (suc k) temp_task curr min_exp_burst = do
  head ← gets (λ m. m.rq.head)
  if temp_task == head then pure curr else do
    pred ← load temp_task (λ t. t.next_burst_pred)
    after ← load temp_task (λ t. t.next)
    let less = ltb pred min_exp_burst
    min_exp_burst_loop k after (if less then temp_task else curr)
        (if less then pred else min_exp_burst)

unfoldable pub get_min_exp_burst : Cmd Ptr
get_min_exp_burst = do
  head ← gets (λ m. m.rq.head)
  first ← load head (λ t. t.next)
  rounds ← gets (λ m. m.rq.nr_running)
  min_exp_burst_loop rounds first null ullong_max

unfoldable pub max_waiting_loop : ℕ → Ptr → Ptr → ℕ → Cmd Ptr
max_waiting_loop zero temp_task curr max_waiting = pure curr
max_waiting_loop (suc k) temp_task curr max_waiting = do
  head ← gets (λ m. m.rq.head)
  if temp_task == head then pure curr else do
    waiting ← load temp_task (λ t. t.waiting_in_rq)
    after ← load temp_task (λ t. t.next)
    let more = leb max_waiting waiting
    max_waiting_loop k after (if more then temp_task else curr)
        (if more then waiting else max_waiting)

unfoldable pub get_max_waiting_in_rq : Cmd Ptr
get_max_waiting_in_rq = do
  head ← gets (λ m. m.rq.head)
  first ← load head (λ t. t.next)
  rounds ← gets (λ m. m.rq.nr_running)
  max_waiting_loop rounds first null 0

-- Unsigned division; a zero divisor is a fault.
unfoldable pub divide : ℕ → ℕ → Cmd ℕ
divide n d = if d == 0 then (λ _. fault) else pure (n / d)

-- ((1+burst)/(1+minBurst)) * ((1+maxWaiting)/(1+waiting)), each step of it modulo 2^64.
unfoldable pub calc_goodness : (burst min_burst max_waiting waiting : ℕ) → Cmd ℕ
calc_goodness burst min_burst max_waiting waiting = do
  longer ← divide (add64 1 burst) (add64 1 min_burst)
  fresher ← divide (add64 1 max_waiting) (add64 1 waiting)
  pure (longer * fresher % u64_mod)

unfoldable pub min_goodness_loop : ℕ → Ptr → Ptr → ℕ → Cmd Ptr
min_goodness_loop zero temp_task curr min_goodness = pure curr
min_goodness_loop (suc k) temp_task curr min_goodness = do
  head ← gets (λ m. m.rq.head)
  if temp_task == head then pure curr else do
    min_burst_task ← get_min_exp_burst
    max_waiting_task ← get_max_waiting_in_rq
    burst ← load temp_task (λ t. t.next_burst_pred)
    min_burst ← load min_burst_task (λ t. t.next_burst_pred)
    max_waiting ← load max_waiting_task (λ t. t.waiting_in_rq)
    waiting ← load temp_task (λ t. t.waiting_in_rq)
    temp_goodness ← calc_goodness burst min_burst max_waiting waiting
    assign temp_task (λ t. record t { goodness = update t.goodness temp_task temp_goodness })
    after ← load temp_task (λ t. t.next)
    let no_worse = leb temp_goodness min_goodness
    min_goodness_loop k after (if no_worse then temp_task else curr)
        (if no_worse then temp_goodness else min_goodness)

unfoldable pub get_min_goodness : Cmd Ptr
get_min_goodness = do
  head ← gets (λ m. m.rq.head)
  first ← load head (λ t. t.next)
  rounds ← gets (λ m. m.rq.nr_running)
  min_goodness_loop rounds first null ullong_max

-- The body of the loop of `updateWaitingInRQ`.
unfoldable pub update_waiting : Vm → Ptr → Cmd (Unit {0})
update_waiting vm temp_task = do
  current ← gets (λ m. m.current)
  if temp_task == current
      then assign temp_task (λ t. record t { waiting_in_rq = update t.waiting_in_rq temp_task 0 })
      else do
        now ← sched_clock vm
        last ← load temp_task (λ t. t.last_run_or_in_queue)
        assign temp_task
            (λ t. record t { waiting_in_rq = update t.waiting_in_rq temp_task (sub64 now last) })

unfoldable pub update_waiting_loop : Vm → ℕ → Ptr → Cmd (Unit {0})
update_waiting_loop vm zero temp_task = pure tt
update_waiting_loop vm (suc k) temp_task = do
  head ← gets (λ m. m.rq.head)
  if temp_task == head then pure tt else do
    update_waiting vm temp_task
    after ← load temp_task (λ t. t.next)
    update_waiting_loop vm k after

unfoldable pub update_waiting_in_rq : Vm → Cmd (Unit {0})
update_waiting_in_rq vm = do
  head ← gets (λ m. m.rq.head)
  first ← load head (λ t. t.next)
  rounds ← gets (λ m. m.rq.nr_running)
  update_waiting_loop vm rounds first
