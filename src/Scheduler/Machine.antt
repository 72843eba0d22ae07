-- ===== src/Scheduler/Machine.antt =====
-- The state that Project 2/schedule.c works on, and commands over it. The structures are those of
-- Project 2/schedule.h. A task lives at an address; NULL is address 0 and a read or write through it
-- is a fault. The scheduler neither allocates nor frees a task, so every other address that it holds
-- is taken to be that of a live task. The memory is split by field: each field of a task_struct is
-- a map from addresses, so that an assignment to one field plainly leaves the others alone.
use ece318_operating_systems.Prelude.{
  ℕ, ◌+◌, ◌-◌, ◌%◌, ◌^◌, ◌≡◌, refl, ◌≢◌, false, arith, ◌==◌, if◌then◌else◌,
}

abbrev pub Ptr : Type 0
Ptr = ℕ

abbrev pub null : Ptr
null = 0

-- ULLONG_MAX + 1; the fields of type unsigned long long are numbers below it.
abbrev pub u64_mod : ℕ
u64_mod = 2 ^ 64

abbrev pub ullong_max : ℕ
ullong_max = 2 ^ 64 - 1

abbrev pub add64 : ℕ → ℕ → ℕ
add64 a b = (a + b) % u64_mod

-- The unsigned difference: it wraps round when `b` is the larger.
abbrev pub sub64 : ℕ → ℕ → ℕ
sub64 a b = (a + u64_mod - b) % u64_mod

pub data SleepType : Type 0 where
  sleep_normal sleep_noninteractive sleep_interactive sleep_interrupted : SleepType

-- All task_structs: each field at every address.
pub record TaskStruct : Type 0 where
  pub thread_info : Ptr → Ptr
  pub time_slice : Ptr → ℕ
  pub sleep_type : Ptr → SleepType
  pub need_reschedule : Ptr → ℕ
  pub prev : Ptr → Ptr
  pub next : Ptr → Ptr
  pub last_burst_time : Ptr → ℕ
  pub next_burst_pred : Ptr → ℕ
  pub last_run_or_in_queue : Ptr → ℕ
  pub waiting_in_rq : Ptr → ℕ
  pub time_started : Ptr → ℕ
  pub goodness : Ptr → ℕ
  pub total_processing_time : Ptr → ℕ
  pub total_waiting_time : Ptr → ℕ
  pub total_execution_time : Ptr → ℕ

pub record Runqueue : Type 0 where
  pub nr_running : ℕ
  pub head : Ptr

-- The globals `rq` (through the pointer) and `current`, the tasks, and how many times the clock has
-- been read.
pub record Machine : Type 0 where
  pub task : TaskStruct
  pub rq : Runqueue
  pub current : Ptr
  pub readings : ℕ

-- What the virtual machine around the scheduler provides (declared in schedule.h, not in the
-- repository): the n-th reading of the clock, and the switch to a task, which may do anything. The
-- last field is what the double arithmetic of the processor makes of an average of bursts whose numbers are too
-- large for it to be exact.
pub record Vm : Type 0 where
  pub sched_clock : ℕ → ℕ
  pub context_switch : Ptr → Machine → Machine
  pub rounded_average : (last_burst pred : ℕ) → ℕ

pub data Run (A : Type 0) : Type 0 where
  ok : A → Machine → Run A
  fault : Run A

abbrev pub Cmd : Type 0 → Type 0
Cmd A = Machine → Run A

abbrev pub pure : {A : Type 0} → A → Cmd A
pure a m = ok a m

module _ {A B : Type 0} where
  abbrev pub and_then : Run A → (A → Cmd B) → Run B
  and_then (ok a m) k = k a m
  and_then fault k = fault

  infixl 5 ◌>>=◌ ◌>>◌
  abbrev pub ◌>>=◌ : Cmd A → (A → Cmd B) → Cmd B
  m >>= k = λ s. and_then (m s) k

  abbrev pub ◌>>◌ : Cmd A → Cmd B → Cmd B
  m >> n = m >>= λ _. n

-- Reading a global variable.
abbrev pub gets : {A : Type 0} → (Machine → A) → Cmd A
gets f m = ok (f m) m

abbrev pub update : (Ptr → ℕ) → Ptr → ℕ → Ptr → ℕ
update f p v a = if a == p then v else f a

-- `p->field`
unfoldable pub load : {A : Type 0} → Ptr → (TaskStruct → Ptr → A) → Cmd A
load p field m = if p == null then fault else ok (field m.task p) m

-- `p->field = …`, with the change to that field's map.
unfoldable pub assign : Ptr → (TaskStruct → TaskStruct) → Cmd (Unit {0})
assign p f m = if p == null then fault else ok tt (record m { task = f m.task })

-- `sched_clock()`: each call is a new reading.
unfoldable pub sched_clock : Vm → Cmd ℕ
sched_clock vm m = ok (vm.sched_clock m.readings) (record m { readings = m.readings + 1 })

-- A command at a task that is there.
module _ {p : Ptr} (there : p ≢ null) where
  pub not_null : (p == null) ≡ false
  not_null = ground arith

  pub load-ok :
      {A : Type 0} (field : TaskStruct → Ptr → A) (m : Machine)
      → load p field m ≡ ok (field m.task p) m
  unfolding load
  load-ok field m = rw not_null

  pub assign-ok :
      (f : TaskStruct → TaskStruct) (m : Machine)
      → assign p f m ≡ ok tt (record m { task = f m.task })
  unfolding assign
  assign-ok f m = rw not_null

-- Total correctness: the run makes no fault, and its result and final state satisfy `P`.
abbrev pub Returns : {A : Type 0} → (A → Machine → Type 0) → Run A → Type 0
Returns P (ok a m) = P a m
Returns P fault = ⊥

pub bind :
    {A B : Type 0} (P : A → Machine → Type 0) (Q : B → Machine → Type 0) (r : Run A) (k : A → Cmd B)
    → Returns P r
    → ((a : A) (m : Machine) → P a m → Returns Q (k a m))
    → Returns Q (and_then r k)
bind P Q (ok a m) k h next = next a m h
bind P Q fault k h next = absurd h

pub Returns-ok :
    {A : Type 0} (P : A → Machine → Type 0) (r : Run A)
    → Returns P r
    → (a : A) × (m : Machine) × (r ≡ ok a m) × P a m
Returns-ok P (ok a m) h = (a, m, refl, h)
Returns-ok P fault h = absurd h
