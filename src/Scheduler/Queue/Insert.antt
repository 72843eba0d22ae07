-- ===== src/Scheduler/Queue/Insert.antt =====
-- What `wake_up_new_task` and `activate_task` of Project 2/schedule.c do to the queue.
use ece318_operating_systems.Prelude.{
  suc, ◌+◌, ◌<◌, ◌≡◌, ◌≢◌, true, false, List, [], ◌∷◌, arith, ◌==◌, ltb, if◌then◌else◌, has, has-ne,
  Distinct,
}
use ece318_operating_systems.Scheduler.Machine.{
  Ptr, null, Vm, sched_clock, TaskStruct, Machine, ok, u64_mod, update, load, assign, not_null,
}
use ece318_operating_systems.Scheduler.Queue.{
  link_behind_head, stamp, set_stamp, activate_task, wake_up_new_task, incremented,
}
use ece318_operating_systems.Scheduler.Queue.Ring.{Links, IsRing, Links-frame}

-- The tasks with `p` linked in behind `head`.
abbrev pub linked : TaskStruct → Ptr → Ptr → TaskStruct
linked t head p = record t {
  next = update (update t.next p (t.next head)) head p;
  prev = update (update t.prev p head) (t.next head) p;
}

link_behind_head-ok :
    (p : Ptr) (m : Machine)
    → m.rq.head ≢ null
    → m.task.next m.rq.head ≢ null
    → p ≢ null
    → p ≢ m.rq.head
    → p ≢ m.task.next m.rq.head
    → link_behind_head p m ≡ ok tt (record m { task = linked m.task m.rq.head p })
unfolding link_behind_head load assign
link_behind_head-ok p m hn fn pn ph pf =
    let same : (p == p) ≡ true = ground arith in
    let e1 = not_null hn in
    let e2 = not_null fn in
    let e3 = not_null pn in
    let e5 : (p == m.task.next m.rq.head) ≡ false = ground arith in simp (e1, e2, e3, same, e5)

-- The links after the insertion, and what a walk along the ring meets.
linked-Links :
    (t : TaskStruct) (head p : Ptr) (xs : List Ptr)
    → Links t head xs head
    → has p (head ∷ xs) ≡ false
    → has head xs ≡ false
    → Distinct xs
    → Links (linked t head p) head (p ∷ xs) head
linked-Links t head p [] l out hd d = ground arith
linked-Links t head p (x ∷ xs) l out hd d = (
  ground arith,
  ground arith,
  (
    ground arith,
    ground arith,
    Links-frame t (linked t head p) head x xs l.2
        (λ c i. ground (arith, has-ne c head (x ∷ xs) i hd, has-ne c p (x ∷ xs) i (ground arith)))
        (λ c i. ground (
          arith,
          has-ne c x (head ∷ xs) i (ground arith),
          has-ne c p (head ∷ xs) i (ground arith),
        )),
  ),
)

-- The address that follows the head: the first task, or the head itself.
first-cases :
    (t : TaskStruct) (head p : Ptr) (xs : List Ptr)
    → Links t head xs head
    → head ≢ null
    → has null xs ≡ false
    → has p (head ∷ xs) ≡ false
    → (t.next head ≢ null) × (p ≢ t.next head)
first-cases t head p [] l hn nn out = ground arith
first-cases t head p (x ∷ xs) l hn nn out = ground arith

-- The clock reading that `stamp` leaves in `last_run_or_in_queue`, and the readings it takes.
abbrev pub stamped : Vm → Ptr → Machine → Machine
stamped vm p m =
    let late = ltb (m.task.last_run_or_in_queue p) (vm.sched_clock m.readings) in
    record m {
      task = record m.task {
        last_run_or_in_queue =
            if late
            then update m.task.last_run_or_in_queue p (vm.sched_clock (m.readings + 1))
            else m.task.last_run_or_in_queue;
      };
      readings = if late then m.readings + 1 + 1 else m.readings + 1;
    }

pub stamp-ok : (vm : Vm) (p : Ptr) (m : Machine) → p ≢ null → stamp vm p m ≡ ok tt (stamped vm p m)
unfolding stamp set_stamp sched_clock load assign
stamp-ok vm p m pn = rw (not_null pn) (ground arith)

-- The whole of `activate_task` (and of `wake_up_new_task`): the new task stands first.
abbrev pub enqueued : Vm → Ptr → Machine → Machine
enqueued vm p m =
    let s = stamped vm p (record m { task = linked m.task m.rq.head p }) in
    record s { rq = record s.rq { nr_running = incremented s.rq.nr_running } }

module _ (vm : Vm) (p : Ptr) (m : Machine) (xs : List Ptr) (ring : IsRing m xs) (pn : p ≢ null)
    (out : has p (m.rq.head ∷ xs) ≡ false) where
  link_behind_head-linked :
      link_behind_head p m ≡ ok tt (record m { task = linked m.task m.rq.head p })
  link_behind_head-linked =
      let (a, b) =
        first-cases m.task m.rq.head p xs ring.links ring.head_ne_null ring.no_null out in
      link_behind_head-ok p m ring.head_ne_null a pn (ground arith) b

  pub activate_task-ok : activate_task vm p m ≡ ok tt (enqueued vm p m)
  unfolding activate_task
  activate_task-ok = rw (link_behind_head-linked, stamp-ok vm p _ pn)

  pub wake_up_new_task-ok : wake_up_new_task vm p m ≡ ok tt (enqueued vm p m)
  unfolding wake_up_new_task
  wake_up_new_task-ok = rw (link_behind_head-linked, stamp-ok vm p _ pn)

  pub enqueued-IsRing : suc m.rq.nr_running < u64_mod → IsRing (enqueued vm p m) (p ∷ xs)
  enqueued-IsRing room = record {
    links = linked-Links m.task m.rq.head p xs ring.links out ring.no_head ring.distinct;
    head_ne_null = ring.head_ne_null;
    no_null = ground (arith, ring.no_null);
    no_head = ground (arith, ring.no_head);
    distinct = (ground arith, ring.distinct);
    counted = omega (arith, ring.counted);
    in_range = omega arith;
  }
