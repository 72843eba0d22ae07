-- ===== src/Scheduler/Dispatch/Outcome.antt =====
-- What `schedule` of Project 2/schedule.c leaves behind: the choice, the accounts, and a queue on
-- which it can be called again.
use ece318_operating_systems.Prelude.{
  ℕ, ◌+◌, ◌≤◌, ◌<◌, ◌≡◌, refl, ◌≢◌, inl, inr, true, List, [], ◌==◌, ==_refl, ==_iff, Bool-cases,
  arith, All, All-map, has-All, has, ap, subst, ◌∙◌,
}
use ece318_operating_systems.Scheduler.Machine.{Ptr, Machine, Vm, ullong_max}
use ece318_operating_systems.Scheduler.Queue.Ring.{IsRing, IsRing-same}
use ece318_operating_systems.Scheduler.Queue.Insert.{stamped}
use ece318_operating_systems.Scheduler.Queue.Operations.{IsMonotone}
use ece318_operating_systems.Scheduler.Select.Waiting.{with_waiting}
use ece318_operating_systems.Scheduler.Select.Goodness.{with_goodness}
use ece318_operating_systems.Scheduler.Dispatch.Finite.{prepared, prepared-lt, IsBounded, IsTimely}
use ece318_operating_systems.Scheduler.Dispatch.Choose.{
  IsSound, Switches, begun, restored, handed, Search, graded_same, schedule-handed,
}

-- The hand over changes the start of the chosen task, and the stamp or the prediction of the current
-- one.
handed_same :
    {A : Type 0} (vm : Vm) (pred : ℕ) (p : Ptr) (m : Machine) (f : Machine → A)
    → ((n : Machine) → f (begun vm p n) ≡ f n)
    → ((n : Machine) → f (restored pred n) ≡ f n)
    → ((n : Machine) (c : Ptr) → f (stamped vm c n) ≡ f n)
    → f (handed vm pred p m) ≡ f m
handed_same vm pred p m f b r s = elim (Bool-cases (p == m.current)) [
  | inl e ↦ rw e (r (begun vm p m) ∙ b m)
  | inr e ↦ rw e (s (begun vm p m) m.current ∙ b m)
]

pub stamped_timely :
    (vm : Vm) (mono : IsMonotone vm) (c : Ptr) (n : Machine) (y : Ptr)
    → n.task.last_run_or_in_queue y ≤ vm.sched_clock n.readings
    → (stamped vm c n).task.last_run_or_in_queue y ≤ vm.sched_clock (stamped vm c n).readings
stamped_timely vm mono c n y h = ground (
  arith,
  mono n.readings (n.readings + 1) (omega arith),
  mono n.readings (n.readings + 1 + 1) (omega arith),
  mono (n.readings + 1) (n.readings + 1 + 1) (omega arith),
)

module _ (vm : Vm) (m : Machine) (xs : List Ptr) (mono : IsMonotone vm) (bounded : IsBounded vm)
    (sound : IsSound vm m xs) (p : Ptr) (s : Search vm m xs p) where
  abbrev pub final : Machine
  final = handed vm (m.task.next_burst_pred m.current) p s.graded

  pub final_same :
      {A : Type 0} (f : Machine → A)
      → ((n : Machine) → f (begun vm p n) ≡ f n)
      → ((n : Machine) → f (restored (m.task.next_burst_pred m.current) n) ≡ f n)
      → ((n : Machine) (c : Ptr) → f (stamped vm c n) ≡ f n)
      → ((n : Machine) (g : Ptr → ℕ) → f (with_goodness n g) ≡ f n)
      → ((n : Machine) (w : Ptr → ℕ) (r : ℕ) → f (with_waiting n w r) ≡ f n)
      → f final ≡ f (prepared vm m)
  final_same f b r t g w =
      handed_same vm (m.task.next_burst_pred m.current) p s.graded f b r t
      ∙ graded_same vm m xs p s f g w

  pub graded_current : s.graded.current ≡ m.current
  graded_current = graded_same vm m xs p s (λ n. n.current) (λ n g. refl) (λ n w r. refl)

  graded_readings : m.readings ≤ s.graded.readings
  graded_readings =
      let e : s.graded.readings ≡ s.waited.readings =
        ap (λ (n : Machine). n.readings) s.chooses.graded in
      ground (arith, s.waits.later, e)

  final-IsRing : IsRing final xs
  final-IsRing =
      IsRing-same m final xs sound.ring
        (final_same (λ n. n.task.next) (λ n. refl) (λ n. refl) (λ n c. refl) (λ n g. refl)
          (λ n w r. refl))
        (final_same (λ n. n.task.prev) (λ n. refl) (λ n. refl) (λ n c. refl) (λ n g. refl)
          (λ n w r. refl))
        (final_same (λ n. n.rq) (λ n. refl) (λ n. refl) (λ n c. refl) (λ n g. refl) (λ n w r. refl))

  final_current : final.current ≡ m.current
  final_current =
      final_same (λ n. n.current) (λ n. refl) (λ n. refl) (λ n c. refl) (λ n g. refl)
        (λ n w r. refl)

  final_head : final.rq.head ≡ m.rq.head
  final_head =
      final_same (λ n. n.rq.head) (λ n. refl) (λ n. refl) (λ n c. refl) (λ n g. refl)
        (λ n w r. refl)

  final_asked : final.task.need_reschedule m.current ≡ 0
  final_asked =
      ap (λ (f : Ptr → ℕ). f m.current)
        (final_same (λ n. n.task.need_reschedule) (λ n. refl) (λ n. refl) (λ n c. refl)
          (λ n g. refl) (λ n w r. refl))
      ∙ rw (==_refl m.current)

  final_started :
      (i : ℕ) × (m.readings ≤ i)
      × (i < final.readings)
      × (final.task.time_started p ≡ vm.sched_clock i)
  final_started = (
    s.graded.readings,
    graded_readings,
    ground arith,
    elim (Bool-cases (p == s.graded.current)) [
      | inl e ↦ rw (e, ==_refl p)
      | inr e ↦ rw (e, ==_refl p)
    ],
  )

  pub graded_pred : s.graded.task.next_burst_pred ≡ (prepared vm m).task.next_burst_pred
  graded_pred = graded_same vm m xs p s (λ n. n.task.next_burst_pred) (λ n g. refl) (λ n w r. refl)

  graded_last : s.graded.task.last_run_or_in_queue ≡ m.task.last_run_or_in_queue
  graded_last =
      graded_same vm m xs p s (λ n. n.task.last_run_or_in_queue) (λ n g. refl) (λ n w r. refl)

  final_finite : All (λ y. final.task.next_burst_pred y < ullong_max) xs
  final_finite = elim (Bool-cases (p == s.graded.current)) [
    | inl e ↦
        let on =
          subst (λ c. has c xs ≡ true) ((==_iff p s.graded.current).0 e ∙ graded_current) s.on in
        let old =
          has-All (λ c. m.task.next_burst_pred c < ullong_max) m.current xs on sound.finite in
        rw e (
          All-map xs
            (λ y h. ground (arith, ap (λ f. f y) graded_pred, prepared-lt vm bounded m y h))
            sound.finite)
    | inr e ↦ rw e (All-map xs (λ y h. rw graded_pred (prepared-lt vm bounded m y h)) sound.finite)
  ]

  final-IsTimely : IsTimely vm final xs
  final-IsTimely = elim (Bool-cases (p == s.graded.current)) [
    | inl e ↦ rw e (
        All-map xs
          (λ y h. ground (
            arith,
            ap (λ f. f y) graded_last,
            mono m.readings (s.graded.readings + 1) (omega (arith, graded_readings)),
          ))
          sound.timely)
    | inr e ↦ rw e (
        All-map xs
          (λ y h. stamped_timely vm mono s.graded.current (begun vm p s.graded) y (
            ground (
              arith,
              ap (λ f. f y) graded_last,
              mono m.readings (s.graded.readings + 1) (omega (arith, graded_readings)),
            )))
          sound.timely)
  ]

-- The choice of `p`, and the machine `n` that the switch is given.
pub record Schedules (vm : Vm) (m : Machine) (xs : List Ptr) (p : Ptr) (n : Machine) : Type 0 where
  pub search : Search vm m xs p
  pub on : has p xs ≡ true
  pub sound : IsSound vm n xs
  pub same_head : n.rq.head ≡ m.rq.head
  pub same_current : n.current ≡ m.current
  pub answered : n.task.need_reschedule m.current ≡ 0
  pub started :
      (i : ℕ) × (m.readings ≤ i) × (i < n.readings) × (n.task.time_started p ≡ vm.sched_clock i)

-- On a monotone clock below ULLONG_MAX, with double arithmetic that is cut to numbers below ULLONG_MAX, and
-- where tasks stand behind the head of a sound machine, `schedule` makes no fault, reads no variable that has no value,
-- and switches to one of them, so never to init: the last of those with the least goodness, by the
-- waiting times of the moment. The chosen task's start is a reading of this call, the request to
-- reschedule is answered, and the queue is left as it was, ready for the next call.
pub schedule-Schedules :
    (vm : Vm) (m : Machine) (xs : List Ptr)
    → IsMonotone vm
    → IsBounded vm
    → IsSound vm m xs
    → xs ≢ []
    → Switches vm m (Schedules vm m xs)
schedule-Schedules vm m xs mono bounded sound some_task =
    let (p, s, ran) = schedule-handed vm m xs mono bounded sound some_task in
    (
      p,
      final vm m xs mono bounded sound p s,
      ran,
      record {
        search = s;
        on = s.on;
        sound = record {
          ring = final-IsRing vm m xs mono bounded sound p s;
          current_ne_null = rw (final_current vm m xs mono bounded sound p s) sound.current_ne_null;
          timely = final-IsTimely vm m xs mono bounded sound p s;
          finite = final_finite vm m xs mono bounded sound p s;
        };
        same_head = final_head vm m xs mono bounded sound p s;
        same_current = final_current vm m xs mono bounded sound p s;
        answered = final_asked vm m xs mono bounded sound p s;
        started = final_started vm m xs mono bounded sound p s;
      },
    )
