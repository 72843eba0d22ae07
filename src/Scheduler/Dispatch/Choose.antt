-- ===== src/Scheduler/Dispatch/Choose.antt =====
-- `schedule` of Project 2/schedule.c on a queue with tasks behind the head: the search, then the hand
-- over of the processor.
use ece318_operating_systems.Prelude.{
  ℕ, ◌+◌, ◌<◌, ◌≡◌, refl, ◌≢◌, inl, inr, true, false, Option, some, List, [], ◌∷◌, ◌==◌, ==_ne,
  ==_iff, Bool-cases, if◌then◌else◌, arith, All, All-map, has, has-ne, ap, sym, subst, ◌∙◌, length,
}
use ece318_operating_systems.Scheduler.Machine.{
  Ptr, null, Machine, Vm, Returns, Returns-ok, ok, sched_clock, assign-ok, update, ullong_max,
}
use ece318_operating_systems.Scheduler.Queue.Ring.{IsRing, IsRing-same}
use ece318_operating_systems.Scheduler.Queue.Insert.{stamped, stamp-ok}
use ece318_operating_systems.Scheduler.Queue.Operations.{IsMonotone}
use ece318_operating_systems.Scheduler.Select.Waiting.{
  Waits, with_waiting, update_waiting_in_rq-Waits,
}
use ece318_operating_systems.Scheduler.Select.Goodness.{
  Chooses, with_goodness, get_min_goodness-IsLastLeast,
}
use ece318_operating_systems.Scheduler.Dispatch.{
  hand_over, restore, switch, schedule_among, schedule,
}
use ece318_operating_systems.Scheduler.Select.{update_waiting_in_rq, get_min_goodness}
use ece318_operating_systems.Scheduler.Select.Choice.{IsLastLeast-has}
use ece318_operating_systems.Scheduler.Dispatch.Account.{
  charged, retired, temp_burst_pred, charge-ok, retire-ok, clear_reschedule-ok,
}
use ece318_operating_systems.Scheduler.Dispatch.Finite.{
  prepared, prepared-lt, IsBounded, IsTimely, waiting-lt, prepared-IsTimely,
}

-- What `schedule` needs of the machine, with the tasks `xs` behind the head.
pub record IsSound (vm : Vm) (m : Machine) (xs : List Ptr) : Type 0 where
  pub ring : IsRing m xs
  pub current_ne_null : m.current ≢ null
  pub timely : IsTimely vm m xs
  pub finite : All (λ y. m.task.next_burst_pred y < ullong_max) xs

-- The chosen task starts now.
abbrev pub begun : Vm → Ptr → Machine → Machine
begun vm p m = record m {
  task = record m.task { time_started = update m.task.time_started p (vm.sched_clock m.readings) };
  readings = m.readings + 1;
}

abbrev pub restored : ℕ → Machine → Machine
restored pred m = record m {
  task = record m.task { next_burst_pred = update m.task.next_burst_pred m.current pred };
}

-- The machine that is handed to the virtual machine's context switch.
abbrev pub handed : Vm → ℕ → Ptr → Machine → Machine
handed vm pred p m =
    if p == m.current then restored pred (begun vm p m) else stamped vm m.current (begun vm p m)

hand_over-ok :
    (vm : Vm) (saved : Option ℕ) (pred : ℕ) (p : Ptr) (m : Machine)
    → p ≢ null
    → m.current ≢ null
    → (m.rq.nr_running == 1) ≡ false
    → (p ≡ m.current → saved ≡ some pred)
    → hand_over vm saved p m ≡ ok tt (vm.context_switch p (handed vm pred p m))
unfolding hand_over restore switch sched_clock
hand_over-ok vm saved pred p m pn cn many kept = elim (Bool-cases (p == m.current)) [
  | inl e ↦ rw (assign-ok pn, e, many, kept ((==_iff p m.current).0 e), assign-ok cn)
  | inr e ↦ rw (assign-ok pn, e, stamp-ok vm m.current (begun vm p m) cn)
]

empty_of_length : (xs : List Ptr) → length xs ≡ 0 → xs ≡ []
empty_of_length [] e = refl
empty_of_length (x ∷ xs) e = absurd (omega arith)

-- `schedule` makes no fault and ends with the switch to a task on a machine that satisfy `P`.
abbrev pub Switches : Vm → Machine → (Ptr → Machine → Type 0) → Type 0
Switches vm m P =
    (p : Ptr) × (n : Machine) × (schedule vm m ≡ ok tt (vm.context_switch p n)) × P p n

-- The search: the waiting times are brought up to date, then a task is chosen by goodness.
pub record Search (vm : Vm) (m : Machine) (xs : List Ptr) (p : Ptr) : Type 0 where
  pub waited : Machine
  pub graded : Machine
  pub waits : Waits vm (prepared vm m) xs waited
  pub chooses : Chooses waited xs p graded
  pub on : has p xs ≡ true

-- The search changes waiting times, goodness and the count of readings, and nothing else.
pub graded_same :
    {A : Type 0} (vm : Vm) (m : Machine) (xs : List Ptr) (p : Ptr) (s : Search vm m xs p)
    (f : Machine → A)
    → ((n : Machine) (g : Ptr → ℕ) → f (with_goodness n g) ≡ f n)
    → ((n : Machine) (w : Ptr → ℕ) (r : ℕ) → f (with_waiting n w r) ≡ f n)
    → f s.graded ≡ f (prepared vm m)
graded_same vm m xs p s f g w =
    ap f s.chooses.graded ∙ g _ _ ∙ ap f s.waits.only ∙ w (prepared vm m) _ _

module _ (vm : Vm) (m : Machine) (xs : List Ptr) (mono : IsMonotone vm) (bounded : IsBounded vm)
    (sound : IsSound vm m xs) (some_task : xs ≢ []) where
  many_running : (m.rq.nr_running == 1) ≡ false
  many_running =
      ==_ne _ 1 λ e. some_task (empty_of_length xs (omega (arith, sound.ring.counted, e)))

  -- The waiting times are those of the machine before, so the predictions are too.
  waited-finite :
      (w : Machine)
      → Waits vm (prepared vm m) xs w
      → All (λ y. w.task.next_burst_pred y < ullong_max) xs
  waited-finite w waits =
      All-map xs
        (λ y h.
          subst (λ (n : Machine). n.task.next_burst_pred y < ullong_max) (sym waits.only)
            (prepared-lt vm bounded m y h))
        sound.finite

  choose_from :
      (w : Machine) → Waits vm (prepared vm m) xs w → Returns (Chooses w xs) (get_min_goodness w)
  choose_from w waits =
      get_min_goodness-IsLastLeast w xs waits.ring some_task (waited-finite w waits) (
        waiting-lt vm mono bounded (prepared vm m) w xs
          (prepared-IsTimely vm mono bounded m xs sound.timely) waits)

  pub search_lem :
      (p : Ptr) × (s : Search vm m xs p) × (update_waiting_in_rq vm (prepared vm m)
        ≡ ok tt s.waited)
      × (get_min_goodness s.waited ≡ ok p s.graded)
  search_lem =
      let ring = IsRing-same m (prepared vm m) xs sound.ring refl refl refl in
      let (_, w, ran, waits) =
        Returns-ok (λ _. Waits vm (prepared vm m) xs) (update_waiting_in_rq vm (prepared vm m))
          (update_waiting_in_rq-Waits vm (prepared vm m) xs ring) in
      let (p, g, chose, chooses) =
        Returns-ok (Chooses w xs) (get_min_goodness w) (choose_from w waits) in
      (
        p,
        record {
          waited = w;
          graded = g;
          waits = waits;
          chooses = chooses;
          on = IsLastLeast-has _ xs p chooses.least;
        },
        ran,
        chose,
      )

  pub current_on : (p : Ptr) → has p xs ≡ true → p ≡ m.current → (m.current == m.rq.head) ≡ false
  current_on p on e =
      ==_ne _ _
        (has-ne m.current m.rq.head xs (subst (λ c. has c xs ≡ true) e on) sound.ring.no_head)

  pub schedule-handed :
      (p : Ptr) × (s : Search vm m xs p) × (schedule vm m
        ≡ ok tt (vm.context_switch p (handed vm (m.task.next_burst_pred m.current) p s.graded)))
  unfolding schedule schedule_among
  schedule-handed =
      let (p, s, ran, chose) = search_lem in
      (
        p,
        s,
        rw
            (
              many_running,
              charge-ok vm m sound.current_ne_null,
              retire-ok vm (charged vm m) sound.current_ne_null,
              clear_reschedule-ok (retired vm (charged vm m)) sound.current_ne_null,
              ran,
              chose,
            )
            (hand_over-ok vm (temp_burst_pred m) (m.task.next_burst_pred m.current) p s.graded
              s.chooses.ne_null
              (rw (graded_same vm m xs p s (λ n. n.current) (λ n g. refl) (λ n w r. refl))
                sound.current_ne_null)
              (rw (graded_same vm m xs p s (λ n. n.rq.nr_running) (λ n g. refl) (λ n w r. refl))
                many_running)
              (λ e. rw (
                current_on p s.on
                  (e ∙ graded_same vm m xs p s (λ n. n.current) (λ n g. refl) (λ n w r. refl))))),
      )
