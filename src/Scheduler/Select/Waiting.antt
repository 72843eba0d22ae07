-- ===== src/Scheduler/Select/Waiting.antt =====
-- What `updateWaitingInRQ` of Project 2/schedule.c writes.
use ece318_operating_systems.Prelude.{
  ℕ, zero, suc, ◌+◌, ◌≤◌, ◌<◌, ◌≡◌, refl, ◌≢◌, ◌⊎◌, inl, inr, true, false, List, [], ◌∷◌, ◌==◌,
  ==_refl, ==_iff, Bool-cases, if◌then◌else◌, has, length, Distinct, arith, sym, subst,
}
use ece318_operating_systems.Scheduler.Machine.{
  Ptr, null, Machine, Vm, Returns, ok, sched_clock, load-ok, assign-ok, update, sub64,
}
use ece318_operating_systems.Scheduler.Queue.Ring.{Links, IsRing, IsRing-same}
use ece318_operating_systems.Scheduler.Select.{
  update_waiting, update_waiting_loop, update_waiting_in_rq,
}

abbrev pub with_waiting : Machine → (Ptr → ℕ) → ℕ → Machine
with_waiting m w r = record m { task = record m.task { waiting_in_rq = w }; readings = r }

-- The readings taken, and the field `waiting_in_rq`, after a pass over a list.
pub pass_readings : Ptr → List Ptr → ℕ → ℕ
pass_readings cur [] r = r
pass_readings cur (x ∷ xs) r = pass_readings cur xs (if x == cur then r else r + 1)

module _ (vm : Vm) (cur : Ptr) (last : Ptr → ℕ) where
  abbrev pub waited : Ptr → ℕ → ℕ
  waited x r = if x == cur then 0 else sub64 (vm.sched_clock r) (last x)

  pub pass_waiting : List Ptr → ℕ → (Ptr → ℕ) → Ptr → ℕ
  pass_waiting [] r w = w
  pass_waiting (x ∷ xs) r w =
      pass_waiting xs (if x == cur then r else r + 1) (update w x (waited x r))

  pub le-pass_readings : (xs : List Ptr) (r : ℕ) → r ≤ pass_readings cur xs r
  unfolding pass_readings
  le-pass_readings [] r = omega arith
  le-pass_readings (x ∷ xs) r = ground (arith, le-pass_readings xs (if x == cur then r else r + 1))

  pub pass_waiting-outside :
      (xs : List Ptr) (r : ℕ) (w : Ptr → ℕ) (c : Ptr)
      → has c xs ≡ false
      → pass_waiting xs r w c ≡ w c
  unfolding pass_waiting
  pass_waiting-outside [] r w c o = refl
  pass_waiting-outside (x ∷ xs) r w c o =
      ground
        (arith, pass_waiting-outside xs (if x == cur then r else r + 1) (update w x (waited x r)) c)

  -- Each task of the list has its value from one reading of the pass, the current one has 0.
  pub pass_waiting-has :
      (xs : List Ptr) (r : ℕ) (w : Ptr → ℕ) (c : Ptr)
      → has c xs ≡ true
      → Distinct xs
      → ((c ≡ cur) × (pass_waiting xs r w c ≡ 0))
        ⊎ ((c ≢ cur)
            × ((i : ℕ) × (r ≤ i)
                × (i < pass_readings cur xs r)
                × (pass_waiting xs r w c ≡ sub64 (vm.sched_clock i) (last c))))
  unfolding pass_waiting pass_readings
  pass_waiting-has [] r w c i d = cc
  pass_waiting-has (x ∷ xs) r w c i d = elim (Bool-cases (c == x)) [
    | inl e ↦
        let e' = (==_iff c x).0 e in
        let o = subst (λ z. has z xs ≡ false) (sym e') d.0 in
        let out =
          pass_waiting-outside xs (if x == cur then r else r + 1) (update w x (waited x r)) c o in
        elim (Bool-cases (x == cur)) [
          | inl f ↦ inl (ground arith, ground (arith, out))
          | inr f ↦ inr (
            ground arith,
            (r, omega arith, ground (arith, le-pass_readings xs (r + 1)), ground (arith, out)),
          )
        ]
    | inr e ↦
        elim (pass_waiting-has xs (if x == cur then r else r + 1) (update w x (waited x r)) c
          (ground arith) d.1) [
            | inl h ↦ inl h
            | inr (n, (j, lo, hi, h)) ↦ inr (n, (j, ground (arith, lo), hi, h))
          ]
  ]

module _ (vm : Vm) (m : Machine) where
  abbrev passed : List Ptr → ℕ → (Ptr → ℕ) → Machine
  passed xs r w =
      with_waiting m (pass_waiting vm m.current m.task.last_run_or_in_queue xs r w)
        (pass_readings m.current xs r)

  update_waiting-ok :
      (x : Ptr) (r : ℕ) (w : Ptr → ℕ)
      → x ≢ null
      → update_waiting vm x (with_waiting m w r)
        ≡ ok tt (
            with_waiting m
              (update w x (waited vm m.current m.task.last_run_or_in_queue x r))
              (if x == m.current then r else r + 1))
  unfolding update_waiting sched_clock
  update_waiting-ok x r w xn = elim (Bool-cases (x == m.current)) [
    | inl e ↦ rw (e, assign-ok xn)
    | inr e ↦ rw (e, load-ok xn, assign-ok xn)
  ]

  update_waiting_loop-passed :
      (k : ℕ) (a : Ptr) (xs : List Ptr) (r : ℕ) (w : Ptr → ℕ)
      → Links m.task a xs m.rq.head
      → has null xs ≡ false
      → has m.rq.head xs ≡ false
      → length xs ≤ k
      → update_waiting_loop vm k (m.task.next a) (with_waiting m w r) ≡ ok tt (passed xs r w)
  unfolding update_waiting_loop pass_readings pass_waiting
  update_waiting_loop-passed zero a [] r w l nn nh room = refl
  update_waiting_loop-passed zero a (x ∷ xs) r w l nn nh room = absurd (omega arith)
  update_waiting_loop-passed (suc k) a [] r w l nn nh room = rw (l.0, ==_refl)
  update_waiting_loop-passed (suc k) a (x ∷ xs) r w l nn nh room =
      let xn : x ≢ null = ground arith in
      let e : (x == m.rq.head) ≡ false = ground arith in
      rw (l.0, e, update_waiting-ok x r w xn, load-ok xn)
        (update_waiting_loop-passed k x xs _ _ l.2 (ground arith) (ground arith) (omega arith))

-- The field `waiting_in_rq` is brought up to date.
pub record Waits (vm : Vm) (m : Machine) (xs : List Ptr) (m' : Machine) : Type 0 where
  pub ring : IsRing m' xs
  pub only : m' ≡ with_waiting m m'.task.waiting_in_rq m'.readings
  pub later : m.readings ≤ m'.readings
  pub on :
      (c : Ptr)
      → has c xs ≡ true
      → ((c ≡ m.current) × (m'.task.waiting_in_rq c ≡ 0))
        ⊎ ((c ≢ m.current)
            × ((i : ℕ) × (m.readings ≤ i)
                × (i < m'.readings)
                × (m'.task.waiting_in_rq c
                    ≡ sub64 (vm.sched_clock i) (m.task.last_run_or_in_queue c))))
  pub off : (c : Ptr) → has c xs ≡ false → m'.task.waiting_in_rq c ≡ m.task.waiting_in_rq c

-- `updateWaitingInRQ` gives every task behind the head the time since it last ran or was queued, by
-- a reading of the clock of its own, and gives 0 to the current task. Nothing else changes.
pub update_waiting_in_rq-Waits :
    (vm : Vm) (m : Machine) (xs : List Ptr)
    → IsRing m xs
    → Returns (λ _. Waits vm m xs) (update_waiting_in_rq vm m)
unfolding update_waiting_in_rq
update_waiting_in_rq-Waits vm m xs ring =
    let last = m.task.last_run_or_in_queue in
    let w = m.task.waiting_in_rq in
    rw
      (
        load-ok ring.head_ne_null,
        update_waiting_loop-passed vm m m.rq.nr_running m.rq.head xs m.readings w ring.links
            ring.no_null ring.no_head (omega (arith, ring.counted)),
      )
      (record {
        ring = IsRing-same m _ xs ring refl refl refl;
        only = refl;
        later = le-pass_readings vm m.current last xs m.readings;
        on = λ c i. pass_waiting-has vm m.current last xs m.readings w c i ring.distinct;
        off = λ c o. pass_waiting-outside vm m.current last xs m.readings w c o;
      })
