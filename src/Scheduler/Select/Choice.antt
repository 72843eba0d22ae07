-- ===== src/Scheduler/Select/Choice.antt =====
-- What `getMinExpBurst` and `getMaxWaitingInRQ` of Project 2/schedule.c choose.
use ece318_operating_systems.Prelude.{
  ℕ, ◌≡◌, ◌<◌, ◌≤◌, refl, true, false, List, [], ◌∷◌, arith, ltb, leb, ◌++◌, All, All-map, All-map₂,
  inl, inr, ◌⊎◌, ◌≢◌, has-ne, has, ltb→lt,
}
use ece318_operating_systems.Scheduler.Machine.{Ptr, null, Machine, Returns, ullong_max}
use ece318_operating_systems.Scheduler.Queue.Ring.{IsRing}
use ece318_operating_systems.Scheduler.Scan.{IsBest, IsBest-has, has-append, scan-Outcome}
use ece318_operating_systems.Scheduler.Select.{get_min_exp_burst, get_max_waiting_in_rq}
use ece318_operating_systems.Scheduler.Select.Walk.{
  geb, get_min_exp_burst-scan, get_max_waiting_in_rq-scan,
}

pub ltb_trans : (a b c : ℕ) → ltb a b ≡ true → ltb b c ≡ true → ltb a c ≡ true
ltb_trans a b c p q = ground arith

pub ltb_past : (a b c : ℕ) → ltb a b ≡ true → ltb c b ≡ false → ltb a c ≡ true
ltb_past a b c p q = ground arith

pub leb_trans : (a b c : ℕ) → leb a b ≡ true → leb b c ≡ true → leb a c ≡ true
leb_trans a b c p q = ground arith

pub leb_past : (a b c : ℕ) → leb a b ≡ true → leb c b ≡ false → leb a c ≡ true
leb_past a b c p q = ground arith

pub geb_trans : (a b c : ℕ) → geb a b ≡ true → geb b c ≡ true → geb a c ≡ true
geb_trans a b c p q = ground arith

pub geb_past : (a b c : ℕ) → geb a b ≡ true → geb c b ≡ false → geb a c ≡ true
geb_past a b c p q = ground arith

-- `p` is where `f` is least, and the first such task.
pub record IsFirstLeast (f : Ptr → ℕ) (xs : List Ptr) (p : Ptr) : Type 0 where
  pub before : List Ptr
  pub after : List Ptr
  pub split : xs ≡ before ++ p ∷ after
  pub less : All (λ y. f p < f y) before
  pub le : All (λ y. f p ≤ f y) after

-- `p` is where `f` is least, and the last such task.
pub record IsLastLeast (f : Ptr → ℕ) (xs : List Ptr) (p : Ptr) : Type 0 where
  pub before : List Ptr
  pub after : List Ptr
  pub split : xs ≡ before ++ p ∷ after
  pub le : All (λ y. f p ≤ f y) before
  pub less : All (λ y. f p < f y) after

-- `p` is where `f` is greatest, and the last such task.
pub record IsLastGreatest (f : Ptr → ℕ) (xs : List Ptr) (p : Ptr) : Type 0 where
  pub before : List Ptr
  pub after : List Ptr
  pub split : xs ≡ before ++ p ∷ after
  pub ge : All (λ y. f y ≤ f p) before
  pub greater : All (λ y. f y < f p) after

module _ (f : Ptr → ℕ) (xs : List Ptr) (p : Ptr) where
  pub IsFirstLeast-of_best : IsBest ltb f xs p → IsFirstLeast f xs p
  IsFirstLeast-of_best b = record {
    before = b.before;
    after = b.after;
    split = b.split;
    less = All-map b.before (λ y h. ground arith) b.beats_before;
    le = All-map b.after (λ y h. ground arith) b.unbeaten_after;
  }

  pub IsLastLeast-of_best : IsBest leb f xs p → IsLastLeast f xs p
  IsLastLeast-of_best b = record {
    before = b.before;
    after = b.after;
    split = b.split;
    le = All-map b.before (λ y h. ground arith) b.beats_before;
    less = All-map b.after (λ y h. ground arith) b.unbeaten_after;
  }

  pub IsLastLeast-has : IsLastLeast f xs p → has p xs ≡ true
  IsLastLeast-has l = rw l.split (has-append p l.before l.after)

  pub IsLastGreatest-of_best : IsBest geb f xs p → IsLastGreatest f xs p
  IsLastGreatest-of_best b = record {
    before = b.before;
    after = b.after;
    split = b.split;
    ge = All-map b.before (λ y h. ground arith) b.beats_before;
    greater = All-map b.after (λ y h. ground arith) b.unbeaten_after;
  }

not-ge-zero : (a : ℕ) → geb a 0 ≡ false → ⊥
not-ge-zero a h = ground arith

-- Every waiting time is at least 0, so a list that holds a task has a choice.
pub none_if_unbeaten : (f : Ptr → ℕ) (xs : List Ptr) → All (λ y. geb (f y) 0 ≡ false) xs → xs ≡ []
none_if_unbeaten f [] h = refl
none_if_unbeaten f (x ∷ xs) h = absurd (not-ge-zero (f x) h.0)

module _ (m : Machine) (xs : List Ptr) (ring : IsRing m xs) where
  -- `getMinExpBurst` changes nothing. It gives NULL exactly where no task has a prediction below
  -- ULLONG_MAX; otherwise the first of the tasks with the least prediction.
  pub get_min_exp_burst-IsFirstLeast :
      All (λ y. m.task.next_burst_pred y ≤ ullong_max) xs
      → Returns
          (λ p m'.
            (m' ≡ m)
            × (((p ≡ null) × All (λ y. m.task.next_burst_pred y ≡ ullong_max) xs)
                ⊎ (IsFirstLeast m.task.next_burst_pred xs p
                    × (p ≢ null)
                    × (m.task.next_burst_pred p < ullong_max))))
          (get_min_exp_burst m)
  get_min_exp_burst-IsFirstLeast range = rw (get_min_exp_burst-scan m xs ring) (
    refl,
    elim (scan-Outcome ltb m.task.next_burst_pred ltb_trans ltb_past xs null ullong_max) [
      | inl (same, none_less) ↦ inl (same, All-map₂ xs (λ y lo hi. ground arith) none_less range)
      | inr (b, less) ↦ inr (
        IsFirstLeast-of_best m.task.next_burst_pred xs _ b,
        has-ne _ null xs (IsBest-has ltb m.task.next_burst_pred xs _ b) ring.no_null,
        ltb→lt _ _ less,
      )
    ],
  )

  -- `getMaxWaitingInRQ` changes nothing. It gives NULL exactly where no task waits behind the head;
  -- otherwise the last of the tasks that have waited longest.
  pub get_max_waiting_in_rq-IsLastGreatest :
      Returns
        (λ p m'.
          (m' ≡ m)
          × (((p ≡ null) × (xs ≡ [])) ⊎ (IsLastGreatest m.task.waiting_in_rq xs p × (p ≢ null))))
        (get_max_waiting_in_rq m)
  get_max_waiting_in_rq-IsLastGreatest = rw (get_max_waiting_in_rq-scan m xs ring) (
    refl,
    elim (scan-Outcome geb m.task.waiting_in_rq geb_trans geb_past xs null 0) [
      | inl (same, none_more) ↦ inl (same, none_if_unbeaten m.task.waiting_in_rq xs none_more)
      | inr (b, more) ↦ inr (
        IsLastGreatest-of_best m.task.waiting_in_rq xs _ b,
        has-ne _ null xs (IsBest-has geb m.task.waiting_in_rq xs _ b) ring.no_null,
      )
    ],
  )
