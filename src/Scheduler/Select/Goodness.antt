-- ===== src/Scheduler/Select/Goodness.antt =====
-- What `getMinGoodness` of Project 2/schedule.c computes and chooses.
use mathlib.Core.Path.{fun_ext}
use ece318_operating_systems.Prelude.{
  ℕ, zero, suc, ◌*◌, ◌/◌, ◌%◌, ◌≤◌, ◌<◌, ◌≡◌, refl, ◌≢◌, inl, inr, true, false, List, [], ◌∷◌, ◌==◌,
  ==_refl, ==_ne, ltb, leb, if◌then◌else◌, has, has-ne, length, All, arith, ap, ltb→lt,
}
use ece318_operating_systems.Scheduler.Machine.{
  Ptr, null, Machine, Returns, ok, load-ok, assign-ok, update, u64_mod, ullong_max, add64,
}
use ece318_operating_systems.Scheduler.Queue.Ring.{Links, IsRing, IsRing-same}
use ece318_operating_systems.Scheduler.Scan.{scan, scan-Outcome, IsBest-has}
use ece318_operating_systems.Scheduler.Select.{
  divide, calc_goodness, min_goodness_loop, get_min_goodness,
}
use ece318_operating_systems.Scheduler.Select.Choice.{
  IsFirstLeast, IsLastLeast, IsLastGreatest, IsFirstLeast-of_best, IsLastLeast-of_best,
  IsLastGreatest-of_best, ltb_trans, ltb_past, leb_trans, leb_past, geb_trans, geb_past,
  none_if_unbeaten,
}
use ece318_operating_systems.Scheduler.Select.Walk.{
  geb, get_min_exp_burst-scan, get_max_waiting_in_rq-scan,
}

abbrev pub goodness_value : (burst min_burst max_waiting waiting : ℕ) → ℕ
goodness_value burst min_burst max_waiting waiting =
    (add64 1 burst / add64 1 min_burst) * (add64 1 max_waiting / add64 1 waiting) % u64_mod

divide-ok : (n d : ℕ) (m : Machine) → d ≢ 0 → divide n d m ≡ ok (n / d) m
unfolding divide
divide-ok n d m h = rw (==_ne d 0 h)

add64-ne-zero : (a : ℕ) → a < ullong_max → add64 1 a ≢ 0
add64-ne-zero a h = omega arith

pub calc_goodness-ok :
    (burst min_burst max_waiting waiting : ℕ) (m : Machine)
    → min_burst < ullong_max
    → waiting < ullong_max
    → calc_goodness burst min_burst max_waiting waiting m
      ≡ ok (goodness_value burst min_burst max_waiting waiting) m
unfolding calc_goodness
calc_goodness-ok burst min_burst max_waiting waiting m p q =
    rw (divide-ok _ _ m (add64-ne-zero min_burst p), divide-ok _ _ m (add64-ne-zero waiting q))

-- The machine with other values in the field `goodness`.
abbrev pub with_goodness : Machine → (Ptr → ℕ) → Machine
with_goodness m g = record m { task = record m.task { goodness = g } }

-- The goodness of a task, measured against two others.
abbrev pub goodness_of : Machine → (min_burst max_waiting : Ptr) → Ptr → ℕ
goodness_of m min_burst max_waiting c =
    goodness_value (m.task.next_burst_pred c) (m.task.next_burst_pred min_burst)
      (m.task.waiting_in_rq max_waiting) (m.task.waiting_in_rq c)

-- The field `goodness` after the tasks of a list have been given their values.
unfoldable pub fill : (Ptr → ℕ) → List Ptr → (Ptr → ℕ) → Ptr → ℕ
fill value [] g = g
fill value (x ∷ xs) g = fill value xs (update g x (value x))

pub fill-has :
    (value : Ptr → ℕ) (xs : List Ptr) (g : Ptr → ℕ) (c : Ptr)
    → fill value xs g c ≡ (if has c xs then value c else g c)
unfolding fill
fill-has value [] g c = refl
fill-has value (x ∷ xs) g c = ground (arith, fill-has value xs (update g x (value x)) c)

-- The outcome of a choice by goodness: the task, and the machine afterwards.
pub record Chooses (m : Machine) (xs : List Ptr) (p : Ptr) (m' : Machine) : Type 0 where
  pub min_burst : Ptr
  pub max_waiting : Ptr
  pub least_burst : IsFirstLeast m.task.next_burst_pred xs min_burst
  pub longest_wait : IsLastGreatest m.task.waiting_in_rq xs max_waiting
  pub least : IsLastLeast (goodness_of m min_burst max_waiting) xs p
  pub ne_null : p ≢ null
  pub graded :
      m'
      ≡ with_goodness m
          (λ c. if has c xs then goodness_of m min_burst max_waiting c else m.task.goodness c)

lt-not-ltb : (a : ℕ) → a < ullong_max → ltb a ullong_max ≡ false → ⊥
lt-not-ltb a h n = ground arith

le-not-leb : (a : ℕ) → a ≤ ullong_max → leb a ullong_max ≡ false → ⊥
le-not-leb a h n = ground arith

none_if_finite :
    (f : Ptr → ℕ) (xs : List Ptr)
    → All (λ y. f y < ullong_max) xs
    → All (λ y. ltb (f y) ullong_max ≡ false) xs
    → xs ≡ []
none_if_finite f [] h n = refl
none_if_finite f (x ∷ xs) h n = absurd (lt-not-ltb _ h.0 n.0)

none_if_in_range :
    (f : Ptr → ℕ) (xs : List Ptr)
    → ((y : Ptr) → f y ≤ ullong_max)
    → All (λ y. leb (f y) ullong_max ≡ false) xs
    → xs ≡ []
none_if_in_range f [] h n = refl
none_if_in_range f (x ∷ xs) h n = absurd (le-not-leb _ (h x) n.0)

-- The two tasks that every value refers to, as found before the loop.
module _ (m : Machine) (xs : List Ptr) (ring : IsRing m xs) where
  abbrev pub min_burst_task : Ptr
  min_burst_task = scan ltb m.task.next_burst_pred xs null ullong_max

  abbrev pub max_waiting_task : Ptr
  max_waiting_task = scan geb m.task.waiting_in_rq xs null 0

  abbrev pub goodness_at : Ptr → ℕ
  goodness_at = goodness_of m min_burst_task max_waiting_task

  min_burst-IsFirstLeast :
      xs ≢ []
      → All (λ y. m.task.next_burst_pred y < ullong_max) xs
      → IsFirstLeast m.task.next_burst_pred xs min_burst_task
        × (min_burst_task ≢ null)
        × (m.task.next_burst_pred min_burst_task < ullong_max)
  min_burst-IsFirstLeast some_task preds =
      elim (scan-Outcome ltb m.task.next_burst_pred ltb_trans ltb_past xs null ullong_max) [
        | inl (same, none_less) ↦
            absurd (some_task (none_if_finite m.task.next_burst_pred xs preds none_less))
        | inr (b, less) ↦ (
          IsFirstLeast-of_best m.task.next_burst_pred xs _ b,
          has-ne _ null xs (IsBest-has ltb m.task.next_burst_pred xs _ b) ring.no_null,
          ltb→lt _ _ less,
        )
      ]

  max_waiting-IsLastGreatest :
      xs ≢ [] → IsLastGreatest m.task.waiting_in_rq xs max_waiting_task × (max_waiting_task ≢ null)
  max_waiting-IsLastGreatest some_task =
      elim (scan-Outcome geb m.task.waiting_in_rq geb_trans geb_past xs null 0) [
        | inl (same, none_more) ↦
            absurd (some_task (none_if_unbeaten m.task.waiting_in_rq xs none_more))
        | inr (b, more) ↦ (
          IsLastGreatest-of_best m.task.waiting_in_rq xs _ b,
          has-ne _ null xs (IsBest-has geb m.task.waiting_in_rq xs _ b) ring.no_null,
        )
      ]

  chosen-IsLastLeast :
      xs ≢ []
      → IsLastLeast goodness_at xs (scan leb goodness_at xs null ullong_max)
        × has (scan leb goodness_at xs null ullong_max) xs ≡ true
  chosen-IsLastLeast some_task =
      elim (scan-Outcome leb goodness_at leb_trans leb_past xs null ullong_max) [
        | inl (same, none_le) ↦
            absurd (some_task (none_if_in_range goodness_at xs (λ y. omega arith) none_le))
        | inr (b, le) ↦ (IsLastLeast-of_best goodness_at xs _ b, IsBest-has leb goodness_at xs _ b)
      ]

  module _ (bn : min_burst_task ≢ null) (wn : max_waiting_task ≢ null)
      (finite : m.task.next_burst_pred min_burst_task < ullong_max) where
    min_goodness_loop-scan :
        (k : ℕ) (a : Ptr) (ys : List Ptr) (curr : Ptr) (best : ℕ) (g : Ptr → ℕ)
        → Links m.task a ys m.rq.head
        → has null ys ≡ false
        → has m.rq.head ys ≡ false
        → All (λ y. m.task.waiting_in_rq y < ullong_max) ys
        → length ys ≤ k
        → min_goodness_loop k (m.task.next a) curr best (with_goodness m g)
          ≡ ok (scan leb goodness_at ys curr best) (with_goodness m (fill goodness_at ys g))
    unfolding min_goodness_loop scan fill
    min_goodness_loop-scan zero a [] curr best g l nn nh w room = refl
    min_goodness_loop-scan zero a (x ∷ xs) curr best g l nn nh w room = absurd (omega arith)
    min_goodness_loop-scan (suc k) a [] curr best g l nn nh w room = rw (l.0, ==_refl)
    min_goodness_loop-scan (suc k) a (x ∷ ys) curr best g l nn nh w room =
        let xn : x ≢ null = ground arith in
        let e : (x == m.rq.head) ≡ false = ground arith in
        let same = IsRing-same m (with_goodness m g) xs ring refl refl refl in
        rw
          (
            l.0,
            e,
            get_min_exp_burst-scan (with_goodness m g) xs same,
            get_max_waiting_in_rq-scan (with_goodness m g) xs same,
            load-ok xn,
            load-ok bn,
            load-ok wn,
            load-ok xn,
            calc_goodness-ok _ _ _ _ (with_goodness m g) finite w.0,
            assign-ok xn,
            load-ok xn,
          )
          (min_goodness_loop-scan k x ys _ _ _ l.2 (ground arith) (ground arith) w.1 (omega arith))

  -- With a task behind the head, and predictions and waiting times below ULLONG_MAX,
  -- `getMinGoodness` makes no fault. Every task behind the head is given its goodness, measured
  -- against the first of those with the least prediction and the last of those that have waited
  -- longest; nothing else changes; and the last of the tasks with the least goodness is chosen.
  pub get_min_goodness-IsLastLeast :
      xs ≢ []
      → All (λ y. m.task.next_burst_pred y < ullong_max) xs
      → All (λ y. m.task.waiting_in_rq y < ullong_max) xs
      → Returns (Chooses m xs) (get_min_goodness m)
  unfolding get_min_goodness
  get_min_goodness-IsLastLeast some_task preds waits =
      let b = min_burst-IsFirstLeast some_task preds in
      let w = max_waiting-IsLastGreatest some_task in
      rw
        (
          load-ok ring.head_ne_null,
          min_goodness_loop-scan b.1 w.1 b.2 m.rq.nr_running m.rq.head xs null ullong_max
              m.task.goodness ring.links ring.no_null ring.no_head waits
              (omega (arith, ring.counted)),
        )
        (record {
          min_burst = min_burst_task;
          max_waiting = max_waiting_task;
          least_burst = b.0;
          longest_wait = w.0;
          least = (chosen-IsLastLeast some_task).0;
          ne_null = has-ne _ null xs (chosen-IsLastLeast some_task).1 ring.no_null;
          graded = ap (with_goodness m) (fun_ext λ c. fill-has goodness_at xs m.task.goodness c);
        })
