-- ===== src/Scheduler/Select/Walk.antt =====
-- On a ring the searches of Project 2/schedule.c see each task behind the head once, in order: the
-- loops with pointers are scans of a list.
use ece318_operating_systems.Prelude.{
  ℕ, zero, suc, ◌≤◌, ◌≡◌, refl, ◌≢◌, Bool, false, List, [], ◌∷◌, ◌==◌, ==_refl, ltb, leb, has,
  length, arith,
}
use ece318_operating_systems.Scheduler.Machine.{Ptr, null, Machine, ok, load-ok, ullong_max}
use ece318_operating_systems.Scheduler.Queue.Ring.{Links, IsRing}
use ece318_operating_systems.Scheduler.Scan.{scan}
use ece318_operating_systems.Scheduler.Select.{
  min_exp_burst_loop, get_min_exp_burst, max_waiting_loop, get_max_waiting_in_rq,
}

-- `>=` with the value of the candidate first.
abbrev pub geb : ℕ → ℕ → Bool
geb a b = leb b a

module _ (m : Machine) where
  min_exp_burst_loop-scan :
      (k : ℕ) (a : Ptr) (xs : List Ptr) (curr : Ptr) (best : ℕ)
      → Links m.task a xs m.rq.head
      → has null xs ≡ false
      → has m.rq.head xs ≡ false
      → length xs ≤ k
      → min_exp_burst_loop k (m.task.next a) curr best m
        ≡ ok (scan ltb m.task.next_burst_pred xs curr best) m
  unfolding min_exp_burst_loop scan
  min_exp_burst_loop-scan zero a [] curr best l nn nh room = refl
  min_exp_burst_loop-scan zero a (x ∷ xs) curr best l nn nh room = absurd (omega arith)
  min_exp_burst_loop-scan (suc k) a [] curr best l nn nh room = rw (l.0, ==_refl)
  min_exp_burst_loop-scan (suc k) a (x ∷ xs) curr best l nn nh room =
      let xn : x ≢ null = ground arith in
      let e : (x == m.rq.head) ≡ false = ground arith in
      rw (l.0, e, load-ok xn, load-ok xn)
        (min_exp_burst_loop-scan k x xs _ _ l.2 (ground arith) (ground arith) (omega arith))

  max_waiting_loop-scan :
      (k : ℕ) (a : Ptr) (xs : List Ptr) (curr : Ptr) (best : ℕ)
      → Links m.task a xs m.rq.head
      → has null xs ≡ false
      → has m.rq.head xs ≡ false
      → length xs ≤ k
      → max_waiting_loop k (m.task.next a) curr best m
        ≡ ok (scan geb m.task.waiting_in_rq xs curr best) m
  unfolding max_waiting_loop scan
  max_waiting_loop-scan zero a [] curr best l nn nh room = refl
  max_waiting_loop-scan zero a (x ∷ xs) curr best l nn nh room = absurd (omega arith)
  max_waiting_loop-scan (suc k) a [] curr best l nn nh room = rw (l.0, ==_refl)
  max_waiting_loop-scan (suc k) a (x ∷ xs) curr best l nn nh room =
      let xn : x ≢ null = ground arith in
      let e : (x == m.rq.head) ≡ false = ground arith in
      rw (l.0, e, load-ok xn, load-ok xn)
        (max_waiting_loop-scan k x xs _ _ l.2 (ground arith) (ground arith) (omega arith))

module _ (m : Machine) (xs : List Ptr) (ring : IsRing m xs) where
  pub get_min_exp_burst-scan :
      get_min_exp_burst m ≡ ok (scan ltb m.task.next_burst_pred xs null ullong_max) m
  unfolding get_min_exp_burst
  get_min_exp_burst-scan = rw (load-ok ring.head_ne_null) (
      min_exp_burst_loop-scan m m.rq.nr_running m.rq.head xs null ullong_max ring.links ring.no_null
        ring.no_head (omega (arith, ring.counted)))

  pub get_max_waiting_in_rq-scan :
      get_max_waiting_in_rq m ≡ ok (scan geb m.task.waiting_in_rq xs null 0) m
  unfolding get_max_waiting_in_rq
  get_max_waiting_in_rq-scan = rw (load-ok ring.head_ne_null) (
      max_waiting_loop-scan m m.rq.nr_running m.rq.head xs null 0 ring.links ring.no_null
        ring.no_head (omega (arith, ring.counted)))
