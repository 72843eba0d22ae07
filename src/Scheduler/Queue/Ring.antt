-- ===== src/Scheduler/Queue/Ring.antt =====
-- The shape that the run queue of Project 2/schedule.c has: the head and the other tasks in a circle
-- of `next` and `prev` pointers.
use ece318_operating_systems.Prelude.{
  suc, ◌<◌, ◌≡◌, ◌≢◌, true, false, List, [], ◌∷◌, arith, ap, length, has, Distinct,
}
use ece318_operating_systems.Scheduler.Machine.{Ptr, null, TaskStruct, Machine, u64_mod}

-- From `a` the `next` pointers lead through `xs` to `b`, and the `prev` pointers lead back.
abbrev pub Links : TaskStruct → Ptr → List Ptr → Ptr → Type 0
Links t a [] b = (t.next a ≡ b) × (t.prev b ≡ a)
Links t a (x ∷ xs) b = (t.next a ≡ x) × (t.prev x ≡ a) × Links t x xs b

-- The queue holds the head and, in order behind it, the tasks `xs`.
pub record IsRing (m : Machine) (xs : List Ptr) : Type 0 where
  pub links : Links m.task m.rq.head xs m.rq.head
  pub head_ne_null : m.rq.head ≢ null
  pub no_null : has null xs ≡ false
  pub no_head : has m.rq.head xs ≡ false
  pub distinct : Distinct xs
  pub counted : m.rq.nr_running ≡ suc (length xs)
  pub in_range : m.rq.nr_running < u64_mod

-- The links depend on no other field, and on no other task.
module _ (t u : TaskStruct) (b : Ptr) where
  pub Links-frame :
      (a : Ptr) (xs : List Ptr)
      → Links t a xs b
      → ((c : Ptr) → has c (a ∷ xs) ≡ true → u.next c ≡ t.next c)
      → ((c : Ptr) → has c (b ∷ xs) ≡ true → u.prev c ≡ t.prev c)
      → Links u a xs b
  Links-frame a [] l fn fp = ground (arith, fn a, fp b)
  Links-frame a (x ∷ xs) l fn fp = (
    ground (arith, fn a),
    ground (arith, fp x),
    Links-frame x xs l.2 (λ c i. fn c (ground arith)) (λ c i. fp c (ground arith)),
  )

-- Nor does the ring depend on anything but the links and the queue's own fields.
pub IsRing-same :
    (m n : Machine) (xs : List Ptr)
    → IsRing m xs
    → n.task.next ≡ m.task.next
    → n.task.prev ≡ m.task.prev
    → n.rq ≡ m.rq
    → IsRing n xs
IsRing-same m n xs ring en ep eq = record {
  links = rw eq (
      Links-frame m.task n.task m.rq.head m.rq.head xs ring.links (λ c i. ap (λ f. f c) en)
        (λ c i. ap (λ f. f c) ep));
  head_ne_null = rw eq ring.head_ne_null;
  no_null = ring.no_null;
  no_head = rw eq ring.no_head;
  distinct = ring.distinct;
  counted = rw eq ring.counted;
  in_range = rw eq ring.in_range;
}

Links-head :
    (t : TaskStruct) (head : Ptr) (xs : List Ptr)
    → Links t head xs head
    → head ≢ null
    → has null xs ≡ false
    → t.next head ≢ null
Links-head t head [] l hn nn = ground arith
Links-head t head (x ∷ xs) l hn nn = ground arith

pub head-next-ne-null : (m : Machine) (xs : List Ptr) → IsRing m xs → m.task.next m.rq.head ≢ null
head-next-ne-null m xs ring =
    Links-head m.task m.rq.head xs ring.links ring.head_ne_null ring.no_null
