-- ===== src/Scheduler/Queue/Remove.antt =====
-- What `deactivate_task` of Project 2/schedule.c does to the queue.
use ece318_operating_systems.Prelude.{
  ◌≡◌, ◌≢◌, true, false, List, [], ◌∷◌, arith, ◌==◌, inl, inr, Bool-cases, sym, subst, ==_iff, has,
  has-ne, Distinct, erase, has-erase, erase-Distinct, length-erase,
}
use ece318_operating_systems.Scheduler.Machine.{
  Ptr, null, TaskStruct, Machine, ok, update, load, assign, not_null,
}
use ece318_operating_systems.Scheduler.Queue.{unlink, deactivate_task, decremented}
use ece318_operating_systems.Scheduler.Queue.Ring.{Links, IsRing, Links-frame}

-- The tasks with `p` taken out.
abbrev pub unlinked : TaskStruct → Ptr → TaskStruct
unlinked t p = record t {
  next = update (update t.next (t.prev p) (t.next p)) p null;
  prev = update (update t.prev (t.next p) (t.prev p)) p null;
}

unlink-ok :
    (p : Ptr) (m : Machine)
    → p ≢ null
    → m.task.prev p ≢ null
    → m.task.next p ≢ null
    → unlink p m ≡ ok tt (record m { task = unlinked m.task p })
unfolding unlink load assign
unlink-ok p m pn qn rn =
    let e1 = not_null pn in
    let e2 = not_null qn in
    let e3 = not_null rn in
    let same : update m.task.next (m.task.prev p) (m.task.next p) p ≡ m.task.next p =
      ground arith in
    simp (e1, e2, e3, same)

-- A task on the list stands between two others, which point at it.
record Around (t : TaskStruct) (p a b : Ptr) (xs : List Ptr) : Type 0 where
  before : t.next (t.prev p) ≡ p
  after : t.prev (t.next p) ≡ p
  prev_on : has (t.prev p) (a ∷ xs) ≡ true
  next_on : has (t.next p) (b ∷ xs) ≡ true

first-Around :
    (t : TaskStruct) (p a b : Ptr) (xs : List Ptr) → Links t a (p ∷ xs) b → Around t p a b (p ∷ xs)
first-Around t p a b [] l = record {
  before = cc;
  after = cc;
  prev_on = ground arith;
  next_on = ground arith;
}
first-Around t p a b (y ∷ ys) l = record {
  before = cc;
  after = cc;
  prev_on = ground arith;
  next_on = ground arith;
}

Links-Around :
    (t : TaskStruct) (p a b : Ptr) (xs : List Ptr)
    → Links t a xs b
    → has p xs ≡ true
    → Around t p a b xs
Links-Around t p a b [] l i = cc
Links-Around t p a b (x ∷ xs) l i = elim (Bool-cases (p == x)) [
  | inl e ↦
      let e' = (==_iff p x).0 e in
      let l' = subst (λ z. Links t a (z ∷ xs) b) (sym e') l in
      subst (λ z. Around t p a b (z ∷ xs)) e' (first-Around t p a b xs l')
  | inr e ↦
      let rest = Links-Around t p x b xs l.2 (ground arith) in
      record {
        before = rest.before;
        after = rest.after;
        prev_on = ground (arith, rest.prev_on);
        next_on = ground (arith, rest.next_on);
      }
]

-- Where `p` comes first.
unlinked-first :
    (t : TaskStruct) (p a b : Ptr) (xs : List Ptr)
    → Links t a (p ∷ xs) b
    → p ≢ a
    → p ≢ b
    → has a xs ≡ false
    → has b xs ≡ false
    → has p xs ≡ false
    → Distinct xs
    → Links (unlinked t p) a xs b
unlinked-first t p a b [] l pa pb oa ob op d = ground arith
unlinked-first t p a b (y ∷ ys) l pa pb oa ob op d = (
  ground arith,
  ground arith,
  Links-frame t (unlinked t p) b y ys l.2.2
      (λ c i. ground (arith, has-ne c a (y ∷ ys) i oa, has-ne c p (y ∷ ys) i op))
      (λ c i.
        ground (arith, has-ne c y (b ∷ ys) i (ground arith), has-ne c p (b ∷ ys) i (ground arith))),
)

module _ (t : TaskStruct) (p b : Ptr) (before : t.next (t.prev p) ≡ p)
    (after : t.prev (t.next p) ≡ p) (pb : p ≢ b) where
  unlinked-Links :
      (a : Ptr) (xs : List Ptr)
      → Links t a xs b
      → has p xs ≡ true
      → p ≢ a
      → has a xs ≡ false
      → has b xs ≡ false
      → Distinct xs
      → Links (unlinked t p) a (erase xs p) b
  unlinked-Links a [] l i pa oa ob d = cc
  unlinked-Links a (x ∷ xs) l i pa oa ob d = elim (Bool-cases (p == x)) [
    | inl e ↦
        let e' = (==_iff p x).0 e in
        let l' = subst (λ z. Links t a (z ∷ xs) b) (sym e') l in
        let op = subst (λ z. has z xs ≡ false) (sym e') d.0 in
        rw e (unlinked-first t p a b xs l' pa pb (ground arith) (ground arith) op d.1)
    | inr e ↦ rw e (
      ground arith,
      ground arith,
      unlinked-Links x xs l.2 (ground arith) (ground arith) d.0 (ground arith) d.1,
    )
  ]

abbrev pub dequeued : Ptr → Machine → Machine
dequeued p m = record m {
  task = unlinked m.task p;
  rq = record m.rq { nr_running = decremented m.rq.nr_running };
}

module _ (p : Ptr) (m : Machine) (xs : List Ptr) (ring : IsRing m xs) (on : has p xs ≡ true) where
  abbrev around : Around m.task p m.rq.head m.rq.head xs
  around = Links-Around m.task p m.rq.head m.rq.head xs ring.links on

  on-ne-null : p ≢ null
  on-ne-null = has-ne p null xs on ring.no_null

  pub on-ne-head : p ≢ m.rq.head
  on-ne-head = has-ne p m.rq.head xs on ring.no_head

  neighbour-ne-null : (c : Ptr) → has c (m.rq.head ∷ xs) ≡ true → c ≢ null
  neighbour-ne-null c i =
      has-ne c null (m.rq.head ∷ xs) i (ground (arith, ring.no_null, ring.head_ne_null))

  pub deactivate_task-ok : deactivate_task p m ≡ ok tt (dequeued p m)
  unfolding deactivate_task
  deactivate_task-ok = rw (
      unlink-ok p m on-ne-null (neighbour-ne-null _ around.prev_on)
        (neighbour-ne-null _ around.next_on))

  pub dequeued-IsRing : IsRing (dequeued p m) (erase xs p)
  dequeued-IsRing = record {
    links =
        unlinked-Links m.task p m.rq.head around.before around.after on-ne-head m.rq.head xs
          ring.links on on-ne-head ring.no_head ring.no_head ring.distinct;
    head_ne_null = ring.head_ne_null;
    no_null = has-erase p null xs ring.no_null;
    no_head = has-erase p m.rq.head xs ring.no_head;
    distinct = erase-Distinct p xs ring.distinct;
    counted = omega (arith, ring.counted, ring.in_range, length-erase p xs on);
    in_range = omega (arith, ring.counted, ring.in_range);
  }

  -- A task on the list is seen to be there by its links.
  pub on-next-ne-null : m.task.next p ≢ null
  on-next-ne-null = neighbour-ne-null _ around.next_on
