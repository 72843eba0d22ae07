-- ===== src/Slob/Carve.antt =====
-- Taking units out of a block of a free list, as Project 3/patch_3 does it.
use ece318_operating_systems.Prelude.{
  ℕ, ◌+◌, ◌-◌, ◌≤◌, ◌<◌, ◌≡◌, ◌≢◌, refl, ap, sym, subst, ◌∙◌, inl, inr, Bool-cases, Option, none,
  some, List, [], ◌∷◌, ◌++◌, ◌==◌, ==_refl, if◌then◌else◌, arith,
}
use ece318_operating_systems.Slob.{
  Header, Memory, Page, Cursor, set_slob, slob_units, slob_next, link_to, take_units,
}
use ece318_operating_systems.Slob.Segment.{
  Block, block, Segment, Segment-same, Segment-split, Segment-join, last_addr, last_of,
  last_addr-append,
}

pub set_slob-here :
    (s size next : ℕ) (mem : Memory)
    → set_slob s size next mem s ≡ record { units = size; next = next }
set_slob-here s size next mem = rw (==_refl s) refl

pub set_slob-other : (s size next x : ℕ) (mem : Memory) → x ≢ s → set_slob s size next mem x ≡ mem x
set_slob-other s size next x mem ne = ground arith

-- A block whose header is written.
pub one-Segment :
    (mem : Memory) (a size z : ℕ)
    → mem a ≡ record { units = size; next = z }
    → 0 < size
    → a + size ≤ z
    → Segment mem a (block a size ∷ []) z
one-Segment mem a size z e pos le =
    let u = ap (λ (h : Header). h.units) e in
    let n = ap (λ (h : Header). h.next) e in (refl, u, pos, omega (arith, n), n)

-- The blocks before an address go on with a later one, and the headers from that address on stay.
module _ (sp : Page) (e t : ℕ) (le : e ≤ t) where
  abbrev Linked : Option ℕ → List Block → Type 0
  Linked prev bs =
      Segment (link_to prev t sp).mem (link_to prev t sp).freelist bs t
      × ((x : ℕ) → e ≤ x → (link_to prev t sp).mem x ≡ sp.mem x)

  linked-last :
      (front : List Block) (final : Block)
      → Segment sp.mem sp.freelist (front ++ final ∷ []) e
      → Linked (some final.addr) (front ++ final ∷ [])
  linked-last front final s =
      let (before, (at, size, pos, le', last)) =
        Segment-split sp.mem sp.freelist e front [] final s in
      let p = final.addr in
      let mem' = set_slob p (slob_units sp.mem p) t sp.mem in
      let here = set_slob-here p (slob_units sp.mem p) t sp.mem in
      let kept : Segment mem' sp.freelist front p =
        Segment-same sp.mem mem' sp.freelist p front
          (λ x low lt. set_slob-other p (slob_units sp.mem p) t x sp.mem (omega arith)) before in
      let tail : Segment mem' p (final ∷ []) t = (
        refl,
        ap (λ (h : Header). h.units) here ∙ size,
        pos,
        omega (arith, ap (λ (h : Header). h.next) here, last),
        ap (λ (h : Header). h.next) here,
      ) in
      (
        Segment-join mem' sp.freelist p t front (final ∷ []) kept tail,
        λ x low. set_slob-other p (slob_units sp.mem p) t x sp.mem (omega (arith, last)),
      )

  link_to-Segment :
      (bs : List Block) (prev : Option ℕ)
      → prev ≡ last_addr none bs
      → Segment sp.mem sp.freelist bs e
      → Linked prev bs
  link_to-Segment bs prev p s = elim (last_of bs) [
    | inl nil ↦ rw (p, nil) (refl, λ x low. refl)
    | inr w ↦
        let p' = p ∙ ap (last_addr none) w.ends ∙ last_addr-append none w.front w.final in
        subst (λ o. Linked o bs) (sym p')
          (subst (λ l. Linked (some w.final.addr) l) (sym w.ends)
            (linked-last w.front w.final (subst (λ l. Segment sp.mem sp.freelist l e) w.ends s)))
  ]

-- A block of a list: what stands before it and behind it.
pub record IsAt (before after : List Block) (size z : ℕ) (c : Cursor) : Type 0 where
  pub front : Segment c.page.mem c.page.freelist before c.block
  pub prev_eq : c.prev ≡ last_addr none before
  pub size_eq : slob_units c.page.mem c.block ≡ size
  pub ends : c.block + size ≤ slob_next c.page.mem c.block
  pub back : Segment c.page.mem (slob_next c.page.mem c.block) after z

-- What is left of a block behind the units that are taken.
abbrev pub tail_part : (a size units : ℕ) → List Block
tail_part a size units = if size == units then [] else block (a + units) (size - units) ∷ []

module _ (before after : List Block) (size z units : ℕ) (c : Cursor)
    (is : IsAt before after size z c) (some_units : 0 < units) (fits : units ≤ size) where
  abbrev n : ℕ
  n = slob_next c.page.mem c.block

  whole-Segment :
      Segment (link_to c.prev n c.page).mem (link_to c.prev n c.page).freelist (before ++ after) z
  whole-Segment =
      let (front, same) =
        link_to-Segment c.page c.block n (omega (arith, is.ends)) before c.prev is.prev_eq
          is.front in
      Segment-join _ _ n z before after front
        (Segment-same c.page.mem _ n z after (λ x low lt. same x (omega (arith, is.ends))) is.back)

  part-Segment :
      units < size
      → Segment
          (set_slob
            (c.block + units)
            (size - units)
            n
            (link_to c.prev (c.block + units) c.page).mem)
          (link_to c.prev (c.block + units) c.page).freelist
          (before ++ (block (c.block + units) (size - units) ∷ after))
          z
  part-Segment lt =
      let t = c.block + units in
      let sp = link_to c.prev t c.page in
      let mem' = set_slob t (size - units) n sp.mem in
      let (front, same) =
        link_to-Segment c.page c.block t (omega arith) before c.prev is.prev_eq is.front in
      let kept : Segment mem' sp.freelist before t =
        Segment-same sp.mem mem' sp.freelist t before
          (λ x low lt'. set_slob-other t (size - units) n x sp.mem (omega arith)) front in
      let rest : Segment mem' n after z =
        Segment-same c.page.mem mem' n z after
          (λ x low lt'.
            set_slob-other t (size - units) n x sp.mem (omega (arith, is.ends))
            ∙ same x (omega (arith, is.ends)))
          is.back in
      Segment-join mem' sp.freelist t z before (block t (size - units) ∷ after) kept (
        Segment-join mem' t n z (block t (size - units) ∷ []) after
          (one-Segment mem' t (size - units) n (set_slob-here t (size - units) n sp.mem)
            (omega arith) (omega (arith, is.ends)))
          rest)

  pub take_units-Segment :
      Segment
        (take_units units c).mem
        (take_units units c).freelist
        (before ++ (tail_part c.block size units ++ after))
        z
  unfolding take_units
  take_units-Segment = elim (Bool-cases (size == units)) [
    | inl e ↦ rw (is.size_eq, e) whole-Segment
    | inr e ↦ rw (is.size_eq, e) (part-Segment (ground arith))
  ]

-- The count of free units is not changed yet, and the free list does not get before the page.
module _ (units low : ℕ) (c : Cursor) where
  link_to-units : (prev : Option ℕ) (t : ℕ) → (link_to prev t c.page).units ≡ c.page.units
  link_to-units none t = refl
  link_to-units (some p) t = refl

  link_to-low :
      (prev : Option ℕ) (t : ℕ)
      → low ≤ c.page.freelist
      → low ≤ t
      → low ≤ (link_to prev t c.page).freelist
  link_to-low none t le le' = le'
  link_to-low (some p) t le le' = le

  pub take_units-units : (take_units units c).units ≡ c.page.units
  unfolding take_units
  take_units-units = elim (Bool-cases (slob_units c.page.mem c.block == units)) [
    | inl e ↦ rw (e) (link_to-units c.prev (slob_next c.page.mem c.block))
    | inr e ↦ rw (e) (link_to-units c.prev (c.block + units))
  ]

  pub take_units-low :
      low ≤ c.page.freelist
      → low ≤ c.block
      → low ≤ slob_next c.page.mem c.block
      → low ≤ (take_units units c).freelist
  unfolding take_units
  take_units-low le le' le'' = elim (Bool-cases (slob_units c.page.mem c.block == units)) [
    | inl e ↦ rw (e) (link_to-low c.prev (slob_next c.page.mem c.block) le le'')
    | inr e ↦ rw (e) (link_to-low c.prev (c.block + units) le (omega arith))
  ]
