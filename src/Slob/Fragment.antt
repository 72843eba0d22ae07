-- ===== src/Slob/Fragment.antt =====
-- Cutting off the head of a block to align the rest, as Project 3/patch_3 does it.
use mathlib.Core.List.{append-nil}
use ece318_operating_systems.Prelude.{
  ℕ, ◌+◌, ◌-◌, ◌<◌, ◌≡◌, ◌≢◌, refl, ap, sym, subst, ◌∙◌, inl, inr, Bool-cases, none, some, List, [],
  ◌∷◌, ◌++◌, ◌==◌, if◌then◌else◌, arith,
}
use ece318_operating_systems.Slob.{
  Header, Memory, Page, Best, Cursor, set_slob, slob_units, slob_next, fragment_head,
}
use ece318_operating_systems.Slob.Segment.{
  Block, block, Segment, Segment-same, Segment-split, Segment-join, last_addr, last_addr-append,
}
use ece318_operating_systems.Slob.Carve.{set_slob-here, set_slob-other, one-Segment, IsAt}

-- What is left of a block before the first aligned address.
abbrev pub head_part : (a d : ℕ) → List Block
head_part a d = if d == 0 then [] else block a d ∷ []

module _ (sp : Page) (before after : List Block) (at : Block) (z d : ℕ) (b : Best)
    (s : Segment sp.mem sp.freelist (before ++ at ∷ after) z) (block_eq : b.block ≡ at.addr)
    (prev_eq : b.prev ≡ last_addr none before) (inside : d < at.size) where
  abbrev IsCut : Cursor → Type 0
  IsCut c = IsAt (before ++ head_part at.addr d) after (at.size - d) z c

  abbrev next : ℕ
  next = slob_next sp.mem at.addr

  parts : Segment sp.mem sp.freelist before at.addr × Segment sp.mem at.addr (at ∷ after) z
  parts = Segment-split sp.mem sp.freelist z before after at s

  uncut-IsAt :
      d ≡ 0
      → IsAt
          (before ++ [])
          after
          (at.size - d)
          z
          (record { prev = b.prev; block = at.addr; page = sp })
  uncut-IsAt e =
      let (front, (at_eq, size, pos, le, back)) = parts in
      let all : at.size - d ≡ at.size = omega arith in
      record {
        front = rw (append-nil before) front;
        prev_eq = rw (append-nil before) prev_eq;
        size_eq = size ∙ sym all;
        ends = omega arith;
        back = back;
      }

  abbrev cut : Memory
  cut =
      set_slob at.addr d (at.addr + d)
        (set_slob (at.addr + d) (slob_units sp.mem at.addr - d) next sp.mem)

  cut-IsAt :
      0 < d
      → IsAt
          (before ++ block at.addr d ∷ [])
          after
          (at.size - d)
          z
          (record { prev = some at.addr; block = at.addr + d; page = record sp { mem = cut } })
  cut-IsAt some_head =
      let (front, (at_eq, size, pos, le, back)) = parts in
      let there : cut (at.addr + d)
          ≡ record { units = slob_units sp.mem at.addr - d; next = next } =
        set_slob-other at.addr d (at.addr + d) (at.addr + d)
          (set_slob (at.addr + d) (slob_units sp.mem at.addr - d) next sp.mem) (omega arith)
        ∙ set_slob-here (at.addr + d) (slob_units sp.mem at.addr - d) next sp.mem in
      let elsewhere : (x : ℕ) → x ≢ at.addr → x ≢ at.addr + d → cut x ≡ sp.mem x = λ x ne ne'.
        set_slob-other at.addr d (at.addr + d) x
          (set_slob (at.addr + d) (slob_units sp.mem at.addr - d) next sp.mem) ne
        ∙ set_slob-other (at.addr + d) (slob_units sp.mem at.addr - d) next x sp.mem ne' in
      let next_eq = ap (λ (h : Header). h.next) there in
      record {
        front =
            Segment-join cut sp.freelist at.addr (at.addr + d) before (block at.addr d ∷ [])
              (Segment-same sp.mem cut sp.freelist at.addr before
                (λ x low lt. elsewhere x (omega arith) (omega arith)) front)
              (one-Segment cut at.addr d (at.addr + d)
                (set_slob-here at.addr d (at.addr + d)
                  (set_slob (at.addr + d) (slob_units sp.mem at.addr - d) next sp.mem))
                some_head (omega arith));
        prev_eq = sym (last_addr-append none before (block at.addr d));
        size_eq = ap (λ (h : Header). h.units) there ∙ ap (λ u. u - d) size;
        ends = omega (arith, next_eq, le);
        back =
            subst (λ m. Segment cut m after z) (sym next_eq)
              (Segment-same sp.mem cut next z after
                (λ x low lt. elsewhere x (omega (arith, le, low)) (omega (arith, le, low))) back);
      }

  pub fragment_head-IsAt : IsCut (fragment_head d b sp)
  unfolding fragment_head
  fragment_head-IsAt = elim (Bool-cases (d == 0)) [
    | inl e ↦ rw (e, block_eq) (uncut-IsAt (ground arith))
    | inr e ↦ rw (e, block_eq) (cut-IsAt (ground arith))
  ]

  pub fragment_head-block : (fragment_head d b sp).block ≡ at.addr + d
  unfolding fragment_head
  fragment_head-block = elim (Bool-cases (d == 0)) [
    | inl e ↦ rw (e, block_eq) (ground arith)
    | inr e ↦ rw (e, block_eq) refl
  ]

pub fragment_head-page :
    (d : ℕ) (b : Best) (sp : Page)
    → ((fragment_head d b sp).page.units ≡ sp.units)
      × ((fragment_head d b sp).page.freelist ≡ sp.freelist)
unfolding fragment_head
fragment_head-page d b sp = elim (Bool-cases (d == 0)) [
  | inl e ↦ rw (e) (refl, refl)
  | inr e ↦ rw (e) (refl, refl)
]
