-- ===== src/Slob/Segment.antt =====
-- The free list of a page of Project 3/patch_3, as the blocks that it links.
use ece318_operating_systems.Prelude.{
  ℕ, ◌+◌, ◌*◌, ◌≤◌, ◌<◌, ◌≡◌, refl, ap, sym, subst, ◌⊎◌, inl, inr, Option, some, List, [], ◌∷◌,
  ◌++◌, ◌==◌, length, arith,
}
use ece318_operating_systems.Slob.{Header, Memory, Page, slob_units, slob_next, slob_last}

pub record Block : Type 0 where
  pub addr : ℕ
  pub size : ℕ

abbrev pub block : ℕ → ℕ → Block
block a s = record { addr = a; size = s }

abbrev pub total : List Block → ℕ
total [] = 0
total (b ∷ bs) = b.size + total bs

-- From the address `a` on the headers link these blocks, which do not overlap, up to the address `z`.
abbrev pub Segment : Memory → (a : ℕ) → List Block → (z : ℕ) → Type 0
Segment mem a [] z = a ≡ z
Segment mem a (b ∷ bs) z =
    (a ≡ b.addr)
    × (slob_units mem a ≡ b.size)
    × (0 < b.size)
    × (a + b.size ≤ slob_next mem a)
    × Segment mem (slob_next mem a) bs z

pub segment_le : (mem : Memory) (a z : ℕ) (bs : List Block) → Segment mem a bs z → a + total bs ≤ z
segment_le mem a z [] s = omega arith
segment_le mem a z (b ∷ bs) (at, size, pos, le, rest) =
    omega (arith, segment_le mem (slob_next mem a) z bs rest)

-- Only the headers in the segment matter.
pub Segment-same :
    (mem mem' : Memory) (a z : ℕ) (bs : List Block)
    → ((x : ℕ) → a ≤ x → x < z → mem' x ≡ mem x)
    → Segment mem a bs z
    → Segment mem' a bs z
Segment-same mem mem' a z [] same s = s
Segment-same mem mem' a z (b ∷ bs) same (at, size, pos, le, rest) =
    let bound = segment_le mem (slob_next mem a) z bs rest in
    subst
      (λ (h : Header).
        (a ≡ b.addr)
        × (h.units ≡ b.size)
        × (0 < b.size)
        × (a + b.size ≤ h.next)
        × Segment mem' h.next bs z)
      (sym (same a (omega arith) (omega (arith, bound))))
      (
        at,
        size,
        pos,
        le,
        Segment-same mem mem' (slob_next mem a) z bs
            (λ x le' lt. same x (omega (arith, le, le')) lt) rest,
      )

pub Segment-split :
    (mem : Memory) (a z : ℕ) (xs ys : List Block) (b : Block)
    → Segment mem a (xs ++ b ∷ ys) z
    → Segment mem a xs b.addr × Segment mem b.addr (b ∷ ys) z
Segment-split mem a z [] ys b s = (s.0, subst (λ c. Segment mem c (b ∷ ys) z) s.0 s)
Segment-split mem a z (x ∷ xs) ys b (at, size, pos, le, rest) =
    let (front, back) = Segment-split mem (slob_next mem a) z xs ys b rest in
    ((at, size, pos, le, front), back)

pub Segment-join :
    (mem : Memory) (a m z : ℕ) (xs ys : List Block)
    → Segment mem a xs m
    → Segment mem m ys z
    → Segment mem a (xs ++ ys) z
Segment-join mem a m z [] ys e s = subst (λ c. Segment mem c ys z) (sym e) s
Segment-join mem a m z (x ∷ xs) ys (at, size, pos, le, rest) s =
    (at, size, pos, le, Segment-join mem (slob_next mem a) m z xs ys rest s)

-- The last block of a list, or what came before the list.
abbrev pub last_addr : Option ℕ → List Block → Option ℕ
last_addr prev [] = prev
last_addr prev (b ∷ bs) = last_addr (some b.addr) bs

pub record EndsWith (bs : List Block) : Type 0 where
  pub front : List Block
  pub final : Block
  pub ends : bs ≡ front ++ final ∷ []

pub last_of : (bs : List Block) → (bs ≡ []) ⊎ EndsWith bs
last_of [] = inl refl
last_of (b ∷ bs) = elim (last_of bs) [
  | inl e ↦ inr (record { front = []; final = b; ends = ap (λ (l : List Block). b ∷ l) e })
  | inr s ↦ inr (record {
    front = b ∷ s.front;
    final = s.final;
    ends = ap (λ (l : List Block). b ∷ l) s.ends;
  })
]

pub last_addr-append :
    (prev : Option ℕ) (bs : List Block) (b : Block) → last_addr prev (bs ++ b ∷ []) ≡ some b.addr
last_addr-append prev [] b = refl
last_addr-append prev (x ∷ bs) b = last_addr-append (some x.addr) bs b

-- A page: its blocks lie in it, one behind the other, and the number of its free units is right.
pub record IsPage (k : ℕ) (bs : List Block) (sp : Page) : Type 0 where
  pub starts : k * 2048 ≤ sp.freelist
  pub blocks : Segment sp.mem sp.freelist bs (k * 2048 + 2048)
  pub free : sp.units ≡ total bs

-- The test for the last block is right.
pub slob_last-Segment :
    (mem : Memory) (k a : ℕ) (b : Block) (bs : List Block)
    → k * 2048 ≤ a
    → Segment mem a (b ∷ bs) (k * 2048 + 2048)
    → slob_last mem a ≡ (length bs == 0)
slob_last-Segment mem k a b [] low (at, size, pos, le, rest) = rw (rest) (ground arith)
slob_last-Segment mem k a b (c ∷ bs) low (at, size, pos, le, (at', size', pos', le', rest)) =
    let bound = segment_le mem (slob_next mem (slob_next mem a)) (k * 2048 + 2048) bs rest in
    let inside : slob_next mem a < k * 2048 + 2048 = omega (arith, bound) in ground arith
