-- ===== src/Prelude/Lists.antt =====
-- Lists measured by native numbers, predicates over all members, and Boolean membership.
use Prim.Native.Nat.{ℕ, suc, ◌+◌}
use mathlib.Core.Path.{◌≡◌, refl, ap, sym, subst}
use mathlib.Core.Logic.{◌≢◌, inl, inr}
use mathlib.Core.Bool.{Bool, true, false, ◌||◌, false≢true}
use mathlib.Core.List.{List, [], ◌∷◌, ◌++◌}
use native.Mathlib.Omega.{arith}
use ece318_operating_systems.Prelude.Tests.{◌==◌, ==_iff, Bool-cases, if◌then◌else◌}

module _ {ℓ} {A : Type ℓ} where
  abbrev pub length : List A → ℕ
  length [] = 0
  length (x ∷ xs) = suc (length xs)

  pub length-append : (xs ys : List A) → length (xs ++ ys) ≡ length xs + length ys
  length-append [] ys = omega arith
  length-append (x ∷ xs) ys = omega (arith, length-append xs ys)

  abbrev pub All {κ} : (A → Type κ) → List A → Type κ
  All P [] = Unit
  All P (x ∷ xs) = P x × All P xs

  pub All-map {κ μ} :
      {P : A → Type κ} {Q : A → Type μ} (xs : List A) → ((x : A) → P x → Q x) → All P xs → All Q xs
  All-map [] f h = tt
  All-map (x ∷ xs) f h = (f x h.0, All-map xs f h.1)

  pub All-map₂ {κ μ ν} :
      {P : A → Type κ} {Q : A → Type μ} {R : A → Type ν} (xs : List A)
      → ((x : A) → P x → Q x → R x)
      → All P xs
      → All Q xs
      → All R xs
  All-map₂ [] f h k = tt
  All-map₂ (x ∷ xs) f h k = (f x h.0 k.0, All-map₂ xs f h.1 k.1)

-- Membership among numbers: pointers, identifiers.
abbrev pub has : ℕ → List ℕ → Bool
has a [] = false
has a (x ∷ xs) = (a == x) || has a xs

-- No number occurs twice.
abbrev pub Distinct : List ℕ → Type 0
Distinct [] = Unit
Distinct (x ∷ xs) = (has x xs ≡ false) × Distinct xs

-- A member differs from what is no member.
pub has-ne : (a b : ℕ) (xs : List ℕ) → has a xs ≡ true → has b xs ≡ false → a ≢ b
has-ne a b xs i o e = cc (ap (λ c. has c xs) e)

-- The list less the first occurrence of a number.
abbrev pub erase : List ℕ → ℕ → List ℕ
erase [] a = []
erase (x ∷ xs) a = if a == x then xs else x ∷ erase xs a

pub has-erase : (a c : ℕ) (xs : List ℕ) → has c xs ≡ false → has c (erase xs a) ≡ false
has-erase a c [] o = refl
has-erase a c (x ∷ xs) o = ground (arith, has-erase a c xs)

pub erase-Distinct : (a : ℕ) (xs : List ℕ) → Distinct xs → Distinct (erase xs a)
erase-Distinct a [] d = tt
erase-Distinct a (x ∷ xs) d = ground (arith, has-erase a x xs, erase-Distinct a xs d.1)

pub not-mem-erase : (a : ℕ) (xs : List ℕ) → Distinct xs → has a (erase xs a) ≡ false
not-mem-erase a [] d = refl
not-mem-erase a (x ∷ xs) d = ground (arith, not-mem-erase a xs d.1)

pub length-erase : (a : ℕ) (xs : List ℕ) → has a xs ≡ true → length xs ≡ suc (length (erase xs a))
length-erase a [] i = cc
length-erase a (x ∷ xs) i = ground (arith, length-erase a xs)

pub All-of_has {κ} : {P : ℕ → Type κ} (xs : List ℕ) → ((c : ℕ) → has c xs ≡ true → P c) → All P xs
All-of_has [] f = tt
All-of_has (x ∷ xs) f = (f x (ground arith), All-of_has xs (λ c i. f c (ground arith)))

pub has-All {κ} : (P : ℕ → Type κ) (c : ℕ) (xs : List ℕ) → has c xs ≡ true → All P xs → P c
has-All P c [] i a = absurd (false≢true i)
has-All P c (x ∷ xs) i a = elim (Bool-cases (c == x)) [
  | inl e ↦ subst P (sym ((==_iff c x).0 e)) a.0
  | inr e ↦ has-All P c xs (ground arith) a.1
]
