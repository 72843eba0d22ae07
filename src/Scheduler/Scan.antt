-- ===== src/Scheduler/Scan.antt =====
-- The selection that the three loops of Project 2/schedule.c make: a candidate replaces the current
-- choice when its value beats the best value so far.
use ece318_operating_systems.Prelude.{
  ℕ, ◌≡◌, refl, Bool, true, false, ◌⊎◌, inl, inr, List, [], ◌∷◌, ◌++◌, Bool-cases, if◌then◌else◌,
  All, has, arith, ap,
}
use ece318_operating_systems.Scheduler.Machine.{Ptr}

unfoldable pub scan : (ℕ → ℕ → Bool) → (Ptr → ℕ) → List Ptr → Ptr → ℕ → Ptr
scan beats f [] curr best = curr
scan beats f (x ∷ xs) curr best =
    let beaten = beats (f x) best in
    scan beats f xs (if beaten then x else curr) (if beaten then f x else best)

-- `p` stands on the list, beats all that stand before it, and no later one beats it.
pub record IsBest (beats : ℕ → ℕ → Bool) (f : Ptr → ℕ) (xs : List Ptr) (p : Ptr) : Type 0 where
  pub before : List Ptr
  pub after : List Ptr
  pub split : xs ≡ before ++ p ∷ after
  pub beats_before : All (λ y. beats (f p) (f y) ≡ true) before
  pub unbeaten_after : All (λ y. beats (f y) (f p) ≡ false) after

pub has-append : (p : Ptr) (xs ys : List Ptr) → has p (xs ++ p ∷ ys) ≡ true
has-append p [] ys = ground arith
has-append p (x ∷ xs) ys = ground (arith, has-append p xs ys)

pub IsBest-has :
    (beats : ℕ → ℕ → Bool) (f : Ptr → ℕ) (xs : List Ptr) (p : Ptr)
    → IsBest beats f xs p
    → has p xs ≡ true
IsBest-has beats f xs p b = rw b.split (has-append p b.before b.after)

-- Either nothing on the list beats `best` and the choice stays, or the best of the list is chosen.
abbrev pub Outcome : (ℕ → ℕ → Bool) → (Ptr → ℕ) → List Ptr → Ptr → ℕ → Ptr → Type 0
Outcome beats f xs curr best p =
    ((p ≡ curr) × All (λ y. beats (f y) best ≡ false) xs)
    ⊎ (IsBest beats f xs p × (beats (f p) best ≡ true))

module _ (beats : ℕ → ℕ → Bool) (f : Ptr → ℕ)
    (trans : (a b c : ℕ) → beats a b ≡ true → beats b c ≡ true → beats a c ≡ true)
    (past : (a b c : ℕ) → beats a b ≡ true → beats c b ≡ false → beats a c ≡ true) where
  later :
      (x : Ptr) (xs : List Ptr) (p : Ptr)
      → IsBest beats f xs p
      → beats (f p) (f x) ≡ true
      → IsBest beats f (x ∷ xs) p
  later x xs p b e = record {
    before = x ∷ b.before;
    after = b.after;
    split = ap (λ (l : List Ptr). x ∷ l) b.split;
    beats_before = (e, b.beats_before);
    unbeaten_after = b.unbeaten_after;
  }

  pub scan-Outcome :
      (xs : List Ptr) (curr : Ptr) (best : ℕ)
      → Outcome beats f xs curr best (scan beats f xs curr best)
  unfolding scan
  scan-Outcome [] curr best = inl (refl, tt)
  scan-Outcome (x ∷ xs) curr best = elim (Bool-cases (beats (f x) best)) [
    | inl e ↦ rw e (elim (scan-Outcome xs x (f x)) [
      | inl (same, none_beats) ↦ rw same (
          inr (
            record {
              before = [];
              after = xs;
              split = refl;
              beats_before = tt;
              unbeaten_after = none_beats;
            },
            e,
          ))
      | inr (b, beat) ↦ inr (later x xs _ b beat, trans _ _ _ beat e)
    ])
    | inr e ↦ rw e (elim (scan-Outcome xs curr best) [
      | inl (same, none_beats) ↦ inl (same, (refl, none_beats))
      | inr (b, beat) ↦ inr (later x xs _ b (past _ _ _ beat e), beat)
    ])
  ]

  -- Over values that all beat the first bound, the best of a list that is not empty is chosen.
  pub scan-IsBest :
      (x : Ptr) (xs : List Ptr) (curr : Ptr) (best : ℕ)
      → beats (f x) best ≡ true
      → IsBest beats f (x ∷ xs) (scan beats f (x ∷ xs) curr best)
  scan-IsBest x xs curr best e = elim (scan-Outcome (x ∷ xs) curr best) [
    | inl (same, none_beats) ↦ absurd (cc (e, none_beats.0))
    | inr (b, beat) ↦ b
  ]
