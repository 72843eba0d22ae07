-- ===== src/Scheduler/Select/Aging.antt =====
-- How the goodness of Project 2/schedule.c weighs a task: it falls as the task waits, and rises with
-- its predicted burst.
use native.Mathlib.Nat.{mod-eq_of_lt, div_self}
use ece318_operating_systems.Prelude.{ℕ, ◌+◌, ◌*◌, ◌/◌, ◌≤◌, ◌<◌, ◌≡◌, arith, refl, ap, ◌∙◌}
use ece318_operating_systems.Scheduler.Machine.{Machine, ok, u64_mod, ullong_max, add64}
use ece318_operating_systems.Scheduler.Select.{calc_goodness}
use ece318_operating_systems.Scheduler.Select.Goodness.{goodness_value, calc_goodness-ok}

div-mono-left : (a b d : ℕ) → a ≤ b → a / d ≤ b / d
div-mono-left a b d h = grind arith

div-mono-right : (a d e : ℕ) → 0 < d → d ≤ e → a / e ≤ a / d
div-mono-right a d e p h = grind arith

div-le : (a d : ℕ) → a / d ≤ a
div-le a d = grind arith

add64_small : (a : ℕ) → a < ullong_max → add64 1 a ≡ 1 + a
add64_small a h = omega arith

mul_mono : (a a' b b' : ℕ) → a ≤ a' → b ≤ b' → a * b ≤ a' * b'
mul_mono a a' b b' p q = grind arith

mul-lt : (a a' b : ℕ) {n : ℕ} → a ≤ a' → a' * b < n → a * b < n
mul-lt a a' b p q = grind arith

one-le-div : (a d : ℕ) → 0 < d → d ≤ a → 1 ≤ a / d
one-le-div a d p h = grind arith

product-lt : (a b d e : ℕ) → a * b < u64_mod → (a / d) * (b / e) < u64_mod
product-lt a b d e h = omega (arith, mul_mono (a / d) a (b / e) b (div-le a d) (div-le b e))

-- Without overflow the value is the product of the two quotients.
value_small :
    (b mb mw w : ℕ)
    → b < ullong_max
    → mb < ullong_max
    → mw < ullong_max
    → w < ullong_max
    → (1 + b) * (1 + mw) < u64_mod
    → goodness_value b mb mw w ≡ ((1 + b) / (1 + mb)) * ((1 + mw) / (1 + w))
value_small b mb mw w hb hmb hmw hw small =
    rw (add64_small b hb, add64_small mb hmb, add64_small mw hmw, add64_small w hw)
      (mod-eq_of_lt (product-lt (1 + b) (1 + mw) (1 + mb) (1 + w) small))

goodness_mono :
    (b b' mb mw w w' : ℕ)
    → b' < ullong_max
    → mb ≤ b
    → b ≤ b'
    → mw < ullong_max
    → w ≤ mw
    → w' ≤ w
    → (1 + b') * (1 + mw) < u64_mod
    → (1 ≤ goodness_value b mb mw w)
      × (goodness_value b mb mw w ≤ goodness_value b' mb mw w')
      × (goodness_value mb mb mw mw ≡ 1)
goodness_mono b b' mb mw w w' hb hm bb hmw hw ww small =
    rw
      (
        value_small b mb mw w (omega arith) (omega arith) hmw (omega arith)
            (mul-lt (1 + b) (1 + b') (1 + mw) (omega arith) small),
        value_small b' mb mw w' hb (omega arith) hmw (omega arith) small,
        value_small mb mb mw mw (omega arith) (omega arith) hmw hmw
            (mul-lt (1 + mb) (1 + b') (1 + mw) (omega arith) small),
      )
      (
        mul_mono 1 ((1 + b) / (1 + mb)) 1 ((1 + mw) / (1 + w))
            (one-le-div (1 + b) (1 + mb) (omega arith) (omega arith))
            (one-le-div (1 + mw) (1 + w) (omega arith) (omega arith)),
        mul_mono _ _ _ _ (div-mono-left (1 + b) (1 + b') (1 + mb) (omega arith))
            (div-mono-right (1 + mw) (1 + w') (1 + w) (omega arith) (omega arith)),
        rw (div_self {n = 1 + mb} (omega arith), div_self {n = 1 + mw} (omega arith)) refl,
      )

-- In any state `calc_goodness` of a task never rises while the task waits longer, never falls as its
-- predicted burst grows, is at least 1, and is 1 for a task that has both the least prediction and the
-- longest wait, as long as predictions and waiting times stay below ULLONG_MAX and the product of prediction
-- and longest wait, each with 1 added, below 2^64.
pub calc_goodness_mono :
    (m : Machine) (b b' mb mw w w' : ℕ)
    → b' < ullong_max
    → mb ≤ b
    → b ≤ b'
    → mw < ullong_max
    → w ≤ mw
    → w' ≤ w
    → (1 + b') * (1 + mw) < u64_mod
    → (g g' : ℕ) × ((calc_goodness b mb mw w m ≡ ok g m)
        × (calc_goodness b' mb mw w' m ≡ ok g' m)
        × (calc_goodness mb mb mw mw m ≡ ok 1 m)
        × (1 ≤ g)
        × (g ≤ g'))
calc_goodness_mono m b b' mb mw w w' hb hm bb hmw hw ww small =
    let (least, rises, one) = goodness_mono b b' mb mw w w' hb hm bb hmw hw ww small in
    (
      goodness_value b mb mw w,
      goodness_value b' mb mw w',
      (
        calc_goodness-ok b mb mw w m (omega arith) (omega arith),
        calc_goodness-ok b' mb mw w' m (omega arith) (omega arith),
        calc_goodness-ok mb mb mw mw m (omega arith) (omega arith) ∙ ap (λ g. ok g m) one,
        least,
        rises,
      ),
    )
