-- ===== src/Double/Order.antt =====
-- The order of the doubles that are numbers, and what `max`, `min`, `clamp` and `neg` do to it.
use gridex_edge_gateway.Prelude.{true, ◌≡◌, arith}
use gridex_edge_gateway.Prelude.{◌⊎◌, inl, inr, Bool-cases}
use gridex_edge_gateway.Double.{milli, abs, sub, lt}
use gridex_edge_gateway.Double.{Double, nought, le, neg, max, min, clamp}

infix 50 ◌≼◌
abbrev pub ◌≼◌ : Double → Double → Type 0
a ≼ b = le a b ≡ true

-- A number is what is not NaN.
abbrev pub IsNumber : Double → Type 0
IsNumber a = a ≼ a

pub ≼_trans : (a b c : Double) → a ≼ b → b ≼ c → a ≼ c
≼_trans a b c h k = ground arith

pub neg_antitone : (a b : Double) → a ≼ b → neg b ≼ neg a
unfolding neg
neg_antitone a b h = ground arith

-- `max(0.0, x)` is a number and not negative, also where `x` is NaN.
pub nought-le-max : (a : Double) → nought ≼ max nought a
unfolding max
nought-le-max a = ground arith

pub min-le_left : (a b : Double) → IsNumber a → IsNumber b → min a b ≼ a
unfolding min
min-le_left a b h k = ground arith

pub min-le_right : (a b : Double) → IsNumber a → IsNumber b → min a b ≼ b
unfolding min
min-le_right a b h k = ground arith

pub le-min : (a b c : Double) → c ≼ a → c ≼ b → c ≼ min a b
unfolding min
le-min a b c h k = ground arith

pub clamp_bounds :
    (v lo hi : Double) → IsNumber v → lo ≼ hi → (lo ≼ clamp v lo hi) × (clamp v lo hi ≼ hi)
unfolding clamp
clamp_bounds v lo hi n h = ground arith

-- A value in the range is left as it is.
pub clamp_inside : (v lo hi : Double) → lo ≼ v → v ≼ hi → clamp v lo hi ≡ v
unfolding clamp
clamp_inside v lo hi h k = ground arith

pub IsNumber-right : (a b : Double) → a ≼ b → IsNumber b
IsNumber-right a b h = ground arith

pub IsNumber-left : (a b : Double) → a ≼ b → IsNumber a
IsNumber-left a b h = ground arith

pub neg-le-nought : (a : Double) → nought ≼ a → neg a ≼ nought
unfolding neg
neg-le-nought a h = ground arith

pub neg-le_flip : (a b : Double) → neg a ≼ b → neg b ≼ a
unfolding neg
neg-le_flip a b h = ground arith

-- Among the values of the range the clamped one is nearest to the value, on either side.
pub clamp_nearest :
    (v lo hi q : Double)
    → IsNumber v
    → lo ≼ q
    → q ≼ hi
    → (q ≼ v → q ≼ clamp v lo hi) × (v ≼ q → clamp v lo hi ≼ q)
unfolding clamp
clamp_nearest v lo hi q n h k = ground arith

unmoved : (v : Double) → lt (milli 1) (abs (sub v v)) ≡ true → ⊥
unfolding abs sub
unmoved v h = ground arith

-- A value that `clamp` moved by more than the tolerance was outside the range.
pub clamp_moved :
    (v lo hi : Double)
    → lt (milli 1) (abs (sub (clamp v lo hi) v)) ≡ true
    → (lt v lo ≡ true) ⊎ (lt hi v ≡ true)
unfolding clamp
clamp_moved v lo hi h = elim (Bool-cases (lt v lo)) [
  | inl e ↦ inl e
  | inr e ↦ elim (Bool-cases (lt hi v)) [
    | inl f ↦ inr f
    | inr f ↦ absurd (unmoved v (rw (e, f) at h))
  ]
]
