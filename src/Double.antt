-- ===== src/Double.antt =====
-- The C++ `double`, as far as the gateway uses it: NaN, the infinities and the finite values, these
-- on a grid of thousandths. Every finite value that the code makes lies on the grid: a register
-- divided by 1, 10 or 100, the constants 0.0 and 0.001 and 100.0, and differences of such.
-- Comparisons with NaN are false, as in C++; +0.0 and -0.0 are one value.
pub mod Order
use gridex_edge_gateway.Prelude.{
  ℕ, ◌+◌, ◌-◌, ◌*◌, ◌/◌, ◌%◌, Bool, true, false, not, ◌||◌, if◌then◌else◌,
}
use gridex_edge_gateway.Prelude.Int.{
  ℤ, pos, negsuc, ◌-ℤ◌, neg_ℤ, on_magnitude, ltb_ℤ, leb_ℤ, pos_part, neg_part, sub_ℕ,
}
use gridex_edge_gateway.Prelude.Words.{int16, int32, u16_of}

pub data Double : Type 0 where
  nan : Double
  neg_inf : Double
  pos_inf : Double
  -- The value in thousandths.
  fin : ℤ → Double

abbrev pub milli : ℕ → Double
milli n = fin (pos n)

abbrev pub nought : Double
nought = milli 0

-- `a < b`.
abbrev pub lt : Double → Double → Bool
lt nan b = false
lt neg_inf nan = false
lt neg_inf neg_inf = false
lt neg_inf pos_inf = true
lt neg_inf (fin b) = true
lt pos_inf b = false
lt (fin a) nan = false
lt (fin a) neg_inf = false
lt (fin a) pos_inf = true
lt (fin a) (fin b) = ltb_ℤ a b

-- `a <= b`.
abbrev pub le : Double → Double → Bool
le nan b = false
le neg_inf nan = false
le neg_inf neg_inf = true
le neg_inf pos_inf = true
le neg_inf (fin b) = true
le pos_inf nan = false
le pos_inf neg_inf = false
le pos_inf pos_inf = true
le pos_inf (fin b) = false
le (fin a) nan = false
le (fin a) neg_inf = false
le (fin a) pos_inf = true
le (fin a) (fin b) = leb_ℤ a b

abbrev pub is_finite : Double → Bool
is_finite (fin a) = true
is_finite _ = false

-- `-a`.
unfoldable pub neg : Double → Double
unfolding neg_ℤ
neg nan = nan
neg neg_inf = pos_inf
neg pos_inf = neg_inf
neg (fin a) = fin (neg_ℤ a)

-- `a - b`.
unfoldable pub sub : Double → Double → Double
unfolding ◌-ℤ◌
sub nan b = nan
sub neg_inf nan = nan
sub neg_inf neg_inf = nan
sub neg_inf pos_inf = neg_inf
sub neg_inf (fin b) = neg_inf
sub pos_inf nan = nan
sub pos_inf neg_inf = pos_inf
sub pos_inf pos_inf = nan
sub pos_inf (fin b) = pos_inf
sub (fin a) nan = nan
sub (fin a) neg_inf = pos_inf
sub (fin a) pos_inf = neg_inf
sub (fin a) (fin b) = fin (a -ℤ b)

-- `a + b`.
unfoldable pub add : Double → Double → Double
unfolding neg sub
add a b = sub a (neg b)

-- `std::abs`.
unfoldable pub abs : Double → Double
abs nan = nan
abs neg_inf = pos_inf
abs pos_inf = pos_inf
abs (fin a) = milli (pos_part a + neg_part a)

-- `std::max`, `std::min` and `std::clamp`, by the comparison that the standard gives them.
unfoldable pub max : Double → Double → Double
max a b = if lt a b then b else a

unfoldable pub min : Double → Double → Double
min a b = if lt b a then b else a

unfoldable pub clamp : Double → Double → Double → Double
clamp v lo hi = if lt v lo then lo else if lt hi v then hi else v

-- `n / scale` of an integer, at the scales 1, 10 and 100.
unfoldable pub divide : ℤ → ℕ → Double
divide n scale = fin (on_magnitude (λ m. m * (1000 / scale)) n)

-- `std::round(a * scale)`: to the nearest integer, halves away from zero.
unfoldable pub round_scaled : Double → ℕ → Double
round_scaled nan scale = nan
round_scaled neg_inf scale = neg_inf
round_scaled pos_inf scale = pos_inf
round_scaled (fin a) scale = fin (on_magnitude (λ m. (m * scale + 500) / 1000 * 1000) a)

-- A conversion to an integer type, of a whole value in its range. Of NaN it is undefined in C++;
-- the instruction of the gateway's ARM64 processor gives 0.
unfoldable pub to_ℤ : Double → ℤ
to_ℤ (fin a) = on_magnitude (λ m. m / 1000) a
to_ℤ _ = pos 0
