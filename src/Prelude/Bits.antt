-- ===== src/Prelude/Bits.antt =====
-- Equality of numbers by their binary digits.
use Prim.Native.Nat.{
  ℕ, zero, suc, ◌*◌, ◌/◌, ◌%◌, ◌^◌, ◌≤◌, ◌<◌, bit_or, bit_xor, digits, differ, max, bit_or-bitwise,
  bit_xor-bitwise,
}
use mathlib.Core.Path.{◌≡◌, refl, sym, ◌∙◌, ap}
use native.Mathlib.Omega.{arith}
use native.Mathlib.Nat.{pow-suc}

differ_zero : (x y : ℕ) → differ x y ≡ 0 → x ≡ y
differ_zero zero y e = sym e
differ_zero (suc x) zero e = e
differ_zero (suc x) (suc y) e = ap suc (differ_zero x y e)

differ_self : (x : ℕ) → differ x x ≡ 0
differ_self zero = refl
differ_self (suc x) = differ_self x

differ_digit : (x y : ℕ) → x < 2 → y < 2 → differ x y < 2
differ_digit zero y h k = k
differ_digit (suc x) zero h k = h
differ_digit (suc x) (suc y) h k = differ_digit x y (omega arith) (omega arith)

or_digits : (n a b : ℕ) → a ≤ n → digits (λ b. b) max n a b ≡ 0 → (a ≡ 0) × (b ≡ 0)
or_digits zero a b h e = (omega arith, e)
or_digits (suc n) zero b h e = (refl, e)
or_digits (suc n) (suc a) b h e =
    let (high, rest) = or_digits n (suc a / 2) (b / 2) (omega arith) (omega arith) in
    absurd (omega arith)

xor_digits : (n a b : ℕ) → a ≤ n → digits (λ b. b) differ n a b ≡ 0 → a ≡ b
xor_digits zero a b h e = omega arith
xor_digits (suc n) zero b h e = sym e
xor_digits (suc n) (suc a) b h e =
    let high = xor_digits n (suc a / 2) (b / 2) (omega arith) (omega arith) in
    let low = differ_zero (suc a % 2) (b % 2) (omega arith) in omega arith

same_digits : (n a : ℕ) → a ≤ n → digits (λ b. b) differ n a a ≡ 0
same_digits zero a h = omega arith
same_digits (suc n) zero h = refl
same_digits (suc n) (suc a) h =
    omega (arith, same_digits n (suc a / 2) (omega arith), differ_self (suc a % 2))

small_digits : (k n a b : ℕ) → a < 2 ^ k → b < 2 ^ k → digits (λ b. b) differ n a b < 2 ^ k
small_digits zero zero a b h g = g
small_digits zero (suc n) zero b h g = g
small_digits zero (suc n) (suc a) b h g = absurd (omega arith)
small_digits (suc k) zero a b h g = g
small_digits (suc k) (suc n) zero b h g = g
small_digits (suc k) (suc n) (suc a) b h g =
    let twice : 2 ^ suc k ≡ 2 ^ k * 2 = pow-suc 2 k in
    omega (
      arith,
      twice,
      small_digits k n (suc a / 2) (b / 2) (omega (arith, twice)) (omega (arith, twice)),
      differ_digit (suc a % 2) (b % 2) (omega arith) (omega arith),
    )

pub bit_or-none : (a b : ℕ) → bit_or a b ≡ 0 → (a ≡ 0) × (b ≡ 0)
bit_or-none a b e = or_digits a a b (omega arith) (sym (λ i. bit_or-bitwise a b i) ∙ e)

pub bit_xor-none : (a b : ℕ) → bit_xor a b ≡ 0 → a ≡ b
bit_xor-none a b e = xor_digits a a b (omega arith) (sym (λ i. bit_xor-bitwise a b i) ∙ e)

pub bit_xor_self : (a : ℕ) → bit_xor a a ≡ 0
bit_xor_self a = (λ i. bit_xor-bitwise a a i) ∙ same_digits a a (omega arith)

pub bit_xor-byte : (a b : ℕ) → a < 256 → b < 256 → bit_xor a b < 256
bit_xor-byte a b h g =
    let e : bit_xor a b ≡ digits (λ d. d) differ a a b = λ i. bit_xor-bitwise a b i in
    rw e (small_digits 8 a a b h g)
