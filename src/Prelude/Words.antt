-- ===== src/Prelude/Words.antt =====
-- 16-bit words: the signed reading of a word, and bytes.
use Prim.Native.Nat.{ℕ, ◌+◌, ◌*◌, ◌/◌, ◌-◌, ◌%◌, ◌<◌}
use mathlib.Core.Path.{◌≡◌}
use native.Mathlib.Omega.{arith}
use gridex_edge_gateway.Prelude.Tests.{ltb, if◌then◌else◌}
use gridex_edge_gateway.Prelude.Int.{ℤ, pos, negsuc}

abbrev pub IsU16 : ℕ → Type 0
IsU16 w = w < 65536

abbrev pub IsByte : ℕ → Type 0
IsByte b = b < 256

-- `static_cast<std::int16_t>` of a 16-bit word.
unfoldable pub int16 : ℕ → ℤ
int16 w = if ltb w 32768 then pos w else negsuc (65535 - w)

-- `static_cast<std::int32_t>` of a 32-bit word.
unfoldable pub int32 : ℕ → ℤ
int32 w = if ltb w 2147483648 then pos w else negsuc (4294967295 - w)

-- `static_cast<std::uint16_t>` of an integer.
unfoldable pub u16_of : ℤ → ℕ
u16_of (pos n) = n % 65536
u16_of (negsuc n) = 65535 - n % 65536

pub u16_of-int16 : (w : ℕ) → IsU16 w → u16_of (int16 w) ≡ w
unfolding u16_of int16
u16_of-int16 w h = ground arith

-- A 16-bit word is what its two bytes say.
pub word_bytes : (v : ℕ) → IsU16 v → v / 256 % 256 * 256 + v % 256 ≡ v
word_bytes v h = omega arith
