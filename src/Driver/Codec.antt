-- ===== src/Driver/Codec.antt =====
-- The conversions between registers and physical values: `decodeSigned`, `decodeSigned32` and
-- `encodeSigned`. A scale is the number of register units in one physical unit: 1, 10 or 100.
pub mod RoundTrip
use gridex_edge_gateway.Prelude.{ℕ, ◌+◌, ◌*◌}
use gridex_edge_gateway.Prelude.Int.{negsuc}
use gridex_edge_gateway.Prelude.Words.{int16, int32, u16_of}
use gridex_edge_gateway.Double.{Double, fin, milli, clamp, divide, round_scaled, to_ℤ}

unfoldable pub decode_signed : ℕ → ℕ → Double
unfolding divide int16
decode_signed raw scale = divide (int16 raw) scale

-- `(high << 16) | low`, of two 16-bit words, is the sum.
unfoldable pub decode_signed32 : ℕ → ℕ → ℕ → Double
unfolding divide int32
decode_signed32 high low scale = divide (int32 (high * 65536 + low)) scale

-- -32768.0 and 32767.0, in thousandths.
abbrev pub int16_min : Double
int16_min = fin (negsuc 32767999)

abbrev pub int16_max : Double
int16_max = milli 32767000

unfoldable pub encode_signed : Double → ℕ → ℕ
unfolding clamp round_scaled to_ℤ u16_of
encode_signed value scale = u16_of (to_ℤ (clamp (round_scaled value scale) int16_min int16_max))
