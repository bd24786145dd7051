-- ===== src/Mbus/Crc.antt =====
-- `MbusNode::crc16` and the framing with it. A frame is a list of bytes.
use gridex_edge_gateway.Prelude.{
  ℕ, zero, suc, ◌+◌, ◌*◌, ◌/◌, ◌%◌, List, [], ◌∷◌, ◌++◌, bit_xor, if◌then◌else◌, ◌==◌, get_or,
}

-- One turn of the inner loop, on a 16-bit word.
unfoldable pub crc_bit : ℕ → ℕ
crc_bit crc = if crc % 2 == 1 then bit_xor (crc / 2) 0xA001 % 65536 else crc / 2

unfoldable pub crc_bits : ℕ → ℕ → ℕ
crc_bits zero crc = crc
crc_bits (suc n) crc = crc_bits n (crc_bit crc)

unfoldable pub crc_from : ℕ → List ℕ → ℕ
crc_from crc [] = crc
crc_from crc (b ∷ bs) = crc_from (crc_bits 8 (bit_xor crc b % 65536)) bs

unfoldable pub crc16 : List ℕ → ℕ
crc16 bytes = crc_from 0xFFFF bytes

-- The low byte goes first.
unfoldable pub with_crc : List ℕ → List ℕ
with_crc response = response ++ (crc16 response % 256 ∷ crc16 response / 256 ∷ [])

-- The high byte goes first.
abbrev pub u16_bytes : ℕ → List ℕ
u16_bytes value = value / 256 % 256 ∷ value % 256 ∷ []

-- `(bytes[0] << 8) | bytes[1]` of two bytes.
abbrev pub read_u16 : List ℕ → ℕ → ℕ
read_u16 bytes at = get_or bytes at 0 * 256 + get_or bytes (at + 1) 0
