-- ===== src/Driver/Codec/RoundTrip.antt =====
-- A register decoded and encoded again.
use Prim.Native.Nat.{min, suc}
use gridex_edge_gateway.Prelude.{
  ℕ, ◌≡◌, arith, ◌*◌, ◌-◌, ◌+◌, ◌/◌, ◌%◌, ◌⊎◌, inl, ◌<◌, inr, Bool-cases, ltb,
}
use gridex_edge_gateway.Prelude.Int.{pos, negsuc, neg_ℕ}
use gridex_edge_gateway.Double.{fin}
use gridex_edge_gateway.Driver.Codec.{encode_signed, decode_signed}
use gridex_edge_gateway.Prelude.Words.{IsU16}

-- What a finite value is written as: the scaled magnitude, rounded and saturated, in two's complement.
module _ (scale : ℕ) where
  unfoldable pub magnitude : ℕ → ℕ
  magnitude m = (m * scale + 500) / 1000

  pub encode_pos : (m : ℕ) → encode_signed (fin (pos m)) scale ≡ min (magnitude m) 32767
  unfolding encode_signed magnitude
  encode_pos m = ground arith

  pub encode_neg :
      (m : ℕ)
      → encode_signed (fin (negsuc m)) scale ≡ (65536 - min (magnitude (suc m)) 32768) % 65536
  unfolding encode_signed magnitude
  encode_neg m = ground arith

-- The scales that the driver uses.
abbrev pub IsScale : ℕ → Type 0
IsScale s = (s ≡ 1) ⊎ (s ≡ 10) ⊎ (s ≡ 100)

magnitude-scaled : (s m : ℕ) → IsScale s → magnitude s (m * (1000 / s)) ≡ m
unfolding magnitude
magnitude-scaled s m (inl e) = rw e (omega arith)
magnitude-scaled s m (inr (inl e)) = rw e (omega arith)
magnitude-scaled s m (inr (inr e)) = rw e (omega arith)

scaled_pos : (s m : ℕ) → IsScale s → 0 < suc m * (1000 / s)
scaled_pos s m (inl e) = rw e (omega arith)
scaled_pos s m (inr (inl e)) = rw e (omega arith)
scaled_pos s m (inr (inr e)) = rw e (omega arith)

-- A register that is decoded and encoded again at its scale is the same register: the driver's
-- conversions lose nothing.
pub encode_signed-decode_signed :
    (raw scale : ℕ)
    → IsU16 raw
    → IsScale scale
    → encode_signed (decode_signed raw scale) scale ≡ raw
unfolding decode_signed
encode_signed-decode_signed raw scale h k = elim (Bool-cases (ltb raw 32768)) [
  | inl e ↦ ground (arith, encode_pos scale (raw * (1000 / scale)), magnitude-scaled scale raw k)
  | inr e ↦
      let m = 65535 - raw in
      ground (
        arith,
        encode_neg scale (suc m * (1000 / scale) - 1),
        magnitude-scaled scale (suc m) k,
        scaled_pos scale m k,
      )
]

-- What a device reads back from a finite value written at the scale 10, in thousandths.
pub decode-encode_pos :
    (m : ℕ)
    → decode_signed (encode_signed (fin (pos m)) 10) 10
      ≡ fin (pos (min (magnitude 10 m) 32767 * 100))
unfolding decode_signed
decode-encode_pos m = rw (encode_pos 10 m) (ground arith)

pub decode-encode_neg :
    (m : ℕ)
    → decode_signed (encode_signed (fin (negsuc m)) 10) 10
      ≡ fin (neg_ℕ (min (magnitude 10 (suc m)) 32768 * 100))
unfolding decode_signed
decode-encode_neg m = rw (encode_neg 10 m) (ground arith)
