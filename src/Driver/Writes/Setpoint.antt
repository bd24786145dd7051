-- ===== src/Driver/Writes/Setpoint.antt =====
-- What power the driver's own guard lets through to the PCS.
use Prim.Native.Nat.{min}
use gridex_edge_gateway.Double.{nan, neg_inf, pos_inf}
use gridex_edge_gateway.Double.Order.{◌≼◌}
use gridex_edge_gateway.Driver.Codec.RoundTrip.{decode-encode_pos, decode-encode_neg, magnitude}
use gridex_edge_gateway.Driver.Poll.{Driver}
use gridex_edge_gateway.Prelude.{ℕ, ◌<◌, ◌≡◌, ◌*◌, arith, suc}
use gridex_edge_gateway.Double.{Double, neg, milli, fin, nought}
use gridex_edge_gateway.Driver.Writes.{
  setpoint_refused, charge_bit, false, true, decode_signed, encode_signed, discharge_bit,
}
use gridex_edge_gateway.Prelude.Int.{pos, negsuc, neg_ℕ}

-- The limits that the driver remembers are registers, as `poll` leaves them.
pub record LimitsFrom (d : Driver) (charge discharge : ℕ) : Type 0 where
  pub charge_word : charge < 32768
  pub discharge_word : discharge < 32768
  pub charge_limit : d.max_charge_kw ≡ milli (charge * 100)
  pub discharge_limit : d.max_discharge_kw ≡ milli (discharge * 100)

-- The power `w` that the PCS reads from the command register is within the BMS limits.
pub record WithinLimits (d : Driver) (w : Double) : Type 0 where
  pub charge : neg d.max_charge_kw ≼ w
  pub discharge : w ≼ d.max_discharge_kw
  pub no_charge : charge_bit d.bms_system_flags ≡ true → nought ≼ w
  pub no_discharge : discharge_bit d.bms_system_flags ≡ true → w ≼ nought

discharging :
    (d : Driver) (m charge discharge : ℕ)
    → LimitsFrom d charge discharge
    → setpoint_refused d (fin (pos m)) ≡ false
    → WithinLimits d (fin (pos (min (magnitude 10 m) 32767 * 100)))
unfolding setpoint_refused magnitude
discharging d m charge discharge f h = ground arith

charging :
    (d : Driver) (m charge discharge : ℕ)
    → LimitsFrom d charge discharge
    → setpoint_refused d (fin (negsuc m)) ≡ false
    → WithinLimits d (fin (neg_ℕ (min (magnitude 10 (suc m)) 32768 * 100)))
unfolding setpoint_refused magnitude
charging d m charge discharge f h = ground arith

-- The guard refuses what is not finite.
nan_refused : (d : Driver) → setpoint_refused d nan ≡ false → ⊥
unfolding setpoint_refused
nan_refused d h = ground arith

neg_inf_refused : (d : Driver) → setpoint_refused d neg_inf ≡ false → ⊥
unfolding setpoint_refused
neg_inf_refused d h = ground arith

pos_inf_refused : (d : Driver) → setpoint_refused d pos_inf ≡ false → ⊥
unfolding setpoint_refused
pos_inf_refused d h = ground arith

-- A setpoint that the guard lets through is written as a register that the PCS reads as a power
-- within the BMS limits and prohibitions exactly: the tolerance of the guard is lost in rounding.
pub setpoint_written :
    (d : Driver) (p : Double) (charge discharge : ℕ)
    → LimitsFrom d charge discharge
    → setpoint_refused d p ≡ false
    → WithinLimits d (decode_signed (encode_signed p 10) 10)
setpoint_written d nan charge discharge f h = absurd (nan_refused d h)
setpoint_written d neg_inf charge discharge f h = absurd (neg_inf_refused d h)
setpoint_written d pos_inf charge discharge f h = absurd (pos_inf_refused d h)
setpoint_written d (fin (pos m)) charge discharge f h =
    rw (decode-encode_pos m) (discharging d m charge discharge f h)
setpoint_written d (fin (negsuc m)) charge discharge f h =
    rw (decode-encode_neg m) (charging d m charge discharge f h)
