-- ===== src/Driver/Writes.antt =====
-- The writes of `SunStoragePro261Driver`. Each returns false where a guard or a call refuses it; a
-- guard that refuses makes no call.
pub mod Setpoint
pub mod SocWindow
use gridex_edge_gateway.Prelude.{
  ℕ, Bool, true, false, not, ◌&&◌, ◌||◌, Option, none, some, if◌then◌else◌,
}
use gridex_edge_gateway.Double.{Double, nought, milli, lt, le, neg, is_finite, add}
use gridex_edge_gateway.Modbus.{ModbusClient, Io, ◌>>=◌, pure}
use gridex_edge_gateway.Driver.Codec.{decode_signed, encode_signed}
use gridex_edge_gateway.Driver.Poll.{Driver, writes_enabled}
use gridex_edge_gateway.Driver.Registers
use gridex_edge_gateway.Safety.{charge_bit, discharge_bit, tolerance_kw}

-- `-p > max + tolerance` and the like: the BMS limits as the driver remembers them.
unfoldable pub exceeds_limits : Driver → Double → Bool
unfolding neg add
exceeds_limits d p =
    (lt p (neg tolerance_kw)
      && (charge_bit d.bms_system_flags || lt (add d.max_charge_kw tolerance_kw) (neg p)))
    || (lt tolerance_kw p
        && (discharge_bit d.bms_system_flags || lt (add d.max_discharge_kw tolerance_kw) p))

unfoldable pub setpoint_refused : Driver → Double → Bool
unfolding writes_enabled exceeds_limits
setpoint_refused d p =
    not (writes_enabled d.approval)
    || not d.control_ready
    || not d.limits_valid
    || not (is_finite p)
    || exceeds_limits d p

unfoldable pub power_on_refused : Driver → Bool
power_on_refused d = not d.faults_clear || not d.grid_mode_ready || not d.work_mode_ready

unfoldable pub soc_limits_refused : Driver → Double → Double → Bool
unfolding writes_enabled
soc_limits_refused d lower upper =
    not (writes_enabled d.approval)
    || not d.telemetry_valid
    || not (is_finite lower)
    || not (is_finite upper)
    || lt lower nought
    || lt (milli 100000) upper
    || le upper lower

module _ {S : Type 0} (client : ModbusClient S) where
  unfoldable pub refresh_heartbeat : Driver → ℕ → Io S Bool
  unfolding writes_enabled
  refresh_heartbeat d timeout = if not (writes_enabled d.approval) then pure false else do
    enabled ← client.write_holding Registers.heartbeat_enable 1
    if enabled then client.write_holding Registers.heartbeat_seconds timeout else pure false

  unfoldable pub write_power_setpoint_kw : Driver → Double → Io S Bool
  unfolding setpoint_refused
  write_power_setpoint_kw d p =
      if setpoint_refused d p
      then pure false
      else client.write_holding Registers.pcs_power_command (encode_signed p 10)

  unfoldable pub write_reactive_power_setpoint_kvar : Driver → Double → Io S Bool
  unfolding writes_enabled
  write_reactive_power_setpoint_kvar d q =
      if not (writes_enabled d.approval) || not d.control_ready || not (is_finite q)
      then pure false
      else client.write_holding Registers.pcs_reactive_power_command (encode_signed q 10)

  -- Switching off first takes the setpoint to 0.0; both calls are made in any case.
  unfoldable pub write_power_state : Driver → Bool → S → Bool × Driver × S
  unfolding writes_enabled power_on_refused
  write_power_state d on s =
      if not (writes_enabled d.approval) || not d.telemetry_valid
      then (false, d, s)
      else if on
      then (if power_on_refused d
          then (false, d, s)
          else let (done, s') = client.write_holding Registers.pcs_power_on 1 s in (done, d, s'))
      else let (zero_written, s1) =
          client.write_holding Registers.pcs_power_command (encode_signed nought 10) s in
        let (stopped, s2) = client.write_holding Registers.pcs_power_on 0 s1 in
        (zero_written && stopped, (if stopped then record d { control_ready = false } else d), s2)

  -- `if (test && !write(…)) return false;`, then the rest.
  unfoldable pub write_if : Bool → ℕ → ℕ → Io S Bool → Io S Bool
  write_if test address value rest =
      if test
      then (do done ← client.write_holding address value; if done then rest else pure false)
      else rest

  -- Widen first, then tighten.
  unfoldable pub move_soc_window : Double → Double → Double → Double → Io S Bool
  move_soc_window lower upper old_lower old_upper =
      let put_upper = encode_signed upper 1 in
      let put_lower = encode_signed lower 1 in
      write_if (lt old_upper upper) Registers.pcs_soc_upper_limit put_upper (
        write_if (lt lower old_lower) Registers.pcs_soc_lower_limit put_lower (
          write_if (le upper old_upper) Registers.pcs_soc_upper_limit put_upper
            (write_if (le old_lower lower) Registers.pcs_soc_lower_limit put_lower (pure true))))

  unfoldable pub after_window_reads : Double → Double → Option ℕ → Option ℕ → Io S Bool
  after_window_reads lower upper none _ = pure false
  after_window_reads lower upper (some u) none = pure false
  after_window_reads lower upper (some u) (some l) =
      move_soc_window lower upper (decode_signed l 1) (decode_signed u 1)

  unfoldable pub write_soc_limits_pct : Driver → Double → Double → Io S Bool
  write_soc_limits_pct d lower upper = if soc_limits_refused d lower upper then pure false else do
    current_upper ← client.read_holding Registers.pcs_soc_upper_limit
    current_lower ← client.read_holding Registers.pcs_soc_lower_limit
    after_window_reads lower upper current_upper current_lower
