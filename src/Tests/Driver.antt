-- ===== src/Tests/Driver.antt =====
-- The driver on concrete readings and devices.
use gridex_edge_gateway.Prelude.{ℕ, true, ◌≡◌, ◌≢◌, refl, arith, inl, ◌<◌, ◌*◌, none}
use gridex_edge_gateway.Double.{milli}
use gridex_edge_gateway.Driver.Poll.Mirror.{digest-control_ready, HasWords, Permits}
use gridex_edge_gateway.Driver.Poll.{digest, Driver}
use gridex_edge_gateway.Driver.Writes.Setpoint.{setpoint_written, WithinLimits, LimitsFrom}
use gridex_edge_gateway.Driver.Writes.SocWindow.{WindowDevice, write_soc_limits_keeps_open, Moved}
use gridex_edge_gateway.Tests.Bench.{runs, bench, driver, window_client}
use gridex_edge_gateway.Driver.Codec.{encode_signed, decode_signed}
use gridex_edge_gateway.Driver.Readings.{Readings, read_all, required}
use gridex_edge_gateway.Driver.Writes.{setpoint_refused, write_soc_limits_pct}

abbrev readings : Readings
unfolding runs
readings = (read_all bench 0).0

digest-control_ready_example :
    ((digest (driver true) readings).0.control_ready ≡ true → Permits readings)
    × (Permits readings
        → required readings ≢ none
        → (digest (driver true) readings).0.control_ready ≡ true)
digest-control_ready_example = digest-control_ready (driver true) readings

readings_words : HasWords readings
unfolding runs
readings_words = record { charge = λ w e. ground arith; discharge = λ w e. ground arith }

abbrev polled : Driver
polled = record (driver true) {
  control_ready = true;
  limits_valid = true;
  max_charge_kw = milli 100_000;
  max_discharge_kw = milli 125_000;
}

polled_limits : LimitsFrom polled 1000 1250
polled_limits = record {
  charge_word = omega arith;
  discharge_word = omega arith;
  charge_limit = refl;
  discharge_limit = refl;
}

-- 125.001 kW pass the guard, and 125.0 kW are written.
setpoint_written_example : WithinLimits polled (decode_signed (encode_signed (milli 125_001) 10) 10)
unfolding runs setpoint_refused
setpoint_written_example = setpoint_written polled (milli 125_001) 1000 1250 polled_limits refl

abbrev IsOpen : ℕ × ℕ → Type 0
IsOpen s = s.0 < s.1

window_device : WindowDevice window_client (λ s. s.0) (λ s. s.1) IsOpen
window_device = record {
  read_keeps = λ a s h. h;
  read_lower_same = λ a s. refl;
  read_upper_same = λ a s. refl;
  read_lower = λ s v e. ground arith;
  read_upper = λ s v e. ground arith;
  write_lower_keeps = λ v s h w. w;
  write_upper_keeps = λ v s h w. w;
  write_lower = λ v s. (refl, inl refl);
  write_upper = λ v s. (refl, inl refl);
}

abbrev polled_driver : Driver
polled_driver = record polled { telemetry_valid = true }

-- From 10 to 40 percent the window moves to 60 to 90 percent.
write_soc_limits_keeps_open_example :
    Moved window_client
      (λ s. s.0)
      (λ s. s.1)
      IsOpen
      window_device
      60
      90
      (write_soc_limits_pct window_client polled_driver
        (milli (60 * 1000))
        (milli (90 * 1000))
        (10, 40))
write_soc_limits_keeps_open_example =
    write_soc_limits_keeps_open window_client (λ s. s.0) (λ s. s.1) IsOpen window_device
      polled_driver 60 90 (10, 40) (omega arith) (omega arith) (omega arith)
