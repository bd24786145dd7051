-- ===== src/Tests/Bench.antt =====
-- A storage system that answers every call, and what the gateway sees of it.
use gridex_edge_gateway.Prelude.{ℕ, Bool, true, false, none, some, [], ◌∷◌, if◌then◌else◌, ◌==◌}
use gridex_edge_gateway.Double.{milli, nought, max}
use gridex_edge_gateway.Modbus.{ModbusClient}
use gridex_edge_gateway.Driver.Poll.{
  Driver, CommissioningApproval, poll, digest, telemetry_of, limits_ok, ready_for_control,
  writes_enabled, decode_optional,
}
use gridex_edge_gateway.Controller.{
  Controller, default_config, seconds, tick, beat, heartbeat_due, write_command, is_connected,
}
use gridex_edge_gateway.Types.{no_site_limit}
use gridex_edge_gateway.Driver.Readings.{read_all, required}
use gridex_edge_gateway.Driver.Codec.{decode_signed, encode_signed}
use gridex_edge_gateway.Driver.Writes.{refresh_heartbeat, write_power_setpoint_kw}
use gridex_edge_gateway.Safety.{
  apply, clamped_result, lower_bound, upper_bound, max_charge, max_discharge,
}

-- 50 % charged, 100 kW of charging and 125 kW of discharging allowed.
abbrev pub input_register : ℕ → ℕ
input_register a = if a == 102 then 500 else if a == 127 then 1000 else if a == 128 then 1250 else 0

abbrev pub holding_register : ℕ → ℕ
holding_register a = if a == 5002 then 1 else if a == 5003 then 1 else 0

-- The state is what stands in the command register.
abbrev pub bench : ModbusClient ℕ
bench = record {
  read_input = λ a s. (some (input_register a), s);
  read_input_range = λ a n s. (some (0 ∷ 1 ∷ 0 ∷ 2 ∷ []), s);
  read_holding = λ a s. (some (holding_register a), s);
  read_coil = λ a s. (some false, s);
  write_holding = λ a v s. (true, (if a == 5005 then v else s));
}

abbrev pub approval : Bool → CommissioningApproval
approval given = record {
  addressing_confirmed = given;
  sign_confirmed = given;
  scaling_confirmed = given;
  int32_word_order_confirmed = true;
  int32_high_word_first = true;
}

abbrev pub driver : Bool → Driver
driver given = record {
  approval = approval given;
  control_ready = false;
  limits_valid = false;
  max_charge_kw = nought;
  max_discharge_kw = nought;
  bms_system_flags = 0;
  telemetry_valid = false;
  faults_clear = false;
  grid_mode_ready = false;
  work_mode_ready = false;
}

-- A request of 200 kW of discharge, made at second 100.
abbrev pub controller : Controller
controller = record {
  config = default_config;
  requested_power_kw = milli 200_000;
  site = no_site_limit;
  last_command_at = some (seconds 100);
  last_heartbeat_at = none;
}

-- Unfolding this name lets a test run the controller and the driver.
unfoldable pub runs : Unit {0}
unfolding lower_bound upper_bound max_charge max_discharge tick poll read_all digest required
    telemetry_of limits_ok ready_for_control decode_signed max writes_enabled beat refresh_heartbeat
    heartbeat_due write_command write_power_setpoint_kw apply encode_signed is_connected
    decode_optional clamped_result
runs = tt

-- The window of the state of charge as a device of its own: every write is confirmed.
abbrev pub window_client : ModbusClient (ℕ × ℕ)
window_client = record {
  read_input = λ a s. (none, s);
  read_input_range = λ a n s. (none, s);
  read_holding = λ a s. (some (if a == 5007 then s.1 else s.0), s);
  read_coil = λ a s. (none, s);
  write_holding =
      λ a v s. (true, (if a == 5007 then (s.0, v) else if a == 5008 then (v, s.1) else s));
}
