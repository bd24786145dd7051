-- ===== src/Driver/Poll.antt =====
-- `SunStoragePro261Driver`: its state, and `poll`, which reads the system and refreshes that state.
pub mod Mirror
use gridex_edge_gateway.Prelude.{
  ℕ, Bool, true, false, not, ◌&&◌, Option, none, some, List, if◌then◌else◌, ◌==◌, is_some, value_or,
  length, get_or,
}
use gridex_edge_gateway.Double.{Double, nought, milli, le, max}
use gridex_edge_gateway.Types.{BatteryTelemetry, default_telemetry, good, invalid}
use gridex_edge_gateway.Modbus.{ModbusClient}
use gridex_edge_gateway.Driver.Codec.{decode_signed, decode_signed32}
use gridex_edge_gateway.Driver.Readings.{Readings, Required, required, read_all}

pub record CommissioningApproval : Type 0 where
  pub addressing_confirmed : Bool
  pub sign_confirmed : Bool
  pub scaling_confirmed : Bool
  pub int32_word_order_confirmed : Bool
  pub int32_high_word_first : Bool

unfoldable pub writes_enabled : CommissioningApproval → Bool
writes_enabled a = a.addressing_confirmed && a.sign_confirmed && a.scaling_confirmed

-- The members but for the client, which every operation takes as an argument.
pub record Driver : Type 0 where
  pub approval : CommissioningApproval
  pub control_ready : Bool
  pub limits_valid : Bool
  pub max_charge_kw : Double
  pub max_discharge_kw : Double
  pub bms_system_flags : ℕ
  pub telemetry_valid : Bool
  pub faults_clear : Bool
  pub grid_mode_ready : Bool
  pub work_mode_ready : Bool

-- The constructor.
unfoldable pub new_driver : CommissioningApproval → Driver
new_driver approval = record {
  approval = approval;
  control_ready = false;
  limits_valid = false;
  max_charge_kw = nought;
  max_discharge_kw = nought;
  bms_system_flags = 0;
  telemetry_valid = false;
  faults_clear = false;
  grid_mode_ready = false;
  work_mode_ready = false;
}

-- A register that may be missing, as 0.0 then.
unfoldable pub decode_optional : Option ℕ → ℕ → Double
decode_optional none scale = nought
decode_optional (some raw) scale = decode_signed raw scale

-- The counter in words `i` and `j` of the energy block, in the word order that is approved.
unfoldable pub decode_energy : CommissioningApproval → Option (List ℕ) → ℕ → ℕ → Double
decode_energy a none i j = nought
decode_energy a (some ws) i j =
    if length ws == 4
    then decode_signed32 (if a.int32_high_word_first then get_or ws i 0 else get_or ws j 0)
        (if a.int32_high_word_first then get_or ws j 0 else get_or ws i 0) 10
    else nought

abbrev pub is_energy_block : Option (List ℕ) → Bool
is_energy_block none = false
is_energy_block (some ws) = length ws == 4

unfoldable pub extended_valid : CommissioningApproval → Readings → Bool
extended_valid a r =
    is_some r.pcs_warning
    && is_some r.bms_alarm
    && is_some r.soc_upper_limit
    && is_some r.soc_lower_limit
    && is_some r.reactive_power
    && is_some r.dc_power
    && is_some r.frequency
    && is_some r.commanded_power
    && is_some r.pcs_status
    && is_energy_block r.accumulated_energy
    && is_some r.daily_charge
    && is_some r.daily_discharge
    && a.int32_word_order_confirmed

-- `decodedMaxChargeKw >= 0.0 && … && value.socPct <= 100.0`.
unfoldable pub limits_ok : Required → Bool
limits_ok q =
    le nought (decode_signed q.max_charge 10)
    && le nought (decode_signed q.max_discharge 10)
    && le nought (decode_signed q.soc 10)
    && le (decode_signed q.soc 10) (milli 100000)

unfoldable pub no_faults : Required → Bool
no_faults q =
    not q.pcs_fault
    && not q.pcs_communication_fault
    && not q.bms_fault
    && not q.bms_communication_fault

unfoldable pub grid_tied : Required → Bool
grid_tied q = (q.pcs_grid_mode == 0) && not q.pcs_off_grid

unfoldable pub ready_for_control : Required → Bool
unfolding no_faults grid_tied
ready_for_control q = (q.pcs_power_on == 1) && grid_tied q && (q.pcs_work_mode == 1) && no_faults q

unfoldable pub telemetry_of : CommissioningApproval → Readings → Required → BatteryTelemetry
telemetry_of a r q = record {
  actual_power_kw = decode_signed q.actual_power 10;
  commanded_power_kw = decode_optional r.commanded_power 10;
  dc_power_kw = decode_optional r.dc_power 10;
  reactive_power_kvar = decode_optional r.reactive_power 10;
  frequency_hz = decode_optional r.frequency 100;
  soc_pct = decode_signed q.soc 10;
  soh_pct = decode_signed q.soh 1;
  voltage_v = decode_signed q.voltage 10;
  current_a = decode_signed q.current 10;
  max_charge_kw = max nought (decode_signed q.max_charge 10);
  max_discharge_kw = max nought (decode_signed q.max_discharge 10);
  accumulated_charge_kwh = decode_energy a r.accumulated_energy 0 1;
  accumulated_discharge_kwh = decode_energy a r.accumulated_energy 2 3;
  daily_charge_kwh = decode_optional r.daily_charge 10;
  daily_discharge_kwh = decode_optional r.daily_discharge 10;
  soc_upper_limit_pct = decode_optional r.soc_upper_limit 1;
  soc_lower_limit_pct = decode_optional r.soc_lower_limit 1;
  status_code = q.status;
  pcs_status_code = value_or r.pcs_status 0;
  bms_system_flags = q.system_flags;
  quality = if limits_ok q then good else invalid;
  limits_valid = limits_ok q;
  pcs_power_on = q.pcs_power_on == 1;
  pcs_grid_tied = grid_tied q;
  pcs_current_source_mode = q.pcs_work_mode == 1;
  pcs_fault = q.pcs_fault;
  pcs_communication_fault = q.pcs_communication_fault;
  bms_fault = q.bms_fault;
  bms_communication_fault = q.bms_communication_fault;
  bms_alarm = value_or r.bms_alarm true;
  pcs_warning = value_or r.pcs_warning true;
  extended_telemetry_valid = extended_valid a r;
  control_ready = ready_for_control q;
}

-- The driver after a poll that gave `v` from the readings `q`.
unfoldable pub after_poll : Driver → Required → BatteryTelemetry → Driver
after_poll d q v = record d {
  control_ready = v.control_ready;
  telemetry_valid = true;
  faults_clear = no_faults q;
  grid_mode_ready = v.pcs_grid_tied;
  work_mode_ready = v.pcs_current_source_mode;
  limits_valid = v.limits_valid;
  max_charge_kw = v.max_charge_kw;
  max_discharge_kw = v.max_discharge_kw;
  bms_system_flags = v.bms_system_flags;
}

-- The driver after a poll in which a required reading failed; the limits of the last one stay.
unfoldable pub after_failed_poll : Driver → Driver
after_failed_poll d = record d {
  control_ready = false;
  limits_valid = false;
  telemetry_valid = false;
  faults_clear = false;
  grid_mode_ready = false;
  work_mode_ready = false;
}

unfoldable pub digest : Driver → Readings → BatteryTelemetry × Driver
unfolding required telemetry_of after_poll after_failed_poll
digest d r = elim (required r) [
  | none ↦ (default_telemetry, after_failed_poll d)
  | some q ↦ let v = telemetry_of d.approval r q in (v, after_poll d q v)
]

module _ {S : Type 0} (client : ModbusClient S) where
  unfoldable pub poll : Driver → S → BatteryTelemetry × Driver × S
  poll d s = let (r, s') = read_all client s in let (v, d') = digest d r in (v, d', s')
