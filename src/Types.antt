-- ===== src/Types.antt =====
-- include/gridex/Types.hpp: the values that the safety envelope, the driver, the controller and the
-- register bank exchange. Text is modelled where a decision depends on it: a reason is a constructor.
use gridex_edge_gateway.Prelude.{ℕ, Bool, true, false, Option, none}
use gridex_edge_gateway.Double.{Double, nought}

pub data Quality : Type 0 where
  invalid good stale fault : Quality

abbrev pub is_good : Quality → Bool
is_good good = true
is_good invalid = false
is_good stale = false
is_good fault = false

pub data EdgeState : Type 0 where
  boot waiting_for_comms waiting_for_bms_limits ready safe_mode fault : EdgeState
  commissioning_locked waiting_for_pcs_ready : EdgeState

pub record BatteryTelemetry : Type 0 where
  pub actual_power_kw : Double
  pub commanded_power_kw : Double
  pub dc_power_kw : Double
  pub reactive_power_kvar : Double
  pub frequency_hz : Double
  pub soc_pct : Double
  pub soh_pct : Double
  pub voltage_v : Double
  pub current_a : Double
  pub max_charge_kw : Double
  pub max_discharge_kw : Double
  pub accumulated_charge_kwh : Double
  pub accumulated_discharge_kwh : Double
  pub daily_charge_kwh : Double
  pub daily_discharge_kwh : Double
  pub soc_upper_limit_pct : Double
  pub soc_lower_limit_pct : Double
  pub status_code : ℕ
  pub pcs_status_code : ℕ
  pub bms_system_flags : ℕ
  pub quality : Quality
  pub limits_valid : Bool
  pub pcs_power_on : Bool
  pub pcs_grid_tied : Bool
  pub pcs_current_source_mode : Bool
  pub pcs_fault : Bool
  pub pcs_communication_fault : Bool
  pub bms_fault : Bool
  pub bms_communication_fault : Bool
  pub bms_alarm : Bool
  pub pcs_warning : Bool
  pub extended_telemetry_valid : Bool
  pub control_ready : Bool

-- The member initialisers.
abbrev pub default_telemetry : BatteryTelemetry
default_telemetry = record {
  actual_power_kw = nought;
  commanded_power_kw = nought;
  dc_power_kw = nought;
  reactive_power_kvar = nought;
  frequency_hz = nought;
  soc_pct = nought;
  soh_pct = nought;
  voltage_v = nought;
  current_a = nought;
  max_charge_kw = nought;
  max_discharge_kw = nought;
  accumulated_charge_kwh = nought;
  accumulated_discharge_kwh = nought;
  daily_charge_kwh = nought;
  daily_discharge_kwh = nought;
  soc_upper_limit_pct = nought;
  soc_lower_limit_pct = nought;
  status_code = 0;
  pcs_status_code = 0;
  bms_system_flags = 0;
  quality = Quality.invalid;
  limits_valid = false;
  pcs_power_on = false;
  pcs_grid_tied = false;
  pcs_current_source_mode = false;
  pcs_fault = true;
  pcs_communication_fault = true;
  bms_fault = true;
  bms_communication_fault = true;
  bms_alarm = true;
  pcs_warning = true;
  extended_telemetry_valid = false;
  control_ready = false;
}

pub record SiteLimit : Type 0 where
  pub site_load_kw : Option Double
  pub contract_limit_kw : Option Double

abbrev pub no_site_limit : SiteLimit
no_site_limit = record { site_load_kw = none; contract_limit_kw = none }

pub record ConfiguredPowerLimit : Type 0 where
  pub max_charge_kw : Option Double
  pub max_discharge_kw : Option Double

pub record SafetyInput : Type 0 where
  pub requested_power_kw : Double
  pub battery : BatteryTelemetry
  pub site : SiteLimit
  pub configured_limit : ConfiguredPowerLimit
  pub ems_connected : Bool

-- The texts that `SafetyResult::reason` takes, one constructor for each.
pub data Reason : Type 0 where
  empty_reason : Reason
  safe : Reason
  ems_stale : Reason
  telemetry_not_valid : Reason
  limits_not_valid : Reason
  active_fault : Reason
  communication_fault : Reason
  pcs_not_powered_on : Reason
  pcs_not_grid_tied : Reason
  pcs_not_current_source : Reason
  prerequisites_not_satisfied : Reason
  charge_prohibited : Reason
  discharge_prohibited : Reason
  charge_clamped : Reason
  discharge_clamped : Reason
  write_path_locked : Reason
  write_failed : Reason

pub record SafetyResult : Type 0 where
  pub requested_power_kw : Double
  pub applied_power_kw : Double
  pub clamped : Bool
  pub reason : Reason
