-- ===== src/Safety.antt =====
-- src/SafetyEnvelope.cpp: the clamp of a requested power to what the BMS, the configuration and the
-- site allow, and the refusals before it. Positive power discharges, negative power charges.
pub mod Envelope
pub mod Refusal
use gridex_edge_gateway.Prelude.{
  ℕ, ◌/◌, ◌%◌, Bool, true, false, not, ◌&&◌, ◌||◌, if◌then◌else◌, Option, none, some, ◌==◌,
}
use gridex_edge_gateway.Double.{Double, milli, nought, lt, neg, sub, abs, max, min, clamp}
use gridex_edge_gateway.Types.{
  Quality, is_good, BatteryTelemetry, SafetyInput, SafetyResult, Reason, safe, ems_stale,
  telemetry_not_valid, limits_not_valid, active_fault, communication_fault, pcs_not_powered_on,
  pcs_not_grid_tied, pcs_not_current_source, prerequisites_not_satisfied, charge_prohibited,
  discharge_prohibited, charge_clamped, discharge_clamped,
}

-- 0.001.
abbrev pub tolerance_kw : Double
tolerance_kw = milli 1

-- Bits 0 and 1 of the BMS system flags.
abbrev pub charge_bit : ℕ → Bool
charge_bit flags = flags % 2 == 1

abbrev pub discharge_bit : ℕ → Bool
discharge_bit flags = flags / 2 % 2 == 1

-- `std::min(limit, std::max(0.0, *cap))` where the cap is configured.
unfoldable pub capped : Double → Option Double → Double
capped limit none = limit
capped limit (some cap) = min limit (max nought cap)

-- The cap that the free capacity of the site's connection puts on charging.
unfoldable pub headroom_capped : Double → Option Double → Option Double → Double
headroom_capped limit (some load) (some contract) = min limit (max nought (sub contract load))
headroom_capped limit none _ = limit
headroom_capped limit (some load) none = limit

unfoldable pub max_charge : SafetyInput → Double
unfolding capped headroom_capped
max_charge input =
    headroom_capped
      (capped (max nought input.battery.max_charge_kw) input.configured_limit.max_charge_kw)
      input.site.site_load_kw input.site.contract_limit_kw

unfoldable pub max_discharge : SafetyInput → Double
unfolding capped
max_discharge input =
    capped (max nought input.battery.max_discharge_kw) input.configured_limit.max_discharge_kw

unfoldable pub lower_bound : SafetyInput → Double
lower_bound input =
    if charge_bit input.battery.bms_system_flags then nought else neg (max_charge input)

unfoldable pub upper_bound : SafetyInput → Double
upper_bound input =
    if discharge_bit input.battery.bms_system_flags then nought else max_discharge input

unfoldable pub not_ready_reason : BatteryTelemetry → Reason
not_ready_reason b =
    if b.pcs_fault || b.bms_fault
    then active_fault
    else if b.pcs_communication_fault || b.bms_communication_fault
    then communication_fault
    else if not b.pcs_power_on
    then pcs_not_powered_on
    else if not b.pcs_grid_tied
    then pcs_not_grid_tied
    else if not b.pcs_current_source_mode
    then pcs_not_current_source
    else prerequisites_not_satisfied

-- An early return: nothing is applied.
abbrev pub refused : Double → Reason → SafetyResult
refused request why = record {
  requested_power_kw = request;
  applied_power_kw = nought;
  clamped = lt tolerance_kw (abs request);
  reason = why;
}

-- The reason of a result that was not refused.
unfoldable pub clamp_reason : SafetyInput → Bool → Reason
clamp_reason input clamped =
    if charge_bit input.battery.bms_system_flags && lt input.requested_power_kw nought
    then charge_prohibited
    else if discharge_bit input.battery.bms_system_flags && lt nought input.requested_power_kw
    then discharge_prohibited
    else if clamped && lt input.requested_power_kw (lower_bound input)
    then charge_clamped
    else if clamped && lt (upper_bound input) input.requested_power_kw
    then discharge_clamped
    else safe

unfoldable pub clamped_result : SafetyInput → SafetyResult
clamped_result input =
    let request = input.requested_power_kw in
    let applied = clamp request (lower_bound input) (upper_bound input) in
    let clamped = lt tolerance_kw (abs (sub applied request)) in
    record {
      requested_power_kw = request;
      applied_power_kw = applied;
      clamped = clamped;
      reason = clamp_reason input clamped;
    }

-- `SafetyEnvelope::apply`.
unfoldable pub apply : SafetyInput → SafetyResult
apply input =
    let request = input.requested_power_kw in
    if not input.ems_connected
    then refused request ems_stale
    else if not (is_good input.battery.quality)
    then refused request telemetry_not_valid
    else if not input.battery.limits_valid
    then refused request limits_not_valid
    else if not input.battery.control_ready
    then refused request (not_ready_reason input.battery)
    else clamped_result input
