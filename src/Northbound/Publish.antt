-- ===== src/Northbound/Publish.antt =====
-- What `NorthboundRegisterBank` shows of the gateway: `publish` and `publishNode`.
use gridex_edge_gateway.Prelude.{
  ℕ, ◌+◌, ◌*◌, ◌-◌, ◌/◌, ◌%◌, Bool, not, ◌&&◌, List, [], ◌∷◌, if◌then◌else◌, ltb, leb, value_or,
  set_all,
}
use gridex_edge_gateway.Prelude.Int.{ℤ, pos, negsuc}
use gridex_edge_gateway.Prelude.Words.{u16_of}
use gridex_edge_gateway.Double.{Double, nought, milli, is_finite, clamp, round_scaled, to_ℤ}
use gridex_edge_gateway.Driver.Codec.{int16_min, int16_max}
use gridex_edge_gateway.Types.{EdgeState, BatteryTelemetry, ConfiguredPowerLimit, is_good}
use gridex_edge_gateway.Controller.{ControllerSnapshot}
use gridex_edge_gateway.Northbound.Bank.{
  NorthboundRegisterBank, node_slot_base, node_slot_stride, node_slot_count,
}
use gridex_edge_gateway.Telemetry.{MbusNodeTelemetry}
use gridex_edge_gateway.Northbound.Input as Input
use gridex_edge_gateway.Northbound.Slot as Slot

unfoldable pub encode_signed_x10 : Double → ℕ
unfolding clamp round_scaled to_ℤ u16_of
encode_signed_x10 value = u16_of (to_ℤ (clamp (round_scaled value 10) int16_min int16_max))

-- The conversion of a value that is not negative.
abbrev pub natural : ℤ → ℕ
natural (pos n) = n
natural (negsuc n) = 0

unfoldable pub encode_unsigned : Double → ℕ → ℕ
unfolding clamp round_scaled to_ℤ
encode_unsigned value scale =
    if not (is_finite value)
    then 0
    else natural (to_ℤ (clamp (round_scaled value scale) nought (milli 65535000)))

unfoldable pub encode_unsigned32 : Double → ℕ → ℕ
unfolding clamp round_scaled to_ℤ
encode_unsigned32 value scale =
    if not (is_finite value)
    then 0
    else natural (to_ℤ (clamp (round_scaled value scale) nought (milli 4294967295000)))

abbrev pub edge_state_word : EdgeState → ℕ
edge_state_word EdgeState.boot = 0
edge_state_word EdgeState.waiting_for_comms = 1
edge_state_word EdgeState.waiting_for_bms_limits = 2
edge_state_word EdgeState.ready = 3
edge_state_word EdgeState.safe_mode = 4
edge_state_word EdgeState.fault = 5
edge_state_word EdgeState.commissioning_locked = 6
edge_state_word EdgeState.waiting_for_pcs_ready = 7

-- A bit that is or-ed into a word where it was clear.
abbrev pub flag : Bool → ℕ → ℕ
flag b v = if b then v else 0

unfoldable pub quality_bits : ControllerSnapshot → ℕ
quality_bits s =
    flag (is_good s.battery.quality) 1
    + flag s.battery.limits_valid 2
    + flag s.ems_connected 4
    + flag s.heartbeat_ok 8
    + flag (not s.battery.pcs_fault && not s.battery.bms_fault) 16
    + flag s.battery.control_ready 32
    + flag s.battery.extended_telemetry_valid 64

unfoldable pub alarm_bits : BatteryTelemetry → ℕ
alarm_bits t = flag t.pcs_warning 1 + flag t.bms_alarm 2

-- The assignments of `publish`, in their order.
unfoldable pub published : ControllerSnapshot → ConfiguredPowerLimit → List (ℕ × ℕ)
unfolding quality_bits alarm_bits encode_signed_x10 encode_unsigned encode_unsigned32
published s limit =
    let t = s.battery in
    (Input.actual_power_kw_x10, encode_signed_x10 t.actual_power_kw)
    ∷ (Input.soc_pct_x10, encode_unsigned t.soc_pct 10)
    ∷ (Input.soh_pct, encode_unsigned t.soh_pct 1)
    ∷ (Input.voltage_vx10, encode_unsigned t.voltage_v 10)
    ∷ (Input.current_ax10, encode_signed_x10 t.current_a)
    ∷ (Input.max_charge_kw_x10, encode_unsigned t.max_charge_kw 10)
    ∷ (Input.max_discharge_kw_x10, encode_unsigned t.max_discharge_kw 10)
    ∷ (Input.battery_status, t.status_code)
    ∷ (Input.battery_system_flags, t.bms_system_flags)
    ∷ (Input.quality_bits, quality_bits s)
    ∷ (Input.edge_state, edge_state_word s.state)
    ∷ (Input.applied_power_kw_x10, encode_signed_x10 s.command.applied_power_kw)
    ∷ (Input.control_ready, flag t.control_ready 1)
    ∷ (Input.configured_max_charge_kw_x10, encode_unsigned (value_or limit.max_charge_kw nought) 10)
    ∷ (
      Input.configured_max_discharge_kw_x10,
      encode_unsigned (value_or limit.max_discharge_kw nought) 10,
    )
    ∷ (Input.dc_power_kw_x10, encode_signed_x10 t.dc_power_kw)
    ∷ (Input.commanded_power_kw_x10, encode_signed_x10 t.commanded_power_kw)
    ∷ (Input.pcs_status, t.pcs_status_code)
    ∷ (Input.reactive_power_kvar_x10, encode_signed_x10 t.reactive_power_kvar)
    ∷ (Input.accumulated_charge_kwh_x10_high, encode_unsigned32 t.accumulated_charge_kwh 10 / 65536)
    ∷ (Input.accumulated_charge_kwh_x10_low, encode_unsigned32 t.accumulated_charge_kwh 10 % 65536)
    ∷ (
      Input.accumulated_discharge_kwh_x10_high,
      encode_unsigned32 t.accumulated_discharge_kwh 10 / 65536,
    )
    ∷ (
      Input.accumulated_discharge_kwh_x10_low,
      encode_unsigned32 t.accumulated_discharge_kwh 10 % 65536,
    )
    ∷ (Input.daily_charge_kwh_x10, encode_unsigned t.daily_charge_kwh 10)
    ∷ (Input.daily_discharge_kwh_x10, encode_unsigned t.daily_discharge_kwh 10)
    ∷ (Input.alarm_bits, alarm_bits t)
    ∷ (Input.frequency_hz_x100, encode_unsigned t.frequency_hz 100)
    ∷ (Input.soc_upper_limit_pct, encode_unsigned t.soc_upper_limit_pct 1)
    ∷ (Input.soc_lower_limit_pct, encode_unsigned t.soc_lower_limit_pct 1)
    ∷ (Input.extended_telemetry_valid, flag t.extended_telemetry_valid 1)
    ∷ (Input.pcs_power_on, flag t.pcs_power_on 1)
    ∷ (Input.pcs_grid_tied, flag t.pcs_grid_tied 1)
    ∷ (Input.pcs_current_source_mode, flag t.pcs_current_source_mode 1)
    ∷ []

unfoldable pub publish :
    ControllerSnapshot → ConfiguredPowerLimit → NorthboundRegisterBank → NorthboundRegisterBank
unfolding published
publish s limit b = record b { input = set_all (published s limit) b.input }

unfoldable pub age_seconds : ℕ → MbusNodeTelemetry → ℕ
age_seconds now sample =
    let age = if sample.online then (now - sample.last_seen) / 1_000_000_000 else 65535 in
    if ltb 65535 age then 65535 else age

-- The assignments of `publishNode`, from the first register of the slot on.
unfoldable pub published_node : ℕ → ℕ → MbusNodeTelemetry → List (ℕ × ℕ)
unfolding age_seconds encode_signed_x10
published_node now base sample =
    (base + Slot.online, flag sample.online 1)
    ∷ (base + Slot.address, sample.address)
    ∷ (base + Slot.node_type, sample.node_type)
    ∷ (base + Slot.node_state, sample.node_state)
    ∷ (base + Slot.driver_id, sample.driver_id)
    ∷ (base + Slot.quality, sample.quality)
    ∷ (base + Slot.heartbeat, sample.heartbeat)
    ∷ (base + Slot.actual_power_kw_x10, encode_signed_x10 sample.actual_power_kw)
    ∷ (base + Slot.energy_wh_high, sample.energy_wh / 65536 % 65536)
    ∷ (base + Slot.energy_wh_low, sample.energy_wh % 65536)
    ∷ (base + Slot.device_state, sample.device_state)
    ∷ (base + Slot.alarm_bits, sample.alarm_bits)
    ∷ (base + Slot.cloud_connected, flag sample.cloud_connected 1)
    ∷ (base + Slot.age_seconds, age_seconds now sample)
    ∷ []

unfoldable pub publish_node :
    ℕ → ℕ → MbusNodeTelemetry → NorthboundRegisterBank → NorthboundRegisterBank
unfolding published_node
publish_node now slot sample b = if leb node_slot_count slot then b else record b {
  input = set_all (published_node now (node_slot_base + slot * node_slot_stride) sample) b.input;
}
