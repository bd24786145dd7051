-- ===== src/Northbound/Input.antt =====
-- The `input` addresses of include/gridex/NorthboundMap.hpp: what the gateway publishes.
use gridex_edge_gateway.Prelude.{ℕ}

abbrev pub actual_power_kw_x10 : ℕ
actual_power_kw_x10 = 0

abbrev pub soc_pct_x10 : ℕ
soc_pct_x10 = 1

abbrev pub soh_pct : ℕ
soh_pct = 2

abbrev pub voltage_vx10 : ℕ
voltage_vx10 = 3

abbrev pub current_ax10 : ℕ
current_ax10 = 4

abbrev pub max_charge_kw_x10 : ℕ
max_charge_kw_x10 = 5

abbrev pub max_discharge_kw_x10 : ℕ
max_discharge_kw_x10 = 6

abbrev pub battery_status : ℕ
battery_status = 7

abbrev pub battery_system_flags : ℕ
battery_system_flags = 8

abbrev pub quality_bits : ℕ
quality_bits = 9

abbrev pub edge_state : ℕ
edge_state = 10

abbrev pub applied_power_kw_x10 : ℕ
applied_power_kw_x10 = 11

abbrev pub control_ready : ℕ
control_ready = 12

abbrev pub configured_max_charge_kw_x10 : ℕ
configured_max_charge_kw_x10 = 13

abbrev pub configured_max_discharge_kw_x10 : ℕ
configured_max_discharge_kw_x10 = 14

abbrev pub dc_power_kw_x10 : ℕ
dc_power_kw_x10 = 15

abbrev pub commanded_power_kw_x10 : ℕ
commanded_power_kw_x10 = 16

abbrev pub pcs_status : ℕ
pcs_status = 17

abbrev pub reactive_power_kvar_x10 : ℕ
reactive_power_kvar_x10 = 18

abbrev pub accumulated_charge_kwh_x10_high : ℕ
accumulated_charge_kwh_x10_high = 19

abbrev pub accumulated_charge_kwh_x10_low : ℕ
accumulated_charge_kwh_x10_low = 20

abbrev pub accumulated_discharge_kwh_x10_high : ℕ
accumulated_discharge_kwh_x10_high = 21

abbrev pub accumulated_discharge_kwh_x10_low : ℕ
accumulated_discharge_kwh_x10_low = 22

abbrev pub daily_charge_kwh_x10 : ℕ
daily_charge_kwh_x10 = 23

abbrev pub daily_discharge_kwh_x10 : ℕ
daily_discharge_kwh_x10 = 24

abbrev pub alarm_bits : ℕ
alarm_bits = 25

abbrev pub last_operator_sequence : ℕ
last_operator_sequence = 26

abbrev pub last_operator_result : ℕ
last_operator_result = 27

abbrev pub frequency_hz_x100 : ℕ
frequency_hz_x100 = 28

abbrev pub soc_upper_limit_pct : ℕ
soc_upper_limit_pct = 29

abbrev pub soc_lower_limit_pct : ℕ
soc_lower_limit_pct = 30

abbrev pub extended_telemetry_valid : ℕ
extended_telemetry_valid = 31

abbrev pub pcs_power_on : ℕ
pcs_power_on = 32

abbrev pub pcs_grid_tied : ℕ
pcs_grid_tied = 33

abbrev pub pcs_current_source_mode : ℕ
pcs_current_source_mode = 34
