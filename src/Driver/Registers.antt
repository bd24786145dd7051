-- ===== src/Driver/Registers.antt =====
-- `SunStoragePro261Driver::Registers`: the vendor's Modbus addresses.
use gridex_edge_gateway.Prelude.{ℕ}

abbrev pub pcs_fault : ℕ
pcs_fault = 1

abbrev pub pcs_off_grid : ℕ
pcs_off_grid = 2

abbrev pub pcs_warning : ℕ
pcs_warning = 3

abbrev pub pcs_communication_fault : ℕ
pcs_communication_fault = 4

abbrev pub pcs_active_power : ℕ
pcs_active_power = 9

abbrev pub pcs_reactive_power : ℕ
pcs_reactive_power = 10

abbrev pub pcs_dc_power : ℕ
pcs_dc_power = 12

abbrev pub pcs_frequency : ℕ
pcs_frequency = 13

abbrev pub pcs_commanded_power : ℕ
pcs_commanded_power = 14

abbrev pub pcs_status : ℕ
pcs_status = 16

abbrev pub bms_current : ℕ
bms_current = 101

abbrev pub bms_soc : ℕ
bms_soc = 102

abbrev pub bms_soh : ℕ
bms_soh = 103

abbrev pub bms_voltage : ℕ
bms_voltage = 104

abbrev pub bms_status : ℕ
bms_status = 105

abbrev pub bms_accumulated_charge_energy : ℕ
bms_accumulated_charge_energy = 122

abbrev pub bms_accumulated_discharge_energy : ℕ
bms_accumulated_discharge_energy = 124

abbrev pub bms_system_flags : ℕ
bms_system_flags = 126

abbrev pub bms_max_charge_power : ℕ
bms_max_charge_power = 127

abbrev pub bms_max_discharge_power : ℕ
bms_max_discharge_power = 128

abbrev pub bms_daily_charge_energy : ℕ
bms_daily_charge_energy = 129

abbrev pub bms_daily_discharge_energy : ℕ
bms_daily_discharge_energy = 130

abbrev pub bms_alarm : ℕ
bms_alarm = 183

abbrev pub bms_fault : ℕ
bms_fault = 184

abbrev pub bms_communication_fault : ℕ
bms_communication_fault = 185

abbrev pub pcs_grid_mode : ℕ
pcs_grid_mode = 5001

abbrev pub pcs_work_mode : ℕ
pcs_work_mode = 5002

abbrev pub pcs_power_on : ℕ
pcs_power_on = 5003

abbrev pub pcs_power_command : ℕ
pcs_power_command = 5005

abbrev pub pcs_reactive_power_command : ℕ
pcs_reactive_power_command = 5006

abbrev pub pcs_soc_upper_limit : ℕ
pcs_soc_upper_limit = 5007

abbrev pub pcs_soc_lower_limit : ℕ
pcs_soc_lower_limit = 5008

abbrev pub heartbeat_seconds : ℕ
heartbeat_seconds = 5301

abbrev pub heartbeat_enable : ℕ
heartbeat_enable = 5302
