-- ===== src/Mbus/Reg.antt =====
-- node-esp32-evb/include/gridex/mbus/RegisterMap.hpp: the register addresses of a node and the values
-- of its enumerations, which the code compares as 16-bit words.
use gridex_edge_gateway.Prelude.{ℕ}

abbrev pub type_unconfigured : ℕ
type_unconfigured = 0

abbrev pub type_inverter : ℕ
type_inverter = 1

abbrev pub type_battery_bms : ℕ
type_battery_bms = 2

abbrev pub type_all_in_one_bess : ℕ
type_all_in_one_bess = 3

abbrev pub type_meter : ℕ
type_meter = 4

abbrev pub type_evse : ℕ
type_evse = 5

abbrev pub type_second_cabinet : ℕ
type_second_cabinet = 6

abbrev pub type_boot : ℕ
type_boot = 0

abbrev pub state_awaiting_address : ℕ
state_awaiting_address = 1

abbrev pub state_ready : ℕ
state_ready = 2

abbrev pub state_driver_missing : ℕ
state_driver_missing = 3

abbrev pub state_fault : ℕ
state_fault = 4

abbrev pub magic : ℕ
magic = 0x0000

abbrev pub map_version : ℕ
map_version = 0x0001

abbrev pub node_type : ℕ
node_type = 0x0002

abbrev pub node_state : ℕ
node_state = 0x0003

abbrev pub node_address : ℕ
node_address = 0x0004

abbrev pub driver_id : ℕ
driver_id = 0x0005

abbrev pub quality : ℕ
quality = 0x0006

abbrev pub uid0 : ℕ
uid0 = 0x0007

abbrev pub uid1 : ℕ
uid1 = 0x0008

abbrev pub uid2 : ℕ
uid2 = 0x0009

abbrev pub uid3 : ℕ
uid3 = 0x000A

abbrev pub uptime_low : ℕ
uptime_low = 0x000B

abbrev pub heartbeat : ℕ
heartbeat = 0x000C

abbrev pub requested_address : ℕ
requested_address = 0x0010

abbrev pub requested_node_type : ℕ
requested_node_type = 0x0011

abbrev pub requested_driver_id : ℕ
requested_driver_id = 0x0012

abbrev pub apply_configuration : ℕ
apply_configuration = 0x0013

abbrev pub command_sequence : ℕ
command_sequence = 0x0014

abbrev pub requested_power_kw_x10 : ℕ
requested_power_kw_x10 = 0x0015

abbrev pub command_enable : ℕ
command_enable = 0x0016

abbrev pub command_ttl_seconds : ℕ
command_ttl_seconds = 0x0017

abbrev pub last_command_result : ℕ
last_command_result = 0x0018

abbrev pub applied_power_kw_x10 : ℕ
applied_power_kw_x10 = 0x0019

abbrev pub actual_power_kw_x10 : ℕ
actual_power_kw_x10 = 0x0040

abbrev pub energy_wh_high : ℕ
energy_wh_high = 0x0041

abbrev pub energy_wh_low : ℕ
energy_wh_low = 0x0042

abbrev pub device_state : ℕ
device_state = 0x0043

abbrev pub alarm_bits : ℕ
alarm_bits = 0x0044

abbrev pub cloud_connected : ℕ
cloud_connected = 0x0045

abbrev pub driver_specific_start : ℕ
driver_specific_start = 0x0050

abbrev pub holding_count : ℕ
holding_count = 0x0080

abbrev pub magic_value : ℕ
magic_value = 0x4758

abbrev pub ethernet_status : ℕ
ethernet_status = 0x0046

abbrev pub modbus_tcp_status : ℕ
modbus_tcp_status = 0x0047

abbrev pub driver_ready : ℕ
driver_ready = 0x0048

abbrev pub device_bus_status : ℕ
device_bus_status = 0x0049

abbrev pub watchdog_status : ℕ
watchdog_status = 0x004A

abbrev pub recovery_count : ℕ
recovery_count = 0x004B

abbrev pub ethernet_recovery_count : ℕ
ethernet_recovery_count = 0x004C

abbrev pub bus_recovery_count : ℕ
bus_recovery_count = 0x004D

abbrev pub last_error : ℕ
last_error = 0x004E

abbrev pub map_version_value : ℕ
map_version_value = 0x0005

abbrev pub apply_key : ℕ
apply_key = 0xA55A
