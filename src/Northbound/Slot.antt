-- ===== src/Northbound/Slot.antt =====
-- The offsets in the slot of a node, `node` of include/gridex/NorthboundMap.hpp.
use gridex_edge_gateway.Prelude.{ℕ}

abbrev pub online : ℕ
online = 0

abbrev pub address : ℕ
address = 1

abbrev pub node_type : ℕ
node_type = 2

abbrev pub node_state : ℕ
node_state = 3

abbrev pub driver_id : ℕ
driver_id = 4

abbrev pub quality : ℕ
quality = 5

abbrev pub heartbeat : ℕ
heartbeat = 6

abbrev pub actual_power_kw_x10 : ℕ
actual_power_kw_x10 = 7

abbrev pub energy_wh_high : ℕ
energy_wh_high = 8

abbrev pub energy_wh_low : ℕ
energy_wh_low = 9

abbrev pub device_state : ℕ
device_state = 10

abbrev pub alarm_bits : ℕ
alarm_bits = 11

abbrev pub age_seconds : ℕ
age_seconds = 12

abbrev pub cloud_connected : ℕ
cloud_connected = 13
