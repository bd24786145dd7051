-- ===== src/Northbound/Holding.antt =====
-- The `holding` addresses of include/gridex/NorthboundMap.hpp: what the energy manager writes.
use gridex_edge_gateway.Prelude.{ℕ}

abbrev pub command_sequence : ℕ
command_sequence = 0

abbrev pub requested_power_kw_x10 : ℕ
requested_power_kw_x10 = 1

abbrev pub command_enable : ℕ
command_enable = 2

abbrev pub ems_heartbeat : ℕ
ems_heartbeat = 3

abbrev pub operator_sequence : ℕ
operator_sequence = 4

abbrev pub operator_action_mask : ℕ
operator_action_mask = 5

abbrev pub requested_run_state : ℕ
requested_run_state = 6

abbrev pub requested_reactive_power_kvar_x10 : ℕ
requested_reactive_power_kvar_x10 = 7

abbrev pub requested_soc_upper_pct : ℕ
requested_soc_upper_pct = 8

abbrev pub requested_soc_lower_pct : ℕ
requested_soc_lower_pct = 9

abbrev pub operator_apply_key : ℕ
operator_apply_key = 10

abbrev pub node_command_sequence : ℕ
node_command_sequence = 11

abbrev pub node_command_target_slot : ℕ
node_command_target_slot = 12

abbrev pub node_requested_power_kw_x10 : ℕ
node_requested_power_kw_x10 = 13

abbrev pub node_command_enable : ℕ
node_command_enable = 14

abbrev pub node_command_ttl_seconds : ℕ
node_command_ttl_seconds = 15

abbrev pub node_command_apply_key : ℕ
node_command_apply_key = 16
