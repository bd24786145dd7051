-- ===== src/Telemetry.antt =====
-- base-rockpie/include/gridex/rockpie/MbusNodeTelemetry.hpp: what the gateway knows of a node. A time is in
-- nanoseconds of its clock.
use gridex_edge_gateway.Prelude.{ℕ, Bool, false}
use gridex_edge_gateway.Double.{Double, nought}

pub data NodePollStatus : Type 0 where
  unknown online transport_failure identity_failure telemetry_failure : NodePollStatus

pub record MbusNodeTelemetry : Type 0 where
  pub address : ℕ
  pub node_type : ℕ
  pub node_state : ℕ
  pub driver_id : ℕ
  pub quality : ℕ
  pub heartbeat : ℕ
  pub actual_power_kw : Double
  pub energy_wh : ℕ
  pub device_state : ℕ
  pub alarm_bits : ℕ
  pub cloud_connected : Bool
  pub online : Bool
  pub poll_status : NodePollStatus
  pub consecutive_failures : ℕ
  pub ethernet_status : ℕ
  pub modbus_tcp_status : ℕ
  pub driver_ready : ℕ
  pub device_bus_status : ℕ
  pub watchdog_status : ℕ
  pub recovery_count : ℕ
  pub ethernet_recovery_count : ℕ
  pub bus_recovery_count : ℕ
  pub last_error : ℕ
  pub last_seen : ℕ
  pub last_successful_contact : ℕ

-- The member initialisers, with an address.
abbrev pub new_sample : ℕ → MbusNodeTelemetry
new_sample address = record {
  address = address;
  node_type = 0;
  node_state = 0;
  driver_id = 0;
  quality = 0;
  heartbeat = 0;
  actual_power_kw = nought;
  energy_wh = 0;
  device_state = 0;
  alarm_bits = 0;
  cloud_connected = false;
  online = false;
  poll_status = unknown;
  consecutive_failures = 0;
  ethernet_status = 0;
  modbus_tcp_status = 0;
  driver_ready = 0;
  device_bus_status = 0;
  watchdog_status = 0;
  recovery_count = 0;
  ethernet_recovery_count = 0;
  bus_recovery_count = 0;
  last_error = 0;
  last_seen = 0;
  last_successful_contact = 0;
}
