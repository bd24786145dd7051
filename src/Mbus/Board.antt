-- ===== src/Mbus/Board.antt =====
-- The rest of the state of node-esp32-evb/src/main.cpp: the driver's samples, the recovery of the device bus,
-- the Ethernet events and the registers that tell of them.
use gridex_edge_gateway.Prelude.{
  ℕ, Bool, if◌then◌else◌, true, ◌%◌, ◌&&◌, ◌==◌, not, ◌+◌, ◌/◌, ◌^◌, ◌||◌, false, ltb,
}
use gridex_edge_gateway.Prelude.Int.{ℤ, pos}
use gridex_edge_gateway.Prelude.Words.{u16_of}
use gridex_edge_gateway.Modbus.{Io}
use gridex_edge_gateway.Mbus.Node.{MbusNode, register_value, set_register}
use gridex_edge_gateway.Mbus.Command.{elapsed}
use gridex_edge_gateway.Mbus.Reg as Reg

pub record DriverSample : Type 0 where
  pub actual_power_kw_x10 : ℤ
  pub energy_wh : ℕ
  pub state : ℕ
  pub alarms : ℕ
  pub quality : ℕ

-- `IDeviceDriver` without the power command, and the set-up of the device bus.
pub record DeviceDriver (S : Type 0) : Type 0 where
  pub begin : Io S Bool
  pub poll : Io S DriverSample
  pub requires_device_bus : S → Bool
  pub healthy : S → Bool
  pub initialize_device_bus : Io S Bool

-- The driver of a node without a build for its device.
unfoldable pub unconfigured_sample : ℕ → ℕ → DriverSample
unconfigured_sample type driver_id = record {
  actual_power_kw_x10 = pos 0;
  energy_wh = 0;
  state = if driver_id == 0 then Reg.state_driver_missing else type;
  alarms = 0;
  quality = 0;
}

pub record Board : Type 0 where
  pub ethernet_seen : Bool
  pub ethernet_up : Bool
  pub restart_control_requested : Bool
  pub device_bus_ready : Bool
  pub driver_ready : Bool
  pub watchdog_ready : Bool
  pub ethernet_recoveries : ℕ
  pub bus_recoveries : ℕ
  pub last_error : ℕ
  pub last_bus_recovery_ms : ℕ
  pub last_poll_ms : ℕ

-- The events of the Ethernet.
pub data EthernetEvent : Type 0 where
  got_ip disconnected : EthernetEvent

unfoldable pub on_ethernet : EthernetEvent → Board → Board
on_ethernet got_ip b = record b {
  ethernet_seen = true;
  ethernet_up = true;
  ethernet_recoveries =
      if b.ethernet_seen && not b.ethernet_up
      then (b.ethernet_recoveries + 1) % 2 ^ 16
      else b.ethernet_recoveries;
  restart_control_requested = true;
}
on_ethernet disconnected b = record b {
  ethernet_up = false;
  last_error = 1;
  restart_control_requested = true;
}

abbrev pub flag : Bool → ℕ
flag b = if b then 1 else 0

-- `listening` is what the control server says.
unfoldable pub publish_health_registers : Bool → Board → MbusNode → MbusNode
unfolding set_register
publish_health_registers listening b n = set_register Reg.last_error b.last_error (
    set_register Reg.bus_recovery_count b.bus_recoveries (
      set_register Reg.ethernet_recovery_count b.ethernet_recoveries (
        set_register Reg.recovery_count ((b.ethernet_recoveries + b.bus_recoveries) % 2 ^ 16) (
          set_register Reg.watchdog_status (flag b.watchdog_ready) (
            set_register Reg.device_bus_status (flag b.device_bus_ready) (
              set_register Reg.driver_ready (flag b.driver_ready) (
                set_register Reg.modbus_tcp_status (flag listening)
                  (set_register Reg.ethernet_status (if b.ethernet_up then 2 else 0) n))))))))

unfoldable pub publish_driver_sample : DriverSample → MbusNode → MbusNode
unfolding set_register u16_of
publish_driver_sample sample n = set_register Reg.quality sample.quality (
    set_register Reg.alarm_bits sample.alarms (
      set_register Reg.device_state sample.state (
        set_register Reg.energy_wh_low (sample.energy_wh % 65536) (
          set_register Reg.energy_wh_high (sample.energy_wh / 65536 % 65536)
            (set_register Reg.actual_power_kw_x10 (u16_of sample.actual_power_kw_x10) n)))))

module _ {S : Type 0} (driver : DeviceDriver S) where
  -- A bus that is needed and does not work is set up anew, at most every 30 s.
  unfoldable pub supervise_device_bus : ℕ → Board → S → Board × S
  supervise_device_bus now b s =
      let (bus, s1) = driver.initialize_device_bus s in
      let (begun, s2) = driver.begin s1 in
      let ready = bus && begun in
      if not (driver.requires_device_bus s)
        || (b.driver_ready && driver.healthy s)
        || ltb (elapsed now b.last_bus_recovery_ms) 30000
      then (b, s)
      else (
        record b {
          last_bus_recovery_ms = now;
          device_bus_ready = bus;
          driver_ready = ready;
          bus_recoveries = (b.bus_recoveries + 1) % 2 ^ 16;
          last_error = if ready then 0 else 2;
        },
        (if bus then s2 else s1),
      )

  -- The poll of the device and its registers, every 500 ms. The clock is read once.
  unfoldable pub poll_device : ℕ → Bool → Bool → Board → MbusNode → S → (Board × MbusNode) × S
  unfolding publish_health_registers publish_driver_sample register_value set_register
  poll_device now listening cloud_connected b n s =
      let (sample, s') = driver.poll s in
      let b' : Board = record b { last_poll_ms = now } in
      let told =
        publish_health_registers listening b'
          (set_register Reg.uptime_low (now / 1000 % 65536) (publish_driver_sample sample n)) in
      let beating =
        set_register Reg.heartbeat ((register_value Reg.heartbeat told + 1) % 2 ^ 16) told in
      if ltb (elapsed now b.last_poll_ms) 500
      then ((b, n), s)
      else ((b', set_register Reg.cloud_connected (flag cloud_connected) beating), s')
