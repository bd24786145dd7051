-- ===== src/Mbus/Firmware.antt =====
-- The start and a turn of the loop of node-esp32-evb/src/main.cpp. The turn of the update service is left out;
-- `millis()` is read once in a turn.
pub mod Silent
use gridex_edge_gateway.Prelude.{
  ℕ, Bool, false, not, ◌&&◌, Option, List, if◌then◌else◌, ltb, ◌∷◌, [],
}
use gridex_edge_gateway.Prelude.Int.{ℤ, pos}
use gridex_edge_gateway.Ota.{EspOtaService}
use gridex_edge_gateway.Ota as Ota
use gridex_edge_gateway.Mbus.Node.{MbusNode, new_node, register_value}
use gridex_edge_gateway.Mbus.Line.{ProvisioningLine, empty_line}
use gridex_edge_gateway.Mbus.Server.{EthernetControlServer, restart, has_client}
use gridex_edge_gateway.Mbus.Server as Server
use gridex_edge_gateway.Mbus.Command.{CommandState, PowerCommand, apply_command, elapsed}
use gridex_edge_gateway.Mbus.Board.{
  Board, DeviceDriver, DriverSample, supervise_device_bus, poll_device, publish_health_registers,
}
use gridex_edge_gateway.Mbus.Provisioning.{
  Preferences, Station, process_serial, persist_node_config, load_config, load_control_config,
  load_ota_config,
}
use gridex_edge_gateway.Mbus.Cloud.{
  PubSubClient, MqttTelemetryService, load_cloud_config, begin, publish, is_connected,
}
use gridex_edge_gateway.Mbus.Cloud as Cloud
use gridex_edge_gateway.Mbus.Reg as Reg

-- The variables of the program. The readiness of the driver is one of the board's.
pub record Firmware : Type 0 where
  pub line : ProvisioningLine
  pub node : MbusNode
  pub control : EthernetControlServer
  pub ota : EspOtaService
  pub cloud : MqttTelemetryService
  pub board : Board
  pub last_command_ms : ℕ
  pub last_command_sequence : ℕ
  pub command_armed : Bool
  pub last_sample : DriverSample
  pub last_cloud_publish_ms : ℕ
  pub restarts : Bool

-- What a turn finds: the clock, characters on the serial port, a client that waits, whether the
-- connection lives before and after a client was accepted, its bytes, and whether the control
-- server listens.
pub record LoopInput : Type 0 where
  pub now : ℕ
  pub characters : List ℕ
  pub waiting : Option ℕ
  pub alive : Bool
  pub lives : Bool
  pub arrived : List ℕ
  pub listening : Bool

-- The member initialisers of a sample.
abbrev pub no_sample : DriverSample
no_sample = record {
  actual_power_kw_x10 = pos 0;
  energy_wh = 0;
  state = 0;
  alarms = 0;
  quality = 0;
}

-- The states of the flash, the broker's library and the device.
pub record World (P C D : Type 0) : Type 0 where
  pub flash : P
  pub broker : C
  pub device : D

module _ {P C D : Type 0} (store : Preferences P) (mqtt : PubSubClient C) (driver : DeviceDriver D)
    (apply_power_command : PowerCommand D) (sha256_hex : List ℕ → List ℕ)
    (parse_ip : List ℕ → Option ℕ) (tenths : ℤ → List ℕ) where
  -- The board after the bus and the driver were started.
  unfoldable pub start_device : Bool → Board → D → Board × D
  start_device watchdog b d =
      let (bus, d1) = driver.initialize_device_bus d in
      let (begun, d2) = driver.begin d1 in
      (
        record b {
          device_bus_ready = bus;
          driver_ready = bus && begun;
          watchdog_ready = watchdog;
          last_error = if not watchdog then 3 else if not bus then 2 else b.last_error;
        },
        (if bus then d2 else d1),
      )

  -- `setup`, with the number of the chip, whether the watchdog was set up, whether the link is up, and
  -- whether the control server listens.
  unfoldable pub setup : ℕ → Bool → Bool → Bool → Board → World P C D → Firmware × World P C D
  unfolding start_device load_config new_node load_cloud_config begin load_control_config
      load_ota_config publish_health_registers
  setup uid watchdog link_up listening b w =
      let (started, device) = start_device watchdog b w.device in
      let (config, p1) = load_config store uid w.flash in
      let (cloud_config, p2) = load_cloud_config store p1 in
      let (active, (cloud, broker)) =
        begin mqtt tenths (Cloud.new_service cloud_config, w.broker) in
      let (control, p3) = load_control_config store parse_ip p2 in
      let (ota_config, p4) = load_ota_config store parse_ip p3 in
      let ready : Board = record started { ethernet_up = link_up } in
      (
        record {
          line = empty_line;
          node = publish_health_registers listening ready (new_node config);
          control = control;
          ota = Ota.new_service ota_config;
          cloud = cloud;
          board = ready;
          last_command_ms = 0;
          last_command_sequence = 0;
          command_armed = false;
          last_sample = no_sample;
          last_cloud_publish_ms = 0;
          restarts = false;
        },
        record { flash = p4; broker = broker; device = device },
      )

  -- The serial port, with the readiness of the driver on its way there and back.
  unfoldable pub serial_turn : List ℕ → Firmware → P → Firmware × P
  unfolding process_serial
  serial_turn characters f p =
      let station : Station = record {
        node = f.node;
        control = f.control;
        driver_ready = f.board.driver_ready;
        restarts = f.restarts;
      } in
      let (line, (x, p')) = process_serial store sha256_hex parse_ip characters f.line station p in
      (
        record f {
          line = line;
          node = x.node;
          control = x.control;
          board = record (f.board) { driver_ready = x.driver_ready };
          restarts = x.restarts;
        },
        p',
      )

  -- The control server, its restart, and the bytes that it sends.
  unfoldable pub control_turn : LoopInput → Firmware → Firmware × List ℕ
  unfolding Server.loop restart
  control_turn i f =
      let ((served, n), answers) =
        Server.loop i.now i.waiting i.alive i.lives i.arrived f.control f.node in
      (
        record f {
          node = n;
          control = if f.board.restart_control_requested then restart served else served;
          board = record (f.board) { restart_control_requested = false };
        },
        answers,
      )

  -- The command registers, and the identity that they may have changed.
  unfoldable pub command_turn : ℕ → Firmware → P → D → Firmware × (P × D)
  unfolding apply_command persist_node_config
  command_turn now f p d =
      let state : CommandState = record {
        node = f.node;
        last_command_ms = f.last_command_ms;
        last_command_sequence = f.last_command_sequence;
        command_armed = f.command_armed;
      } in
      let (c, d') = apply_command apply_power_command now state d in
      let (n, p') = persist_node_config store c.node p in
      (
        record f {
          node = n;
          last_command_ms = c.last_command_ms;
          last_command_sequence = c.last_command_sequence;
          command_armed = c.command_armed;
        },
        (p', d'),
      )

  -- The device: its bus, its poll and its registers.
  unfoldable pub device_turn : LoopInput → C → Firmware → D → Firmware × D
  unfolding supervise_device_bus poll_device is_connected
  device_turn i broker f d =
      let (b, d1) = supervise_device_bus driver i.now f.board d in
      let online = is_connected mqtt tenths (f.cloud, broker) in
      let ((b', n), d2) = poll_device driver i.now i.listening online b f.node d1 in
      (
        record f {
          board = b';
          node = n;
          last_sample =
              if ltb (elapsed i.now b.last_poll_ms) 500 then f.last_sample else (driver.poll d1).0;
        },
        d2,
      )

  unfoldable pub publish_turn : ℕ → Firmware → C → Firmware × C
  unfolding publish register_value
  publish_turn now f broker =
      let heartbeat = register_value Reg.heartbeat f.node in
      if ltb (elapsed now f.last_cloud_publish_ms) 2000 then (f, broker) else (
        record f { last_cloud_publish_ms = now },
        publish mqtt tenths f.last_sample heartbeat (f.cloud, broker),
      )

  -- `loop` up to the publication, with the bytes that the control server sends.
  unfoldable pub work_turn : LoopInput → Firmware × World P C D → (Firmware × World P C D) × List ℕ
  unfolding serial_turn Cloud.loop control_turn command_turn device_turn
  work_turn i (f, w) =
      let (f1, p1) = serial_turn i.characters f w.flash in
      let (cloud, c1) = Cloud.loop mqtt tenths i.now (f1.cloud, w.broker) in
      let (f2, answers) = control_turn i (record f1 { cloud = cloud }) in
      let (f3, (p2, d1)) = command_turn i.now f2 p1 w.device in
      let (f4, d2) = device_turn i c1 f3 d1 in
      ((f4, record { flash = p2; broker = c1; device = d2 }), answers)

  unfoldable pub turn : LoopInput → Firmware × World P C D → (Firmware × World P C D) × List ℕ
  unfolding work_turn publish_turn
  turn i x =
      let ((f, w), answers) = work_turn i x in
      let (f', c) = publish_turn i.now f w.broker in ((f', record w { broker = c }), answers)

  -- The state after some turns.
  unfoldable pub turns : List LoopInput → Firmware × World P C D → Firmware × World P C D
  unfolding turn
  turns [] x = x
  turns (i ∷ is) x = turns is (turn i x).0
