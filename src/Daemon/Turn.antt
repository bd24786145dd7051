-- ===== src/Daemon/Turn.antt =====
-- A turn of the control loop of base-rockpie/src/main.cpp: what the energy manager asked for since the
-- last turn, the control of the storage system, the commands to the nodes, and the reports. The
-- requests of the energy manager are taken as served between two turns.
pub mod Isolation
pub mod Locked
pub mod Messages
pub mod Deadlines
use gridex_edge_gateway.Prelude.{
  ℕ, suc, ◌+◌, ◌%◌, ◌^◌, Bool, ◌&&◌, Option, List, [], ◌∷◌, if◌then◌else◌, leb, length,
}
use gridex_edge_gateway.Double.{Double}
use gridex_edge_gateway.Modbus.{ModbusClient}
use gridex_edge_gateway.Telemetry.{NodePollStatus, MbusNodeTelemetry}
use gridex_edge_gateway.Tcp.{Socket, TcpClient}
use gridex_edge_gateway.Driver.Poll.{Driver}
use gridex_edge_gateway.Controller.{Controller, ControllerSnapshot, tick}
use gridex_edge_gateway.Northbound.Bank.{NorthboundRegisterBank}
use gridex_edge_gateway.Northbound.Publish.{publish}
use gridex_edge_gateway.Northbound.Server.{handle_pdu}
use gridex_edge_gateway.Mqtt.{SystemTelemetrySample}
use gridex_edge_gateway.Mqtt.Publish.{
  MqttHealthPublisher, Publish, connected, publish_health, publish_node_telemetry,
  publish_system_telemetry,
}
use gridex_edge_gateway.Journal.{TelemetryJournal, FileSystem, append_snapshot}
use gridex_edge_gateway.Daemon.{receive_northbound, dispatch_operator}
use gridex_edge_gateway.Daemon.Nodes.{dispatch_node, resized, publish_nodes, health_message}

-- What `main` reads from the environment for the reports; the intervals are in nanoseconds.
pub record ReportConfig : Type 0 where
  pub site_id : List ℕ
  pub gateway_id : List ℕ
  pub boot_id : List ℕ
  pub health_interval : ℕ
  pub telemetry_interval : ℕ
  pub system_interval : ℕ
  pub journal_interval : ℕ
  pub system_enabled : Bool

-- What a turn finds: the clocks, the requests of the energy manager, the samples of the polling
-- service, and what the gateway measures of itself.
pub record TurnInput : Type 0 where
  pub now : ℕ
  pub system_now : ℕ
  pub observed_at : List ℕ
  pub requests : List (List ℕ)
  pub samples : List MbusNodeTelemetry
  pub temperature : Option Double
  pub readings : List SystemTelemetrySample

-- The part that steers the storage system.
pub record Control (S : Type 0) : Type 0 where
  pub bank : NorthboundRegisterBank
  pub controller : Controller
  pub driver : Driver
  pub pcs : S

-- The part that reports.
pub record Reports (F M : Type 0) : Type 0 where
  pub statuses : List NodePollStatus
  pub journal : TelemetryJournal × F
  pub publisher : MqttHealthPublisher
  pub broker : M
  pub sequence : ℕ
  pub next_health : ℕ
  pub next_telemetry : ℕ
  pub next_system : ℕ
  pub next_journal : ℕ

pub record Gateway (S N F M : Type 0) : Type 0 where
  pub control : Control S
  pub nodes : List (TcpClient × N)
  pub reports : Reports F M

unfoldable pub serve_all : List (List ℕ) → NorthboundRegisterBank → NorthboundRegisterBank
unfolding handle_pdu
serve_all [] b = b
serve_all (pdu ∷ requests) b = serve_all requests (handle_pdu pdu b).0

-- The command of the energy manager, the tick and the command of the operator.
unfoldable pub steer :
    {S : Type 0} → ModbusClient S → ℕ → Control S → ControllerSnapshot × Control S
unfolding receive_northbound tick dispatch_operator
steer client now k =
    let (b1, c1) = receive_northbound now k.bank k.controller in
    let (snapshot, c2, d2, s2) = tick client c1 k.driver now k.pcs in
    let (b3, d3, s3) = dispatch_operator client b1 d2 s2 in
    (snapshot, record { bank = b3; controller = c2; driver = d3; pcs = s3 })

module _ {F M : Type 0} (publish_message : Publish M) (timestamp : ℕ → List ℕ)
    (show_double : Double → List ℕ) (fs : FileSystem F) (config : ReportConfig) where
  unfoldable pub report_health : TurnInput → ControllerSnapshot → Reports F M → Reports F M
  unfolding health_message publish_health
  report_health i snapshot r =
      let message =
        health_message config.site_id config.gateway_id i.temperature snapshot i.samples in
      let sent =
        publish_health publish_message timestamp show_double i.system_now message r.publisher
          r.broker in
      if leb r.next_health i.now
      then record r { broker = sent.1; next_health = i.now + config.health_interval }
      else r

  -- The loop over the samples, from a slot on.
  unfoldable pub publish_samples : ℕ → ℕ → List MbusNodeTelemetry → MqttHealthPublisher → M → M
  unfolding publish_node_telemetry
  publish_samples now slot [] publisher m = m
  publish_samples now slot (sample ∷ samples) publisher m =
      publish_samples now (suc slot) samples publisher
        (publish_node_telemetry publish_message timestamp show_double now config.site_id
          config.gateway_id (slot + 1) sample publisher m).1

  unfoldable pub report_telemetry : TurnInput → Reports F M → Reports F M
  unfolding publish_samples
  report_telemetry i r =
      if leb r.next_telemetry i.now
      then record r {
        broker = publish_samples i.system_now 0 i.samples r.publisher r.broker;
        next_telemetry = i.now + config.telemetry_interval;
      }
      else r

  unfoldable pub report_system : TurnInput → Reports F M → Reports F M
  unfolding publish_system_telemetry
  report_system i r =
      let sequence = (r.sequence + 1) % 2 ^ 64 in
      if config.system_enabled && connected r.publisher && leb r.next_system i.now
      then record r {
        broker =
            (publish_system_telemetry publish_message timestamp show_double i.system_now
              config.site_id config.gateway_id config.boot_id sequence i.readings r.publisher
              r.broker).1;
        sequence = sequence;
        next_system = i.now + config.system_interval;
      }
      else r

  unfoldable pub append_snapshots :
      List ℕ → ℕ → List MbusNodeTelemetry → TelemetryJournal × F → TelemetryJournal × F
  unfolding append_snapshot
  append_snapshots observed_at slot [] x = x
  append_snapshots observed_at slot (sample ∷ samples) x =
      append_snapshots observed_at (suc slot) samples
        (append_snapshot fs observed_at show_double (slot + 1) sample x).1

  unfoldable pub report_journal : TurnInput → Reports F M → Reports F M
  unfolding append_snapshots
  report_journal i r =
      if leb r.next_journal i.now
      then record r {
        journal = append_snapshots i.observed_at 0 i.samples r.journal;
        next_journal = i.now + config.journal_interval;
      }
      else r

  -- The four reports of a turn, in their order.
  unfoldable pub report : TurnInput → ControllerSnapshot → Reports F M → Reports F M
  unfolding report_health report_telemetry report_system report_journal
  report i snapshot r =
      report_journal i (report_system i (report_telemetry i (report_health i snapshot r)))

  module _ {S N : Type 0} (client : ModbusClient S) (socket : Socket N) where
    unfoldable pub turn : TurnInput → Gateway S N F M → ControllerSnapshot × Gateway S N F M
    unfolding serve_all steer dispatch_node publish resized publish_nodes report
    turn i g =
        let served = serve_all i.requests g.control.bank in
        let (snapshot, k) = steer client i.now (record (g.control) { bank = served }) in
        let (accepted, b1, nodes) = dispatch_node socket k.bank g.nodes in
        let b2 = publish snapshot k.controller.config.configured_limit b1 in
        let (statuses, (b3, journal)) =
          publish_nodes fs i.observed_at show_double i.now 0 i.samples
            (resized (length i.samples) g.reports.statuses) (b2, g.reports.journal) in
        (
          snapshot,
          record {
            control = record k { bank = b3 };
            nodes = nodes;
            reports =
                report i snapshot (record (g.reports) { statuses = statuses; journal = journal });
          },
        )

    -- `while (running)`: the snapshots and the gateway after some turns.
    unfoldable pub turns :
        List TurnInput → Gateway S N F M → List ControllerSnapshot × Gateway S N F M
    unfolding turn
    turns [] g = ([], g)
    turns (i ∷ is) g =
        let (snapshot, g') = turn i g in
        let (snapshots, g'') = turns is g' in (snapshot ∷ snapshots, g'')
