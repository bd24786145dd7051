-- ===== src/Tests/Daemon.antt =====
-- The control loop, at a storage system that answers every call.
use gridex_edge_gateway.Prelude.{
  ◌≡◌, refl, false, set, true, none, ℕ, List, Bool, ◌∷◌, ◌≤◌, if◌then◌else◌, some, [], length, suc,
  arith, ◌+◌,
}
use gridex_edge_gateway.Northbound.Bank.{NorthboundRegisterBank, new_bank}
use gridex_edge_gateway.Driver.Poll.{writes_enabled}
use gridex_edge_gateway.Tests.Bench.{bench, driver, controller}
use gridex_edge_gateway.Northbound.Holding as Holding
use gridex_edge_gateway.Prelude.Text.{codes, decimal}
use gridex_edge_gateway.Prelude.Int.{pos, negsuc}
use gridex_edge_gateway.Double.{Double, milli, fin, nan}
use gridex_edge_gateway.Telemetry.{new_sample}
use gridex_edge_gateway.Tcp.{Socket}
use gridex_edge_gateway.Journal.{FileSystem, bytes}
use gridex_edge_gateway.Ota.Compare.{text_equal}
use gridex_edge_gateway.Mqtt.{topic_part}
use gridex_edge_gateway.Mqtt.Publish.{Publish, MqttHealthPublisher}
use gridex_edge_gateway.Controller.{seconds}
use gridex_edge_gateway.Daemon.Turn.{Gateway, TurnInput, ReportConfig, turns}
use gridex_edge_gateway.Daemon.Turn.Isolation.{turns_isolated}
use gridex_edge_gateway.Daemon.Turn.Locked.{turns_locked, rewired}
use gridex_edge_gateway.Daemon.Turn.Deadlines.{health_is_reported, due_turns}
use gridex_edge_gateway.Daemon.Environment.{Environment, env_int, env_string}
use gridex_edge_gateway.Daemon.Environment.Endpoints.{env_node_endpoints}
use gridex_edge_gateway.Daemon.Environment.Written.{env_node_endpoints-written, meant}
use gridex_edge_gateway.Daemon.Environment.Approval.{approval_of, writes_enabled-approval_of}
use gridex_edge_gateway.Daemon.System.{
  SystemReadings, read_system_telemetry, parse_cpu_temperature, AreSane, IsTemperature,
  read_system_telemetry-AreSane,
}

-- Operator command 1 asks, with the right key, to switch on.
abbrev bank : NorthboundRegisterBank
unfolding new_bank
bank = record new_bank {
  holding =
      set
        (set (set (set new_bank.holding Holding.operator_sequence 1) Holding.operator_action_mask 1)
          Holding.requested_run_state 1)
        Holding.operator_apply_key 0xA55A;
}

-- A network that takes every connection and answers nothing.
abbrev deaf : Socket Unit
deaf = record {
  connect = λ s. (true, s);
  send = λ bytes s. (0, s);
  recv = λ n s. ([], s);
  close = λ s. s;
}

-- A disk without room, and one that counts its lines.
abbrev full_disk : FileSystem Unit
full_disk = record {
  create_directories = λ s. (false, s);
  file_size = λ s. bytes 0;
  remove_prior = λ s. s;
  rename = λ s. (false, s);
  open_append = λ s. (false, s);
  write = λ line s. (none, s);
  fsync = λ s. (false, s);
  close = λ s. s;
}

abbrev counting_disk : FileSystem ℕ
counting_disk = record {
  create_directories = λ s. (true, s);
  file_size = λ s. bytes 0;
  remove_prior = λ s. s;
  rename = λ s. (true, s);
  open_append = λ s. (true, s);
  write = λ line s. (some (length line), suc s);
  fsync = λ s. (true, s);
  close = λ s. s;
}

-- A broker that counts the retained messages, and one that refuses all.
abbrev counting_broker : Publish ℕ
counting_broker = λ topic payload retain m. (true, (if retain then suc m else m))

abbrev counts :
    (topic payload : List ℕ) (retain : Bool) (m : ℕ)
    → (counting_broker topic payload retain m).1 ≡ (if retain then suc m else m)
counts topic payload retain m = refl

abbrev closed_broker : Publish Unit
closed_broker = λ topic payload retain m. (false, m)

abbrev time_text : ℕ → List ℕ
time_text now = codes "t"

abbrev double_text : Double → List ℕ
double_text x = codes "0"

abbrev settings : ReportConfig
settings = record {
  site_id = codes "s1";
  gateway_id = codes "g1";
  boot_id = codes "b1";
  health_interval = seconds 10;
  telemetry_interval = seconds 2;
  system_interval = seconds 30;
  journal_interval = seconds 5;
  system_enabled = true;
}

abbrev publisher : Bool → MqttHealthPublisher
publisher up = record {
  config = record {
    broker_url = codes "mqtts://router:8883";
    topic_prefix = codes "gridex/v1";
    client_id = codes "edge";
    username = [];
    password_file = [];
    ca_file = codes "/ca.pem";
    client_certificate_file = [];
    client_key_file = [];
  };
  has_client = true;
  link_up = up;
}

-- The operator's command waits in the bank.
abbrev gateway : {F M : Type 0} → Bool → Bool → F → M → Gateway ℕ Unit F M
gateway approved up disk broker = record {
  control = record { bank = bank; controller = controller; driver = driver approved; pcs = 7 };
  nodes = [];
  reports = record {
    statuses = [];
    journal = (record { enabled = true; max_bytes = 65536; sequence = 0 }, disk);
    publisher = publisher up;
    broker = broker;
    sequence = 0;
    next_health = seconds 101;
    next_telemetry = seconds 100;
    next_system = seconds 100;
    next_journal = seconds 100;
  };
}

-- A turn at a second, with one node that was never polled.
abbrev at_second : ℕ → TurnInput
at_second n = record {
  now = seconds n;
  system_now = 0;
  observed_at = codes "t";
  requests = (0x03 ∷ 0 ∷ 0 ∷ 0 ∷ 1 ∷ []) ∷ [];
  samples = new_sample 1 ∷ [];
  temperature = none;
  readings = [];
}

turns_isolated_example :
    let is = at_second 100 ∷ at_second 101 ∷ [] in
    let r =
      turns closed_broker time_text double_text full_disk settings bench deaf is
        (gateway true false tt tt) in
    let r' =
      turns counting_broker time_text double_text counting_disk settings bench deaf is
        (gateway true true 0 0) in
    (r.0 ≡ r'.0) × (r.1.control ≡ r'.1.control)
turns_isolated_example =
    turns_isolated bench time_text double_text deaf closed_broker full_disk settings
      (gateway true false tt tt) deaf counting_broker counting_disk settings (gateway true true 0 0)
      (at_second 100 ∷ at_second 101 ∷ []) refl

turns_locked_example :
    let is = at_second 100 ∷ at_second 101 ∷ [] in
    let r =
      turns counting_broker time_text double_text counting_disk settings bench deaf is
        (gateway false true 0 0) in
    let r' =
      turns counting_broker time_text double_text counting_disk settings
        (rewired bench (λ a v s. (true, 999)))
        deaf
        is
        (gateway false true 0 0) in
    (r'.0 ≡ r.0) × (r'.1.control ≡ r.1.control)
unfolding writes_enabled
turns_locked_example =
    turns_locked bench deaf counting_broker time_text double_text counting_disk settings
      (at_second 100 ∷ at_second 101 ∷ []) (gateway false true 0 0) (λ a v s. (true, 999)) refl

health_is_reported_example :
    let is = at_second 100 ∷ at_second 101 ∷ at_second 102 ∷ [] in
    let reports =
      due_turns (seconds 10) (gateway {F = ℕ} {M = ℕ} true true 0 0).reports.next_health is in
    ((turns counting_broker time_text double_text counting_disk settings bench deaf is
        (gateway true true 0 0)).1.reports.broker
      ≡ 0 + reports)
    × (1 ≤ reports)
unfolding topic_part
health_is_reported_example =
    health_is_reported counting_broker (λ m. m) counts time_text double_text counting_disk settings
      bench deaf (at_second 100 ∷ []) (at_second 101) (at_second 102 ∷ []) (gateway true true 0 0)
      (refl, refl, refl) (omega arith)

-- Two approvals of three, and two nodes.
abbrev environment : Environment
environment name =
    if text_equal name (codes "GRIDEX_APPROVE_ADDRESSING")
    then some (codes "1")
    else if text_equal name (codes "GRIDEX_APPROVE_SCALING")
    then some (codes "yes")
    else if text_equal name (codes "GRIDEX_NODE_ENDPOINTS")
    then some (codes "10.0.0.5:1502,node:80")
    else none

writes_enabled-approval_of_example : writes_enabled (approval_of environment) ≡ false
writes_enabled-approval_of_example = writes_enabled-approval_of environment

abbrev two_nodes : List (List ℕ × ℕ)
two_nodes = (codes "10.0.0.5", 1502) ∷ (codes "node", 80) ∷ []

env_node_endpoints-written_example :
    (env_node_endpoints environment (codes "GRIDEX_NODE_ENDPOINTS") ≡ meant two_nodes)
    × (env_int environment (codes "GRIDEX_TICK_MS") 1000 ≡ pos 1000)
unfolding env_string decimal
env_node_endpoints-written_example =
    env_node_endpoints-written environment (codes "GRIDEX_NODE_ENDPOINTS") (codes "GRIDEX_TICK_MS")
      two_nodes 1000 refl
      (
        ground arith,
        (refl, (refl, (refl, (refl, (refl, (refl, (refl, (refl, tt)))))))),
        omega arith,
        omega arith,
        (ground arith, (refl, (refl, (refl, (refl, tt)))), omega arith, omega arith, tt),
      )
      refl (omega arith)

-- 45.0 degrees, a negative uptime, and memory behind another line.
abbrev computer : SystemReadings
computer = record {
  cpu_temperature = codes "45000\n";
  uptime = some (fin (negsuc 0));
  load = some nan;
  memory = (codes "MemTotal:", milli 9000) ∷ (codes "MemAvailable:", milli 5000) ∷ [];
  space_available = none;
  journal_size = some (milli 0);
}

read_system_telemetry-AreSane_example :
    AreSane (read_system_telemetry (λ value. value) true computer)
    × IsTemperature (parse_cpu_temperature computer.cpu_temperature)
read_system_telemetry-AreSane_example = read_system_telemetry-AreSane (λ value. value) true computer

measured : parse_cpu_temperature (codes "45000\n") ≡ some (milli 45000)
unfolding parse_cpu_temperature
measured = refl

malformed : parse_cpu_temperature (codes "45.5") ≡ none
unfolding parse_cpu_temperature
malformed = refl
