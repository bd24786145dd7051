-- ===== src/Tests/Mbus.antt =====
-- The theorems of the node, at a node with the address 5 and a device that obeys.
use gridex_edge_gateway.Prelude.{
  ℕ, ◌≡◌, refl, arith, true, false, List, [], ◌∷◌, replicate, set_all, take, ◌++◌, drop, none, some,
  ◌⊎◌, ◌≤◌, if◌then◌else◌, ap, suc, ◌&&◌, sym, length,
}
use gridex_edge_gateway.Prelude.Int.{ℤ, pos}
use gridex_edge_gateway.Mbus.Node.{valid_type, MbusNode, NodeConfig, new_node, register_value}
use gridex_edge_gateway.Mbus.Crc.{with_crc}
use gridex_edge_gateway.Mbus.Frame.{process_frame}
use gridex_edge_gateway.Mbus.Frame.Checksum.{IsSound, process_frame-IsSound}
use gridex_edge_gateway.Mbus.Frame.Identity.{IsNode, process_frame-IsNode, new_node-IsNode}
use gridex_edge_gateway.Mbus.Control.{handle}
use gridex_edge_gateway.Mbus.Control.Window.{SameOutside, handle_keeps_outside}
use gridex_edge_gateway.Mbus.Command.{CommandState, PowerCommand, apply_command}
use gridex_edge_gateway.Mbus.Command.Ttl.{calls, command_ends, refusal_leaves_device}
use gridex_edge_gateway.Prelude.Text.{codes, decimal}
use gridex_edge_gateway.Ota.Compare.{text_equal}
use gridex_edge_gateway.Mbus.Provisioning.{
  Preferences, Station, node_stored, process_line, load_config,
}
use gridex_edge_gateway.Mbus.Provisioning.Lock.{IsLocal, process_line-IsLocal}
use gridex_edge_gateway.Mbus.Provisioning.Restart.{IsStore, identified, process_line_restart}
use gridex_edge_gateway.Mbus.Provisioning.Printed.{node_line}
use gridex_edge_gateway.Mbus.Cloud.{PubSubClient}
use gridex_edge_gateway.Mbus.Board.{Board, DeviceDriver}
use gridex_edge_gateway.Mbus.Firmware.{LoopInput, World, no_sample, setup, turns}
use gridex_edge_gateway.Mbus.Firmware.Silent.{firmware_silent}
use gridex_edge_gateway.Mbus.Stream.{serve}
use gridex_edge_gateway.Mbus.Stream.Chunks.{resume, serve-append}
use gridex_edge_gateway.Mbus.Server.{EthernetControlServer, accept_client, loop}
use gridex_edge_gateway.Mbus.Server.Guard.{IsGuarded, loop-IsGuarded}
use gridex_edge_gateway.Mbus.Reg as Reg

abbrev config : NodeConfig
config = record { address = 5; node_type = 0; driver_id = 0; uid = 0x1234 }

abbrev unset : NodeConfig
unset = record { address = 0; node_type = 0; driver_id = 0; uid = 0x1234 }

-- The device keeps the last power that it was told.
abbrev device : PowerCommand ℤ
device = λ power s. (true, power)

-- Command 7 asks for 10.0 kW, with the given enabling and time-to-live.
abbrev commanded : ℕ → ℕ → MbusNode
commanded enable ttl = record {
  config = config;
  registers =
      set_all
        ((Reg.command_sequence, 7)
          ∷ (Reg.requested_power_kw_x10, 100)
          ∷ (Reg.command_enable, enable)
          ∷ (Reg.command_ttl_seconds, ttl)
          ∷ [])
        (replicate Reg.holding_count 0);
  configuration_changed = false;
}

-- Command 7 was accepted at 1000 ms.
abbrev armed : ℕ → CommandState
armed ttl = record {
  node = commanded 1 ttl;
  last_command_ms = 1000;
  last_command_sequence = 7;
  command_armed = true;
}

-- Command 7 comes after the armed command 6, and does not enable.
abbrev disabling : CommandState
disabling = record {
  node = commanded 0 10;
  last_command_ms = 1000;
  last_command_sequence = 6;
  command_armed = true;
}

-- A new command of 10 seconds, and turns after 5, 10.001 and 60 seconds.
abbrev accepted : CommandState
accepted = record disabling { node = commanded 1 10 }

command_ends_example :
    let r =
      calls device
        ((2000, λ n. n) ∷ (7000, λ n. n) ∷ (12001, λ n. n) ∷ (62000, λ n. n) ∷ [])
        accepted
        (pos 100) in
    (r.1 ≡ pos 0) × (r.0.command_armed ≡ false)
unfolding register_value
command_ends_example =
    command_ends device 2000 ((7000, λ n. n) ∷ []) (12001, λ n. n) ((62000, λ n. n) ∷ []) accepted
      (pos 100) (λ e. ground (arith, e)) refl (omega arith) (omega arith) refl
      ((λ n. refl, λ n. refl), omega arith, tt) (λ n. refl, λ n. refl) (omega arith) (λ n. refl, tt)

refusal_leaves_device_example :
    let r = apply_command device 2000 disabling (pos 100) in
    (register_value Reg.applied_power_kw_x10 r.0.node ≡ 0)
    × ((calls device ((2000, λ n. n) ∷ (100000, λ n. n) ∷ []) disabling (pos 100)).1 ≡ pos 100)
unfolding register_value
refusal_leaves_device_example =
    refusal_leaves_device device 2000 ((100000, λ n. n) ∷ []) disabling (pos 100) refl
      (λ e. ground (arith, e)) refl (λ n. refl, tt)

-- The request to read two registers.
process_frame-IsSound_example :
    IsSound (process_frame (with_crc (5 ∷ 3 ∷ 0 ∷ 0 ∷ 0 ∷ 2 ∷ [])) (new_node config)).1
process_frame-IsSound_example =
    process_frame-IsSound (with_crc (5 ∷ 3 ∷ 0 ∷ 0 ∷ 0 ∷ 2 ∷ [])) (new_node config)

-- A broadcast that gives the address 9, the type of a battery and the driver 5.
abbrev broadcast : List ℕ
broadcast =
    with_crc
      (0 ∷ 0x10 ∷ 0 ∷ Reg.requested_address ∷ 0 ∷ 4 ∷ 8 ∷ 0 ∷ 9 ∷ 0 ∷ 2 ∷ 0 ∷ 5 ∷ 0xA5 ∷ 0x5A ∷ [])

process_frame-IsNode_example : IsNode (process_frame broadcast (new_node unset)).0
process_frame-IsNode_example =
    process_frame-IsNode broadcast (new_node unset) (new_node-IsNode unset (omega arith))

-- The request to write 0x2000 to the sequence number of the command.
abbrev write_sequence : List ℕ
write_sequence = 0 ∷ 1 ∷ 0 ∷ 0 ∷ 0 ∷ 6 ∷ 1 ∷ 6 ∷ 0 ∷ Reg.command_sequence ∷ 32 ∷ 0 ∷ []

handle_keeps_outside_example :
    SameOutside (commanded 0 10) (handle 1 write_sequence (commanded 0 10)).0
handle_keeps_outside_example =
    handle_keeps_outside 1 write_sequence (commanded 0 10) (λ e. ground (arith, e))

-- "hi" and a line feed.
-- The request, cut after nine bytes.
serve-append_example :
    serve 1 (take 9 write_sequence ++ drop 9 write_sequence) (commanded 0 10)
    ≡ resume 1 (drop 9 write_sequence) (serve 1 (take 9 write_sequence) (commanded 0 10))
serve-append_example =
    serve-append 1 (take 9 write_sequence) (drop 9 write_sequence) (commanded 0 10)

-- Nobody is connected, and the ROCK Pi has the address 7.
abbrev idle_server : EthernetControlServer
idle_server = record {
  port = 1502;
  unit_id = 1;
  rock_pi_address = 7;
  client = none;
  rx = [];
  last_byte_ms = 0;
  rejected_clients = 0;
}

-- The address 9 connects.
loop-IsGuarded_example :
    let r = loop 50 (some 9) false true write_sequence idle_server (commanded 0 10) in
    IsGuarded r.0.0
    × (((r.0.1 ≡ commanded 0 10) × (r.1 ≡ []))
        ⊎ (((accept_client (some 9) false idle_server).client ≡ some 7) × (1 ≤ 7)))
loop-IsGuarded_example =
    loop-IsGuarded 50 (some 9) false true write_sequence idle_server (commanded 0 10) tt

-- A store of numbers and texts by part and key; the first component is the part that is open.
abbrev Flash : Type 0
Flash = List ℕ × (List ℕ → List ℕ → ℕ)

abbrev flash : Preferences Flash
flash = record {
  begin = λ part ro s. (true, (part, s.1));
  get_number = λ key d s. s.1 s.0 key;
  get_string = λ key d s. d;
  put_number = λ key v s.
      (2, (s.0, λ part k. if text_equal part s.0 && text_equal k key then v else s.1 part k));
  put_string = λ key v s. (length v, s);
  remove = λ key s. s;
  close = λ s. s;
}

text_equal_self : (text : List ℕ) → text_equal text text ≡ true
text_equal_self [] = refl
text_equal_self (c ∷ text) = ground (arith, text_equal_self text)

flash-IsStore : IsStore flash (λ s. s.0)
flash-IsStore = record {
  begin_opens = λ part ro s. refl;
  put_keeps_open = λ key v s. refl;
  get_put = λ key v d s. rw (text_equal_self s.0, text_equal_self key) refl;
  get_other = λ key other v d s e. rw (text_equal_self s.0, e) refl;
  reopened = λ key part ro d s e. ap (λ p. s.1 p key) (sym e);
}

abbrev station : Station
station = record {
  node = commanded 0 10;
  control = record {
    port = 1502;
    unit_id = 1;
    rock_pi_address = 7;
    client = none;
    rx = [];
    last_byte_ms = 0;
    rejected_clients = 0;
  };
  driver_ready = true;
  restarts = false;
}

abbrev blank : Flash
blank = ([], λ part key. 0)

process_line_restart_example :
    let r = process_line flash (λ token. token) (λ text. none) (node_line 12 3 261) station blank in
    let stored = identified 12 3 261 config in
    (r.0 ≡ node_stored)
    × (r.1.0.node.config ≡ stored)
    × (r.1.0.driver_ready ≡ false)
    × ((load_config flash 0x1234 r.1.1).0 ≡ stored)
unfolding valid_type
process_line_restart_example =
    process_line_restart flash (λ s. s.0) flash-IsStore (λ token. token) (λ text. none) 12 3 261
      station blank (omega arith, omega arith, refl, omega arith, omega arith, omega arith)

process_line-IsLocal_example :
    IsLocal station
      (process_line flash
        (λ token. token)
        (λ text. some 9)
        (codes "rockpi 10.0.0.9")
        station
        blank).1.0
process_line-IsLocal_example =
    process_line-IsLocal flash (λ token. token) (λ text. some 9) (codes "rockpi 10.0.0.9") station
      blank

-- The line as a person types it.
typed : node_line 12 3 261 ≡ codes "node 12 3 261"
unfolding decimal
typed = refl

-- A broker that takes everything.
abbrev open_broker : PubSubClient ℕ
open_broker = record {
  link_up = λ s. true;
  connected = λ s. true;
  configure = λ c s. suc s;
  connect = λ id user secret will s. (true, suc s);
  publish = λ topic value s. (true, suc s);
  serve = λ s. suc s;
}

-- A device that has nothing to say, and obeys.
abbrev idle_device : DeviceDriver ℤ
idle_device = record {
  begin = λ s. (true, s);
  poll = λ s. (no_sample, s);
  requires_device_bus = λ s. true;
  healthy = λ s. true;
  initialize_device_bus = λ s. (true, s);
}

abbrev board : Board
board = record {
  ethernet_seen = false;
  ethernet_up = false;
  restart_control_requested = false;
  device_bus_ready = false;
  driver_ready = false;
  watchdog_ready = false;
  ethernet_recoveries = 0;
  bus_recoveries = 0;
  last_error = 0;
  last_bus_recovery_ms = 0;
  last_poll_ms = 0;
}

-- Five seconds after the start somebody types `status`.
abbrev turn_input : LoopInput
turn_input = record {
  now = 5000;
  characters = codes "status\n";
  waiting = none;
  alive = false;
  lives = false;
  arrived = [];
  listening = true;
}

abbrev world : World Flash ℕ ℤ
world = record { flash = blank; broker = 3; device = pos 0 }

firmware_silent_example :
    (turns flash open_broker idle_device device
      (λ token. token)
      (λ text. none)
      (λ power. [])
      (turn_input ∷ turn_input ∷ [])
      (setup flash open_broker idle_device device
        (λ token. token)
        (λ text. none)
        (λ power. [])
        0x1234
        true
        true
        true
        board
        world)).1.broker
    ≡ 3
firmware_silent_example =
    firmware_silent flash open_broker idle_device device (λ token. token) (λ text. none)
      (λ power. []) 0x1234 true true true board world (turn_input ∷ turn_input ∷ [])
