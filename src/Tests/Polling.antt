-- ===== src/Tests/Polling.antt =====
-- The polling service, at two nodes, of which the second gets a command.
use gridex_edge_gateway.Telemetry.{new_sample, online}
use gridex_edge_gateway.Polling.Fresh.{Knows, poll_node_fresh}
use gridex_edge_gateway.Northbound.Server.Words.{AreWords}
use gridex_edge_gateway.Prelude.{
  set_all, ltb, Bool, ◌&&◌, ℕ, replicate, List, true, ◌∷◌, false, [], ◌≡◌, refl, arith,
}
use gridex_edge_gateway.Prelude.Int.{ℤ, pos, negsuc}
use gridex_edge_gateway.Double.{Double}
use gridex_edge_gateway.Mbus.Reg as Reg
use gridex_edge_gateway.Mbus.Node.{MbusNode, register_value}
use gridex_edge_gateway.Mbus.Command.{PowerCommand, apply_command}
use gridex_edge_gateway.Tcp.{TcpClient, new_client}
use gridex_edge_gateway.Tcp.Link.{link, ready}
use gridex_edge_gateway.Tcp.Link.Node.{node_peer}
use gridex_edge_gateway.Polling.{
  poll_node, apply_power_command, poll_cycle, new_samples, command_refused,
}
use gridex_edge_gateway.Polling.Reach.{command_reaches_device, with_command}
use gridex_edge_gateway.Polling.Health.{ArePolled, poll_cycle-ArePolled}

abbrev node : ℕ → MbusNode
node address = record {
  config = record { address = address; node_type = 0; driver_id = 0; uid = 0x1234 };
  registers = replicate Reg.holding_count 0;
  configuration_changed = false;
}

abbrev client : ℕ → TcpClient × (MbusNode × List ℕ)
client address = (new_client 1, (node address, []))

-- The network splits every answer after four bytes.
abbrev chunk : List ℕ → ℕ
chunk bytes = 3

abbrev drive : PowerCommand ℤ
drive = λ power s. (true, power)

-- -12.34 kW.
abbrev power : Double
power = Double.fin (negsuc 12339)

-- The device is told -12.3 kW.
command_reaches_device_example :
    let n' = with_command 7 power true 10 (node 6) in
    (apply_power_command (link (node_peer 1) chunk) 1 power true 7 10 (client 5 ∷ client 6 ∷ [])
      ≡ (true, client 5 ∷ (ready (new_client 1), (n', [])) ∷ []))
    × ((apply_command drive 5000
          (record {
            node = n';
            last_command_ms = 1000;
            last_command_sequence = 6;
            command_armed = false;
          })
          (pos 0)).1
        ≡ negsuc 122)
unfolding apply_power_command command_refused
command_reaches_device_example =
    command_reaches_device chunk (client 5 ∷ []) [] (new_client 1) (node 6) power true 7 10 drive
      5000 1000 6 false (pos 0) (refl, omega arith, λ e. ground (arith, e)) (omega arith)
      (λ e. ground (arith, e)) refl

poll_cycle-ArePolled_example :
    ArePolled 100 200
      (link (node_peer 1) chunk)
      (new_samples 0 2)
      (client 5 ∷ client 6 ∷ [])
      (poll_cycle (link (node_peer 1) chunk) 100 200 (new_samples 0 2) (client 5 ∷ client 6 ∷ [])).0
unfolding new_samples
poll_cycle-ArePolled_example =
    poll_cycle-ArePolled 100 200 (link (node_peer 1) chunk) (new_samples 0 2)
      (client 5 ∷ client 6 ∷ []) refl

abbrev all_words : List ℕ → Bool
all_words [] = true
all_words (v ∷ vs) = ltb v 65536 && all_words vs

both : (a b : Bool) → a && b ≡ true → (a ≡ true) × (b ≡ true)
both a b h = (ground arith, ground arith)

words_of : (values : List ℕ) → all_words values ≡ true → AreWords values
words_of [] h = tt
words_of (v ∷ vs) h =
    let (small, rest) = both (ltb v 65536) (all_words vs) h in
    (ground (arith, small), words_of vs rest)

-- A node of type 2 with -10.0 kW.
abbrev live_node : MbusNode
live_node = record (node 5) {
  registers =
      set_all
        ((Reg.magic, Reg.magic_value) ∷ (Reg.node_type, 2) ∷ (Reg.actual_power_kw_x10, 65436) ∷ [])
        (replicate Reg.holding_count 0);
}

poll_node_fresh_example :
    let r =
      poll_node (link (node_peer 1) chunk) 100 200 (new_sample 5) (new_client 1, (live_node, [])) in
    Knows chunk live_node r.0
    × (r.0.online ≡ true)
    × (r.0.poll_status ≡ online)
    × (r.0.consecutive_failures ≡ 0)
    × (r.0.last_seen ≡ 100)
    × (r.1.1 ≡ (live_node, []))
unfolding register_value
poll_node_fresh_example =
    poll_node_fresh chunk 100 200 (new_sample 5) (new_client 1) live_node
      (words_of live_node.registers refl, refl, omega arith, refl)
