-- ===== src/Polling/Fresh.antt =====
-- What the gateway knows of a node after a poll: the polling service, the connection, the node's server and
-- its registers.
use mathlib.Core.Path.{subst}
use gridex_edge_gateway.Prelude.{
  ℕ, ◌≡◌, refl, arith, ◌≤◌, ◌+◌, ◌*◌, ◌/◌, ◌%◌, ◌==◌, ◌||◌, ltb, false, some, List, [], ◌∷◌, ◌++◌,
  length, ap, ◌∙◌, true, get_or,
}
use gridex_edge_gateway.Prelude.Words.{int16}
use gridex_edge_gateway.Double.{divide}
use gridex_edge_gateway.Mbus.Reg as Reg
use gridex_edge_gateway.Mbus.Node.{MbusNode, register_value}
use gridex_edge_gateway.Mbus.Crc.{u16_bytes}
use gridex_edge_gateway.Mbus.Control.Read.{
  ReadFits, registers_at, registers_at-AreWords, length-registers_at, answer_pdu, read_adu,
  handle-read,
}
use gridex_edge_gateway.Mbus.Stream.Single.{front-request}
use gridex_edge_gateway.Northbound.Server.{bytes_of}
use gridex_edge_gateway.Northbound.Server.Words.{AreWords, length-bytes_of}
use gridex_edge_gateway.Northbound.Server.Session.EndToEnd.{values_back, read_fine}
use gridex_edge_gateway.Tcp.{TcpClient, request_of}
use gridex_edge_gateway.Tcp.Calls.{read_holding_range, values_of}
use gridex_edge_gateway.Tcp.Link.{link, ready, framed, transact-link}
use gridex_edge_gateway.Tcp.Link.Node.{node_peer, node_peer-single}
use gridex_edge_gateway.Telemetry.{MbusNodeTelemetry, online}
use gridex_edge_gateway.Polling.{
  poll_node, after_identity, after_telemetry, seen, with_health, with_telemetry, with_identity,
}

module _ (chunk : List ℕ → ℕ) where
  peer-read :
      (start count : ℕ) (c : TcpClient) (n : MbusNode) (fits : ReadFits start count n)
      → node_peer c.unit_id (request_of c 0x03 (u16_bytes start ++ u16_bytes count)) n
        ≡ (n, framed c (answer_pdu start count n fits))
  unfolding request_of
  peer-read start count c n fits =
      let t = c.transaction_id in
      let adu = read_adu start count n fits (t / 256 % 256) (t % 256) 0 6 c.unit_id in
      node_peer-single c.unit_id 11 adu n refl (
        front-request (t / 256 % 256) (t % 256) c.unit_id 0x03 (u16_bytes start ++ u16_bytes count)
          (omega arith))
      ∙ handle-read start count n fits (t / 256 % 256) (t % 256) 0 6 c.unit_id

  read_holding_range-node :
      (start count : ℕ) (c : TcpClient) (n : MbusNode) (fits : ReadFits start count n)
      → read_holding_range (link (node_peer c.unit_id) chunk) start count (c, (n, []))
        ≡ (some (registers_at n.registers start count), (ready c, (n, [])))
  unfolding read_holding_range
  read_holding_range-node start count c n fits =
      let (words, some_registers, few, inside, small, own) = fits in
      let values = registers_at n.registers start count in
      let payload = u16_bytes start ++ u16_bytes count in
      let pdu = answer_pdu start count n fits in
      let size : length values ≡ count = length-registers_at n.registers start count in
      let regular : (count == 0 || ltb 125 count) ≡ false = ground arith in
      let sent =
        transact-link (node_peer c.unit_id) chunk 0x03 payload c n n pdu
          (peer-read start count (ready c) n fits) (omega (arith, length-bytes_of values, size))
          (read_fine count values) in
      let back : values_of 0x03 count (some pdu) ≡ some values =
        subst (λ k. values_of 0x03 k (some (0x03 ∷ (k * 2) ∷ bytes_of values)) ≡ some values) size
          (values_back values (registers_at-AreWords n.registers start count words)) in
      rw (regular, sent) (ap (λ r. (r, (ready c, (n, [])))) back)

  -- A node that holds all its registers, and shows the magic number.
  abbrev pub IsLive : MbusNode → Type 0
  IsLive n =
      AreWords n.registers
      × (length n.registers ≡ Reg.holding_count)
      × (1 ≤ n.config.address)
      × (register_value Reg.magic n ≡ Reg.magic_value)

  -- What a poll of a live node makes known: the registers of the node as they are, with the power in
  -- tenths of a kW as a signed number and the energy from two words.
  abbrev pub Knows : MbusNode → MbusNodeTelemetry → Type 0
  Knows n sample =
      (sample.node_type ≡ register_value Reg.node_type n)
      × (sample.node_state ≡ register_value Reg.node_state n)
      × (sample.driver_id ≡ register_value Reg.driver_id n)
      × (sample.quality ≡ register_value Reg.quality n)
      × (sample.heartbeat ≡ register_value Reg.heartbeat n)
      × (sample.actual_power_kw ≡ divide (int16 (register_value Reg.actual_power_kw_x10 n)) 10)
      × (sample.energy_wh
          ≡ register_value Reg.energy_wh_high n * 65536 + register_value Reg.energy_wh_low n)
      × (sample.device_state ≡ register_value Reg.device_state n)
      × (sample.alarm_bits ≡ register_value Reg.alarm_bits n)
      × (sample.cloud_connected ≡ (register_value Reg.cloud_connected n == 1))
      × (sample.ethernet_status ≡ register_value Reg.ethernet_status n)
      × (sample.modbus_tcp_status ≡ register_value Reg.modbus_tcp_status n)
      × (sample.driver_ready ≡ register_value Reg.driver_ready n)
      × (sample.device_bus_status ≡ register_value Reg.device_bus_status n)
      × (sample.watchdog_status ≡ register_value Reg.watchdog_status n)
      × (sample.recovery_count ≡ register_value Reg.recovery_count n)
      × (sample.ethernet_recovery_count ≡ register_value Reg.ethernet_recovery_count n)
      × (sample.bus_recovery_count ≡ register_value Reg.bus_recovery_count n)
      × (sample.last_error ≡ register_value Reg.last_error n)

  fits_live :
      (start count : ℕ) (n : MbusNode)
      → 1 ≤ count
      → count ≤ 64
      → start + count ≤ Reg.holding_count
      → IsLive n
      → ReadFits start count n
  fits_live start count n low few inside (words, size, own, marked) =
      (words, low, few, omega (arith, size), omega (arith, size), own)

  -- The sample after the three answers.
  abbrev fresh_sample : ℕ → ℕ → MbusNodeTelemetry → MbusNode → MbusNodeTelemetry
  fresh_sample steady_now system_now sample n = seen steady_now system_now (
      with_health (some (registers_at n.registers 0x46 9)) (
        with_telemetry (registers_at n.registers 0x40 6)
          (with_identity (registers_at n.registers 0 13) sample)))

  polled :
      (steady_now system_now : ℕ) (sample : MbusNodeTelemetry) (c : TcpClient) (n : MbusNode)
      → IsLive n
      → poll_node (link (node_peer c.unit_id) chunk) steady_now system_now sample (c, (n, []))
        ≡ (fresh_sample steady_now system_now sample n, (ready (ready (ready c)), (n, [])))
  unfolding poll_node after_identity after_telemetry register_value
  polled steady_now system_now sample c n live =
      let (words, size, own, marked) = live in
      let socket = link (node_peer c.unit_id) chunk in
      let c1 = ready c in
      let c2 = ready c1 in
      let identity = registers_at n.registers 0 13 in
      let telemetry = registers_at n.registers 0x40 6 in
      let shows : (get_or n.registers 0 0 == Reg.magic_value) ≡ true = ground (arith, marked) in
      ap (λ r. after_identity socket steady_now system_now r.0 sample r.1)
        (read_holding_range-node 0 13 c n
          (fits_live 0 13 n (omega arith) (omega arith) (omega arith) live))
      ∙ rw shows (
          ap (λ r. after_telemetry socket steady_now system_now identity r.0 sample r.1)
            (read_holding_range-node 0x40 6 c1 n
              (fits_live 0x40 6 n (omega arith) (omega arith) (omega arith) live)))
      ∙ ap
          (λ r. (
            seen steady_now system_now
                (with_health r.0 (with_telemetry telemetry (with_identity identity sample))),
            r.1,
          ))
          (read_holding_range-node 0x46 9 c2 n
            (fits_live 0x46 9 n (omega arith) (omega arith) (omega arith) live))

  -- A poll of a live node, over a connection without loss that splits the answers in any way: the node is
  -- left as it is, the sample is marked as seen now, without failures, and every value that the poll asks
  -- for is what the registers of the node say, whatever was known before.
  pub poll_node_fresh :
      (steady_now system_now : ℕ) (sample : MbusNodeTelemetry) (c : TcpClient) (n : MbusNode)
      → IsLive n
      → let r =
          poll_node (link (node_peer c.unit_id) chunk) steady_now system_now sample (c, (n, [])) in
        Knows n r.0
        × (r.0.online ≡ true)
        × (r.0.poll_status ≡ online)
        × (r.0.consecutive_failures ≡ 0)
        × (r.0.last_seen ≡ steady_now)
        × (r.1.1 ≡ (n, []))
  unfolding register_value seen with_health with_telemetry with_identity
  poll_node_fresh steady_now system_now sample c n live =
      rw (polled steady_now system_now sample c n live) (
        (
          refl, refl, refl, refl, refl, refl, refl, refl, refl, refl, refl, refl, refl, refl, refl,
          refl, refl, refl, refl,
        ),
        refl,
        refl,
        refl,
        refl,
        refl,
      )
