-- ===== src/Polling.antt =====
-- `NodeTcpPollingService` of base-rockpie/: the poll of the nodes and the commands to them. The clients
-- share one kind of socket; each has its own state. The worker's sleep and the mutex are left out:
-- a poll of a node is one step.
pub mod Health
pub mod Reach
pub mod Fresh
use gridex_edge_gateway.Prelude.{
  ℕ, zero, suc, ◌+◌, ◌*◌, ◌%◌, ◌^◌, Bool, true, false, not, ◌||◌, Option, none, some, List, [], ◌∷◌,
  if◌then◌else◌, ◌==◌, ltb, leb, get_or, length,
}
use gridex_edge_gateway.Prelude.Int.{pos, negsuc}
use gridex_edge_gateway.Prelude.Words.{int16, u16_of}
use gridex_edge_gateway.Double.{Double, fin, milli, lt, is_finite, divide, round_scaled, to_ℤ}
use gridex_edge_gateway.Telemetry.{
  NodePollStatus, online, transport_failure, identity_failure, telemetry_failure, MbusNodeTelemetry,
  new_sample,
}
use gridex_edge_gateway.Tcp.{Socket, TcpClient, Call, new_client}
use gridex_edge_gateway.Tcp.Calls.{read_holding_range, write_holding_range}

abbrev pub magic : ℕ
magic = 0x4758

abbrev pub identity_start : ℕ
identity_start = 0x0000

abbrev pub identity_count : ℕ
identity_count = 13

abbrev pub command_start : ℕ
command_start = 0x0014

abbrev pub telemetry_start : ℕ
telemetry_start = 0x0040

abbrev pub telemetry_count : ℕ
telemetry_count = 6

abbrev pub health_start : ℕ
health_start = 0x0046

abbrev pub health_count : ℕ
health_count = 9

-- The interval, at least 100 ms.
abbrev pub poll_interval : ℕ → ℕ
poll_interval interval = if ltb interval 100 then 100 else interval

-- A poll that failed: what was known stays.
unfoldable pub failed : NodePollStatus → MbusNodeTelemetry → MbusNodeTelemetry
failed status sample = record sample {
  online = false;
  poll_status = status;
  consecutive_failures = (sample.consecutive_failures + 1) % 2 ^ 32;
}

unfoldable pub with_identity : List ℕ → MbusNodeTelemetry → MbusNodeTelemetry
with_identity identity sample = record sample {
  node_type = get_or identity 2 0;
  node_state = get_or identity 3 0;
  driver_id = get_or identity 5 0;
  quality = get_or identity 6 0;
  heartbeat = get_or identity 12 0;
}

unfoldable pub with_telemetry : List ℕ → MbusNodeTelemetry → MbusNodeTelemetry
unfolding divide int16
with_telemetry telemetry sample = record sample {
  actual_power_kw = divide (int16 (get_or telemetry 0 0)) 10;
  energy_wh = get_or telemetry 1 0 * 65536 + get_or telemetry 2 0;
  device_state = get_or telemetry 3 0;
  alarm_bits = get_or telemetry 4 0;
  cloud_connected = get_or telemetry 5 0 == 1;
}

unfoldable pub with_health : Option (List ℕ) → MbusNodeTelemetry → MbusNodeTelemetry
with_health none sample = sample
with_health (some health) sample = record sample {
  ethernet_status = get_or health 0 0;
  modbus_tcp_status = get_or health 1 0;
  driver_ready = get_or health 2 0;
  device_bus_status = get_or health 3 0;
  watchdog_status = get_or health 4 0;
  recovery_count = get_or health 5 0;
  ethernet_recovery_count = get_or health 6 0;
  bus_recovery_count = get_or health 7 0;
  last_error = get_or health 8 0;
}

-- The two clocks at the end of the poll.
unfoldable pub seen : ℕ → ℕ → MbusNodeTelemetry → MbusNodeTelemetry
seen steady_now system_now sample = record sample {
  online = true;
  poll_status = online;
  consecutive_failures = 0;
  last_seen = steady_now;
  last_successful_contact = system_now;
}

module _ {S : Type 0} (socket : Socket S) (steady_now system_now : ℕ) where
  unfoldable pub after_telemetry :
      List ℕ
      → Option (List ℕ)
      → MbusNodeTelemetry
      → TcpClient × S
      → MbusNodeTelemetry × (TcpClient × S)
  unfolding failed with_identity with_telemetry with_health seen read_holding_range
  after_telemetry identity none sample x = (failed telemetry_failure sample, x)
  after_telemetry identity (some telemetry) sample x =
      let (health, x') = read_holding_range socket health_start health_count x in
      (
        seen steady_now system_now
            (with_health health (with_telemetry telemetry (with_identity identity sample))),
        x',
      )

  unfoldable pub after_identity :
      Option (List ℕ) → MbusNodeTelemetry → TcpClient × S → MbusNodeTelemetry × (TcpClient × S)
  unfolding failed after_telemetry read_holding_range
  after_identity none sample x = (failed transport_failure sample, x)
  after_identity (some identity) sample x =
      if not (get_or identity 0 0 == magic)
      then (failed identity_failure sample, x)
      else let (telemetry, x') = read_holding_range socket telemetry_start telemetry_count x in
        after_telemetry identity telemetry sample x'

  unfoldable pub poll_node : MbusNodeTelemetry → TcpClient × S → MbusNodeTelemetry × (TcpClient × S)
  unfolding after_identity read_holding_range
  poll_node sample x =
      let (identity, x') = read_holding_range socket identity_start identity_count x in
      after_identity identity sample x'

  -- One cycle of the worker: each node once, in their order.
  unfoldable pub poll_cycle :
      List MbusNodeTelemetry → List (TcpClient × S) → List MbusNodeTelemetry × List (TcpClient × S)
  unfolding poll_node
  poll_cycle (sample ∷ samples) (x ∷ xs) =
      let (sample', x') = poll_node sample x in
      let (samples', xs') = poll_cycle samples xs in (sample' ∷ samples', x' ∷ xs')
  poll_cycle samples xs = (samples, xs)

-- A node before its first poll: the address is its place, as a byte.
unfoldable pub new_samples : ℕ → ℕ → List MbusNodeTelemetry
new_samples index zero = []
new_samples index (suc nodes) = new_sample ((index + 1) % 256) ∷ new_samples (suc index) nodes

-- -3276.8 and 3276.7.
unfoldable pub command_refused : ℕ → ℕ → Double → ℕ → Bool
command_refused nodes slot power ttl =
    leb nodes slot
    || not (is_finite power)
    || lt power (fin (negsuc 3276799))
    || lt (milli 3276700) power
    || ltb ttl 1
    || ltb 30 ttl

module _ {S : Type 0} (socket : Socket S) where
  -- A call of the client of a slot.
  unfoldable pub on_slot : ℕ → Call S Bool → List (TcpClient × S) → Bool × List (TcpClient × S)
  on_slot slot call [] = (false, [])
  on_slot zero call (x ∷ xs) = let (done, x') = call x in (done, x' ∷ xs)
  on_slot (suc slot) call (x ∷ xs) = let (done, xs') = on_slot slot call xs in (done, x ∷ xs')

  -- The four registers of a command.
  unfoldable pub apply_power_command :
      ℕ → Double → Bool → ℕ → ℕ → List (TcpClient × S) → Bool × List (TcpClient × S)
  unfolding command_refused round_scaled to_ℤ u16_of on_slot write_holding_range
  apply_power_command slot power enabled sequence ttl xs =
      if command_refused (length xs) slot power ttl
      then (false, xs)
      else on_slot slot
          (write_holding_range socket command_start (
            sequence
            ∷ u16_of (to_ℤ (round_scaled power 10))
            ∷ (if enabled then 1 else 0)
            ∷ ttl
            ∷ []))
          xs
