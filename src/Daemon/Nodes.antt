-- ===== src/Daemon/Nodes.antt =====
-- The part of the control loop of base-rockpie/src/main.cpp that is about the nodes: the commands to them,
-- the publication of their samples, the journal of their transitions, and the health message.
use gridex_edge_gateway.Prelude.{
  ℕ, Option, List, Bool, false, if◌then◌else◌, ◌==◌, ◌+◌, length, ◌∷◌, some, not, suc, ◌≡◌, none,
  replicate, [], refl, true, arith, sym, if-both, ◌∙◌, ap, zero,
}
use gridex_edge_gateway.Prelude.Text.{codes}
use gridex_edge_gateway.Types.{EdgeState, safe_mode, ready}
use gridex_edge_gateway.Double.{Double}
use gridex_edge_gateway.Telemetry.{
  NodePollStatus, unknown, online, transport_failure, identity_failure, telemetry_failure,
  MbusNodeTelemetry,
}
use gridex_edge_gateway.Tcp.{Socket, TcpClient}
use gridex_edge_gateway.Polling.{apply_power_command}
use gridex_edge_gateway.Mqtt.{poll_status_word, EdgeHealthMessage}
use gridex_edge_gateway.Journal.{TelemetryJournal, FileSystem, append_transition}
use gridex_edge_gateway.Controller.{ControllerSnapshot}
use gridex_edge_gateway.Northbound.Bank.{
  NorthboundRegisterBank, NorthboundNodeCommand, take_node_command,
}
use gridex_edge_gateway.Northbound.Publish.{publish_node}

module _ {S : Type 0} (socket : Socket S) where
  unfoldable pub command_node :
      Option NorthboundNodeCommand → List (TcpClient × S) → Bool × List (TcpClient × S)
  unfolding apply_power_command
  command_node none xs = (false, xs)
  command_node (some command) xs =
      let (done, xs') =
        apply_power_command socket command.target_slot command.requested_power_kw command.enabled
          command.sequence command.ttl_seconds xs in
      if not command.authorized then (false, xs) else (done, xs')

  -- Whether the command was accepted is only printed.
  unfoldable pub dispatch_node :
      NorthboundRegisterBank
      → List (TcpClient × S)
      → Bool × NorthboundRegisterBank × List (TcpClient × S)
  unfolding command_node take_node_command
  dispatch_node b xs =
      let (command, b') = take_node_command b in
      let (accepted, xs') = command_node command xs in (accepted, b', xs')

-- As many as there are nodes, from the start if their number changed.
unfoldable pub resized : ℕ → List NodePollStatus → List NodePollStatus
resized nodes statuses =
    if not (length statuses == nodes) then replicate nodes unknown else statuses

abbrev pub same_status : NodePollStatus → NodePollStatus → Bool
same_status a b = poll_status_word a == poll_status_word b

status_of_word : ℕ → NodePollStatus
status_of_word zero = unknown
status_of_word (suc zero) = online
status_of_word (suc (suc zero)) = transport_failure
status_of_word (suc (suc (suc zero))) = identity_failure
status_of_word (suc (suc (suc (suc n)))) = telemetry_failure

status_of_word_lem : (a : NodePollStatus) → status_of_word (poll_status_word a) ≡ a
unfolding status_of_word poll_status_word
status_of_word_lem unknown = refl
status_of_word_lem online = refl
status_of_word_lem transport_failure = refl
status_of_word_lem identity_failure = refl
status_of_word_lem telemetry_failure = refl

same_status_lem : (a b : NodePollStatus) → same_status a b ≡ true → a ≡ b
same_status_lem a b e =
    let same : poll_status_word a ≡ poll_status_word b = ground (arith, e) in
    sym (status_of_word_lem a) ∙ ap status_of_word same ∙ status_of_word_lem b

abbrev pub statuses_of : List MbusNodeTelemetry → List NodePollStatus
statuses_of [] = []
statuses_of (sample ∷ samples) = sample.poll_status ∷ statuses_of samples

module _ {S : Type 0} (fs : FileSystem S) (observed_at : List ℕ) (show_double : Double → List ℕ)
    (now : ℕ) where
  -- A transition is noted also when the journal failed.
  unfoldable pub journal_node :
      ℕ → MbusNodeTelemetry → NodePollStatus → TelemetryJournal × S → TelemetryJournal × S
  unfolding append_transition poll_status_word
  journal_node slot sample previous x =
      let noted = (append_transition fs observed_at show_double (slot + 1) sample previous x).1 in
      if same_status sample.poll_status previous then x else noted

  -- The loop over the samples, from a slot on.
  unfoldable pub publish_nodes :
      ℕ
      → List MbusNodeTelemetry
      → List NodePollStatus
      → NorthboundRegisterBank × (TelemetryJournal × S)
      → List NodePollStatus × (NorthboundRegisterBank × (TelemetryJournal × S))
  unfolding publish_node journal_node
  publish_nodes slot (sample ∷ samples) (previous ∷ statuses) (b, x) =
      let (statuses', rest) =
        publish_nodes (suc slot) samples statuses
          (publish_node now slot sample b, journal_node slot sample previous x) in
      (
        (if same_status sample.poll_status previous then previous else sample.poll_status)
            ∷ statuses',
        rest,
      )
  publish_nodes slot samples statuses x = (statuses, x)

  -- After a turn, the statuses are those of the samples.
  pub publish_nodes-statuses_of :
      (slot : ℕ) (samples : List MbusNodeTelemetry) (statuses : List NodePollStatus)
      (x : NorthboundRegisterBank × (TelemetryJournal × S))
      → length statuses ≡ length samples
      → (publish_nodes slot samples statuses x).0 ≡ statuses_of samples
  unfolding publish_nodes
  publish_nodes-statuses_of slot [] [] x e = refl
  publish_nodes-statuses_of slot [] (previous ∷ statuses) x e = absurd (omega arith)
  publish_nodes-statuses_of slot (sample ∷ samples) [] x e = absurd (omega arith)
  publish_nodes-statuses_of slot (sample ∷ samples) (previous ∷ statuses) (b, x) e =
      let here : (if same_status sample.poll_status previous then previous else sample.poll_status)
          ≡ sample.poll_status =
        if-both (λ status. status ≡ sample.poll_status) (same_status sample.poll_status previous)
          previous sample.poll_status
          (λ same. sym (same_status_lem sample.poll_status previous same)) (λ other. refl) in
      ap
        (λ t.
          (if same_status sample.poll_status previous then previous else sample.poll_status) ∷ t)
        (publish_nodes-statuses_of (suc slot) samples statuses
          (publish_node now slot sample b, journal_node slot sample previous x) (omega arith))
      ∙ ap (λ status. status ∷ statuses_of samples) here

-- `std::count_if` of the nodes that are online.
unfoldable pub online_nodes : List MbusNodeTelemetry → ℕ
online_nodes [] = 0
online_nodes (sample ∷ samples) =
    if sample.online then suc (online_nodes samples) else online_nodes samples

abbrev pub is_safe_mode : EdgeState → Bool
is_safe_mode safe_mode = true
is_safe_mode _ = false

abbrev pub is_ready : EdgeState → Bool
is_ready ready = true
is_ready _ = false

-- What is published of a turn.
unfoldable pub health_message :
    List ℕ
    → List ℕ
    → Option Double
    → ControllerSnapshot
    → List MbusNodeTelemetry
    → EdgeHealthMessage
unfolding online_nodes
health_message site gateway temperature snapshot samples = record {
  site_id = site;
  gateway_id = gateway;
  state =
      if is_safe_mode snapshot.state
      then codes "safe_mode"
      else if is_ready snapshot.state
      then codes "ready"
      else codes "degraded";
  pcs_heartbeat_ok = snapshot.heartbeat_ok;
  control_ready = is_ready snapshot.state;
  safe_mode = is_safe_mode snapshot.state;
  northbound_ready = true;
  node_online_count = online_nodes samples;
  node_total = length samples;
  cpu_temperature_c = temperature;
}
