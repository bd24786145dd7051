-- ===== src/Mbus/Firmware/Silent.antt =====
-- The node and the broker.
use gridex_edge_gateway.Prelude.{
  ℕ, ◌≡◌, refl, ap, sym, ◌∙◌, Bool, false, List, [], ◌∷◌, Option, ltb, if-both,
}
use mathlib.Core.Path.{subst}
use gridex_edge_gateway.Prelude.Int.{ℤ}
use gridex_edge_gateway.Mbus.Command.{PowerCommand, elapsed}
use gridex_edge_gateway.Mbus.Board.{Board, DeviceDriver}
use gridex_edge_gateway.Mbus.Provisioning.{Preferences}
use gridex_edge_gateway.Mbus.Cloud.{
  PubSubClient, MqttTelemetryService, load_cloud_config, begin, loop, loop_idle, publish_idle,
}
use gridex_edge_gateway.Mbus.Node.{register_value}
use gridex_edge_gateway.Mbus.Reg as Reg
use gridex_edge_gateway.Mbus.Firmware.{
  work_turn, Firmware, LoopInput, World, setup, serial_turn, control_turn, command_turn,
  device_turn, publish_turn, turn, turns,
}

-- The service is not enabled, and did not start.
abbrev IsIdle : MqttTelemetryService → Type 0
IsIdle t = (t.config.enabled ≡ false) × (t.active ≡ false)

module _ {P C D : Type 0} (store : Preferences P) (mqtt : PubSubClient C) (driver : DeviceDriver D)
    (apply_power_command : PowerCommand D) (sha256_hex : List ℕ → List ℕ)
    (parse_ip : List ℕ → Option ℕ) (tenths : ℤ → List ℕ) where
  -- The service stays idle, and the broker is left alone.
  abbrev Untouched : C → Firmware × C → Type 0
  Untouched broker r = IsIdle r.0.cloud × (r.1 ≡ broker)

  publish_turn-Untouched :
      (now : ℕ) (f : Firmware) (broker : C)
      → IsIdle f.cloud
      → Untouched broker (
          publish_turn store mqtt driver apply_power_command sha256_hex parse_ip tenths now f
            broker)
  unfolding publish_turn
  publish_turn-Untouched now f broker (off, idle) =
      if-both (Untouched broker) (ltb (elapsed now f.last_cloud_publish_ms) 2000) _ _
        (λ _. ((off, idle), refl))
        (λ _. (
          (off, idle),
          publish_idle mqtt tenths f.last_sample (register_value Reg.heartbeat f.node) f.cloud
              broker off idle,
        ))

  work_turn-Untouched :
      (i : LoopInput) (f : Firmware) (w : World P C D)
      → IsIdle f.cloud
      → let r =
          (work_turn store mqtt driver apply_power_command sha256_hex parse_ip tenths i (f, w)).0 in
        IsIdle r.0.cloud × (r.1.broker ≡ w.broker)
  unfolding work_turn serial_turn control_turn command_turn device_turn
  work_turn-Untouched i f w (off, idle) =
      let same = loop_idle mqtt tenths i.now f.cloud w.broker off idle in
      let still : IsIdle (loop mqtt tenths i.now (f.cloud, w.broker)).0 =
        subst (λ (x : MqttTelemetryService × C). IsIdle x.0) (sym same) (off, idle) in
      (still, ap (λ x. x.1) same)

  turn-Untouched :
      (i : LoopInput) (f : Firmware) (w : World P C D)
      → IsIdle f.cloud
      → let r =
          (turn store mqtt driver apply_power_command sha256_hex parse_ip tenths i (f, w)).0 in
        IsIdle r.0.cloud × (r.1.broker ≡ w.broker)
  unfolding turn
  turn-Untouched i f w h =
      let r =
        (work_turn store mqtt driver apply_power_command sha256_hex parse_ip tenths i (f, w)).0 in
      let (still, same) = work_turn-Untouched i f w h in
      let (kept, alone) = publish_turn-Untouched i.now r.0 r.1.broker still in (kept, alone ∙ same)

  turns-Untouched :
      (is : List LoopInput) (f : Firmware) (w : World P C D)
      → IsIdle f.cloud
      → (turns store mqtt driver apply_power_command sha256_hex parse_ip tenths is (f, w)).1.broker
        ≡ w.broker
  unfolding turns
  turns-Untouched [] f w h = refl
  turns-Untouched (i ∷ is) f w h =
      let r = (turn store mqtt driver apply_power_command sha256_hex parse_ip tenths i (f, w)).0 in
      let (kept, alone) = turn-Untouched i f w h in turns-Untouched is r.0 r.1 kept ∙ alone

  -- A node never sends telemetry to a broker by itself: whatever broker, user and secret its flash holds,
  -- from its start through any number of turns of its loop no call of the broker's library is made, so
  -- the state of that library is the one before the start.
  pub firmware_silent :
      (uid : ℕ) (watchdog link_up listening : Bool) (b : Board) (w : World P C D)
      (is : List LoopInput)
      → (turns store mqtt driver apply_power_command sha256_hex parse_ip tenths is (
          setup store mqtt driver apply_power_command sha256_hex parse_ip tenths uid watchdog
            link_up listening b w)).1.broker
        ≡ w.broker
  unfolding setup load_cloud_config begin
  firmware_silent uid watchdog link_up listening b w is =
      let r =
        setup store mqtt driver apply_power_command sha256_hex parse_ip tenths uid watchdog link_up
          listening b w in
      turns-Untouched is r.0 r.1 (refl, refl)
