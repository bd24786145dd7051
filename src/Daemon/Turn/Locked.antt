-- ===== src/Daemon/Turn/Locked.antt =====
-- The control loop without the commissioning approval.
use gridex_edge_gateway.Prelude.{
  ℕ, ◌≡◌, refl, Bool, false, Option, none, some, if-both, not, if◌then◌else◌, ◌∙◌, ap, List, sym,
  ◌||◌, ◌∷◌, ◌&&◌, ltb, [],
}
use gridex_edge_gateway.Modbus.{ModbusClient, Io}
use gridex_edge_gateway.Driver.Poll.{Driver, writes_enabled, poll}
use gridex_edge_gateway.Controller.{Controller, ControllerSnapshot, tick}
use gridex_edge_gateway.Controller.Locked.{poll-approval, tick_locked}
use gridex_edge_gateway.Northbound.Bank.{
  NorthboundRegisterBank, NorthboundOperatorCommand, take_operator_command,
}
use gridex_edge_gateway.Daemon.{
  operate, operate_taken, dispatch_operator, carry_out, mask_valid, receive_northbound,
  run_state_bit,
}
use gridex_edge_gateway.Daemon.Operator.{carry_out-locked, operate_keeps}
use gridex_edge_gateway.Daemon.Turn.{
  steer, Control, TurnInput, serve_all, ReportConfig, Gateway, turns,
}
use gridex_edge_gateway.Daemon.Turn.Isolation.{bare_turns, bare_turn, shown, turns-bare}
use gridex_edge_gateway.Tcp.{Socket}
use gridex_edge_gateway.Mqtt.Publish.{Publish}
use gridex_edge_gateway.Double.{Double}
use gridex_edge_gateway.Journal.{FileSystem}

-- The same storage system with another way to write to it.
abbrev pub rewired : {S : Type 0} → ModbusClient S → (ℕ → ℕ → Io S Bool) → ModbusClient S
rewired client write = record client { write_holding = write }

module _ {S : Type 0} (client : ModbusClient S) (write : ℕ → ℕ → Io S Bool) where
  -- What `operate` makes of the writes.
  abbrev answered : Driver → NorthboundOperatorCommand → S → Bool × Driver × S → ℕ × Driver × S
  answered d op s r =
      if not op.authorized
      then (2, d, s)
      else if not (mask_valid op.action_mask)
          || (run_state_bit op.action_mask && ltb 1 op.requested_run_state)
      then (3, d, s)
      else ((if r.0 then 1 else 4), r.1, r.2)

  operate-answered :
      (any : ModbusClient S) (d : Driver) (op : NorthboundOperatorCommand) (s : S)
      → operate any d op s ≡ answered d op s (carry_out any d op s)
  unfolding operate
  operate-answered any d op s = refl

  operate-rewired :
      (d : Driver) (op : NorthboundOperatorCommand) (s : S)
      → writes_enabled d.approval ≡ false
      → operate (rewired client write) d op s ≡ operate client d op s
  operate-rewired d op s closed =
      operate-answered (rewired client write) d op s
      ∙ ap (answered d op s) (
          carry_out-locked (rewired client write) d closed op s
          ∙ sym (carry_out-locked client d closed op s))
      ∙ sym (operate-answered client d op s)

  operate_taken-rewired :
      (op : Option NorthboundOperatorCommand) (b : NorthboundRegisterBank) (d : Driver) (s : S)
      → writes_enabled d.approval ≡ false
      → operate_taken (rewired client write) op b d s ≡ operate_taken client op b d s
  unfolding operate_taken
  operate_taken-rewired none b d s closed = refl
  operate_taken-rewired (some op) b d s closed = rw (operate-rewired d op s closed) refl

  dispatch_operator-rewired :
      (b : NorthboundRegisterBank) (d : Driver) (s : S)
      → writes_enabled d.approval ≡ false
      → dispatch_operator (rewired client write) b d s ≡ dispatch_operator client b d s
  unfolding dispatch_operator
  dispatch_operator-rewired b d s closed =
      operate_taken-rewired (take_operator_command b).0 (take_operator_command b).1 d s closed

  tick-approval :
      (c : Controller) (d : Driver) (now : ℕ) (s : S)
      → (tick client c d now s).2.approval ≡ d.approval
  unfolding tick
  tick-approval c d now s =
      if-both {A = ControllerSnapshot × Controller × Driver × S} (λ r. r.2.approval ≡ d.approval)
        (not (writes_enabled (poll client d s).1.approval)) _ _ (λ _. poll-approval client d s)
        (λ _. poll-approval client d s)

  dispatch-approval :
      (b : NorthboundRegisterBank) (d : Driver) (s : S)
      → writes_enabled d.approval ≡ false
      → (dispatch_operator client b d s).1.approval ≡ d.approval
  unfolding dispatch_operator operate_taken
  dispatch-approval b d s closed = kept (take_operator_command b).0
    where
      kept :
          (op : Option NorthboundOperatorCommand)
          → (operate_taken client op (take_operator_command b).1 d s).1.approval ≡ d.approval
      kept none = refl
      kept (some op) = ap (λ e. e.approval) (operate_keeps client d closed op s)

  steer-rewired :
      (now : ℕ) (k : Control S)
      → writes_enabled k.driver.approval ≡ false
      → steer (rewired client write) now k ≡ steer client now k
  unfolding steer
  steer-rewired now k closed =
      let c = (receive_northbound now k.bank k.controller).1 in
      let b = (receive_northbound now k.bank k.controller).0 in
      let r = tick client c k.driver now k.pcs in
      let same = (tick_locked client k.driver k.pcs c now write closed).0 in
      let still : writes_enabled r.2.approval ≡ false =
        ap writes_enabled (tick-approval c k.driver now k.pcs) ∙ closed in
      ap (steered (rewired client write) b) same
      ∙ ap (λ o. (r.0, record { bank = o.0; controller = r.1; driver = o.1; pcs = o.2 }))
          (dispatch_operator-rewired b r.2 r.3 still)
    where
      steered :
          ModbusClient S
          → NorthboundRegisterBank
          → ControllerSnapshot × Controller × Driver × S
          → ControllerSnapshot × Control S
      steered any b r =
          let (b', d', s') = dispatch_operator any b r.2 r.3 in
          (r.0, record { bank = b'; controller = r.1; driver = d'; pcs = s' })

  steer-approval :
      (now : ℕ) (k : Control S)
      → writes_enabled k.driver.approval ≡ false
      → writes_enabled (steer client now k).1.driver.approval ≡ false
  unfolding steer
  steer-approval now k closed =
      let (b, c) = receive_northbound now k.bank k.controller in
      let r = tick client c k.driver now k.pcs in
      let still : writes_enabled r.2.approval ≡ false =
        ap writes_enabled (tick-approval c k.driver now k.pcs) ∙ closed in
      ap writes_enabled (dispatch-approval b r.2 r.3 still) ∙ still

  bare_turns-rewired :
      (is : List TurnInput) (k : Control S)
      → writes_enabled k.driver.approval ≡ false
      → bare_turns (rewired client write) is k ≡ bare_turns client is k
  bare_turns-rewired [] k closed = refl
  bare_turns-rewired (i ∷ is) k closed =
      let k0 = record k { bank = serve_all i.requests k.bank } in
      let first = steer-rewired i.now k0 closed in
      let k' = (bare_turn client i k).1 in
      let same = ap (shown i) first in
      let still = steer-approval i.now k0 closed in
      ap
        (λ r. (
          r.0 ∷ (bare_turns (rewired client write) is r.1).0,
          (bare_turns (rewired client write) is r.1).1,
        ))
        same
      ∙ ap (λ t. ((bare_turn client i k).0 ∷ t.0, t.1)) (bare_turns-rewired is k' still)

-- Without the commissioning approval no run of the control loop writes to the storage system: its
-- snapshots, its registers, and all that it leaves behind of the storage system are the same for every
-- function that stands for the write call, whatever the energy manager requests, operator commands
-- included, and whatever the nodes, the broker and the journal do.
pub turns_locked :
    {S N F M : Type 0} (client : ModbusClient S) (socket : Socket N) (publish_message : Publish M)
    (timestamp : ℕ → List ℕ) (show_double : Double → List ℕ) (fs : FileSystem F)
    (config : ReportConfig) (is : List TurnInput) (g : Gateway S N F M) (write : ℕ → ℕ → Io S Bool)
    → writes_enabled g.control.driver.approval ≡ false
    → let r = turns publish_message timestamp show_double fs config client socket is g in
      let r' =
        turns publish_message timestamp show_double fs config (rewired client write) socket is g in
      (r'.0 ≡ r.0) × (r'.1.control ≡ r.1.control)
turns_locked client socket publish_message timestamp show_double fs config is g write closed =
    let (here, end) =
      turns-bare client socket publish_message timestamp show_double fs config is g in
    let (here', end') =
      turns-bare (rewired client write) socket publish_message timestamp show_double fs config is
        g in
    let same = bare_turns-rewired client write is g.control closed in
    (here' ∙ ap (λ t. t.0) same ∙ sym here, end' ∙ ap (λ t. t.1) same ∙ sym end)
