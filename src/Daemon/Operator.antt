-- ===== src/Daemon/Operator.antt =====
-- Operator commands without the commissioning approval.
use gridex_edge_gateway.Prelude.{
  is_some, ℕ, ◌≡◌, ◌≢◌, refl, arith, ◌==◌, Bool, true, false, not, ◌&&◌, ◌||◌, ltb, Option, none,
  some, if◌then◌else◌, if-both, get_or, set, length, length-set, get_or-set_self, ap, sym, ◌∙◌,
}
use gridex_edge_gateway.Double.{Double}
use gridex_edge_gateway.Modbus.{ModbusClient}
use gridex_edge_gateway.Driver.Poll.{Driver, writes_enabled}
use gridex_edge_gateway.Driver.Writes.{
  write_power_state, write_soc_limits_pct, write_reactive_power_setpoint_kvar, soc_limits_refused,
}
use gridex_edge_gateway.Northbound.Bank.{
  NorthboundRegisterBank, NorthboundOperatorCommand, take_operator_command, publish_operator_result,
  held, input_register_count,
}
use gridex_edge_gateway.Daemon.{
  carry_out, operate, operate_taken, dispatch_operator, mask_valid, run_state_bit, soc_limits_bit,
  reactive_power_bit,
}
use gridex_edge_gateway.Northbound.Input as Input
use gridex_edge_gateway.Northbound.Holding as Holding

some_bit :
    (mask : ℕ)
    → mask_valid mask ≡ true
    → not (run_state_bit mask) && not (soc_limits_bit mask) && not (reactive_power_bit mask) ≡ false
some_bit mask h = ground arith

valid_mask : (m other : Bool) → not m || other ≡ false → m ≡ true
valid_mask m other h = ground arith

not_done : (b : Bool) → b ≡ false → ◌≢◌ {A = ℕ} (if b then 1 else 4) 1
not_done b h e = ground arith

differs : (n : ℕ) → n ≢ 1 → (n == 1) ≡ false
differs n h = ground arith

take_operator_command-input :
    (b : NorthboundRegisterBank) → (take_operator_command b).1.input ≡ b.input
unfolding take_operator_command
take_operator_command-input b =
    if-both (λ (r : Option NorthboundOperatorCommand × NorthboundRegisterBank). r.1.input ≡ b.input)
      (b.operator_command_observed
        && (held b Holding.operator_sequence == b.last_operator_sequence))
      _ _ (λ _. refl) (λ _. refl)

module _ {S : Type 0} (client : ModbusClient S) (d : Driver)
    (locked : writes_enabled d.approval ≡ false) where
  no_power :
      (t on : Bool) (s : S)
      → (if t then write_power_state client d on s else (true, d, s)) ≡ (not t, d, s)
  unfolding write_power_state
  no_power true on s = rw locked refl
  no_power false on s = refl

  no_window :
      (t : Bool) (l u : Double) (s : S)
      → (if t then write_soc_limits_pct client d l u s else (true, s)) ≡ (not t, s)
  unfolding write_soc_limits_pct soc_limits_refused
  no_window true l u s = rw locked refl
  no_window false l u s = refl

  no_reactive :
      (t : Bool) (q : Double) (s : S)
      → (if t then write_reactive_power_setpoint_kvar client d q s else (true, s)) ≡ (not t, s)
  unfolding write_reactive_power_setpoint_kvar
  no_reactive true q s = rw locked refl
  no_reactive false q s = refl

  pub carry_out-locked :
      (op : NorthboundOperatorCommand) (s : S)
      → carry_out client d op s ≡ (
        not (run_state_bit op.action_mask)
            && not (soc_limits_bit op.action_mask)
            && not (reactive_power_bit op.action_mask),
        d,
        s,
      )
  unfolding carry_out
  carry_out-locked op s =
      rw
        (
          no_power (run_state_bit op.action_mask) (op.requested_run_state == 1) s,
          no_window (soc_limits_bit op.action_mask) op.requested_soc_lower_pct
              op.requested_soc_upper_pct s,
          no_reactive (reactive_power_bit op.action_mask) op.requested_reactive_power_kvar s,
        )
        refl

  -- Nothing is written, and the result is none of success.
  abbrev IsRefused : S → ℕ × Driver × S → Type 0
  IsRefused s r = (r.0 ≢ 1) × (r.1 ≡ d) × (r.2 ≡ s)

  operate-locked : (op : NorthboundOperatorCommand) (s : S) → IsRefused s (operate client d op s)
  unfolding operate
  operate-locked op s =
      let mask = op.action_mask in
      let c = carry_out-locked op s in
      if-both (IsRefused s) (not op.authorized) _ _ (λ _. (λ e. ground (arith, e), refl, refl))
        (λ _.
          if-both (IsRefused s)
            (not (mask_valid mask) || (run_state_bit mask && ltb 1 op.requested_run_state)) _ _
            (λ _. (λ e. ground (arith, e), refl, refl))
            (λ valid. (
              not_done (carry_out client d op s).0
                  (ap (λ r. r.0) c ∙ some_bit mask (valid_mask (mask_valid mask) _ valid)),
              ap (λ r. r.1) c,
              ap (λ r. r.2) c,
            )))

  pub operate_keeps : (op : NorthboundOperatorCommand) (s : S) → (operate client d op s).1 ≡ d
  operate_keeps op s = (operate-locked op s).1

  operate_taken-locked :
      (op : Option NorthboundOperatorCommand) (b : NorthboundRegisterBank) (s : S)
      → length b.input ≡ input_register_count
      → let r = operate_taken client op b d s in
        (r.2 ≡ s)
        × (r.1 ≡ d)
        × (is_some op && (get_or r.0.input Input.last_operator_result 0 == 1) ≡ false)
  unfolding operate_taken publish_operator_result
  operate_taken-locked none b s size = (refl, refl, refl)
  operate_taken-locked (some op) b s size =
      let (failed, same, silent) = operate-locked op s in
      let inner = set b.input Input.last_operator_sequence op.sequence in
      let result = (operate client d op s).0 in
      (
        silent,
        same,
        differs _ (λ e. failed (
            sym (
              get_or-set_self inner Input.last_operator_result result 0
                (omega (arith, size, length-set b.input Input.last_operator_sequence op.sequence)))
            ∙ e)),
      )

  -- Without the commissioning approval an operator command makes no call to the storage system and
  -- changes nothing in the driver, whatever its registers say; and where one was taken, the register of
  -- the result does not say success.
  pub dispatch_operator_locked :
      (b : NorthboundRegisterBank) (s : S)
      → length b.input ≡ input_register_count
      → let r = dispatch_operator client b d s in
        (r.2 ≡ s)
        × (r.1 ≡ d)
        × (is_some (take_operator_command b).0
              && (get_or r.0.input Input.last_operator_result 0 == 1)
            ≡ false)
  unfolding dispatch_operator
  dispatch_operator_locked b s size =
      operate_taken-locked (take_operator_command b).0 (take_operator_command b).1 s
        (ap length (take_operator_command-input b) ∙ size)
