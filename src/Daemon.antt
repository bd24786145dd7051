-- ===== src/Daemon.antt =====
-- The control loop of base-rockpie/src/main.cpp: the commands that it takes from the register bank for
-- the controller and for the storage system. `Nodes`, `Turn` and `Environment` are the rest of the file,
-- `System` is src/SystemTelemetry.cpp.
pub mod Operator
pub mod Nodes
pub mod Turn
pub mod Environment
pub mod System
use gridex_edge_gateway.Prelude.{
  ℕ, ◌/◌, ◌%◌, Bool, true, false, not, ◌&&◌, ◌||◌, Option, none, some, if◌then◌else◌, ◌==◌, ltb,
}
use gridex_edge_gateway.Types.{no_site_limit}
use gridex_edge_gateway.Modbus.{ModbusClient}
use gridex_edge_gateway.Driver.Poll.{Driver}
use gridex_edge_gateway.Driver.Writes.{
  write_power_state, write_soc_limits_pct, write_reactive_power_setpoint_kvar,
}
use gridex_edge_gateway.Controller.{Controller, receive_command}
use gridex_edge_gateway.Northbound.Bank.{
  NorthboundRegisterBank, NorthboundCommand, NorthboundOperatorCommand, take_command,
  take_operator_command, publish_operator_result,
}

-- The bits of the action mask.
abbrev pub run_state_bit : ℕ → Bool
run_state_bit mask = mask % 2 == 1

abbrev pub reactive_power_bit : ℕ → Bool
reactive_power_bit mask = mask / 2 % 2 == 1

abbrev pub soc_limits_bit : ℕ → Bool
soc_limits_bit mask = mask / 4 % 2 == 1

-- Some action, and none beyond the three.
abbrev pub mask_valid : ℕ → Bool
mask_valid mask = not (mask == 0) && (mask / 8 == 0)

unfoldable pub receive_taken : ℕ → Option NorthboundCommand → Controller → Controller
receive_taken now none c = c
receive_taken now (some command) c = receive_command c command.requested_power_kw no_site_limit now

-- What the energy manager asks of the controller.
unfoldable pub receive_northbound :
    ℕ → NorthboundRegisterBank → Controller → NorthboundRegisterBank × Controller
unfolding receive_taken take_command
receive_northbound now b c = let (command, b') = take_command b in (b', receive_taken now command c)

module _ {S : Type 0} (client : ModbusClient S) where
  -- The writes that the mask names, each of them also after one that was not accepted.
  unfoldable pub carry_out : Driver → NorthboundOperatorCommand → S → Bool × Driver × S
  unfolding write_power_state
  carry_out d op s =
      let (running, d1, s1) =
        if run_state_bit op.action_mask
        then write_power_state client d (op.requested_run_state == 1) s
        else (true, d, s) in
      let (windowed, s2) =
        if soc_limits_bit op.action_mask
        then write_soc_limits_pct client d1 op.requested_soc_lower_pct op.requested_soc_upper_pct s1
        else (true, s1) in
      let (reactive, s3) =
        if reactive_power_bit op.action_mask
        then write_reactive_power_setpoint_kvar client d1 op.requested_reactive_power_kvar s2
        else (true, s2) in
      (running && windowed && reactive, d1, s3)

  -- 1: done, 2: wrong apply key, 3: not a valid request, 4: refused by the driver.
  unfoldable pub operate : Driver → NorthboundOperatorCommand → S → ℕ × Driver × S
  unfolding carry_out
  operate d op s =
      let (accepted, d', s') = carry_out d op s in
      if not op.authorized
      then (2, d, s)
      else if not (mask_valid op.action_mask)
          || (run_state_bit op.action_mask && ltb 1 op.requested_run_state)
      then (3, d, s)
      else ((if accepted then 1 else 4), d', s')

  unfoldable pub operate_taken :
      Option NorthboundOperatorCommand
      → NorthboundRegisterBank
      → Driver
      → S
      → NorthboundRegisterBank × Driver × S
  unfolding operate publish_operator_result
  operate_taken none b d s = (b, d, s)
  operate_taken (some op) b d s =
      let (result, d', s') = operate d op s in
      (publish_operator_result op.sequence result b, d', s')

  unfoldable pub dispatch_operator :
      NorthboundRegisterBank → Driver → S → NorthboundRegisterBank × Driver × S
  unfolding operate_taken take_operator_command
  dispatch_operator b d s = let (op, b') = take_operator_command b in operate_taken op b' d s
