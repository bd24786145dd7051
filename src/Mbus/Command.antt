-- ===== src/Mbus/Command.antt =====
-- `applyCommand` of node-esp32-evb/src/main.cpp: the node's command registers, its driver and the
-- time-to-live of a command. A time is the number of milliseconds of `millis()`, a 32-bit word.
pub mod Ttl
use gridex_edge_gateway.Prelude.{
  ℕ, ◌+◌, ◌-◌, ◌*◌, ◌%◌, ◌^◌, Bool, false, not, ◌&&◌, if◌then◌else◌, ◌==◌, ltb, leb,
}
use gridex_edge_gateway.Prelude.Int.{ℤ, pos}
use gridex_edge_gateway.Prelude.Words.{int16, u16_of}
use gridex_edge_gateway.Modbus.{Io}
use gridex_edge_gateway.Mbus.Node.{MbusNode, register_value, set_register}
use gridex_edge_gateway.Mbus.Reg as Reg

-- `IDeviceDriver::applyPowerCommand` over a state `S` of the device.
abbrev pub PowerCommand : Type 0 → Type 0
PowerCommand S = ℤ → Io S Bool

-- The variables of the command handling.
pub record CommandState : Type 0 where
  pub node : MbusNode
  pub last_command_ms : ℕ
  pub last_command_sequence : ℕ
  pub command_armed : Bool

-- The difference of two readings of the clock.
abbrev pub elapsed : ℕ → ℕ → ℕ
elapsed now before = (now + 2 ^ 32 - before) % 2 ^ 32

abbrev pub ttl_valid : ℕ → Bool
ttl_valid ttl = leb 1 ttl && leb ttl 30

module _ {S : Type 0} (apply_power_command : PowerCommand S) where
  -- A sequence number that was not seen before: the new command.
  unfoldable pub take_new_command : ℕ → CommandState → S → CommandState × S
  unfolding register_value set_register int16 u16_of
  take_new_command now c s =
      let ttl = register_value Reg.command_ttl_seconds c.node in
      let requested = int16 (register_value Reg.requested_power_kw_x10 c.node) in
      let wanted = register_value Reg.command_enable c.node == 1 && ttl_valid ttl in
      let (done, s') = apply_power_command requested s in
      let accepted = wanted && done in
      let result = if accepted then 1 else if ttl_valid ttl then 2 else 4 in
      (
        record {
          node = set_register Reg.last_command_result result (
              set_register Reg.applied_power_kw_x10 (if accepted then u16_of requested else 0)
                c.node);
          last_command_ms = now;
          last_command_sequence = register_value Reg.command_sequence c.node;
          command_armed = accepted;
        },
        (if wanted then s' else s),
      )

  -- The end of an armed command.
  unfoldable pub expire : CommandState → S → CommandState × S
  unfolding set_register
  expire c s = (
    record c {
      node =
          set_register Reg.last_command_result 3 (set_register Reg.applied_power_kw_x10 0 c.node);
      command_armed = false;
    },
    (apply_power_command (pos 0) s).1,
  )

  unfoldable pub apply_command : ℕ → CommandState → S → CommandState × S
  unfolding take_new_command expire register_value
  apply_command now c s =
      let ttl = register_value Reg.command_ttl_seconds c.node in
      let fresh = not (register_value Reg.command_sequence c.node == c.last_command_sequence) in
      let (c', s') = if fresh then take_new_command now c s else (c, s) in
      if c'.command_armed && ltb (ttl * 1000) (elapsed now c'.last_command_ms)
      then expire c' s'
      else (c', s')
