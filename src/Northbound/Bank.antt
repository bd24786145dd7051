-- ===== src/Northbound/Bank.antt =====
-- `NorthboundRegisterBank` of base-rockpie/: the registers that the energy manager writes and reads,
-- and the commands that the gateway takes from them. Each operation runs under the one mutex of
-- the bank, so it is one step.
pub mod Once
use gridex_edge_gateway.Prelude.{
  ℕ, ◌+◌, ◌*◌, Bool, true, false, not, ◌&&◌, ◌||◌, Option, none, some, List, [], ◌∷◌, if◌then◌else◌,
  ◌==◌, ltb, get_or, length, take, drop, replicate, copy_to, set,
}
use gridex_edge_gateway.Double.{Double, nought, milli, divide}
use gridex_edge_gateway.Prelude.Int.{pos}
use gridex_edge_gateway.Prelude.Words.{int16}
use gridex_edge_gateway.Northbound.Holding as Holding
use gridex_edge_gateway.Northbound.Input as Input

abbrev pub holding_register_count : ℕ
holding_register_count = 17

abbrev pub operator_apply_key_value : ℕ
operator_apply_key_value = 0xA55A

abbrev pub node_slot_base : ℕ
node_slot_base = 0x0100

abbrev pub node_slot_stride : ℕ
node_slot_stride = 16

abbrev pub node_slot_count : ℕ
node_slot_count = 32

abbrev pub input_register_count : ℕ
input_register_count = node_slot_base + node_slot_stride * node_slot_count

pub record NorthboundCommand : Type 0 where
  pub sequence : ℕ
  pub heartbeat : ℕ
  pub requested_power_kw : Double
  pub enabled : Bool

pub record NorthboundOperatorCommand : Type 0 where
  pub sequence : ℕ
  pub action_mask : ℕ
  pub requested_run_state : ℕ
  pub requested_reactive_power_kvar : Double
  pub requested_soc_upper_pct : Double
  pub requested_soc_lower_pct : Double
  pub authorized : Bool

pub record NorthboundNodeCommand : Type 0 where
  pub sequence : ℕ
  pub target_slot : ℕ
  pub requested_power_kw : Double
  pub ttl_seconds : ℕ
  pub enabled : Bool
  pub authorized : Bool

pub record NorthboundRegisterBank : Type 0 where
  pub holding : List ℕ
  pub input : List ℕ
  pub command_observed : Bool
  pub last_sequence : ℕ
  pub last_heartbeat : ℕ
  pub operator_command_observed : Bool
  pub last_operator_sequence : ℕ
  pub node_command_observed : Bool
  pub last_node_command_sequence : ℕ

unfoldable pub new_bank : NorthboundRegisterBank
new_bank = record {
  holding = replicate holding_register_count 0;
  input = replicate input_register_count 0;
  command_observed = true;
  last_sequence = 0;
  last_heartbeat = 0;
  operator_command_observed = true;
  last_operator_sequence = 0;
  node_command_observed = true;
  last_node_command_sequence = 0;
}

unfoldable pub read_range : List ℕ → ℕ → ℕ → Option (List ℕ)
read_range registers start count =
    if count == 0 || ltb (length registers) (start + count)
    then none
    else some (take count (drop start registers))

unfoldable pub read_holding : ℕ → ℕ → NorthboundRegisterBank → Option (List ℕ)
unfolding read_range
read_holding start count b = read_range b.holding start count

unfoldable pub read_input : ℕ → ℕ → NorthboundRegisterBank → Option (List ℕ)
unfolding read_range
read_input start count b = read_range b.input start count

unfoldable pub write_holding : ℕ → List ℕ → NorthboundRegisterBank → Bool × NorthboundRegisterBank
write_holding start values b =
    if length values == 0 || ltb (length b.holding) (start + length values)
    then (false, b)
    else (true, record b { holding = copy_to start values b.holding })

abbrev pub held : NorthboundRegisterBank → ℕ → ℕ
held b a = get_or b.holding a 0

unfoldable pub take_command :
    NorthboundRegisterBank → Option NorthboundCommand × NorthboundRegisterBank
unfolding divide int16
take_command b =
    let sequence = held b Holding.command_sequence in
    let heartbeat = held b Holding.ems_heartbeat in
    let enabled = held b Holding.command_enable == 1 in
    if b.command_observed && (sequence == b.last_sequence) && (heartbeat == b.last_heartbeat)
    then (none, b)
    else (
      some (record {
        sequence = sequence;
        heartbeat = heartbeat;
        requested_power_kw =
            if enabled then divide (int16 (held b Holding.requested_power_kw_x10)) 10 else nought;
        enabled = enabled;
      }),
      record b { command_observed = true; last_sequence = sequence; last_heartbeat = heartbeat },
    )

unfoldable pub take_operator_command :
    NorthboundRegisterBank → Option NorthboundOperatorCommand × NorthboundRegisterBank
unfolding divide int16
take_operator_command b =
    let sequence = held b Holding.operator_sequence in
    if b.operator_command_observed && (sequence == b.last_operator_sequence) then (none, b) else (
      some (record {
        sequence = sequence;
        action_mask = held b Holding.operator_action_mask;
        requested_run_state = held b Holding.requested_run_state;
        requested_reactive_power_kvar =
            divide (int16 (held b Holding.requested_reactive_power_kvar_x10)) 10;
        requested_soc_upper_pct = divide (pos (held b Holding.requested_soc_upper_pct)) 1;
        requested_soc_lower_pct = divide (pos (held b Holding.requested_soc_lower_pct)) 1;
        authorized = held b Holding.operator_apply_key == operator_apply_key_value;
      }),
      record b { operator_command_observed = true; last_operator_sequence = sequence },
    )

unfoldable pub take_node_command :
    NorthboundRegisterBank → Option NorthboundNodeCommand × NorthboundRegisterBank
unfolding divide int16
take_node_command b =
    let sequence = held b Holding.node_command_sequence in
    if b.node_command_observed && (sequence == b.last_node_command_sequence) then (none, b) else (
      some (record {
        sequence = sequence;
        target_slot = held b Holding.node_command_target_slot;
        requested_power_kw = divide (int16 (held b Holding.node_requested_power_kw_x10)) 10;
        ttl_seconds = held b Holding.node_command_ttl_seconds;
        enabled = held b Holding.node_command_enable == 1;
        authorized = held b Holding.node_command_apply_key == operator_apply_key_value;
      }),
      record b { node_command_observed = true; last_node_command_sequence = sequence },
    )

unfoldable pub publish_operator_result : ℕ → ℕ → NorthboundRegisterBank → NorthboundRegisterBank
publish_operator_result sequence result b = record b {
  input = set (set b.input Input.last_operator_sequence sequence) Input.last_operator_result result;
}
