-- ===== src/Northbound/Bank/Once.antt =====
-- Each command is taken once, and every new one is taken.
use gridex_edge_gateway.Prelude.{ℕ, ◌≡◌, arith, ◌==◌, ◌&&◌, not, is_some, List, get_or}
use gridex_edge_gateway.Northbound.Bank.{
  NorthboundRegisterBank, take_command, take_operator_command, take_node_command, held,
}
use gridex_edge_gateway.Northbound.Holding as Holding

-- After a `takeCommand`, whatever the holding registers have become since, the next `takeCommand`
-- returns a command exactly if they carry another sequence number or another heartbeat than at the first.
take_command_once :
    (b : NorthboundRegisterBank) (next : List ℕ)
    → is_some (take_command (record ((take_command b).1) { holding = next })).0
      ≡ not (
          (get_or next Holding.command_sequence 0 == held b Holding.command_sequence)
          && (get_or next Holding.ems_heartbeat 0 == held b Holding.ems_heartbeat))
unfolding take_command
take_command_once b next = ground arith

-- After a `takeOperatorCommand`, the next one returns a command exactly if the holding registers carry
-- another sequence number of the operator by then.
take_operator_command_once :
    (b : NorthboundRegisterBank) (next : List ℕ)
    → is_some (take_operator_command (record ((take_operator_command b).1) { holding = next })).0
      ≡ not (get_or next Holding.operator_sequence 0 == held b Holding.operator_sequence)
unfolding take_operator_command
take_operator_command_once b next = ground arith

-- After a `takeNodeCommand`, the next one returns a command exactly if the holding registers carry
-- another sequence number of the node command by then.
take_node_command_once :
    (b : NorthboundRegisterBank) (next : List ℕ)
    → is_some (take_node_command (record ((take_node_command b).1) { holding = next })).0
      ≡ not (get_or next Holding.node_command_sequence 0 == held b Holding.node_command_sequence)
unfolding take_node_command
take_node_command_once b next = ground arith

-- After a command was looked for, whatever the holding registers have become since, the next look finds
-- one exactly if they carry another number by then: of the energy manager's commands another sequence
-- number or another heartbeat, of the operator's commands another operator sequence, of the commands to
-- the nodes another node sequence. So no command is taken twice, and no new one is passed over.
pub take_once :
    (b : NorthboundRegisterBank) (next : List ℕ)
    → (is_some (take_command (record ((take_command b).1) { holding = next })).0
        ≡ not (
            (get_or next Holding.command_sequence 0 == held b Holding.command_sequence)
            && (get_or next Holding.ems_heartbeat 0 == held b Holding.ems_heartbeat)))
      × (is_some (take_operator_command (record ((take_operator_command b).1) { holding = next })).0
          ≡ not (get_or next Holding.operator_sequence 0 == held b Holding.operator_sequence))
      × (is_some (take_node_command (record ((take_node_command b).1) { holding = next })).0
          ≡ not
              (get_or next Holding.node_command_sequence 0 == held b Holding.node_command_sequence))
take_once b next =
    (take_command_once b next, take_operator_command_once b next, take_node_command_once b next)
