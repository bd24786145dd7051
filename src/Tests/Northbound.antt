-- ===== src/Tests/Northbound.antt =====
-- The theorems of the northbound side, at an empty bank.
use gridex_edge_gateway.Prelude.{
  zero, suc, ◌+◌, ◌≤◌, is_some, true, ℕ, ◌≡◌, refl, arith, List, [], ◌∷◌, replicate, set, false,
  some,
}
use gridex_edge_gateway.Northbound.Bank.{
  new_bank, take_command, take_node_command, holding_register_count, take_operator_command,
}
use gridex_edge_gateway.Northbound.Bank.Once.{take_once}
use gridex_edge_gateway.Northbound.Server.Session.{
  Connection, Transfer, timed_out, moved, interrupted, taken, receive_exact, send_all,
}
use gridex_edge_gateway.Northbound.Server.Session.Peer.{northbound_peer}
use gridex_edge_gateway.Northbound.Server.Session.Turns.{AreSame, Interrupts, signal, transfers_end}
use gridex_edge_gateway.Northbound.Server.Session.EndToEnd.{write_then_read_remotely}
use gridex_edge_gateway.Tcp.{TcpClient}
use gridex_edge_gateway.Tcp.Link.{link}
use gridex_edge_gateway.Tcp.Calls.{write_holding_range, read_holding_range}
use gridex_edge_gateway.Northbound.Holding as Holding

-- The holding registers with a first command of the energy manager.
abbrev next : List ℕ
next = set (replicate holding_register_count 0) Holding.command_sequence 1

take_once_example :
    (is_some (take_command (record ((take_command new_bank).1) { holding = next })).0 ≡ true)
    × (is_some
          (take_operator_command (record ((take_operator_command new_bank).1) { holding = next })).0
        ≡ false)
    × (is_some (take_node_command (record ((take_node_command new_bank).1) { holding = next })).0
        ≡ false)
unfolding new_bank
take_once_example = take_once new_bank next

-- A command for a node: sequence 1, slot 3, 50.0 kW, enabled.
abbrev words : List ℕ
words = 1 ∷ 3 ∷ 500 ∷ 1 ∷ []

-- The client of a unit, before its first connection; answers arrive in pieces of two bytes.
abbrev client : TcpClient
client = record { unit_id = 1; connected = false; transaction_id = 65535 }

write_then_read_remotely_example :
    let socket = link (northbound_peer (λ bytes. 2) 4 1) (λ bytes. 1) in
    let r = write_holding_range socket 11 words (client, (new_bank, [])) in
    (r.0 ≡ true) × ((read_holding_range socket 11 4 r.1).0 ≡ some words)
unfolding new_bank
write_then_read_remotely_example =
    write_then_read_remotely (λ bytes. 2) (λ bytes. 1) 4 client 11 words new_bank
      (omega arith, (omega arith, (omega arith, (omega arith, tt)))) refl (omega arith)
      (omega arith)

-- A call with so many signals before it succeeds.
abbrev signalled : {A : Type 0} → A → ℕ → Transfer A × ℕ
signalled a zero = (moved a, 0)
signalled a (suc s) = (interrupted, s)

-- A client that moves byte by byte, with as many signals as the state says before the first byte.
abbrev interrupting : Connection ℕ
interrupting = record {
  running = λ s. true;
  poll = λ x. (timed_out, x);
  recv = λ n s. signalled (1 ∷ []) s;
  send = λ bytes s. signalled 1 s;
}

signalled-signal : {A : Type 0} (a : A) (s : ℕ) → (signalled a s).1 + signal (signalled a s).0 ≤ s
signalled-signal a zero = omega arith
signalled-signal a (suc s) = omega arith

signalled-taken :
    (s : ℕ) → 1 ≤ taken (signalled {A = ℕ} 1 s).0 + signal {A = ℕ} (signalled {A = ℕ} 1 s).0
signalled-taken zero = omega arith
signalled-taken (suc s) = omega arith

interrupting-Interrupts : Interrupts interrupting (λ s. s)
interrupting-Interrupts = record {
  in_recv = λ n s. signalled-signal (1 ∷ []) s;
  in_send = λ bytes s. signalled-signal 1 s;
  takes = λ b bytes s h. signalled-taken s;
}

transfers_end_example :
    AreSame (receive_exact interrupting 10 7 3) (receive_exact interrupting 20 7 3)
    × AreSame (send_all interrupting 10 (1 ∷ 2 ∷ []) 3) (send_all interrupting 20 (1 ∷ 2 ∷ []) 3)
transfers_end_example =
    transfers_end interrupting (λ s. s) interrupting-Interrupts 10 20 7 (1 ∷ 2 ∷ []) 3 (omega arith)
      (omega arith) (omega arith) (omega arith)
