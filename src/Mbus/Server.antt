-- ===== src/Mbus/Server.antt =====
-- `EthernetControlServer` of node-esp32-evb/: its one client and the turn of its loop. What the network does in
-- a turn is given: a client that waits, whether the connection lives, and the bytes that it has.
pub mod Guard
use gridex_edge_gateway.Prelude.{
  ℕ, Option, none, Bool, List, [], not, some, false, if◌then◌else◌, take, ◌==◌, ◌+◌, true, ◌&&◌,
  ◌-◌, length, ◌%◌, ◌++◌, ltb, ◌^◌, ◌||◌,
}
use gridex_edge_gateway.Mbus.Node.{MbusNode}
use gridex_edge_gateway.Mbus.Command.{elapsed}
use gridex_edge_gateway.Mbus.Stream.{serve}

-- The address 0 is `IPAddress()`. `client` is the address of the peer of `client_`, if it is one.
pub record EthernetControlServer : Type 0 where
  pub port : ℕ
  pub unit_id : ℕ
  pub rock_pi_address : ℕ
  pub client : Option ℕ
  pub rx : List ℕ
  pub last_byte_ms : ℕ
  pub rejected_clients : ℕ

unfoldable pub restart : EthernetControlServer → EthernetControlServer
restart server = record server { client = none; rx = [] }

unfoldable pub set_rock_pi_address : ℕ → EthernetControlServer → EthernetControlServer
set_rock_pi_address address server = record server { rock_pi_address = address; client = none }

unfoldable pub source_allowed : ℕ → EthernetControlServer → Bool
source_allowed address server =
    not (server.rock_pi_address == 0) && (address == server.rock_pi_address)

-- A candidate that waits, none if there is none.
unfoldable pub admit : Option ℕ → EthernetControlServer → EthernetControlServer
unfolding source_allowed
admit none server = record server { client = none }
admit (some address) server =
    if not (source_allowed address server)
    then record server { client = none; rejected_clients = (server.rejected_clients + 1) % 2 ^ 32 }
    else record server { client = some address; rx = [] }

abbrev pub has_client : EthernetControlServer → Bool
has_client server = is_client server.client
  where
    is_client : Option ℕ → Bool
    is_client none = false
    is_client (some address) = true

-- `alive` is `client_.connected()`.
unfoldable pub accept_client : Option ℕ → Bool → EthernetControlServer → EthernetControlServer
unfolding admit
accept_client waiting alive server =
    let admitted = admit waiting server in if has_client server && alive then server else admitted

-- The bytes that are read, up to 300 in the buffer.
unfoldable pub receive : ℕ → List ℕ → EthernetControlServer → EthernetControlServer
receive now arrived server =
    let taken = take (300 - length server.rx) arrived in
    if length taken == 0
    then server
    else record server { rx = server.rx ++ taken; last_byte_ms = now }

-- The requests, and the end of a client that stopped in the middle of one for more than a second.
unfoldable pub answer_client :
    ℕ → EthernetControlServer → MbusNode → (EthernetControlServer × MbusNode) × List ℕ
unfolding serve
answer_client now server n =
    let (n', rest, answers, stopped) = serve server.unit_id server.rx n in
    let late = not (length rest == 0) && ltb 1000 (elapsed now server.last_byte_ms) in
    (
      (
        (if stopped || late
            then record server { client = none; rx = [] }
            else record server { rx = rest }),
        n',
      ),
      answers,
    )

-- One turn, with the answers that it writes. `alive` is `client_.connected()` before, and `lives` after a
-- client was accepted.
unfoldable pub loop :
    ℕ
    → Option ℕ
    → Bool
    → Bool
    → List ℕ
    → EthernetControlServer
    → MbusNode
    → (EthernetControlServer × MbusNode) × List ℕ
unfolding accept_client receive answer_client
loop now waiting alive lives arrived server n =
    let accepted = accept_client waiting alive server in
    let answered = answer_client now (receive now arrived accepted) n in
    if not (has_client accepted && lives) then ((accepted, n), []) else answered
