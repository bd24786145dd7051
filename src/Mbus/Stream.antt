-- ===== src/Mbus/Stream.antt =====
-- `EthernetControlServer::processFrames` of node-esp32-evb/: the requests in the bytes of a connection.
-- Writes to the connection are collected in their order.
pub mod Chunks
pub mod Single
use gridex_edge_gateway.Prelude.{
  ℕ, zero, suc, ◌+◌, Bool, true, false, ◌||◌, List, [], ◌∷◌, ◌++◌, if◌then◌else◌, ltb, length, take,
  drop,
}
use gridex_edge_gateway.Mbus.Crc.{read_u16}
use gridex_edge_gateway.Mbus.Node.{MbusNode}
use gridex_edge_gateway.Mbus.Control.{handle}

-- What stands at the front of the received bytes.
pub data Front : Type 0 where
  -- Not yet a whole request.
  incomplete : Front
  -- A length that no request has.
  malformed : Front
  -- A request of so many bytes.
  request : ℕ → Front

unfoldable pub front : List ℕ → Front
front rx =
    let protocol_length = read_u16 rx 4 in
    let total = 6 + protocol_length in
    if ltb (length rx) 7
    then incomplete
    else if ltb protocol_length 2 || ltb 260 total
    then malformed
    else if ltb (length rx) total
    then incomplete
    else request total

-- The node, the bytes that are left, the answers, and whether the connection was stopped.
abbrev pub Served : Type 0
Served = MbusNode × List ℕ × List ℕ × Bool

abbrev pub answering : List ℕ → Served → Served
answering answer r = (r.0, r.1, answer ++ r.2, r.3)

-- One turn of the loop; `rest` is what the loop does with the bytes that are left.
abbrev pub turn : ℕ → Front → List ℕ → MbusNode → (List ℕ → MbusNode → Served) → Served
turn unit incomplete rx n rest = (n, rx, [], false)
turn unit malformed rx n rest = (n, [], [], true)
turn unit (request total) rx n rest =
    let (n', answer) = handle unit (take total rx) n in answering answer (rest (drop total rx) n')

-- The loop, on as many turns as there may be requests.
unfoldable pub process_frames : ℕ → ℕ → List ℕ → MbusNode → Served
unfolding front handle
process_frames unit zero rx n = (n, rx, [], false)
process_frames unit (suc turns) rx n = turn unit (front rx) rx n (process_frames unit turns)

-- A request has eight bytes at least, so there are turns enough.
unfoldable pub serve : ℕ → List ℕ → MbusNode → Served
unfolding process_frames
serve unit rx n = process_frames unit (length rx) rx n
