-- ===== src/Mbus/Control.antt =====
-- The Modbus TCP endpoint of a node, node-esp32-evb/src/EthernetControlServer.cpp: what it does with a
-- request that has arrived from the ROCK Pi. The sockets are left out.
pub mod Window
pub mod Write
pub mod Read
use gridex_edge_gateway.Prelude.{
  ℕ, zero, suc, ◌+◌, ◌-◌, ◌*◌, ◌/◌, ◌%◌, Bool, true, false, not, ◌&&◌, ◌||◌, List, [], ◌∷◌, ◌++◌,
  bit_or, if◌then◌else◌, ◌==◌, ltb, leb, get_or, length, take, drop,
}
use gridex_edge_gateway.Mbus.Crc.{with_crc, read_u16, u16_bytes}
use gridex_edge_gateway.Mbus.Node.{MbusNode}
use gridex_edge_gateway.Mbus.Frame.{process_frame}
use gridex_edge_gateway.Mbus.Reg as Reg

unfoldable pub write_allowed : ℕ → ℕ → ℕ → Bool
write_allowed function start count =
    if not (function == 0x06) && not (function == 0x10)
    then true
    else if count == 0
    then false
    else leb Reg.command_sequence start && leb (start + count - 1) Reg.command_ttl_seconds

-- The answer to a request that is refused before the node sees it.
abbrev pub refusal : List ℕ → ℕ → ℕ → List ℕ
refusal adu function code =
    get_or adu 0 0
    ∷ get_or adu 1 0
    ∷ 0
    ∷ 0
    ∷ 0
    ∷ 3
    ∷ get_or adu 6 0
    ∷ bit_or function 0x80
    ∷ code
    ∷ []

-- The request in the node's own framing.
unfoldable pub rtu_of : List ℕ → MbusNode → List ℕ
unfolding with_crc
rtu_of adu n = with_crc (n.config.address ∷ drop 7 adu)

-- The node's answer in the framing of Modbus TCP, without address and checksum.
unfoldable pub tcp_of : ℕ → List ℕ → List ℕ → List ℕ
tcp_of unit adu answer =
    let pdu_size = length answer - 3 in
    if ltb (length answer) 4
    then []
    else get_or adu 0 0
      ∷ get_or adu 1 0
      ∷ 0
      ∷ 0
      ∷ ((pdu_size + 1) / 256 % 256)
      ∷ ((pdu_size + 1) % 256)
      ∷ unit
      ∷ take pdu_size (drop 1 answer)

-- The number of registers that a request names.
unfoldable pub count_of : List ℕ → ℕ
count_of adu =
    let function = get_or adu 7 0 in
    if function == 0x03 || function == 0x04 || function == 0x10 then read_u16 adu 10 else 1

unfoldable pub handle : ℕ → List ℕ → MbusNode → MbusNode × List ℕ
unfolding write_allowed rtu_of tcp_of count_of
handle unit adu n =
    if ltb (length adu) 12 || not (read_u16 adu 2 == 0) || not (get_or adu 6 0 == unit)
    then (n, [])
    else if not (write_allowed (get_or adu 7 0) (read_u16 adu 8) (count_of adu))
    then (n, refusal adu (get_or adu 7 0) 0x02)
    else let (n', answer) = process_frame (rtu_of adu n) n in (n', tcp_of unit adu answer)
