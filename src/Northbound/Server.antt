-- ===== src/Northbound/Server.antt =====
-- `NorthboundModbusTcpServer` of base-rockpie/: what it answers to a request of the energy manager.
pub mod RoundTrip
pub mod Lifecycle
pub mod Session
pub mod Words
use gridex_edge_gateway.Prelude.{
  ℕ, zero, suc, ◌+◌, ◌*◌, ◌%◌, Bool, true, false, not, ◌&&◌, ◌||◌, Option, none, some, List, [],
  ◌∷◌, ◌++◌, bit_or, if◌then◌else◌, ◌==◌, ltb, leb, get_or, length, take,
}
use gridex_edge_gateway.Mbus.Crc.{read_u16, u16_bytes}
use gridex_edge_gateway.Northbound.Bank.{
  NorthboundRegisterBank, read_holding, read_input, write_holding,
}

unfoldable pub exception : ℕ → ℕ → List ℕ
exception function code = bit_or function 0x80 ∷ code ∷ []

-- `appendU16` of each value.
unfoldable pub bytes_of : List ℕ → List ℕ
bytes_of [] = []
bytes_of (v ∷ vs) = u16_bytes v ++ bytes_of vs

-- The loop that reads `count` values from the byte `at` on.
unfoldable pub words_at : List ℕ → ℕ → ℕ → List ℕ
words_at pdu at zero = []
words_at pdu at (suc n) = read_u16 pdu at ∷ words_at pdu (at + 2) n

unfoldable pub values_answer : ℕ → Option (List ℕ) → List ℕ
unfolding exception bytes_of
values_answer function none = exception function 0x02
values_answer function (some values) = function ∷ (length values * 2 % 256) ∷ bytes_of values

unfoldable pub read_answer : List ℕ → NorthboundRegisterBank → List ℕ
unfolding exception values_answer read_holding read_input
read_answer pdu b =
    let function = get_or pdu 0 0 in
    let start = read_u16 pdu 1 in
    let count = read_u16 pdu 3 in
    if not (length pdu == 5)
    then exception function 0x03
    else if count == 0 || ltb 125 count
    then exception function 0x03
    else values_answer function
        (if function == 0x03 then read_holding start count b else read_input start count b)

unfoldable pub write_single : List ℕ → NorthboundRegisterBank → NorthboundRegisterBank × List ℕ
unfolding exception write_holding
write_single pdu b =
    let (done, b') = write_holding (read_u16 pdu 1) (read_u16 pdu 3 ∷ []) b in
    if not (length pdu == 5)
    then (b, exception (get_or pdu 0 0) 0x03)
    else if done
    then (b', pdu)
    else (b', exception (get_or pdu 0 0) 0x02)

unfoldable pub write_multiple : List ℕ → NorthboundRegisterBank → NorthboundRegisterBank × List ℕ
unfolding exception words_at write_holding
write_multiple pdu b =
    let function = get_or pdu 0 0 in
    let start = read_u16 pdu 1 in
    let count = read_u16 pdu 3 in
    let byte_count = get_or pdu 5 0 in
    let (done, b') = write_holding start (words_at pdu 6 count) b in
    if ltb (length pdu) 6
    then (b, exception function 0x03)
    else if count == 0
        || ltb 123 count
        || not (byte_count == count * 2)
        || not (length pdu == 6 + byte_count)
    then (b, exception function 0x03)
    else if done
    then (b', function ∷ (u16_bytes start ++ u16_bytes count))
    else (b', exception function 0x02)

unfoldable pub handle_pdu : List ℕ → NorthboundRegisterBank → NorthboundRegisterBank × List ℕ
unfolding exception read_answer write_single write_multiple
handle_pdu pdu b =
    let function = get_or pdu 0 0 in
    if length pdu == 0
    then (b, exception 0 0x03)
    else if function == 0x03 || function == 0x04
    then (b, read_answer pdu b)
    else if function == 0x06
    then write_single pdu b
    else if function == 0x10
    then write_multiple pdu b
    else (b, exception function 0x01)

-- The header that `handleClient` goes on with: another one ends the connection.
unfoldable pub header_ok : List ℕ → Bool
header_ok header =
    (read_u16 header 2 == 0) && leb 2 (read_u16 header 4) && leb (read_u16 header 4) 254

-- One turn of `handleClient`, with the header and the PDU of the request.
unfoldable pub respond :
    ℕ → List ℕ → List ℕ → NorthboundRegisterBank → NorthboundRegisterBank × List ℕ
unfolding exception handle_pdu
respond unit header pdu b =
    let (b', answer) =
      if not (get_or header 6 0 == unit)
      then (b, exception (get_or pdu 0 0) 0x0B)
      else handle_pdu pdu b in
    (b', take 4 header ++ (u16_bytes ((length answer + 1) % 65536) ++ (get_or header 6 0 ∷ answer)))
