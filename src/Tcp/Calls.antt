-- ===== src/Tcp/Calls.antt =====
-- The calls of `IModbusClient` and the two of whole ranges.
use gridex_edge_gateway.Prelude.{
  ℕ, ◌+◌, ◌*◌, ◌/◌, ◌%◌, Bool, false, not, ◌&&◌, ◌||◌, Option, none, some, List, ◌∷◌, ◌++◌,
  if◌then◌else◌, ◌==◌, ltb, get_or, length,
}
use gridex_edge_gateway.Modbus.{ModbusClient}
use gridex_edge_gateway.Mbus.Crc.{read_u16, u16_bytes}
use gridex_edge_gateway.Northbound.Server.{bytes_of, words_at}
use gridex_edge_gateway.Tcp.{Socket, TcpClient, Call, transact}

unfoldable pub register_of : Option (List ℕ) → Option ℕ
register_of none = none
register_of (some pdu) =
    if not (length pdu == 4) || not (get_or pdu 1 0 == 2) then none else some (read_u16 pdu 2)

unfoldable pub coil_of : Option (List ℕ) → Option Bool
coil_of none = none
coil_of (some pdu) =
    if not (length pdu == 3) || not (get_or pdu 1 0 == 1)
    then none
    else some (get_or pdu 2 0 % 2 == 1)

unfoldable pub values_of : ℕ → ℕ → Option (List ℕ) → Option (List ℕ)
unfolding words_at
values_of function count none = none
values_of function count (some pdu) =
    if not (length pdu == 2 + count * 2)
      || not (get_or pdu 0 0 == function)
      || not (get_or pdu 1 0 == count * 2)
    then none
    else some (words_at pdu 2 count)

unfoldable pub echoes : ℕ → ℕ → Option (List ℕ) → Bool
echoes a b none = false
echoes a b (some pdu) = (length pdu == 5) && (read_u16 pdu 1 == a) && (read_u16 pdu 3 == b)

unfoldable pub confirms : ℕ → ℕ → Option (List ℕ) → Bool
confirms start count none = false
confirms start count (some pdu) =
    (length pdu == 5)
    && (get_or pdu 0 0 == 0x10)
    && (get_or pdu 1 0 == start / 256 % 256)
    && (get_or pdu 2 0 == start % 256)
    && (get_or pdu 3 0 == count / 256 % 256)
    && (get_or pdu 4 0 == count % 256)

module _ {S : Type 0} (socket : Socket S) where
  unfoldable pub read_register : ℕ → ℕ → Call S (Option ℕ)
  unfolding register_of transact
  read_register function address x =
      let (pdu, x') = transact socket function (u16_bytes address ++ u16_bytes 1) x in
      (register_of pdu, x')

  unfoldable pub read_coil : ℕ → Call S (Option Bool)
  unfolding coil_of transact
  read_coil address x =
      let (pdu, x') = transact socket 0x01 (u16_bytes address ++ u16_bytes 1) x in (coil_of pdu, x')

  unfoldable pub read_input_range : ℕ → ℕ → Call S (Option (List ℕ))
  unfolding values_of transact
  read_input_range start count x =
      let (pdu, x') = transact socket 0x04 (u16_bytes start ++ u16_bytes count) x in
      if count == 0 || ltb 125 count || ltb 65536 (start + count)
      then (none, x)
      else (values_of 0x04 count pdu, x')

  unfoldable pub read_holding_range : ℕ → ℕ → Call S (Option (List ℕ))
  unfolding values_of transact
  read_holding_range start count x =
      let (pdu, x') = transact socket 0x03 (u16_bytes start ++ u16_bytes count) x in
      if count == 0 || ltb 125 count then (none, x) else (values_of 0x03 count pdu, x')

  unfoldable pub write_holding : ℕ → ℕ → Call S Bool
  unfolding echoes transact
  write_holding address value x =
      let (pdu, x') = transact socket 0x06 (u16_bytes address ++ u16_bytes value) x in
      (echoes address value pdu, x')

  unfoldable pub write_holding_range : ℕ → List ℕ → Call S Bool
  unfolding bytes_of confirms transact
  write_holding_range start values x =
      let payload =
        u16_bytes start
        ++ (u16_bytes (length values) ++ ((length values * 2 % 256) ∷ bytes_of values)) in
      let (pdu, x') = transact socket 0x10 payload x in
      if length values == 0 || ltb 123 (length values)
      then (false, x)
      else (confirms start (length values) pdu, x')

  -- The client as the driver sees it.
  unfoldable pub modbus_client : ModbusClient (TcpClient × S)
  unfolding read_register read_input_range read_coil write_holding
  modbus_client = record {
    read_input = read_register 0x04;
    read_input_range = read_input_range;
    read_holding = read_register 0x03;
    read_coil = read_coil;
    write_holding = write_holding;
  }
