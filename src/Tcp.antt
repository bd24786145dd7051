-- ===== src/Tcp.antt =====
-- `PosixModbusTcpClient` of base-rockpie/: a Modbus TCP client over a socket. The calls of the operating
-- system are a parameter: any state `S` with a `Socket`. The mutex makes each call of the client one
-- step.
pub mod Calls
pub mod Loops
pub mod Link
use gridex_edge_gateway.Prelude.{
  ℕ, zero, suc, ◌+◌, ◌-◌, ◌%◌, Bool, true, false, not, ◌&&◌, ◌||◌, Option, none, some, List, [],
  ◌∷◌, ◌++◌, if◌then◌else◌, ◌==◌, ltb, get_or, length, drop, ◌/◌,
}
use gridex_edge_gateway.Modbus.{Io}
use gridex_edge_gateway.Mbus.Crc.{read_u16, u16_bytes}

-- What the client asks of the operating system.
pub record Socket (S : Type 0) : Type 0 where
  -- `getaddrinfo` and the first address that `socket` and `connect` accept.
  pub connect : Io S Bool
  -- `::send`: how many of the bytes were taken, 0 for an error.
  pub send : List ℕ → Io S ℕ
  -- `::recv`: some bytes, at most as many as asked for; none for an error or the end.
  pub recv : ℕ → Io S (List ℕ)
  pub close : S → S

-- The host, the port and the time limit belong to the socket.
pub record TcpClient : Type 0 where
  pub unit_id : ℕ
  -- `socket_ >= 0`.
  pub connected : Bool
  pub transaction_id : ℕ

abbrev pub new_client : ℕ → TcpClient
new_client unit = record { unit_id = unit; connected = false; transaction_id = 0 }

-- A call of the client.
abbrev pub Call : Type 0 → Type 0 → Type 0
Call S A = Io (TcpClient × S) A

abbrev pub prepend : {S : Type 0} → List ℕ → Option (List ℕ) × S → Option (List ℕ) × S
prepend chunk (none, s) = (none, s)
prepend chunk (some bytes, s) = (some (chunk ++ bytes), s)

unfoldable pub request_of : TcpClient → ℕ → List ℕ → List ℕ
request_of c function payload =
    u16_bytes c.transaction_id
    ++ (u16_bytes 0
        ++ (u16_bytes ((2 + length payload) % 65536) ++ (c.unit_id ∷ function ∷ payload)))

unfoldable pub header_refused : TcpClient → List ℕ → Bool
header_refused c header =
    not (read_u16 header 0 == c.transaction_id)
    || not (read_u16 header 2 == 0)
    || ltb (read_u16 header 4) 2
    || not (get_or header 6 0 == c.unit_id)
    || ltb 260 (read_u16 header 4)

unfoldable pub pdu_refused : ℕ → List ℕ → Bool
pdu_refused function pdu =
    (length pdu == 0) || not (get_or pdu 0 0 == function) || not (get_or pdu 0 0 / 128 % 2 == 0)

module _ {S : Type 0} (socket : Socket S) where
  -- The loop of `sendAll`, on as many turns as there are bytes left.
  unfoldable pub send_loop : ℕ → List ℕ → Io S Bool
  send_loop turns [] s = (true, s)
  send_loop zero (b ∷ bytes) s = (false, s)
  send_loop (suc turns) (b ∷ bytes) s =
      let (sent, s') = socket.send (b ∷ bytes) s in
      let rest = send_loop turns (drop sent (b ∷ bytes)) s' in
      if sent == 0 then (false, s') else rest

  unfoldable pub send_all : List ℕ → Io S Bool
  unfolding send_loop
  send_all bytes = send_loop (length bytes) bytes

  -- The loop of `receiveAll`, on as many turns as bytes are missing.
  unfoldable pub receive_loop : ℕ → ℕ → Io S (Option (List ℕ))
  receive_loop turns zero s = (some [], s)
  receive_loop zero (suc missing) s = (none, s)
  receive_loop (suc turns) (suc missing) s =
      let (chunk, s') = socket.recv (suc missing) s in
      let rest = receive_loop turns (suc missing - length chunk) s' in
      if length chunk == 0 then (none, s') else prepend chunk rest

  unfoldable pub receive_all : ℕ → Io S (Option (List ℕ))
  unfolding receive_loop
  receive_all size = receive_loop size size

  unfoldable pub connect_locked : Call S Bool
  connect_locked (c, s) =
      let (done, s') = socket.connect s in
      if c.connected then (true, (c, s)) else (done, (record c { connected = done }, s'))

  unfoldable pub disconnect : TcpClient × S → TcpClient × S
  disconnect (c, s) =
      if c.connected then (record c { connected = false }, socket.close s) else (c, s)

  -- An answer that ends the connection.
  abbrev pub lost : {A : Type 0} → TcpClient → S → Option A × (TcpClient × S)
  lost c s = (none, disconnect (c, s))

  -- The PDU has arrived, or not.
  unfoldable pub after_pdu : ℕ → TcpClient → Option (List ℕ) × S → Option (List ℕ) × (TcpClient × S)
  unfolding disconnect pdu_refused
  after_pdu function c (none, s) = lost c s
  after_pdu function c (some pdu, s) =
      ((if pdu_refused function pdu then none else some pdu), (c, s))

  -- The header has arrived, or not.
  unfoldable pub after_header :
      ℕ → TcpClient → Option (List ℕ) × S → Option (List ℕ) × (TcpClient × S)
  unfolding disconnect header_refused receive_all after_pdu
  after_header function c (none, s) = lost c s
  after_header function c (some header, s) =
      if header_refused c header
      then lost c s
      else after_pdu function c (receive_all (read_u16 header 4 - 1) s)

  -- The request and its answer, on a connection.
  unfoldable pub exchange : ℕ → List ℕ → Call S (Option (List ℕ))
  unfolding disconnect request_of send_all receive_all after_header
  exchange function payload (c, s) =
      let c' = record c { transaction_id = (c.transaction_id + 1) % 65536 } in
      let (sent, s') = send_all (request_of c' function payload) s in
      if not sent then lost c' s' else after_header function c' (receive_all 7 s')

  unfoldable pub transact : ℕ → List ℕ → Call S (Option (List ℕ))
  unfolding connect_locked exchange
  transact function payload x =
      let (done, x') = connect_locked x in
      if not done then (none, x') else exchange function payload x'
