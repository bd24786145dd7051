-- ===== src/Northbound/Server/Session.antt =====
-- `NorthboundModbusTcpServer` of base-rockpie/ as a server: the connection of a client, the loop that
-- accepts one client after the other, start and stop. The calls of the operating system are a
-- parameter. A loop that a signal or an idle network may prolong runs on a number of turns, and says so
-- when they do not suffice.
pub mod Peer
pub mod Turns
pub mod EndToEnd
use gridex_edge_gateway.Prelude.{
  ℕ, zero, suc, ◌+◌, ◌-◌, Bool, true, false, not, Option, none, some, List, [], ◌∷◌, ◌++◌,
  if◌then◌else◌, length, drop,
}
use gridex_edge_gateway.Modbus.{Io}
use gridex_edge_gateway.Mbus.Crc.{read_u16}
use gridex_edge_gateway.Northbound.Bank.{NorthboundRegisterBank}
use gridex_edge_gateway.Northbound.Server.{header_ok, respond}

-- What `poll` says: an error, nothing within 250 ms, or events, of which an error or a hang-up counts
-- first.
pub data Ready : Type 0 where
  poll_failed : Ready
  timed_out : Ready
  events : (broken readable : Bool) → Ready

-- What `recv` or `send` says: an error, a signal (EINTR), or what was moved.
pub data Transfer (A : Type 0) : Type 0 where
  broken : Transfer A
  interrupted : Transfer A
  moved : A → Transfer A

-- What the server asks of the operating system for one client. While it waits in `poll`, the main
-- loop may change the bank.
pub record Connection (S : Type 0) : Type 0 where
  -- `running_`, which `stop` takes back.
  pub running : S → Bool
  pub poll : Io (NorthboundRegisterBank × S) Ready
  -- Some bytes, at most as many as asked for; no byte for the end of the stream.
  pub recv : ℕ → Io S (Transfer (List ℕ))
  -- How many of the bytes were taken.
  pub send : List ℕ → Io S (Transfer ℕ)

-- The bytes that a call of `recv` has delivered.
abbrev pub delivered : Transfer (List ℕ) → List ℕ
delivered broken = []
delivered interrupted = []
delivered (moved chunk) = chunk

abbrev pub taken : Transfer ℕ → ℕ
taken broken = 0
taken interrupted = 0
taken (moved n) = n

-- How a loop on a number of turns ends: they did not suffice, it returned false, or it returned true, with
-- what it made.
pub data Outcome (A : Type 0) : Type 0 where
  out_of_turns : Outcome A
  failed : Outcome A
  done : A → Outcome A

abbrev pub prepend : {S : Type 0} → List ℕ → Outcome (List ℕ) × S → Outcome (List ℕ) × S
prepend chunk (out_of_turns, s) = (out_of_turns, s)
prepend chunk (failed, s) = (failed, s)
prepend chunk (done bytes, s) = (done (chunk ++ bytes), s)

-- A call of `recv` and the rest of the loop.
abbrev pub after_recv :
    {S : Type 0} → Transfer (List ℕ) → S → Outcome (List ℕ) × S → Outcome (List ℕ) × S
after_recv broken s rest = (failed, s)
after_recv interrupted s rest = rest
after_recv (moved []) s rest = (failed, s)
after_recv (moved (b ∷ chunk)) s rest = prepend (b ∷ chunk) rest

-- A call of `send` and the rest of the loop.
abbrev pub after_send : {S : Type 0} → Transfer ℕ → S → Outcome Unit × S → Outcome Unit × S
after_send broken s rest = (failed, s)
after_send interrupted s rest = rest
after_send (moved n) s rest = rest

module _ {S : Type 0} (c : Connection S) where
  unfoldable pub receive_exact : ℕ → ℕ → Io S (Outcome (List ℕ))
  receive_exact turns zero s = (done [], s)
  receive_exact zero (suc missing) s = (out_of_turns, s)
  receive_exact (suc turns) (suc missing) s =
      let (result, s') = c.recv (suc missing) s in
      after_recv result s' (receive_exact turns (suc missing - length (delivered result)) s')

  unfoldable pub send_all : ℕ → List ℕ → Io S (Outcome Unit)
  send_all turns [] s = (done tt, s)
  send_all zero (b ∷ data') s = (out_of_turns, s)
  send_all (suc turns) (b ∷ data') s =
      let (result, s') = c.send (b ∷ data') s in
      after_send result s' (send_all turns (drop (taken result) (b ∷ data')) s')

  -- The PDU has arrived, or not. Where it is done, the connection goes on.
  unfoldable pub after_pdu :
      ℕ
      → ℕ
      → List ℕ
      → NorthboundRegisterBank
      → Outcome (List ℕ) × S
      → Outcome Unit × (NorthboundRegisterBank × S)
  unfolding respond send_all
  after_pdu turns unit header b (out_of_turns, s) = (out_of_turns, (b, s))
  after_pdu turns unit header b (failed, s) = (failed, (b, s))
  after_pdu turns unit header b (done pdu, s) =
      let (b', response) = respond unit header pdu b in
      let (sent, s') = send_all turns response s in (sent, (b', s'))

  -- The header has arrived, or not.
  unfoldable pub after_header :
      ℕ
      → ℕ
      → NorthboundRegisterBank
      → Outcome (List ℕ) × S
      → Outcome Unit × (NorthboundRegisterBank × S)
  unfolding header_ok receive_exact after_pdu
  after_header turns unit b (out_of_turns, s) = (out_of_turns, (b, s))
  after_header turns unit b (failed, s) = (failed, (b, s))
  after_header turns unit b (done header, s) =
      if not (header_ok header)
      then (failed, (b, s))
      else after_pdu turns unit header b (receive_exact turns (read_u16 header 4 - 1) s)

  -- A request that has begun to arrive.
  unfoldable pub serve_request : ℕ → ℕ → Io (NorthboundRegisterBank × S) (Outcome Unit)
  unfolding receive_exact after_header
  serve_request turns unit (b, s) = after_header turns unit b (receive_exact turns 7 s)

  unfoldable pub after_poll : ℕ → ℕ → Ready → Io (NorthboundRegisterBank × S) (Outcome Unit)
  unfolding serve_request
  after_poll turns unit poll_failed x = (failed, x)
  after_poll turns unit timed_out x = (done tt, x)
  after_poll turns unit (events hung_up readable) x =
      if hung_up then (failed, x) else if readable then serve_request turns unit x else (done tt, x)

  -- The end of a turn of `handleClient`, and the turns after it.
  abbrev pub after_turn :
      Outcome Unit
      → NorthboundRegisterBank × S
      → Bool × (NorthboundRegisterBank × S)
      → Bool × (NorthboundRegisterBank × S)
  after_turn out_of_turns x rest = (false, x)
  after_turn failed x rest = (true, x)
  after_turn (done _) x rest = rest

  -- `handleClient`: whether it has returned within the turns, and what it leaves. `turns` is for
  -- each transfer, `polls` for the loop.
  unfoldable pub handle_client : ℕ → ℕ → ℕ → Io (NorthboundRegisterBank × S) Bool
  unfolding after_poll
  handle_client turns unit zero x = (false, x)
  handle_client turns unit (suc polls) x =
      let (ready, x') = c.poll x in
      let (outcome, x'') = after_poll turns unit ready x' in
      let rest = handle_client turns unit polls x'' in
      if not (c.running x.1) then (true, x) else after_turn outcome x'' rest

-- The listening socket: `accept` makes the next client the one that the connection reads from.
pub record Listener (S : Type 0) : Type 0 where
  pub connection : Connection S
  pub poll : Io (NorthboundRegisterBank × S) Ready
  pub accept : Io S Bool
  pub close : S → S

-- `ready > 0` and POLLIN is set.
abbrev pub can_accept : Ready → Bool
can_accept poll_failed = false
can_accept timed_out = false
can_accept (events hung_up readable) = readable

module _ {S : Type 0} (l : Listener S) where
  -- The client that was accepted, up to the end of its connection.
  unfoldable pub accept_client : ℕ → ℕ → ℕ → Io (NorthboundRegisterBank × S) Bool
  unfolding handle_client
  accept_client turns unit polls (b, s) =
      let (accepted, s') = l.accept s in
      let (ended, (b', s'')) = handle_client l.connection turns unit polls (b, s') in
      if not accepted
      then (true, (b, s'))
      else if ended
      then (true, (b', l.close s''))
      else (false, (b', s''))

  -- `run`: whether the worker has ended within the turns.
  unfoldable pub run : ℕ → ℕ → ℕ → ℕ → Io (NorthboundRegisterBank × S) Bool
  unfolding accept_client
  run turns unit polls zero x = (false, x)
  run turns unit polls (suc accepts) x =
      let (ready, x') = l.poll x in
      let (served, x'') = accept_client turns unit polls x' in
      let idle = run turns unit polls accepts x' in
      let next = run turns unit polls accepts x'' in
      if not (l.connection.running x.1)
      then (true, x)
      else if not (l.connection.running x'.1)
      then (true, x')
      else if not (can_accept ready)
      then idle
      else if served
      then next
      else (false, x'')
