-- ===== src/Northbound/Server/Session/Peer.antt =====
-- A connection of the energy manager to the server, and the client of the gateway at its other end.
use gridex_edge_gateway.Prelude.{
  ℕ, zero, suc, ◌≡◌, refl, arith, ◌≤◌, ◌-◌, true, false, List, [], ◌∷◌, ◌++◌, length, take, drop,
  length-take, length-drop, drop_all, take_all, ap, sym, append-nil,
}
use Prim.Native.Nat.{min}
use gridex_edge_gateway.Northbound.Bank.{NorthboundRegisterBank}
use gridex_edge_gateway.Northbound.Server.Session.{
  Ready, Connection, events, timed_out, moved, receive_exact, handle_client, send_all, after_poll,
  serve_request, after_header, after_pdu, done,
}
use gridex_edge_gateway.Tcp.Link.{take_more, drop_more}
use gridex_edge_gateway.Northbound.Server.{respond, header_ok}
use gridex_edge_gateway.Mbus.Crc.{read_u16}

-- Bytes that are on the way keep a connection readable, else `poll` waits in vain.
abbrev pub ready_of : List ℕ → Ready
ready_of [] = timed_out
ready_of (b ∷ bytes) = events false true

-- A connection without loss: what is on the way to the server, in pieces of sizes that `chunk`
-- chooses, and what the server has sent.
abbrev pub pipe : (List ℕ → ℕ) → Connection (List ℕ × List ℕ)
pipe chunk = record {
  running = λ s. true;
  poll = λ x. (ready_of x.1.0, x);
  recv = λ n s.
      (moved (take (min (suc (chunk s.0)) n) s.0), (drop (min (suc (chunk s.0)) n) s.0, s.1));
  send = λ bytes s. (moved (length bytes), (s.0, s.1 ++ bytes));
}

-- The server as a peer: it goes through its loop after the bytes have been sent.
unfoldable pub northbound_peer :
    (List ℕ → ℕ) → ℕ → ℕ → List ℕ → NorthboundRegisterBank → NorthboundRegisterBank × List ℕ
unfolding handle_client
northbound_peer chunk polls unit bytes b =
    let r = handle_client (pipe chunk) 300 unit (suc polls) (b, (bytes, [])) in (r.1.0, r.1.1.1)

least : (a n : ℕ) → min (suc a) (suc n) ≡ suc (min a n)
least a n = omega arith

header_small : (header : List ℕ) → header_ok header ≡ true → read_u16 header 4 ≤ 254
unfolding header_ok
header_small header fine = ground arith

module _ (chunk : List ℕ → ℕ) where
  receive_exact-pipe :
      (turns n : ℕ) (bytes out : List ℕ)
      → n ≤ turns
      → n ≤ length bytes
      → receive_exact (pipe chunk) turns n (bytes, out) ≡ (done (take n bytes), (drop n bytes, out))
  unfolding receive_exact
  receive_exact-pipe zero zero bytes out h long = refl
  receive_exact-pipe (suc turns) zero bytes out h long = refl
  receive_exact-pipe zero (suc n) bytes out h long = absurd (omega arith)
  receive_exact-pipe (suc turns) (suc n) [] out h long = absurd (omega arith)
  receive_exact-pipe (suc turns) (suc n) (b ∷ bytes) out h long =
      let j = min (chunk (b ∷ bytes)) n in
      let size : suc n - suc (length (take j bytes)) ≡ n - j =
        omega (arith, length-take j bytes, long) in
      let rest =
        receive_exact-pipe turns (n - j) (drop j bytes) out (omega arith)
          (omega (arith, length-drop j bytes)) in
      rw (least (chunk (b ∷ bytes)) n, size, rest)
        (rw (take_more j n bytes (omega arith), drop_more j n bytes (omega arith)) refl)

  send_all-pipe :
      (turns : ℕ) (bytes incoming out : List ℕ)
      → send_all (pipe chunk) (suc (suc turns)) bytes (incoming, out)
        ≡ (done tt, (incoming, out ++ bytes))
  unfolding send_all
  send_all-pipe turns [] incoming out = ap (λ t. (done tt, (incoming, t))) (sym (append-nil out))
  send_all-pipe turns (b ∷ bytes) incoming out =
      rw (drop_all (length bytes) bytes (omega arith)) refl

  -- Nothing arrives any more.
  idle :
      (polls unit : ℕ) (b : NorthboundRegisterBank) (out : List ℕ)
      → handle_client (pipe chunk) 300 unit polls (b, ([], out)) ≡ (false, (b, ([], out)))
  unfolding handle_client after_poll
  idle zero unit b out = refl
  idle (suc polls) unit b out = idle polls unit b out

  after_pdu-pipe :
      (unit : ℕ) (header pdu : List ℕ) (b : NorthboundRegisterBank)
      → let r = respond unit header pdu b in
        after_pdu (pipe chunk) 300 unit header b (done pdu, ([], [])) ≡ (done tt, (r.0, ([], r.1)))
  unfolding after_pdu
  after_pdu-pipe unit header pdu b =
      let r = respond unit header pdu b in rw (send_all-pipe 298 r.1 [] []) refl

  after_header-pipe :
      (unit : ℕ) (header pdu : List ℕ) (b : NorthboundRegisterBank)
      → header_ok header ≡ true
      → length pdu ≡ read_u16 header 4 - 1
      → let r = respond unit header pdu b in
        after_header (pipe chunk) 300 unit b (done header, (pdu, [])) ≡ (done tt, (r.0, ([], r.1)))
  unfolding after_header
  after_header-pipe unit header pdu b fine size =
      let small = header_small header fine in
      let n = read_u16 header 4 - 1 in
      rw
        (
          fine,
          receive_exact-pipe 300 n pdu [] (omega arith) (omega arith),
          take_all n pdu (omega arith),
          drop_all n pdu (omega arith),
        )
        (after_pdu-pipe unit header pdu b)

  serve_request-pipe :
      (unit h0 h1 h2 h3 h4 h5 h6 : ℕ) (pdu : List ℕ) (b : NorthboundRegisterBank)
      → let header = h0 ∷ h1 ∷ h2 ∷ h3 ∷ h4 ∷ h5 ∷ h6 ∷ [] in
        header_ok header ≡ true
        → length pdu ≡ read_u16 header 4 - 1
        → let r = respond unit header pdu b in
          serve_request (pipe chunk) 300 unit (b, (header ++ pdu, [])) ≡ (done tt, (r.0, ([], r.1)))
  unfolding serve_request
  serve_request-pipe unit h0 h1 h2 h3 h4 h5 h6 pdu b fine size =
      let header = h0 ∷ h1 ∷ h2 ∷ h3 ∷ h4 ∷ h5 ∷ h6 ∷ [] in
      rw (receive_exact-pipe 300 7 (header ++ pdu) [] (omega arith) (omega arith))
        (after_header-pipe unit header pdu b fine size)

  -- A request that arrives whole is answered as `respond` says, and then the server waits.
  pub peer-request :
      (polls unit h0 h1 h2 h3 h4 h5 h6 : ℕ) (pdu : List ℕ) (b : NorthboundRegisterBank)
      → let header = h0 ∷ h1 ∷ h2 ∷ h3 ∷ h4 ∷ h5 ∷ h6 ∷ [] in
        header_ok header ≡ true
        → length pdu ≡ read_u16 header 4 - 1
        → northbound_peer chunk polls unit (header ++ pdu) b ≡ respond unit header pdu b
  unfolding northbound_peer handle_client after_poll
  peer-request polls unit h0 h1 h2 h3 h4 h5 h6 pdu b fine size =
      let header = h0 ∷ h1 ∷ h2 ∷ h3 ∷ h4 ∷ h5 ∷ h6 ∷ [] in
      let r = respond unit header pdu b in
      rw (serve_request-pipe unit h0 h1 h2 h3 h4 h5 h6 pdu b fine size, idle polls unit r.0 r.1)
        refl
