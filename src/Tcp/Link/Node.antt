-- ===== src/Tcp/Link/Node.antt =====
-- A connection of the gateway to a node.
use gridex_edge_gateway.Prelude.{
  ℕ, suc, ◌≡◌, refl, arith, ◌≤◌, ◌+◌, ◌*◌, ◌/◌, ◌%◌, ◌==◌, true, false, ◌||◌, ltb, some, List, [],
  ◌∷◌, ◌++◌, length, ap, ◌∙◌,
}
use gridex_edge_gateway.Mbus.Node.{MbusNode}
use gridex_edge_gateway.Mbus.Crc.{u16_bytes}
use gridex_edge_gateway.Mbus.Control.{handle}
use gridex_edge_gateway.Mbus.Control.Write.{WriteFits, commanded, handle-write, write_adu}
use gridex_edge_gateway.Mbus.Stream.{front, request, serve}
use gridex_edge_gateway.Mbus.Stream.Single.{front-request, serve-single}
use gridex_edge_gateway.Northbound.Server.{bytes_of}
use gridex_edge_gateway.Northbound.Server.Words.{length-bytes_of}
use gridex_edge_gateway.Tcp.{TcpClient, request_of, pdu_refused}
use gridex_edge_gateway.Tcp.Calls.{write_holding_range, confirms}
use gridex_edge_gateway.Tcp.Link.{link, ready, transact-link}

-- The node as a peer: it answers the requests that the bytes hold.
unfoldable pub node_peer : ℕ → List ℕ → MbusNode → MbusNode × List ℕ
node_peer unit bytes n = ((serve unit bytes n).0, (serve unit bytes n).2)

pub node_peer-single :
    (unit size : ℕ) (adu : List ℕ) (n : MbusNode)
    → length adu ≡ suc size
    → front adu ≡ request (suc size)
    → node_peer unit adu n ≡ handle unit adu n
unfolding node_peer
node_peer-single unit size adu n e f = rw (serve-single unit size adu n e f) refl

pub write_fine :
    (start count : ℕ) → pdu_refused 0x10 (0x10 ∷ (u16_bytes start ++ u16_bytes count)) ≡ false
unfolding pdu_refused
write_fine start count = ground arith

pub write_confirmed :
    (start count : ℕ)
    → confirms start count (some (0x10 ∷ (u16_bytes start ++ u16_bytes count))) ≡ true
unfolding confirms
write_confirmed start count = ground arith

-- The request that writes, as the node takes it apart.
request-write :
    (c : TcpClient) (start : ℕ) (values : List ℕ) (n : MbusNode) (fits : WriteFits start values n)
    → let payload =
        u16_bytes start
        ++ (u16_bytes (length values) ++ ((length values * 2 % 256) ∷ bytes_of values)) in
      let l = 2 + length payload in
      let t = c.transaction_id in
      request_of c 0x10 payload
      ≡ write_adu start values n fits (t / 256 % 256) (t % 256) (l / 256 % 256) (l % 256) c.unit_id
unfolding request_of
request-write c start values n fits =
    let (words, some_values, low, high, size, own, idle) = fits in
    let payload =
      u16_bytes start
      ++ (u16_bytes (length values) ++ ((length values * 2 % 256) ∷ bytes_of values)) in
    ap (λ l. u16_bytes c.transaction_id ++ (0 ∷ 0 ∷ (u16_bytes l ++ (c.unit_id ∷ 0x10 ∷ payload))))
      (omega (arith, length-bytes_of values))

module _ (chunk : List ℕ → ℕ) where
  -- Command registers that the gateway writes: the call is confirmed, and the node has them.
  pub write_holding_range-node :
      (start : ℕ) (values : List ℕ) (c : TcpClient) (n : MbusNode) (fits : WriteFits start values n)
      → write_holding_range (link (node_peer c.unit_id) chunk) start values (c, (n, []))
        ≡ (true, (ready c, (commanded start values n fits, [])))
  unfolding write_holding_range
  write_holding_range-node start values c n fits =
      let (words, some_values, low, high, size, own, idle) = fits in
      let count = length values in
      let payload = u16_bytes start ++ (u16_bytes count ++ ((count * 2 % 256) ∷ bytes_of values)) in
      let l = 2 + length payload in
      let t = (ready c).transaction_id in
      let adu =
        write_adu start values n fits (t / 256 % 256) (t % 256) (l / 256 % 256) (l % 256)
          c.unit_id in
      let pdu = 0x10 ∷ (u16_bytes start ++ u16_bytes count) in
      let short : length payload ≤ 252 = omega (arith, length-bytes_of values) in
      let answer =
        ap (λ bytes. node_peer c.unit_id bytes n) (request-write (ready c) start values n fits)
        ∙ node_peer-single c.unit_id (7 + length payload) adu n (omega arith) (
            front-request (t / 256 % 256) (t % 256) c.unit_id 0x10 payload short
            ∙ ap request (omega arith))
        ∙ handle-write start values n fits (t / 256 % 256) (t % 256) (l / 256 % 256) (l % 256)
            c.unit_id in
      let regular : (count == 0 || ltb 123 count) ≡ false = ground arith in
      let sent =
        transact-link (node_peer c.unit_id) chunk 0x10 payload c n (commanded start values n fits)
          pdu answer (omega arith) (write_fine start count) in
      rw (regular, sent)
        (ap (λ done. (done, (ready c, (commanded start values n fits, []))))
          (write_confirmed start count))
