-- ===== src/Northbound/Server/Session/EndToEnd.antt =====
-- The client of the gateway at one end of a connection and the server of the energy manager at the
-- other.
use gridex_edge_gateway.Prelude.{
  ℕ, ◌≡◌, arith, ◌≤◌, ◌+◌, ◌%◌, ◌/◌, ◌==◌, true, List, [], ◌∷◌, ◌++◌, length, ap, ◌∙◌, false, ◌*◌,
  some, not, ◌||◌, ltb, refl, sym, append-nil,
}
use gridex_edge_gateway.Prelude.Words.{word_bytes}
use gridex_edge_gateway.Mbus.Crc.{u16_bytes}
use gridex_edge_gateway.Northbound.Bank.{NorthboundRegisterBank, holding_register_count}
use gridex_edge_gateway.Northbound.Server.{handle_pdu, respond, header_ok, bytes_of}
use gridex_edge_gateway.Northbound.Server.Session.Peer.{northbound_peer, peer-request}
use gridex_edge_gateway.Tcp.{TcpClient, request_of, pdu_refused}
use gridex_edge_gateway.Tcp.Link.{framed, link, ready, transact-link}
use gridex_edge_gateway.Tcp.Link.Node.{write_fine, write_confirmed}
use gridex_edge_gateway.Tcp.Calls.{confirms, values_of, write_holding_range, read_holding_range}
use gridex_edge_gateway.Northbound.Server.Words.{AreWords, length-bytes_of, words_at-bytes_of}
use gridex_edge_gateway.Northbound.Server.RoundTrip.{write_request, read_request, write_then_read}

header_fine :
    (unit t l : ℕ)
    → 2 ≤ l
    → l ≤ 254
    → header_ok (u16_bytes t ++ (0 ∷ 0 ∷ (u16_bytes (l % 65536) ++ (unit ∷ [])))) ≡ true
unfolding header_ok
header_fine unit t l low high = ground (arith, word_bytes l (omega arith))

-- The answer of the server to a request of the client.
respond-framed :
    (c : TcpClient) (l : ℕ) (pdu : List ℕ) (b : NorthboundRegisterBank)
    → let r = handle_pdu pdu b in
      length r.1 ≤ 253
      → respond c.unit_id
          (u16_bytes c.transaction_id ++ (0 ∷ 0 ∷ (u16_bytes l ++ (c.unit_id ∷ []))))
          pdu
          b
        ≡ (r.0, framed c r.1)
unfolding respond
respond-framed c l pdu b short =
    let r = handle_pdu pdu b in
    let own : (c.unit_id == c.unit_id) ≡ true = ground arith in
    rw own (
      ap (λ n. (r.0, u16_bytes c.transaction_id ++ (0 ∷ 0 ∷ (u16_bytes n ++ (c.unit_id ∷ r.1)))))
        (omega arith))

pub read_fine :
    (count : ℕ) (values : List ℕ) → pdu_refused 0x03 (0x03 ∷ (count * 2) ∷ bytes_of values) ≡ false
unfolding pdu_refused
read_fine count values = ground arith

pub values_back :
    (values : List ℕ)
    → AreWords values
    → values_of 0x03 (length values) (some (0x03 ∷ (length values * 2) ∷ bytes_of values))
      ≡ some values
unfolding values_of
values_back values w =
    let pdu = 0x03 ∷ (length values * 2) ∷ bytes_of values in
    let regular : (not (length pdu == 2 + length values * 2)
          || not (0x03 == 0x03)
          || not (length values * 2 == length values * 2))
        ≡ false =
      ground (arith, length-bytes_of values) in
    rw regular (ap some (words_at-bytes_of pdu 2 values [] w (sym (append-nil (bytes_of values)))))

module _ (chunk pieces : List ℕ → ℕ) (polls : ℕ) where
  peer-answer :
      (c : TcpClient) (function : ℕ) (payload : List ℕ) (b : NorthboundRegisterBank)
      → let r = handle_pdu (function ∷ payload) b in
        length payload ≤ 252
        → length r.1 ≤ 253
        → northbound_peer chunk polls c.unit_id (request_of c function payload) b
          ≡ (r.0, framed c r.1)
  unfolding request_of
  peer-answer c function payload b short answer =
      let l = (2 + length payload) % 65536 in
      let t = c.transaction_id in
      peer-request chunk polls c.unit_id (t / 256 % 256) (t % 256) 0 0 (l / 256 % 256) (l % 256)
        c.unit_id (function ∷ payload) b
        (header_fine c.unit_id t (2 + length payload) (omega arith) (omega arith))
        (omega (arith, word_bytes l (omega arith)))
      ∙ respond-framed c l (function ∷ payload) b answer

  -- The call that writes: the request is the one of the server's round trip.
  writes :
      (c : TcpClient) (start : ℕ) (values : List ℕ) (b : NorthboundRegisterBank)
      → let r = handle_pdu (write_request start values) b in
        1 ≤ length values
        → length values ≤ 123
        → r.1 ≡ 0x10 ∷ (u16_bytes start ++ u16_bytes (length values))
        → write_holding_range
            (link (northbound_peer chunk polls c.unit_id) pieces)
            start
            values
            (c, (b, []))
          ≡ (true, (ready c, (r.0, [])))
  unfolding write_holding_range
  writes c start values b low high answer =
      let count = length values in
      let payload = u16_bytes start ++ (u16_bytes count ++ ((count * 2 % 256) ∷ bytes_of values)) in
      let r = handle_pdu (write_request start values) b in
      let same : handle_pdu (0x10 ∷ payload) b ≡ r =
        ap
          (λ n.
            handle_pdu (0x10 ∷ (u16_bytes start ++ (u16_bytes count ++ (n ∷ bytes_of values)))) b)
          (omega arith) in
      let size : length r.1 ≡ 5 = ap length answer in
      let regular : (count == 0 || ltb 123 count) ≡ false = ground arith in
      let sent =
        transact-link (northbound_peer chunk polls c.unit_id) pieces 0x10 payload c b r.0 r.1
          (peer-answer (ready c) 0x10 payload b (omega (arith, length-bytes_of values))
              (omega (arith, size, ap (λ t. length t.1) same))
            ∙ ap (λ t. (t.0, framed (ready c) t.1)) same)
          (omega arith) (ap (pdu_refused 0x10) answer ∙ write_fine start count) in
      rw (regular, sent)
        (ap (λ t. (confirms start count (some t), (ready c, (r.0, [])))) answer
          ∙ ap (λ done. (done, (ready c, (r.0, [])))) (write_confirmed start count))

  -- The call that reads.
  reads :
      (c : TcpClient) (start : ℕ) (values : List ℕ) (b : NorthboundRegisterBank)
      → let r = handle_pdu (read_request start (length values)) b in
        AreWords values
        → 1 ≤ length values
        → length values ≤ 123
        → r.1 ≡ 0x03 ∷ (length values * 2) ∷ bytes_of values
        → (read_holding_range
            (link (northbound_peer chunk polls c.unit_id) pieces)
            start
            (length values)
            (c, (b, []))).0
          ≡ some values
  unfolding read_holding_range
  reads c start values b w low high answer =
      let count = length values in
      let payload = u16_bytes start ++ u16_bytes count in
      let r = handle_pdu (read_request start count) b in
      let size : length r.1 ≡ 2 + count * 2 =
        ap length answer ∙ omega (arith, length-bytes_of values) in
      let regular : (count == 0 || ltb 125 count) ≡ false = ground arith in
      let sent =
        transact-link (northbound_peer chunk polls c.unit_id) pieces 0x03 payload c b r.0 r.1
          (peer-answer (ready c) 0x03 payload b (omega arith) (omega arith)) (omega arith)
          (ap (pdu_refused 0x03) answer ∙ read_fine count values) in
      rw (regular, sent) (ap (λ t. values_of 0x03 count (some t)) answer ∙ values_back values w)

  -- Over a connection without loss, whatever the pieces that the answers arrive in, registers that the
  -- client writes to the server with function 0x10 are confirmed, and the client reads the same
  -- values back with function 0x03. The unit of both is the same, and the registers exist.
  pub write_then_read_remotely :
      (c : TcpClient) (start : ℕ) (values : List ℕ) (b : NorthboundRegisterBank)
      → let socket = link (northbound_peer chunk polls c.unit_id) pieces in
        let r = write_holding_range socket start values (c, (b, [])) in
        AreWords values
        → length b.holding ≡ holding_register_count
        → 1 ≤ length values
        → start + length values ≤ holding_register_count
        → (r.0 ≡ true) × ((read_holding_range socket start (length values) r.1).0 ≡ some values)
  write_then_read_remotely c start values b w size low fits =
      let (confirmation, back) = write_then_read start values b w size low fits in
      let done = writes c start values b low (omega arith) confirmation in
      let b' = (handle_pdu (write_request start values) b).0 in
      rw done (refl, reads (ready c) start values b' w low (omega arith) back)
