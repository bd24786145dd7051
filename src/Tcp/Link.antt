-- ===== src/Tcp/Link.antt =====
-- A socket to a peer that answers each request, and a transaction over it.
pub mod Node
use gridex_edge_gateway.Prelude.{
  ℕ, zero, suc, ◌≡◌, refl, arith, ◌≤◌, ◌<◌, ◌+◌, ◌-◌, ◌%◌, ◌==◌, Bool, true, false, not, ◌||◌, ltb,
  Option, none, some, List, [], ◌∷◌, ◌++◌, length, take, drop, get_or, length-take, length-drop,
  if◌then◌else◌, ap, sym, ◌∙◌, drop_all, ◌/◌, ◌*◌, take_all,
}
use Prim.Native.Nat.{min}
use gridex_edge_gateway.Mbus.Crc.{read_u16, u16_bytes}
use gridex_edge_gateway.Tcp.{
  Socket, TcpClient, send_loop, send_all, receive_loop, receive_all, prepend, connect_locked,
  request_of, header_refused, pdu_refused, after_header, after_pdu, exchange, transact,
}
use gridex_edge_gateway.Prelude.Words.{word_bytes}

-- A connection without loss to a peer of state `P`: a request that is sent whole is answered by
-- `serve`, and `recv` delivers the answer in pieces, of sizes that `chunk` chooses by what is
-- on the way. A new connection starts empty.
module _ {P : Type 0} (serve : List ℕ → P → P × List ℕ) (chunk : List ℕ → ℕ) where
  abbrev pub link : Socket (P × List ℕ)
  link = record {
    connect = λ x. (true, (x.0, []));
    send = λ bytes x. (length bytes, ((serve bytes x.0).0, x.1 ++ (serve bytes x.0).1));
    recv = λ n x. (take (min (suc (chunk x.1)) n) x.1, (x.0, drop (min (suc (chunk x.1)) n) x.1));
    close = λ x. (x.0, []);
  }

nil_take : (n : ℕ) → ◌≡◌ {A = List ℕ} (take n []) []
nil_take zero = refl
nil_take (suc n) = refl

nil_drop : (n : ℕ) → ◌≡◌ {A = List ℕ} (drop n []) []
nil_drop zero = refl
nil_drop (suc n) = refl

pub take_more : (k n : ℕ) (xs : List ℕ) → k ≤ n → take k xs ++ take (n - k) (drop k xs) ≡ take n xs
take_more zero n xs h = ap (λ m. take m xs) (omega arith)
take_more (suc k) zero xs h = absurd (omega arith)
take_more (suc k) (suc n) [] h = nil_take (suc n - suc k)
take_more (suc k) (suc n) (x ∷ xs) h =
    ap (λ t. x ∷ t)
      (ap (λ m. take k xs ++ take m (drop k xs)) (omega arith) ∙ take_more k n xs (omega arith))

pub drop_more : (k n : ℕ) (xs : List ℕ) → k ≤ n → drop (n - k) (drop k xs) ≡ drop n xs
drop_more zero n xs h = ap (λ m. drop m xs) (omega arith)
drop_more (suc k) zero xs h = absurd (omega arith)
drop_more (suc k) (suc n) [] h = nil_drop (suc n - suc k)
drop_more (suc k) (suc n) (x ∷ xs) h =
    ap (λ m. drop m (drop k xs)) (omega arith) ∙ drop_more k n xs (omega arith)

abbrev pub ready : TcpClient → TcpClient
ready c = record c { connected = true; transaction_id = (c.transaction_id + 1) % 65536 }

-- The answer of a peer, as bytes.
abbrev pub framed : TcpClient → List ℕ → List ℕ
framed c pdu =
    u16_bytes c.transaction_id ++ (0 ∷ 0 ∷ (u16_bytes (length pdu + 1) ++ (c.unit_id ∷ pdu)))

header_fine :
    (c : TcpClient) (l : ℕ)
    → c.transaction_id < 65536
    → 1 ≤ l
    → l ≤ 253
    → header_refused c
        (u16_bytes c.transaction_id ++ (0 ∷ 0 ∷ (u16_bytes (l + 1) ++ (c.unit_id ∷ []))))
      ≡ false
unfolding header_refused
header_fine c l small some_bytes short =
    ground (arith, word_bytes c.transaction_id small, word_bytes (l + 1) (omega arith))

pdu_some : (function : ℕ) (pdu : List ℕ) → pdu_refused function pdu ≡ false → 1 ≤ length pdu
unfolding pdu_refused
pdu_some function pdu fine = ground arith

not_zero : (n : ℕ) → 1 ≤ n → (n == 0) ≡ false
not_zero n h = ground arith

module _ {P : Type 0} (serve : List ℕ → P → P × List ℕ) (chunk : List ℕ → ℕ) where
  receive_loop-link :
      (turns n : ℕ) (p : P) (bytes : List ℕ)
      → n ≤ turns
      → n ≤ length bytes
      → receive_loop (link serve chunk) turns n (p, bytes)
        ≡ (some (take n bytes), (p, drop n bytes))
  unfolding receive_loop
  receive_loop-link zero zero p bytes h long = refl
  receive_loop-link (suc turns) zero p bytes h long = refl
  receive_loop-link zero (suc n) p bytes h long = absurd (omega arith)
  receive_loop-link (suc turns) (suc n) p bytes h long =
      let k = min (suc (chunk bytes)) (suc n) in
      let size : length (take k bytes) ≡ k = omega (arith, length-take k bytes) in
      let some_bytes = not_zero k (omega arith) in
      let rest =
        receive_loop-link turns (suc n - k) p (drop k bytes) (omega arith)
          (omega (arith, length-drop k bytes)) in
      rw (size, some_bytes, rest)
        (rw (take_more k (suc n) bytes (omega arith), drop_more k (suc n) bytes (omega arith)) refl)

  receive_all-link :
      (n : ℕ) (p : P) (bytes : List ℕ)
      → n ≤ length bytes
      → receive_all (link serve chunk) n (p, bytes) ≡ (some (take n bytes), (p, drop n bytes))
  unfolding receive_all
  receive_all-link n p bytes long = receive_loop-link n n p bytes (omega arith) long

  nothing_left :
      (turns : ℕ) (left : List ℕ) (x : P × List ℕ)
      → left ≡ []
      → send_loop (link serve chunk) turns left x ≡ (true, x)
  unfolding send_loop
  nothing_left zero [] x e = refl
  nothing_left (suc turns) [] x e = refl
  nothing_left turns (b ∷ left) x e = cc

  -- A request is sent whole, at once.
  send_all-link :
      (b : ℕ) (bytes : List ℕ) (p : P)
      → send_all (link serve chunk) (b ∷ bytes) (p, []) ≡ (true, serve (b ∷ bytes) p)
  unfolding send_all send_loop
  send_all-link b bytes p = rw (not_zero (length (b ∷ bytes)) (omega arith)) (
      nothing_left (length bytes) (drop (length bytes) bytes) (serve (b ∷ bytes) p)
        (drop_all (length bytes) bytes (omega arith)))

  connect-link :
      (c : TcpClient) (connected : Bool) (p : P)
      → c.connected ≡ connected
      → connect_locked (link serve chunk) (c, (p, []))
        ≡ (true, (record c { connected = true }, (p, [])))
  unfolding connect_locked
  connect-link c true p e = rw e refl
  connect-link c false p e = rw e refl

  header-link :
      (c : TcpClient) (function : ℕ) (pdu : List ℕ) (p : P)
      → c.transaction_id < 65536
      → length pdu ≤ 253
      → pdu_refused function pdu ≡ false
      → after_header
          (link serve chunk)
          function
          c
          (receive_all (link serve chunk) 7 (p, framed c pdu))
        ≡ (some pdu, (c, (p, [])))
  unfolding after_header after_pdu
  header-link c function pdu p small short fine =
      let whole = pdu_some function pdu fine in
      let size : (length pdu + 1) / 256 % 256 * 256 + (length pdu + 1) % 256 - 1 ≡ length pdu =
        omega (arith, word_bytes (length pdu + 1) (omega arith)) in
      rw
        (
          receive_all-link 7 p (framed c pdu) (omega arith),
          header_fine c (length pdu) small whole short,
          size,
          receive_all-link (length pdu) p pdu (omega arith),
          take_all (length pdu) pdu (omega arith),
          drop_all (length pdu) pdu (omega arith),
          fine,
        )
        refl

  exchange-link :
      (function : ℕ) (payload : List ℕ) (c : TcpClient) (p p' : P) (pdu : List ℕ)
      → serve (request_of (ready c) function payload) p ≡ (p', framed (ready c) pdu)
      → length pdu ≤ 253
      → pdu_refused function pdu ≡ false
      → exchange (link serve chunk) function payload (record c { connected = true }, (p, []))
        ≡ (some pdu, (ready c, (p', [])))
  unfolding exchange request_of
  exchange-link function payload c p p' pdu answer short fine =
      rw (send_all-link _ _ p, answer)
        (header-link (ready c) function pdu p' (omega arith) short fine)

  -- A transaction over the link, where the peer answers with a PDU of the right function.
  pub transact-link :
      (function : ℕ) (payload : List ℕ) (c : TcpClient) (p p' : P) (pdu : List ℕ)
      → serve (request_of (ready c) function payload) p ≡ (p', framed (ready c) pdu)
      → length pdu ≤ 253
      → pdu_refused function pdu ≡ false
      → transact (link serve chunk) function payload (c, (p, [])) ≡ (some pdu, (ready c, (p', [])))
  unfolding transact
  transact-link function payload c p p' pdu answer short fine =
      let b = u16_bytes (ready c).transaction_id in
      rw (connect-link c c.connected p refl)
        (exchange-link function payload (record c { connected = true }) p p' pdu answer short fine)
