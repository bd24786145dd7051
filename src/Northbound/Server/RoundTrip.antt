-- ===== src/Northbound/Server/RoundTrip.antt =====
-- What the energy manager writes to the bank and reads back.
use gridex_edge_gateway.Prelude.{
  ℕ, zero, suc, ◌≡◌, refl, arith, ◌<◌, ◌≤◌, ◌+◌, ◌*◌, ◌==◌, ltb, ◌||◌, not, false, some, List, [],
  ◌∷◌, ◌++◌, get_or, set, take, drop, length, copy_to, ap, sym, ◌∙◌, get_or-set_self,
  get_or-copy_to_before, length-copy_to, length-set, append-nil,
}
use gridex_edge_gateway.Mbus.Crc.{read_u16, u16_bytes}
use gridex_edge_gateway.Northbound.Bank.{
  NorthboundRegisterBank, read_range, write_holding, holding_register_count, read_holding,
}
use gridex_edge_gateway.Northbound.Server.{
  handle_pdu, bytes_of, words_at, write_multiple, read_answer, values_answer,
}
use gridex_edge_gateway.Northbound.Server.Words.{AreWords, length-bytes_of, words_at-bytes_of}
use gridex_edge_gateway.Prelude.Words.{word_bytes}

-- The PDU that writes the values from `start` on, and the one that reads.
abbrev pub write_request : ℕ → List ℕ → List ℕ
write_request start values =
    0x10 ∷ (u16_bytes start ++ (u16_bytes (length values) ++ (length values * 2 ∷ bytes_of values)))

abbrev pub read_request : ℕ → ℕ → List ℕ
read_request start count = 0x03 ∷ (u16_bytes start ++ u16_bytes count)

drop_at : (xs : List ℕ) (i : ℕ) → i < length xs → drop i xs ≡ get_or xs i 0 ∷ drop (suc i) xs
drop_at [] i h = elim h [ ]
drop_at (x ∷ xs) zero h = refl
drop_at (x ∷ xs) (suc i) h = drop_at xs i (omega arith)

copied :
    (start : ℕ) (vs xs : List ℕ)
    → start + length vs ≤ length xs
    → take (length vs) (drop start (copy_to start vs xs)) ≡ vs
copied start [] xs h = refl
copied start (v ∷ vs) xs h =
    let ys = copy_to (suc start) vs (set xs start v) in
    let long : start < length ys =
      omega (arith, length-copy_to (suc start) vs (set xs start v), length-set xs start v) in
    let head : get_or ys start 0 ≡ v =
      get_or-copy_to_before (suc start) vs (set xs start v) start 0 (omega arith)
      ∙ get_or-set_self xs start v 0 (omega arith) in
    rw (drop_at ys start long, head)
      (ap (λ t. v ∷ t)
        (copied (suc start) vs (set xs start v) (omega (arith, length-set xs start v))))

-- A request of function 0x10 that passes every test.
wrote :
    (pdu values : List ℕ) (start : ℕ) (b : NorthboundRegisterBank)
    → read_u16 pdu 1 ≡ start
    → read_u16 pdu 3 ≡ length values
    → get_or pdu 5 0 ≡ length values * 2
    → length pdu ≡ 6 + length values * 2
    → words_at pdu 6 (length values) ≡ values
    → 1 ≤ length values
    → length values ≤ 123
    → start + length values ≤ length b.holding
    → write_multiple pdu b ≡ (
      record b { holding = copy_to start values b.holding },
      get_or pdu 0 0 ∷ (u16_bytes start ++ u16_bytes (length values)),
    )
unfolding write_multiple write_holding
wrote pdu values start b e1 e2 e3 e4 e5 low high fits =
    let whole : ltb (length pdu) 6 ≡ false = ground arith in
    let regular : (length values == 0
          || ltb 123 (length values)
          || not (get_or pdu 5 0 == length values * 2)
          || not (length pdu == 6 + get_or pdu 5 0))
        ≡ false =
      ground arith in
    let room : (length values == 0 || ltb (length b.holding) (start + length values)) ≡ false =
      ground arith in
    rw (e1, e2, e5, whole, regular, room) refl

-- A request of function 0x03 for registers that exist.
read_back :
    (start count : ℕ) (b : NorthboundRegisterBank)
    → 1 ≤ count
    → count ≤ 125
    → start < 65536
    → start + count ≤ length b.holding
    → read_answer (read_request start count) b
      ≡ values_answer 0x03 (some (take count (drop start b.holding)))
unfolding read_answer read_holding read_range
read_back start count b low high small fits =
    let e1 : read_u16 (read_request start count) 1 ≡ start = word_bytes start small in
    let e2 : read_u16 (read_request start count) 3 ≡ count = word_bytes count (omega arith) in
    let counted : (count == 0 || ltb 125 count) ≡ false = ground arith in
    let room : (count == 0 || ltb (length b.holding) (start + count)) ≡ false = ground arith in
    rw (e1, e2, counted, room) refl

not_empty : (n m : ℕ) → m ≡ suc n → (m == 0) ≡ false
not_empty n m h = ground arith

handle_write :
    (start : ℕ) (values : List ℕ) (b : NorthboundRegisterBank)
    → handle_pdu (write_request start values) b ≡ write_multiple (write_request start values) b
unfolding handle_pdu
handle_write start values b =
    let e : (length (write_request start values) == 0) ≡ false =
      not_empty (5 + length (bytes_of values)) _ (omega arith) in
    rw e refl

handle_read :
    (start count : ℕ) (b : NorthboundRegisterBank)
    → (handle_pdu (read_request start count) b).1 ≡ read_answer (read_request start count) b
unfolding handle_pdu
handle_read start count b = refl

answered :
    (values : List ℕ)
    → length values < 128
    → values_answer 0x03 (some values) ≡ 0x03 ∷ (length values * 2) ∷ bytes_of values
unfolding values_answer
answered values h = ap (λ n. 0x03 ∷ n ∷ bytes_of values) (omega arith)

-- Words written to holding registers that exist, with function 0x10 and at most 123 of them, are
-- confirmed, and function 0x03 reads the same words back.
pub write_then_read :
    (start : ℕ) (values : List ℕ) (b : NorthboundRegisterBank)
    → AreWords values
    → length b.holding ≡ holding_register_count
    → 1 ≤ length values
    → start + length values ≤ holding_register_count
    → let r = handle_pdu (write_request start values) b in
      (r.1 ≡ 0x10 ∷ (u16_bytes start ++ u16_bytes (length values)))
      × ((handle_pdu (read_request start (length values)) r.0).1
          ≡ 0x03 ∷ (length values * 2) ∷ bytes_of values)
write_then_read start values b w size some_values fits =
    let pdu = write_request start values in
    let count = length values in
    let done =
      wrote pdu values start b (word_bytes start (omega arith)) (word_bytes count (omega arith))
        refl (omega (arith, length-bytes_of values))
        (words_at-bytes_of pdu 6 values [] w (sym (append-nil (bytes_of values)))) some_values
        (omega arith) (omega arith) in
    let next = record b { holding = copy_to start values b.holding } in
    let seen =
      read_back start count next some_values (omega arith) (omega arith)
        (omega (arith, length-copy_to start values b.holding)) in
    let same = copied start values b.holding (omega arith) in
    rw (handle_write start values b, done)
      (
        refl,
        handle_read start count next
            ∙ seen
            ∙ ap (λ t. values_answer 0x03 (some t)) same
            ∙ answered values (omega arith),
      )
