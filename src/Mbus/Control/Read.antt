-- ===== src/Mbus/Control/Read.antt =====
-- A request of the ROCK Pi that reads registers, and the answer of the node.
use gridex_edge_gateway.Prelude.{
  ℕ, zero, suc, ◌≡◌, refl, arith, ◌<◌, ◌≤◌, ◌+◌, ◌*◌, ◌%◌, ◌/◌, ◌==◌, ltb, ◌||◌, false, List, [],
  ◌∷◌, ◌++◌, get_or, length, ap, ◌∙◌, take, drop, true, ◌-◌, take-append,
}
use gridex_edge_gateway.Prelude.Words.{word_bytes}
use gridex_edge_gateway.Mbus.Node.{MbusNode}
use gridex_edge_gateway.Mbus.Crc.{u16_bytes, with_crc, crc16}
use gridex_edge_gateway.Mbus.Frame.{read_registers, register_bytes, process_frame, dispatch}
use gridex_edge_gateway.Mbus.Frame.Checksum.{checksum_ok-with_crc, length-with_crc}
use gridex_edge_gateway.Mbus.Control.Write.{accepted}
use gridex_edge_gateway.Northbound.Server.{bytes_of}
use gridex_edge_gateway.Northbound.Server.Words.{AreWords, length-bytes_of}
use gridex_edge_gateway.Mbus.Control.{tcp_of, write_allowed, handle, rtu_of}

-- The registers from `start` on.
abbrev pub registers_at : List ℕ → ℕ → ℕ → List ℕ
registers_at regs start zero = []
registers_at regs start (suc count) = get_or regs start 0 ∷ registers_at regs (suc start) count

pub length-registers_at :
    (regs : List ℕ) (start count : ℕ) → length (registers_at regs start count) ≡ count
length-registers_at regs start zero = refl
length-registers_at regs start (suc count) = ap suc (length-registers_at regs (suc start) count)

register_bytes-bytes_of :
    (regs : List ℕ) (start count : ℕ)
    → register_bytes regs start count ≡ bytes_of (registers_at regs start count)
unfolding register_bytes bytes_of
register_bytes-bytes_of regs start zero = refl
register_bytes-bytes_of regs start (suc count) =
    ap (λ t. get_or regs start 0 / 256 % 256 ∷ get_or regs start 0 % 256 ∷ t)
      (register_bytes-bytes_of regs (suc start) count)

get_or-word : (regs : List ℕ) (i : ℕ) → AreWords regs → get_or regs i 0 < 65536
get_or-word [] i w = omega arith
get_or-word (v ∷ regs) zero (small, w) = small
get_or-word (v ∷ regs) (suc i) (small, w) = get_or-word regs i w

pub registers_at-AreWords :
    (regs : List ℕ) (start count : ℕ) → AreWords regs → AreWords (registers_at regs start count)
registers_at-AreWords regs start zero w = tt
registers_at-AreWords regs start (suc count) w =
    (get_or-word regs start w, registers_at-AreWords regs (suc start) count w)

-- A node that answers reads of these registers.
abbrev pub ReadFits : ℕ → ℕ → MbusNode → Type 0
ReadFits start count n =
    AreWords n.registers
    × (1 ≤ count)
    × (count ≤ 64)
    × (start + count ≤ length n.registers)
    × (length n.registers ≤ 65535)
    × (1 ≤ n.config.address)

module _ (start count : ℕ) (n : MbusNode) (fits : ReadFits start count n) where
  abbrev own_frame : List ℕ
  own_frame = n.config.address ∷ 0x03 ∷ (u16_bytes start ++ u16_bytes count)

  abbrev pub answer_pdu : List ℕ
  answer_pdu = 0x03 ∷ (count * 2) ∷ bytes_of (registers_at n.registers start count)

  abbrev pub read_adu : ℕ → ℕ → ℕ → ℕ → ℕ → List ℕ
  read_adu t1 t2 l1 l2 unit =
      t1 ∷ t2 ∷ 0 ∷ 0 ∷ l1 ∷ l2 ∷ unit ∷ 0x03 ∷ (u16_bytes start ++ u16_bytes count)

  read_own :
      (tail : List ℕ)
      → read_registers false
          (n.config.address ∷ 0x03 ∷ (u16_bytes start ++ (u16_bytes count ++ tail)))
          n
        ≡ with_crc (n.config.address ∷ answer_pdu)
  unfolding read_registers
  read_own tail =
      let (words, some_registers, few, inside, small, own) = fits in
      let regular : (count == 0 || ltb 64 count || ltb (length n.registers) (start + count))
          ≡ false =
        ground arith in
      rw (word_bytes start (omega arith), word_bytes count (omega arith), regular)
        (ap (λ t. with_crc (n.config.address ∷ 0x03 ∷ t))
          (ap (λ b. b ∷ register_bytes n.registers start count) (omega arith)
            ∙ ap (λ t. (count * 2) ∷ t) (register_bytes-bytes_of n.registers start count)))

  processed : process_frame (with_crc own_frame) n ≡ (n, with_crc (n.config.address ∷ answer_pdu))
  unfolding with_crc dispatch
  processed =
      let (words, some_registers, few, inside, small, own) = fits in
      accepted (with_crc own_frame) n (omega arith) (checksum_ok-with_crc own_frame) refl own
      ∙ ap (λ answer. (n, answer)) (read_own (crc16 own_frame % 256 ∷ crc16 own_frame / 256 ∷ []))

  abbrev pub read_answer : ℕ → ℕ → ℕ → List ℕ
  read_answer t1 t2 unit =
      t1 ∷ t2 ∷ 0 ∷ 0 ∷ (u16_bytes (length answer_pdu + 1) ++ (unit ∷ answer_pdu))

  length-answer_pdu : length answer_pdu ≡ 2 + count * 2
  length-answer_pdu = omega (
    arith,
    length-bytes_of (registers_at n.registers start count),
    length-registers_at n.registers start count,
  )

  without_crc :
      take (length answer_pdu) (drop 1 (with_crc (n.config.address ∷ answer_pdu))) ≡ answer_pdu
  unfolding with_crc
  without_crc = take-append (length answer_pdu) answer_pdu _ refl

  answer_framed :
      (t1 t2 l1 l2 unit : ℕ)
      → tcp_of unit (read_adu t1 t2 l1 l2 unit) (with_crc (n.config.address ∷ answer_pdu))
        ≡ read_answer t1 t2 unit
  unfolding tcp_of
  answer_framed t1 t2 l1 l2 unit =
      let answer = n.config.address ∷ answer_pdu in
      let size : length (with_crc answer) - 3 ≡ length answer_pdu =
        omega (arith, length-with_crc answer) in
      let long : ltb (length (with_crc answer)) 4 ≡ false =
        ground (arith, length-with_crc answer) in
      rw (long, size)
        (ap (λ t. t1 ∷ t2 ∷ 0 ∷ 0 ∷ (u16_bytes (length answer_pdu + 1) ++ (unit ∷ t))) without_crc)

  -- The read leaves the node as it is, and the answer has the registers.
  pub handle-read :
      (t1 t2 l1 l2 unit : ℕ)
      → handle unit (read_adu t1 t2 l1 l2 unit) n ≡ (n, read_answer t1 t2 unit)
  unfolding handle rtu_of tcp_of write_allowed
  handle-read t1 t2 l1 l2 unit =
      let adu = read_adu t1 t2 l1 l2 unit in
      let same : (unit == unit) ≡ true = ground arith in
      rw same (
        ap (λ r. (r.0, tcp_of unit adu r.1)) processed
        ∙ ap (λ answer. (n, answer)) (answer_framed t1 t2 l1 l2 unit))
