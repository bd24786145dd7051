-- ===== src/Mbus/Control/Write.antt =====
-- A request of the ROCK Pi that writes command registers, and what becomes of it in the node.
use gridex_edge_gateway.Prelude.{
  ℕ, suc, ◌≡◌, ◌≢◌, refl, arith, ◌<◌, ◌≤◌, ◌+◌, ◌*◌, ◌%◌, ◌==◌, ltb, not, ◌||◌, false, List, [],
  ◌∷◌, ◌++◌, get_or, set, drop, length, ap, ◌∙◌, copy_to, length-append, sym, get_or-copy_to_before,
  Bool, true, leb, ◌/◌,
}
use gridex_edge_gateway.Prelude.Words.{word_bytes}
use gridex_edge_gateway.Mbus.Node.{MbusNode}
use gridex_edge_gateway.Mbus.Crc.{read_u16, u16_bytes, with_crc, crc16}
use gridex_edge_gateway.Mbus.Frame.{
  write_registers, store_words, process_frame, dispatch, checksum_ok,
}
use gridex_edge_gateway.Mbus.Control.Window.{apply_pending-idle}
use gridex_edge_gateway.Northbound.Server.{bytes_of}
use gridex_edge_gateway.Northbound.Server.Words.{
  AreWords, length-bytes_of, read_u16-drop, drop_more,
}
use gridex_edge_gateway.Mbus.Frame.Checksum.{checksum_ok-with_crc, length-with_crc}
use gridex_edge_gateway.Mbus.Control.{handle, tcp_of, write_allowed, rtu_of, count_of}
use gridex_edge_gateway.Mbus.Reg as Reg

-- The words of a frame, from the byte `at` on.
store_words-bytes_of :
    (frame : List ℕ) (at start : ℕ) (values tail regs : List ℕ)
    → AreWords values
    → drop at frame ≡ bytes_of values ++ tail
    → store_words frame at start (length values) regs ≡ copy_to start values regs
unfolding store_words bytes_of
store_words-bytes_of frame at start [] tail regs w h = refl
store_words-bytes_of frame at start (v ∷ vs) tail regs (small, w) h =
    ap (λ word. store_words frame (at + 2) (suc start) (length vs) (set regs start word))
      (read_u16-drop frame (bytes_of vs ++ tail) at v small h)
    ∙ store_words-bytes_of frame (at + 2) (suc start) vs tail (set regs start v) w
        (drop_more at 2 (at + 2) frame refl ∙ ap (drop 2) h)

-- A frame of function 0x10, with whatever checksum.
abbrev write_frame : ℕ → ℕ → List ℕ → List ℕ → List ℕ
write_frame address start values tail =
    address
    ∷ 0x10
    ∷ (u16_bytes start
        ++ (u16_bytes (length values) ++ ((length values * 2 % 256) ∷ (bytes_of values ++ tail))))

-- The node keeps the values, if they are there and no configuration is pending.
written :
    (address start : ℕ) (values tail : List ℕ) (n : MbusNode)
    → AreWords values
    → length tail ≡ 2
    → 1 ≤ length values
    → length values ≤ 123
    → start + length values ≤ length n.registers
    → start + length values < 65536
    → get_or (copy_to start values n.registers) Reg.apply_configuration 0 ≢ Reg.apply_key
    → write_registers false (write_frame address start values tail) n ≡ (
      record n { registers = copy_to start values n.registers },
      with_crc (address ∷ 0x10 ∷ (u16_bytes start ++ u16_bytes (length values))),
    )
unfolding write_registers
written address start values tail n w two low high fits small idle =
    let frame = write_frame address start values tail in
    let count = length values in
    let size : length frame ≡ 9 + count * 2 =
      omega (arith, length-append (bytes_of values) tail, length-bytes_of values, two) in
    let e1 : read_u16 frame 2 ≡ start = word_bytes start (omega arith) in
    let e2 : read_u16 frame 4 ≡ count = word_bytes count (omega arith) in
    let stored : store_words frame 7 start count n.registers ≡ copy_to start values n.registers =
      store_words-bytes_of frame 7 start values tail n.registers w refl in
    let regular : (count == 0
          || not (get_or frame 6 0 == count * 2)
          || not (length frame == 9 + get_or frame 6 0)
          || ltb (length n.registers) (start + count))
        ≡ false =
      ground arith in
    rw
      (
        e1,
        e2,
        regular,
        stored,
        apply_pending-idle (record n { registers = copy_to start values n.registers }) idle,
      )
      refl

pub accepted :
    (frame : List ℕ) (n : MbusNode)
    → 4 ≤ length frame
    → checksum_ok frame ≡ true
    → get_or frame 0 0 ≡ n.config.address
    → 1 ≤ n.config.address
    → process_frame frame n ≡ dispatch false frame n
unfolding process_frame
accepted frame n long ok own some_address =
    let whole : ltb (length frame) 4 ≡ false = ground arith in
    let single : (get_or frame 0 0 == 0) ≡ false = ground arith in
    let mine : (get_or frame 0 0 == n.config.address) ≡ true = ground arith in
    rw (whole, ok, single, mine) refl

write_dispatched :
    (b : Bool) (frame : List ℕ) (n : MbusNode)
    → get_or frame 1 0 ≡ 0x10
    → 9 ≤ length frame
    → dispatch b frame n ≡ write_registers b frame n
unfolding dispatch
write_dispatched b frame n function long =
    let whole : leb 9 (length frame) ≡ true = ground arith in rw (function, whole) refl

-- What the two lists of a request and its answer share.
abbrev pub WriteFits : ℕ → List ℕ → MbusNode → Type 0
WriteFits start values n =
    AreWords values
    × (1 ≤ length values)
    × (Reg.command_sequence ≤ start)
    × (start + length values ≤ suc Reg.command_ttl_seconds)
    × (length n.registers ≡ Reg.holding_count)
    × (1 ≤ n.config.address)
    × (get_or n.registers Reg.apply_configuration 0 ≢ Reg.apply_key)

module _ (start : ℕ) (values : List ℕ) (n : MbusNode) (fits : WriteFits start values n) where
  -- The node with the values.
  abbrev pub commanded : MbusNode
  commanded = record n { registers = copy_to start values n.registers }

  written_own :
      (tail : List ℕ)
      → length tail ≡ 2
      → write_registers false (write_frame n.config.address start values tail) n ≡ (
        commanded,
        with_crc (n.config.address ∷ 0x10 ∷ (u16_bytes start ++ u16_bytes (length values))),
      )
  written_own tail two =
      let (words, some_values, low, high, size, own, idle) = fits in
      written n.config.address start values tail n words two some_values (omega arith) (omega arith)
        (omega arith)
        (λ e. idle (
          sym
            (get_or-copy_to_before start values n.registers Reg.apply_configuration 0 (omega arith))
          ∙ e))

  abbrev own_frame : List ℕ
  own_frame =
      n.config.address
      ∷ 0x10
      ∷ (u16_bytes start
          ++ (u16_bytes (length values) ++ ((length values * 2 % 256) ∷ bytes_of values)))

  -- The answer in the framing of Modbus TCP.
  abbrev pub write_answer : ℕ → ℕ → ℕ → List ℕ
  write_answer t1 t2 unit =
      t1 ∷ t2 ∷ 0 ∷ 0 ∷ 0 ∷ 6 ∷ unit ∷ 0x10 ∷ (u16_bytes start ++ u16_bytes (length values))

  abbrev pub write_adu : ℕ → ℕ → ℕ → ℕ → ℕ → List ℕ
  write_adu t1 t2 l1 l2 unit =
      t1
      ∷ t2
      ∷ 0
      ∷ 0
      ∷ l1
      ∷ l2
      ∷ unit
      ∷ 0x10
      ∷ (u16_bytes start
          ++ (u16_bytes (length values) ++ ((length values * 2 % 256) ∷ bytes_of values)))

  answer_framed :
      (t1 t2 l1 l2 unit : ℕ)
      → tcp_of unit
          (write_adu t1 t2 l1 l2 unit)
          (with_crc (n.config.address ∷ 0x10 ∷ (u16_bytes start ++ u16_bytes (length values))))
        ≡ write_answer t1 t2 unit
  unfolding tcp_of with_crc
  answer_framed t1 t2 l1 l2 unit = refl

  -- The frame is whole, addressed to the node, and of function 0x10.
  processed : process_frame (with_crc own_frame) n ≡ (
    commanded,
    with_crc (n.config.address ∷ 0x10 ∷ (u16_bytes start ++ u16_bytes (length values))),
  )
  unfolding with_crc
  processed =
      let (words, some_values, low, high, size, own, idle) = fits in
      let whole : 9 ≤ length (with_crc own_frame) = omega (arith, length-with_crc own_frame) in
      accepted (with_crc own_frame) n (omega arith) (checksum_ok-with_crc own_frame) refl own
      ∙ write_dispatched false (with_crc own_frame) n refl whole
      ∙ written_own (crc16 own_frame % 256 ∷ crc16 own_frame / 256 ∷ []) refl

  granted :
      (t1 t2 l1 l2 unit : ℕ)
      → write_allowed 0x10
          (read_u16 (write_adu t1 t2 l1 l2 unit) 8)
          (count_of (write_adu t1 t2 l1 l2 unit))
        ≡ true
  unfolding write_allowed count_of
  granted t1 t2 l1 l2 unit =
      let (words, some_values, low, high, size, own, idle) = fits in
      rw (word_bytes start (omega arith), word_bytes (length values) (omega arith)) (ground arith)

  -- The write reaches the registers, and the answer repeats what it wrote.
  pub handle-write :
      (t1 t2 l1 l2 unit : ℕ)
      → handle unit (write_adu t1 t2 l1 l2 unit) n ≡ (commanded, write_answer t1 t2 unit)
  unfolding handle rtu_of tcp_of
  handle-write t1 t2 l1 l2 unit =
      let adu = write_adu t1 t2 l1 l2 unit in
      let (words, some_values, low, high, size, own, idle) = fits in
      let long : ltb (length adu) 12 ≡ false = ground (arith, length-bytes_of values) in
      let same : (unit == unit) ≡ true = ground arith in
      rw (long, same, granted t1 t2 l1 l2 unit)
        (ap (λ r. (r.0, tcp_of unit adu r.1)) processed
          ∙ ap (λ answer. (commanded, answer)) (answer_framed t1 t2 l1 l2 unit))
