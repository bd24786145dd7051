-- ===== src/Mbus/Frame.antt =====
-- `MbusNode::processFrame`: one request frame of the Modbus RTU form to the node, and its answer. No
-- answer is the empty list.
pub mod Checksum
pub mod Identity
use gridex_edge_gateway.Prelude.{
  ℕ, zero, suc, ◌+◌, ◌-◌, ◌*◌, ◌%◌, Bool, not, ◌&&◌, ◌||◌, List, [], ◌∷◌, ◌++◌, bit_or,
  if◌then◌else◌, ◌==◌, ltb, leb, get_or, set, length, take,
}
use gridex_edge_gateway.Mbus.Crc.{crc16, with_crc, read_u16, u16_bytes}
use gridex_edge_gateway.Mbus.Node.{MbusNode, set_register, apply_pending_configuration}

unfoldable pub exception : ℕ → ℕ → ℕ → List ℕ
unfolding with_crc
exception address function code = with_crc (address ∷ bit_or function 0x80 ∷ code ∷ [])

-- The answer to a write: none to a broadcast.
abbrev pub unless_broadcast : Bool → List ℕ → List ℕ
unless_broadcast broadcast answer = if broadcast then [] else answer

-- The loop over `i < count` of a read: `count` registers from `start`.
unfoldable pub register_bytes : List ℕ → ℕ → ℕ → List ℕ
register_bytes regs start zero = []
register_bytes regs start (suc n) =
    u16_bytes (get_or regs start 0) ++ register_bytes regs (suc start) n

-- The loop of a write: `count` values from the frame, from the byte `at` on.
unfoldable pub store_words : List ℕ → ℕ → ℕ → ℕ → List ℕ → List ℕ
store_words frame at start zero regs = regs
store_words frame at start (suc n) regs =
    store_words frame (at + 2) (suc start) n (set regs start (read_u16 frame at))

-- 0x03 and 0x04 are addressed to this node or to all.
unfoldable pub read_registers : Bool → List ℕ → MbusNode → List ℕ
unfolding exception register_bytes with_crc
read_registers broadcast frame n =
    let address = get_or frame 0 0 in
    let function = get_or frame 1 0 in
    let start = read_u16 frame 2 in
    let count = read_u16 frame 4 in
    if broadcast
    then []
    else if count == 0 || ltb 64 count || ltb (length n.registers) (start + count)
    then exception address function 0x02
    else with_crc (address ∷ function ∷ (count * 2 % 256) ∷ register_bytes n.registers start count)

unfoldable pub write_register : Bool → List ℕ → MbusNode → MbusNode × List ℕ
unfolding exception set_register apply_pending_configuration
write_register broadcast frame n =
    let address = read_u16 frame 2 in
    let value = read_u16 frame 4 in
    if leb (length n.registers) address
    then (n, unless_broadcast broadcast (exception (get_or frame 0 0) (get_or frame 1 0) 0x02))
    else (
      apply_pending_configuration (set_register address value n),
      unless_broadcast broadcast frame,
    )

unfoldable pub write_registers : Bool → List ℕ → MbusNode → MbusNode × List ℕ
unfolding exception store_words with_crc apply_pending_configuration
write_registers broadcast frame n =
    let address = get_or frame 0 0 in
    let function = get_or frame 1 0 in
    let start = read_u16 frame 2 in
    let count = read_u16 frame 4 in
    let byte_count = get_or frame 6 0 in
    if count == 0
      || not (byte_count == count * 2)
      || not (length frame == 9 + byte_count)
      || ltb (length n.registers) (start + count)
    then (n, unless_broadcast broadcast (exception address function 0x03))
    else (
      apply_pending_configuration
          (record n { registers = store_words frame 7 start count n.registers }),
      unless_broadcast broadcast
          (with_crc (address ∷ function ∷ (u16_bytes start ++ u16_bytes count))),
    )

-- A frame that is whole and addressed to this node or to all.
unfoldable pub dispatch : Bool → List ℕ → MbusNode → MbusNode × List ℕ
unfolding read_registers write_register write_registers exception
dispatch broadcast frame n =
    let function = get_or frame 1 0 in
    let size = length frame in
    if (function == 0x03 || function == 0x04) && size == 8
    then (n, read_registers broadcast frame n)
    else if function == 0x06 && size == 8
    then write_register broadcast frame n
    else if function == 0x10 && leb 9 size
    then write_registers broadcast frame n
    else (n, unless_broadcast broadcast (exception (get_or frame 0 0) function 0x01))

-- The last two bytes are the checksum of those before them.
unfoldable pub checksum_ok : List ℕ → Bool
unfolding crc16
checksum_ok frame =
    let size = length frame in
    crc16 (take (size - 2) frame) == get_or frame (size - 2) 0 + get_or frame (size - 1) 0 * 256

unfoldable pub process_frame : List ℕ → MbusNode → MbusNode × List ℕ
unfolding checksum_ok dispatch
process_frame frame n =
    let address = get_or frame 0 0 in
    let broadcast = address == 0 in
    if ltb (length frame) 4
    then (n, [])
    else if not (checksum_ok frame)
    then (n, [])
    else if not broadcast && not (address == n.config.address)
    then (n, [])
    else dispatch broadcast frame n
