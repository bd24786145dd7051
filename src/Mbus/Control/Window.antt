-- ===== src/Mbus/Control/Window.antt =====
-- What a request over Ethernet can change in a node: the registers of the command, and no other.
use gridex_edge_gateway.Prelude.{
  ℕ, zero, suc, ◌≡◌, ◌≢◌, refl, arith, ◌<◌, ◌≤◌, ◌+◌, ◌-◌, ◌*◌, ◌==◌, ltb, leb, not, ◌&&◌, ◌||◌,
  Bool, true, false, List, get_or, set, drop, length, if◌then◌else◌, if-both, sym, ◌∙◌, ◌⊎◌, inl,
  get_or-drop, get_or-set_ne, get_or-append_left, length-drop,
}
use gridex_edge_gateway.Mbus.Node.{
  MbusNode, apply_pending_configuration, register_value, set_register,
}
use gridex_edge_gateway.Mbus.Crc.{read_u16, with_crc}
use gridex_edge_gateway.Mbus.Frame.{
  process_frame, dispatch, write_register, write_registers, store_words, checksum_ok,
}
use gridex_edge_gateway.Mbus.Control.{handle, write_allowed, rtu_of, count_of}
use gridex_edge_gateway.Mbus.Reg as Reg

-- The registers of the command.
abbrev pub InWindow : ℕ → Type 0
InWindow i = (Reg.command_sequence ≤ i) × (i ≤ Reg.command_ttl_seconds)

-- The configuration and every register outside of the window are the same.
abbrev pub SameOutside : MbusNode → MbusNode → Type 0
SameOutside n n' =
    (n'.config ≡ n.config)
    × ((i : ℕ)
        → (i < Reg.command_sequence) ⊎ (Reg.command_ttl_seconds < i)
        → get_or n'.registers i 0 ≡ get_or n.registers i 0)

same : (n : MbusNode) → SameOutside n n
same n = (refl, λ i o. refl)

-- A frame that writes, if it writes, within the window.
abbrev pub FitsWindow : List ℕ → Type 0
FitsWindow frame =
    (get_or frame 1 0 ≡ 0x06 → InWindow (read_u16 frame 2))
    × (get_or frame 1 0 ≡ 0x10
        → (Reg.command_sequence ≤ read_u16 frame 2)
          × (read_u16 frame 2 + read_u16 frame 4 - 1 ≤ Reg.command_ttl_seconds))

pub apply_pending-idle :
    (n : MbusNode)
    → get_or n.registers Reg.apply_configuration 0 ≢ Reg.apply_key
    → apply_pending_configuration n ≡ n
unfolding apply_pending_configuration register_value
apply_pending-idle n h =
    let e : not (get_or n.registers Reg.apply_configuration 0 == Reg.apply_key) ≡ true =
      ground arith in
    rw e refl

-- Writes within the window, with the configuration that is pending after them.
settled :
    (n : MbusNode) (regs : List ℕ)
    → get_or n.registers Reg.apply_configuration 0 ≢ Reg.apply_key
    → ((i : ℕ)
        → (i < Reg.command_sequence) ⊎ (Reg.command_ttl_seconds < i)
        → get_or regs i 0 ≡ get_or n.registers i 0)
    → SameOutside n (apply_pending_configuration (record n { registers = regs }))
settled n regs h keeps =
    rw
      (apply_pending-idle (record n { registers = regs })
        (λ e. h (sym (keeps Reg.apply_configuration (inl (omega arith))) ∙ e)))
      (refl, keeps)

store_words-outside :
    (frame : List ℕ) (at start count : ℕ) (regs : List ℕ) (i : ℕ)
    → (i < start) ⊎ (start + count ≤ i)
    → get_or (store_words frame at start count regs) i 0 ≡ get_or regs i 0
unfolding store_words
store_words-outside frame at start zero regs i h = refl
store_words-outside frame at start (suc k) regs i h =
    store_words-outside frame (at + 2) (suc start) k (set regs start (read_u16 frame at)) i
      (ground arith)
    ∙ get_or-set_ne regs start i (read_u16 frame at) 0 (ground arith)

abbrev NextSame : MbusNode → MbusNode × List ℕ → Type 0
NextSame n r = SameOutside n r.0

write_register-SameOutside :
    (b : Bool) (frame : List ℕ) (n : MbusNode)
    → get_or n.registers Reg.apply_configuration 0 ≢ Reg.apply_key
    → InWindow (read_u16 frame 2)
    → SameOutside n (write_register b frame n).0
unfolding write_register set_register
write_register-SameOutside b frame n h (low, high) =
    if-both (NextSame n) (leb (length n.registers) (read_u16 frame 2)) _ _ (λ _. same n)
      (λ _.
        settled n (set n.registers (read_u16 frame 2) (read_u16 frame 4)) h (λ i o.
          get_or-set_ne n.registers (read_u16 frame 2) i (read_u16 frame 4) 0 (ground arith)))

write_registers-SameOutside :
    (b : Bool) (frame : List ℕ) (n : MbusNode)
    → get_or n.registers Reg.apply_configuration 0 ≢ Reg.apply_key
    → (Reg.command_sequence ≤ read_u16 frame 2)
      × (read_u16 frame 2 + read_u16 frame 4 - 1 ≤ Reg.command_ttl_seconds)
    → SameOutside n (write_registers b frame n).0
unfolding write_registers
write_registers-SameOutside b frame n h (low, high) =
    if-both (NextSame n)
      (read_u16 frame 4 == 0
        || not (get_or frame 6 0 == read_u16 frame 4 * 2)
        || not (length frame == 9 + get_or frame 6 0)
        || ltb (length n.registers) (read_u16 frame 2 + read_u16 frame 4))
      _ _ (λ _. same n)
      (λ _.
        settled n (store_words frame 7 (read_u16 frame 2) (read_u16 frame 4) n.registers) h (λ i o.
          store_words-outside frame 7 (read_u16 frame 2) (read_u16 frame 4) n.registers i
            (ground arith)))

dispatch-SameOutside :
    (b : Bool) (frame : List ℕ) (n : MbusNode)
    → get_or n.registers Reg.apply_configuration 0 ≢ Reg.apply_key
    → FitsWindow frame
    → SameOutside n (dispatch b frame n).0
unfolding dispatch
dispatch-SameOutside b frame n h (single, multiple) =
    if-both (NextSame n)
      ((get_or frame 1 0 == 0x03 || get_or frame 1 0 == 0x04) && length frame == 8) _ _
      (λ _. same n)
      (λ _.
        if-both (NextSame n) (get_or frame 1 0 == 0x06 && length frame == 8) _ _
          (λ e. write_register-SameOutside b frame n h (single (ground arith)))
          (λ _.
            if-both (NextSame n) (get_or frame 1 0 == 0x10 && leb 9 (length frame)) _ _
              (λ e. write_registers-SameOutside b frame n h (multiple (ground arith)))
              (λ _. same n)))

process_frame-SameOutside :
    (frame : List ℕ) (n : MbusNode)
    → get_or n.registers Reg.apply_configuration 0 ≢ Reg.apply_key
    → FitsWindow frame
    → SameOutside n (process_frame frame n).0
unfolding process_frame
process_frame-SameOutside frame n h fits =
    if-both (NextSame n) (ltb (length frame) 4) _ _ (λ _. same n)
      (λ _.
        if-both (NextSame n) (not (checksum_ok frame)) _ _ (λ _. same n)
          (λ _.
            if-both (NextSame n)
              (not (get_or frame 0 0 == 0) && not (get_or frame 0 0 == n.config.address)) _ _
              (λ _. same n) (λ _. dispatch-SameOutside _ frame n h fits)))

at_least : (k : ℕ) (p q : Bool) → (ltb k 12 || p || q) ≡ false → 12 ≤ k
at_least k p q h = ground arith

granted : (b : Bool) → not b ≡ false → b ≡ true
granted b h = ground arith

-- The request in the node's framing says what it says in the framing of Modbus TCP.
rtu_of-get_or :
    (adu : List ℕ) (n : MbusNode) (k j : ℕ)
    → j ≡ 7 + k
    → j < length adu
    → get_or (rtu_of adu n) (suc k) 0 ≡ get_or adu j 0
unfolding rtu_of with_crc
rtu_of-get_or adu n k j e h =
    get_or-append_left (drop 7 adu) _ k 0 (omega (arith, length-drop 7 adu))
    ∙ get_or-drop 7 adu k j 0 e

rtu_of-read_u16 :
    (adu : List ℕ) (n : MbusNode) (k j : ℕ)
    → j ≡ 7 + k
    → suc j < length adu
    → read_u16 (rtu_of adu n) (suc k) ≡ read_u16 adu j
rtu_of-read_u16 adu n k j e h =
    let next : suc k + 1 ≡ suc (suc k) = omega arith in
    rw
      (
        next,
        rtu_of-get_or adu n k j e (omega arith),
        rtu_of-get_or adu n (suc k) (j + 1) (omega arith) (omega arith),
      )
      refl

allowed :
    (function start count : ℕ)
    → write_allowed function start
        (if function == 0x03 || function == 0x04 || function == 0x10 then count else 1)
      ≡ true
    → (function ≡ 0x06 → InWindow start)
      × (function ≡ 0x10
          → (Reg.command_sequence ≤ start) × (start + count - 1 ≤ Reg.command_ttl_seconds))
unfolding write_allowed
allowed function start count ok =
    (λ e. (ground arith, ground arith), λ e. (ground arith, ground arith))

allowed-FitsWindow :
    (adu : List ℕ) (n : MbusNode)
    → 12 ≤ length adu
    → write_allowed (get_or adu 7 0) (read_u16 adu 8) (count_of adu) ≡ true
    → FitsWindow (rtu_of adu n)
unfolding count_of
allowed-FitsWindow adu n size ok =
    let function = rtu_of-get_or adu n 0 7 refl (omega arith) in
    let start = rtu_of-read_u16 adu n 1 8 refl (omega arith) in
    let count = rtu_of-read_u16 adu n 3 10 refl (omega arith) in
    rw (function, start, count) (allowed (get_or adu 7 0) (read_u16 adu 8) (read_u16 adu 10) ok)

-- A request over Ethernet leaves the configuration of the node, and every register but the four of the
-- command, as they were, whatever its bytes are; no configuration may be pending before it.
pub handle_keeps_outside :
    (unit : ℕ) (adu : List ℕ) (n : MbusNode)
    → get_or n.registers Reg.apply_configuration 0 ≢ Reg.apply_key
    → SameOutside n (handle unit adu n).0
unfolding handle
handle_keeps_outside unit adu n h =
    if-both (NextSame n)
      (ltb (length adu) 12 || not (read_u16 adu 2 == 0) || not (get_or adu 6 0 == unit)) _ _
      (λ _. same n)
      (λ whole.
        if-both (NextSame n) (not (write_allowed (get_or adu 7 0) (read_u16 adu 8) (count_of adu)))
          _ _ (λ _. same n)
          (λ ok. process_frame-SameOutside (rtu_of adu n) n h (
            allowed-FitsWindow adu n
              (at_least (length adu) (not (read_u16 adu 2 == 0)) (not (get_or adu 6 0 == unit))
                whole)
              (granted _ ok))))
