-- ===== src/Mbus/Frame/Checksum.antt =====
-- The checksum of what the node sends.
use gridex_edge_gateway.Prelude.{
  bit_or, ℕ, ◌≡◌, refl, arith, ◌*◌, ◌+◌, ◌/◌, ◌%◌, ◌==◌, Bool, true, false, List, [], ◌∷◌,
  get_or-append_right, take-append, length-append, ◌⊎◌, inl, inr, if-both, ap, ◌∙◌, leb, get_or,
  ltb, ◌||◌, length, not, ◌&&◌, ◌++◌,
}
use gridex_edge_gateway.Mbus.Node.{MbusNode}
use gridex_edge_gateway.Mbus.Crc.{crc16, with_crc, read_u16, u16_bytes}
use gridex_edge_gateway.Mbus.Frame.{
  process_frame, checksum_ok, dispatch, exception, read_registers, write_register, write_registers,
  unless_broadcast, register_bytes,
}

two_bytes : (crc low high : ℕ) → low ≡ crc % 256 → high ≡ crc / 256 → crc ≡ low + high * 256
two_bytes crc low high l h = omega arith

equal : (a b : ℕ) → a ≡ b → (a == b) ≡ true
equal a b e = ground arith

pub length-with_crc : (xs : List ℕ) → length (with_crc xs) ≡ length xs + 2
unfolding with_crc
length-with_crc xs = omega (arith, length-append xs (crc16 xs % 256 ∷ crc16 xs / 256 ∷ []))

pub checksum_ok-with_crc : (xs : List ℕ) → checksum_ok (with_crc xs) ≡ true
unfolding checksum_ok with_crc
checksum_ok-with_crc xs =
    let size = length-append xs (crc16 xs % 256 ∷ crc16 xs / 256 ∷ []) in
    equal _ _ (
      ap crc16 (take-append _ xs _ (omega (arith, size)))
      ∙ two_bytes (crc16 xs) _ _ (get_or-append_right xs _ _ 0 0 (omega (arith, size)))
          (get_or-append_right xs _ _ 1 0 (omega (arith, size))))

-- No answer, or one whose checksum is right.
abbrev pub IsSound : List ℕ → Type 0
IsSound answer = (answer ≡ []) ⊎ (checksum_ok answer ≡ true)

signed : (xs : List ℕ) → IsSound (with_crc xs)
signed xs = inr (checksum_ok-with_crc xs)

exception-IsSound : (a f c : ℕ) → IsSound (exception a f c)
unfolding exception
exception-IsSound a f c = signed (a ∷ bit_or f 0x80 ∷ c ∷ [])

unless_broadcast-IsSound :
    (b : Bool) (answer : List ℕ) → IsSound answer → IsSound (unless_broadcast b answer)
unless_broadcast-IsSound true answer h = inl refl
unless_broadcast-IsSound false answer h = h

read_registers-IsSound :
    (b : Bool) (frame : List ℕ) (n : MbusNode) → IsSound (read_registers b frame n)
unfolding read_registers
read_registers-IsSound b frame n =
    if-both IsSound b _ _ (λ _. inl refl)
      (λ _.
        if-both IsSound
          (read_u16 frame 4 == 0
            || ltb 64 (read_u16 frame 4)
            || ltb (length n.registers) (read_u16 frame 2 + read_u16 frame 4))
          _ _ (λ _. exception-IsSound (get_or frame 0 0) (get_or frame 1 0) 0x02)
          (λ _. signed (
            get_or frame 0 0
            ∷ get_or frame 1 0
            ∷ (read_u16 frame 4 * 2 % 256)
            ∷ register_bytes n.registers (read_u16 frame 2) (read_u16 frame 4))))

abbrev AnswerIsSound : MbusNode × List ℕ → Type 0
AnswerIsSound r = IsSound r.1

write_register-IsSound :
    (b : Bool) (frame : List ℕ) (n : MbusNode)
    → checksum_ok frame ≡ true
    → IsSound (write_register b frame n).1
unfolding write_register
write_register-IsSound b frame n h =
    if-both AnswerIsSound (leb (length n.registers) (read_u16 frame 2)) _ _
      (λ _.
        unless_broadcast-IsSound b _ (exception-IsSound (get_or frame 0 0) (get_or frame 1 0) 2))
      (λ _. unless_broadcast-IsSound b _ (inr h))

write_registers-IsSound :
    (b : Bool) (frame : List ℕ) (n : MbusNode) → IsSound (write_registers b frame n).1
unfolding write_registers
write_registers-IsSound b frame n =
    if-both AnswerIsSound
      (read_u16 frame 4 == 0
        || not (get_or frame 6 0 == read_u16 frame 4 * 2)
        || not (length frame == 9 + get_or frame 6 0)
        || ltb (length n.registers) (read_u16 frame 2 + read_u16 frame 4))
      _ _
      (λ _.
        unless_broadcast-IsSound b _ (exception-IsSound (get_or frame 0 0) (get_or frame 1 0) 3))
      (λ _. unless_broadcast-IsSound b _ (
        signed (
          get_or frame 0 0
          ∷ get_or frame 1 0
          ∷ (u16_bytes (read_u16 frame 2) ++ u16_bytes (read_u16 frame 4)))))

dispatch-IsSound :
    (b : Bool) (frame : List ℕ) (n : MbusNode)
    → checksum_ok frame ≡ true
    → IsSound (dispatch b frame n).1
unfolding dispatch
dispatch-IsSound b frame n h =
    if-both AnswerIsSound
      ((get_or frame 1 0 == 0x03 || get_or frame 1 0 == 0x04) && length frame == 8) _ _
      (λ _. read_registers-IsSound b frame n)
      (λ _.
        if-both AnswerIsSound (get_or frame 1 0 == 0x06 && length frame == 8) _ _
          (λ _. write_register-IsSound b frame n h)
          (λ _.
            if-both AnswerIsSound (get_or frame 1 0 == 0x10 && leb 9 (length frame)) _ _
              (λ _. write_registers-IsSound b frame n)
              (λ _.
                unless_broadcast-IsSound b _
                  (exception-IsSound (get_or frame 0 0) (get_or frame 1 0) 1))))

-- Whatever is received, the node sends nothing or a frame whose checksum is right.
pub process_frame-IsSound : (frame : List ℕ) (n : MbusNode) → IsSound (process_frame frame n).1
unfolding process_frame
process_frame-IsSound frame n =
    if-both AnswerIsSound (ltb (length frame) 4) _ _ (λ _. inl refl)
      (λ _.
        if-both AnswerIsSound (not (checksum_ok frame)) _ _ (λ _. inl refl)
          (λ ok.
            if-both AnswerIsSound
              (not (get_or frame 0 0 == 0) && not (get_or frame 0 0 == n.config.address)) _ _
              (λ _. inl refl) (λ _. dispatch-IsSound _ frame n (ground (arith, ok)))))
