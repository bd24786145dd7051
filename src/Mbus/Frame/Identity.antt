-- ===== src/Mbus/Frame/Identity.antt =====
-- What stays true of a node through every frame.
use gridex_edge_gateway.Prelude.{
  ℕ, ◌≡◌, refl, arith, ◌≤◌, ◌+◌, ltb, ◌==◌, Bool, length, if◌then◌else◌, not, ◌||◌, List, get_or,
  length-set, length-set_all, inl, inr, if-both, Bool-cases, zero, suc, set, ◌∙◌, leb, ◌&&◌,
  replicate, ◌*◌,
}
use gridex_edge_gateway.Mbus.Node.{
  MbusNode, NodeConfig, new_node, provision, apply_pending_configuration, register_value,
  set_register, temporary_address, valid_type, provisioned, identity,
}
use gridex_edge_gateway.Mbus.Frame.{
  process_frame, dispatch, write_register, write_registers, store_words, checksum_ok,
}
use gridex_edge_gateway.Mbus.Crc.{read_u16}
use gridex_edge_gateway.Mbus.Reg as Reg

-- The node answers to one address of 1..247 and has all its registers.
pub record IsNode (n : MbusNode) : Type 0 where
  pub lowest : 1 ≤ n.config.address
  pub highest : n.config.address ≤ 247
  pub size : length n.registers ≡ Reg.holding_count

length-store_words :
    (frame : List ℕ) (at start count : ℕ) (regs : List ℕ)
    → length (store_words frame at start count regs) ≡ length regs
unfolding store_words
length-store_words frame at start zero regs = refl
length-store_words frame at start (suc n) regs =
    length-store_words frame (at + 2) (suc start) n (set regs start (read_u16 frame at))
    ∙ length-set regs start (read_u16 frame at)

-- Writing registers changes neither the address nor the number of registers.
rewritten :
    (n : MbusNode) (regs : List ℕ)
    → length regs ≡ length n.registers
    → IsNode n
    → IsNode (record n { registers = regs })
rewritten n regs e h = record { lowest = h.lowest; highest = h.highest; size = e ∙ h.size }

abbrev ResultIsNode : Bool × MbusNode → Type 0
ResultIsNode r = IsNode r.1

provision-IsNode :
    (address type driver : ℕ) (n : MbusNode) → IsNode n → IsNode (provision address type driver n).1
unfolding provision
provision-IsNode address type driver n h =
    elim (Bool-cases (ltb address 1 || ltb 247 address || not (valid_type type) || driver == 0)) [
      | inl e ↦ rw e h
      | inr e ↦ rw e (record {
        lowest = ground (arith, e);
        highest = ground (arith, e);
        size = length-set_all (provisioned address type driver) n.registers ∙ h.size;
      })
    ]

apply_pending_configuration-IsNode :
    (n : MbusNode) → IsNode n → IsNode (apply_pending_configuration n)
unfolding apply_pending_configuration set_register
apply_pending_configuration-IsNode n h =
    let m = set_register Reg.apply_configuration 0 n in
    let good : IsNode m = rewritten n _ (length-set n.registers Reg.apply_configuration 0) h in
    if-both IsNode (not (register_value Reg.apply_configuration n == Reg.apply_key)) _ _ (λ _. h)
      (λ _.
        if-both IsNode (ltb 247 (register_value Reg.requested_address m)) _ _ (λ _. good)
          (λ _.
            provision-IsNode (register_value Reg.requested_address m)
              (register_value Reg.requested_node_type m) (register_value Reg.requested_driver_id m)
              m good))

starts :
    (a uid : ℕ)
    → a ≤ 247
    → let b = if a == 0 then temporary_address uid else a in (1 ≤ b) × (b ≤ 247)
unfolding temporary_address
starts a uid h = (ground arith, ground arith)

-- From any stored configuration, an unset address included, the node starts at an address of 1..247
-- with all its registers.
pub new_node-IsNode : (c : NodeConfig) → c.address ≤ 247 → IsNode (new_node c)
unfolding new_node
new_node-IsNode c h =
    let (low, high) = starts c.address c.uid h in
    record {
      lowest = low;
      highest = high;
      size =
          length-set_all
            (identity (record c {
              address = if c.address == 0 then temporary_address c.uid else c.address;
            }))
            (replicate Reg.holding_count 0);
    }

abbrev NextIsNode : MbusNode × List ℕ → Type 0
NextIsNode r = IsNode r.0

write_register-IsNode :
    (b : Bool) (frame : List ℕ) (n : MbusNode) → IsNode n → IsNode (write_register b frame n).0
unfolding write_register set_register
write_register-IsNode b frame n h =
    let regs = set n.registers (read_u16 frame 2) (read_u16 frame 4) in
    if-both NextIsNode (leb (length n.registers) (read_u16 frame 2)) _ _ (λ _. h)
      (λ _.
        apply_pending_configuration-IsNode (record n { registers = regs })
          (rewritten n regs (length-set n.registers _ _) h))

write_registers-IsNode :
    (b : Bool) (frame : List ℕ) (n : MbusNode) → IsNode n → IsNode (write_registers b frame n).0
unfolding write_registers
write_registers-IsNode b frame n h =
    let regs = store_words frame 7 (read_u16 frame 2) (read_u16 frame 4) n.registers in
    if-both NextIsNode
      (read_u16 frame 4 == 0
        || not (get_or frame 6 0 == read_u16 frame 4 * 2)
        || not (length frame == 9 + get_or frame 6 0)
        || ltb (length n.registers) (read_u16 frame 2 + read_u16 frame 4))
      _ _ (λ _. h)
      (λ _.
        apply_pending_configuration-IsNode (record n { registers = regs })
          (rewritten n regs
            (length-store_words frame 7 (read_u16 frame 2) (read_u16 frame 4) n.registers) h))

dispatch-IsNode :
    (b : Bool) (frame : List ℕ) (n : MbusNode) → IsNode n → IsNode (dispatch b frame n).0
unfolding dispatch
dispatch-IsNode b frame n h =
    if-both NextIsNode ((get_or frame 1 0 == 0x03 || get_or frame 1 0 == 0x04) && length frame == 8)
      _ _ (λ _. h)
      (λ _.
        if-both NextIsNode (get_or frame 1 0 == 0x06 && length frame == 8) _ _
          (λ _. write_register-IsNode b frame n h)
          (λ _.
            if-both NextIsNode (get_or frame 1 0 == 0x10 && leb 9 (length frame)) _ _
              (λ _. write_registers-IsNode b frame n h) (λ _. h)))

-- Every frame, a configuration by broadcast included, leaves the node at an address of 1..247 with
-- all its registers.
pub process_frame-IsNode :
    (frame : List ℕ) (n : MbusNode) → IsNode n → IsNode (process_frame frame n).0
unfolding process_frame
process_frame-IsNode frame n h =
    if-both NextIsNode (ltb (length frame) 4) _ _ (λ _. h)
      (λ _.
        if-both NextIsNode (not (checksum_ok frame)) _ _ (λ _. h)
          (λ _.
            if-both NextIsNode
              (not (get_or frame 0 0 == 0) && not (get_or frame 0 0 == n.config.address)) _ _
              (λ _. h) (λ _. dispatch-IsNode _ frame n h)))
