-- ===== src/Mbus/Provisioning/Lock.antt =====
-- What a line of the serial port can do to the identity and to the driver of a node.
use gridex_edge_gateway.Prelude.{
  ℕ, ◌≡◌, ◌⊎◌, inl, inr, refl, arith, ◌≤◌, Bool, true, false, not, ◌||◌, Option, none, some, List,
  if-both, ltb, ◌==◌, get_or, ◌&&◌, length, Bool-cases, sym, set_all, set, get_or-set_ne, ap, ◌∙◌,
  ◌<◌, ◌≢◌, [], ◌∷◌,
}
use gridex_edge_gateway.Prelude.Text.{codes}
use mathlib.Core.Path.{subst}
use mathlib.Core.Bool.{false≢true}
use gridex_edge_gateway.Mbus.Reg as Reg
use gridex_edge_gateway.Mbus.Node.{
  NodeConfig, MbusNode, valid_type, provision, provisioned, take_configuration_changed,
}
use gridex_edge_gateway.Mbus.Provisioning.{
  Preferences, Station, Answer, provision_numbers, provision_node, clear_secret, store_secret,
  store_source, process_argument, process_line, persist_node_config, scan_all, trim,
  process_trimmed,
}
use gridex_edge_gateway.Mqtt.Publish.{after_prefix, is_empty}
use gridex_edge_gateway.Ota.Compare.{text_equal}

-- An identity that a node may have been given.
abbrev pub IsIdentity : NodeConfig → Type 0
IsIdentity c =
    (1 ≤ c.address)
    × (c.address ≤ 247)
    × (valid_type c.node_type ≡ true)
    × (1 ≤ c.driver_id)
    × (c.driver_id ≤ 65535)

-- Every register but those of the type, the state, the address and the driver, and of the three that
-- are asked for, is the same: those of a command as well.
abbrev pub SameOthers : MbusNode → MbusNode → Type 0
SameOthers n n' =
    (i : ℕ)
    → (i < Reg.node_type)
      ⊎ (((Reg.driver_id < i) × (i < Reg.requested_address)) ⊎ (Reg.requested_driver_id < i))
    → get_or n'.registers i 0 ≡ get_or n.registers i 0

-- The node is as it was; or it has a valid identity, its other registers are as they were, and its
-- driver is locked.
abbrev pub IsLocal : Station → Station → Type 0
IsLocal x y =
    ((y.node ≡ x.node) × (y.driver_ready ≡ x.driver_ready))
    ⊎ ((y.driver_ready ≡ false) × IsIdentity y.node.config × SameOthers x.node y.node)

same : (x : Station) → IsLocal x x
same x = inl (refl, refl)

none_refused : (a b v d : Bool) → a || b || not v || d ≡ false → v ≡ true
none_refused a b v d h = ground arith

all_passed : (a b c d : Bool) → a || b || c || not d ≡ false → (c ≡ false) × (d ≡ true)
all_passed a b c d h = (ground arith, ground arith)

accepted-IsIdentity :
    (address type driver : ℕ) (n : MbusNode)
    → (provision address type driver n).0 ≡ true
    → ltb 65535 driver ≡ false
    → IsIdentity (provision address type driver n).1.config
unfolding provision
accepted-IsIdentity address type driver n =
    if-both {A = Bool × MbusNode}
      (λ r. r.0 ≡ true → ltb 65535 driver ≡ false → IsIdentity r.1.config)
      (ltb address 1 || ltb 247 address || not (valid_type type) || driver == 0) _ _
      (λ _ h _. absurd (false≢true h))
      (λ e _ small. (
        ground (arith, e),
        ground (arith, e),
        none_refused (ltb address 1) (ltb 247 address) (valid_type type) (driver == 0) e,
        ground (arith, e),
        ground (arith, small),
      ))

abbrev avoided : ℕ → List (ℕ × ℕ) → Bool
avoided i [] = true
avoided i ((a, v) ∷ assignments) = not (a == i) && avoided i assignments

not_same : (a i : ℕ) (b : Bool) → not (a == i) && b ≡ true → (a ≢ i) × (b ≡ true)
not_same a i b h = (λ e. ground (arith, e, h), ground (arith, h))

set_all-avoided :
    (i : ℕ) (assignments : List (ℕ × ℕ)) (regs : List ℕ)
    → avoided i assignments ≡ true
    → get_or (set_all assignments regs) i 0 ≡ get_or regs i 0
set_all-avoided i [] regs h = refl
set_all-avoided i ((a, v) ∷ assignments) regs h =
    let (other, others) = not_same a i (avoided i assignments) h in
    set_all-avoided i assignments (set regs a v) others ∙ get_or-set_ne regs a i v 0 other

provision-SameOthers :
    (address type driver : ℕ) (n : MbusNode) → SameOthers n (provision address type driver n).1
unfolding provision
provision-SameOthers address type driver n =
    if-both {A = Bool × MbusNode} (λ r. SameOthers n r.1)
      (ltb address 1 || ltb 247 address || not (valid_type type) || driver == 0) _ _ (λ _ i h. refl)
      (λ _ i h. set_all-avoided i (provisioned address type driver) n.registers (ground (arith, h)))

-- Persisting changes neither the identity nor a register.
persist_node_config-node :
    {S : Type 0} (store : Preferences S) (n : MbusNode) (s : S)
    → let n' = (persist_node_config store n s).0 in
      (n'.config ≡ n.config) × (n'.registers ≡ n.registers)
unfolding persist_node_config take_configuration_changed
persist_node_config-node {S = S} store n s =
    if-both {A = MbusNode × S} (λ r. (r.0.config ≡ n.config) × (r.0.registers ≡ n.registers))
      (not n.configuration_changed) _ _ (λ _. (refl, refl)) (λ _. (refl, refl))

-- The outcome of a line.
abbrev Keeps : {S : Type 0} → Station → Answer × (Station × S) → Type 0
Keeps x r = IsLocal x r.1.0

numbers-IsLocal :
    {S : Type 0} (store : Preferences S) (numbers : Option (List ℕ)) (x : Station) (s : S)
    → IsLocal x (provision_numbers store numbers x s).1.0
unfolding provision_numbers
numbers-IsLocal store none x s = same x
numbers-IsLocal store (some numbers) x s =
    let address = get_or numbers 0 0 in
    let type = get_or numbers 1 0 in
    let driver = get_or numbers 2 0 in
    let done = (provision address type driver x.node).0 in
    let refused =
      ltb 247 address || ltb Reg.type_second_cabinet type || ltb 65535 driver || not done in
    elim (Bool-cases refused) [
      | inl e ↦ rw e (same x)
      | inr e ↦
          let (small, accepted) =
            all_passed (ltb 247 address) (ltb Reg.type_second_cabinet type) (ltb 65535 driver) done
              e in
          let n = (provision address type driver x.node).1 in
          let valid = accepted-IsIdentity address type driver x.node accepted small in
          let (kept, regs) = persist_node_config-node store n s in
          rw e (
            inr (
              refl,
              subst IsIdentity (sym kept) valid,
              λ i h.
                  ap (λ r. get_or r i 0) regs ∙ provision-SameOthers address type driver x.node i h,
            ))
    ]

module _ {S : Type 0} (store : Preferences S) where
  clear_secret-IsLocal : (x : Station) (s : S) → IsLocal x (clear_secret store x s).1.0
  unfolding clear_secret
  clear_secret-IsLocal x s =
      if-both (Keeps x) (not (store.begin (codes "gridex-control") false s).0) _ _ (λ _. same x)
        (λ _. inl (refl, refl))

  store_secret-IsLocal :
      (sha256_hex : List ℕ → List ℕ) (token : List ℕ) (x : Station) (s : S)
      → IsLocal x (store_secret store sha256_hex token x s).1.0
  unfolding store_secret
  store_secret-IsLocal sha256_hex token x s =
      let (opened, s1) = store.begin (codes "gridex-control") false s in
      let hash = sha256_hex token in
      let stored = (store.put_string (codes "ota_token_hash") hash s1).0 in
      if-both (Keeps x) (ltb (length token) 32 || ltb 128 (length token)) _ _ (λ _. same x)
        (λ _.
          if-both (Keeps x) (not opened) _ _ (λ _. same x)
            (λ _.
              if-both (Keeps x) (is_empty hash) _ _ (λ _. same x)
                (λ _.
                  if-both (Keeps x) (not (stored == length hash)) _ _ (λ _. same x)
                    (λ _. inl (refl, refl)))))

  store_source-IsLocal :
      (value : List ℕ) (address : Option ℕ) (x : Station) (s : S)
      → IsLocal x (store_source store value address x s).1.0
  unfolding store_source
  store_source-IsLocal value none x s = same x
  store_source-IsLocal value (some address) x s =
      let (opened, s1) = store.begin (codes "gridex-control") false s in
      let stored = (store.put_string (codes "rockpi_ip") value s1).0 in
      if-both (Keeps x) (not opened) _ _ (λ _. same x)
        (λ _.
          if-both (Keeps x) (not (stored == length value)) _ _ (λ _. same x)
            (λ _. inl (refl, refl)))

  module _ (sha256_hex : List ℕ → List ℕ) (parse_ip : List ℕ → Option ℕ) where
    process_argument-IsLocal :
        (arguments key source : Option (List ℕ)) (x : Station) (s : S)
        → IsLocal x (process_argument store sha256_hex parse_ip arguments key source x s).1.0
    unfolding process_argument provision_node
    process_argument-IsLocal (some arguments) key source x s =
        numbers-IsLocal store (scan_all 3 arguments) x s
    process_argument-IsLocal none (some token) source x s =
        store_secret-IsLocal sha256_hex token x s
    process_argument-IsLocal none none (some value) x s =
        store_source-IsLocal value (parse_ip value) x s
    process_argument-IsLocal none none none x s = same x

    process_trimmed-IsLocal :
        (line : List ℕ) (x : Station) (s : S)
        → IsLocal x (process_trimmed store sha256_hex parse_ip line x s).1.0
    unfolding process_trimmed
    process_trimmed-IsLocal line x s =
        let argument =
          process_argument-IsLocal (after_prefix (codes "node ") line)
            (after_prefix (codes "ota-key ") line) (after_prefix (codes "rockpi ") line) x s in
        if-both (Keeps x) (text_equal line (codes "help")) _ _ (λ _. same x)
          (λ _.
            if-both (Keeps x) (text_equal line (codes "status")) _ _ (λ _. same x)
              (λ _.
                if-both (Keeps x) (text_equal line (codes "ota-clear")) _ _
                  (λ _. clear_secret-IsLocal x s) (λ _. argument)))

    -- A line of the serial port, whatever it says, leaves the registers and the identity of the node and
    -- its driver alone; or it gives the node a valid identity (address 1 to 247, a known type, a
    -- driver from 1 to 65535), locks the driver, and leaves every register alone but those of the
    -- type, the state, the address and the driver, and of the identity that is asked for. So no line
    -- unlocks a driver or writes a command.
    pub process_line-IsLocal :
        (text : List ℕ) (x : Station) (s : S)
        → IsLocal x (process_line store sha256_hex parse_ip text x s).1.0
    unfolding process_line
    process_line-IsLocal text x s = process_trimmed-IsLocal (trim text) x s
