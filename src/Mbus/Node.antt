-- ===== src/Mbus/Node.antt =====
-- `MbusNode`: its state, the identity that the constructor writes, and the configuration.
use gridex_edge_gateway.Prelude.{
  ℕ, ◌+◌, ◌/◌, ◌%◌, ◌^◌, Bool, true, false, not, ◌||◌, List, bit_xor, if◌then◌else◌, ◌==◌, ltb,
  get_or, set, replicate, ◌∷◌, [], set_all,
}
use gridex_edge_gateway.Mbus.Reg as Reg

-- The type is the word of the enumeration.
pub record NodeConfig : Type 0 where
  pub address : ℕ
  pub node_type : ℕ
  pub driver_id : ℕ
  pub uid : ℕ

pub record MbusNode : Type 0 where
  pub config : NodeConfig
  pub registers : List ℕ
  pub configuration_changed : Bool

unfoldable pub temporary_address : ℕ → ℕ
temporary_address uid =
    let folded = bit_xor (uid % 2 ^ 32) (uid / 2 ^ 32 % 2 ^ 32) in
    200 + bit_xor folded (folded / 65536) % 48

-- The assignments of `initializeIdentity`.
abbrev pub identity : NodeConfig → List (ℕ × ℕ)
identity c =
    (Reg.magic, Reg.magic_value)
    ∷ (Reg.map_version, Reg.map_version_value)
    ∷ (Reg.node_type, c.node_type)
    ∷ (
      Reg.node_state,
      (if c.node_type == Reg.type_unconfigured
          then Reg.state_awaiting_address
          else Reg.state_driver_missing),
    )
    ∷ (Reg.node_address, c.address)
    ∷ (Reg.driver_id, c.driver_id)
    ∷ (Reg.uid0, c.uid / 2 ^ 48 % 65536)
    ∷ (Reg.uid1, c.uid / 2 ^ 32 % 65536)
    ∷ (Reg.uid2, c.uid / 2 ^ 16 % 65536)
    ∷ (Reg.uid3, c.uid % 65536)
    ∷ (Reg.requested_address, c.address)
    ∷ (Reg.requested_node_type, c.node_type)
    ∷ (Reg.requested_driver_id, c.driver_id)
    ∷ []

unfoldable pub initialize_identity : NodeConfig → List ℕ → List ℕ
initialize_identity c = set_all (identity c)

unfoldable pub new_node : NodeConfig → MbusNode
unfolding temporary_address initialize_identity
new_node c =
    let c' = record c { address = if c.address == 0 then temporary_address c.uid else c.address } in
    record {
      config = c';
      registers = initialize_identity c' (replicate Reg.holding_count 0);
      configuration_changed = false;
    }

unfoldable pub valid_type : ℕ → Bool
valid_type t =
    t == Reg.type_inverter
    || t == Reg.type_battery_bms
    || t == Reg.type_all_in_one_bess
    || t == Reg.type_meter
    || t == Reg.type_evse
    || t == Reg.type_second_cabinet

-- The assignments of `provision` to the registers.
abbrev pub provisioned : ℕ → ℕ → ℕ → List (ℕ × ℕ)
provisioned address type driver =
    (Reg.requested_address, address)
    ∷ (Reg.requested_node_type, type)
    ∷ (Reg.requested_driver_id, driver)
    ∷ (Reg.node_address, address)
    ∷ (Reg.node_type, type)
    ∷ (Reg.driver_id, driver)
    ∷ (Reg.node_state, Reg.state_driver_missing)
    ∷ []

unfoldable pub provision : ℕ → ℕ → ℕ → MbusNode → Bool × MbusNode
unfolding valid_type
provision address type driver n =
    if ltb address 1 || ltb 247 address || not (valid_type type) || driver == 0
    then (false, n)
    else (
      true,
      record {
        config = record (n.config) { address = address; node_type = type; driver_id = driver };
        registers = set_all (provisioned address type driver) n.registers;
        configuration_changed = true;
      },
    )

unfoldable pub register_value : ℕ → MbusNode → ℕ
register_value a n = get_or n.registers a 0

unfoldable pub set_register : ℕ → ℕ → MbusNode → MbusNode
set_register a v n = record n { registers = set n.registers a v }

unfoldable pub take_configuration_changed : MbusNode → Bool × MbusNode
take_configuration_changed n = (n.configuration_changed, record n { configuration_changed = false })

unfoldable pub apply_pending_configuration : MbusNode → MbusNode
unfolding provision register_value set_register
apply_pending_configuration n =
    if not (register_value Reg.apply_configuration n == Reg.apply_key)
    then n
    else let m = set_register Reg.apply_configuration 0 n in
      if ltb 247 (register_value Reg.requested_address m)
      then m
      else (provision (register_value Reg.requested_address m)
          (register_value Reg.requested_node_type m) (register_value Reg.requested_driver_id m) m).1
