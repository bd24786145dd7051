-- ===== src/Modbus.antt =====
-- include/gridex/IModbusClient.hpp: what the driver and the node poller need of a Modbus connection,
-- over any state `S` of the connection and of the devices behind it. Every call may change that
-- state, also one that fails.
use gridex_edge_gateway.Prelude.{ℕ, Bool, Option, List}

-- A call that reads and changes the state.
abbrev pub Io : Type 0 → Type 0 → Type 0
Io S A = S → A × S

infixl 5 ◌>>=◌
abbrev pub ◌>>=◌ : {S A B : Type 0} → Io S A → (A → Io S B) → Io S B
◌>>=◌ m f s = let (a, s') = m s in f a s'

abbrev pub pure : {S A : Type 0} → A → Io S A
pure a s = (a, s)

pub record ModbusClient (S : Type 0) : Type 0 where
  pub read_input : ℕ → Io S (Option ℕ)
  -- The start address and the number of registers.
  pub read_input_range : ℕ → ℕ → Io S (Option (List ℕ))
  pub read_holding : ℕ → Io S (Option ℕ)
  pub read_coil : ℕ → Io S (Option Bool)
  -- The address and the value.
  pub write_holding : ℕ → ℕ → Io S Bool
