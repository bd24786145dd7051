-- ===== src/Driver/Readings.antt =====
-- The reads of `SunStoragePro261Driver::poll`, in its order. Each may fail; the failure of one does
-- not stop the others.
use gridex_edge_gateway.Prelude.{ℕ, Bool, Option, List, none, some}
use gridex_edge_gateway.Modbus.{ModbusClient, Io, ◌>>=◌, pure}
use gridex_edge_gateway.Driver.Registers

pub record Readings : Type 0 where
  pub pcs_fault : Option Bool
  pub pcs_off_grid : Option Bool
  pub pcs_warning : Option Bool
  pub pcs_communication_fault : Option Bool
  pub bms_alarm : Option Bool
  pub bms_fault : Option Bool
  pub bms_communication_fault : Option Bool
  pub pcs_grid_mode : Option ℕ
  pub pcs_work_mode : Option ℕ
  pub pcs_power_on : Option ℕ
  pub soc_upper_limit : Option ℕ
  pub soc_lower_limit : Option ℕ
  pub actual_power : Option ℕ
  pub reactive_power : Option ℕ
  pub dc_power : Option ℕ
  pub frequency : Option ℕ
  pub commanded_power : Option ℕ
  pub pcs_status : Option ℕ
  pub current : Option ℕ
  pub soc : Option ℕ
  pub soh : Option ℕ
  pub voltage : Option ℕ
  pub status : Option ℕ
  pub accumulated_energy : Option (List ℕ)
  pub system_flags : Option ℕ
  pub max_charge : Option ℕ
  pub max_discharge : Option ℕ
  pub daily_charge : Option ℕ
  pub daily_discharge : Option ℕ

module _ {S : Type 0} (client : ModbusClient S) where
  unfoldable pub read_all : Io S Readings
  read_all = do
    pcs_fault ← client.read_coil Registers.pcs_fault
    pcs_off_grid ← client.read_coil Registers.pcs_off_grid
    pcs_warning ← client.read_coil Registers.pcs_warning
    pcs_communication_fault ← client.read_coil Registers.pcs_communication_fault
    bms_alarm ← client.read_coil Registers.bms_alarm
    bms_fault ← client.read_coil Registers.bms_fault
    bms_communication_fault ← client.read_coil Registers.bms_communication_fault
    pcs_grid_mode ← client.read_holding Registers.pcs_grid_mode
    pcs_work_mode ← client.read_holding Registers.pcs_work_mode
    pcs_power_on ← client.read_holding Registers.pcs_power_on
    soc_upper_limit ← client.read_holding Registers.pcs_soc_upper_limit
    soc_lower_limit ← client.read_holding Registers.pcs_soc_lower_limit
    actual_power ← client.read_input Registers.pcs_active_power
    reactive_power ← client.read_input Registers.pcs_reactive_power
    dc_power ← client.read_input Registers.pcs_dc_power
    frequency ← client.read_input Registers.pcs_frequency
    commanded_power ← client.read_input Registers.pcs_commanded_power
    pcs_status ← client.read_input Registers.pcs_status
    current ← client.read_input Registers.bms_current
    soc ← client.read_input Registers.bms_soc
    soh ← client.read_input Registers.bms_soh
    voltage ← client.read_input Registers.bms_voltage
    status ← client.read_input Registers.bms_status
    accumulated_energy ← client.read_input_range Registers.bms_accumulated_charge_energy 4
    system_flags ← client.read_input Registers.bms_system_flags
    max_charge ← client.read_input Registers.bms_max_charge_power
    max_discharge ← client.read_input Registers.bms_max_discharge_power
    daily_charge ← client.read_input Registers.bms_daily_charge_energy
    daily_discharge ← client.read_input Registers.bms_daily_discharge_energy
    pure (record {
      pcs_fault = pcs_fault;
      pcs_off_grid = pcs_off_grid;
      pcs_warning = pcs_warning;
      pcs_communication_fault = pcs_communication_fault;
      bms_alarm = bms_alarm;
      bms_fault = bms_fault;
      bms_communication_fault = bms_communication_fault;
      pcs_grid_mode = pcs_grid_mode;
      pcs_work_mode = pcs_work_mode;
      pcs_power_on = pcs_power_on;
      soc_upper_limit = soc_upper_limit;
      soc_lower_limit = soc_lower_limit;
      actual_power = actual_power;
      reactive_power = reactive_power;
      dc_power = dc_power;
      frequency = frequency;
      commanded_power = commanded_power;
      pcs_status = pcs_status;
      current = current;
      soc = soc;
      soh = soh;
      voltage = voltage;
      status = status;
      accumulated_energy = accumulated_energy;
      system_flags = system_flags;
      max_charge = max_charge;
      max_discharge = max_discharge;
      daily_charge = daily_charge;
      daily_discharge = daily_discharge;
    })

-- The readings without which a poll counts as failed.
pub record Required : Type 0 where
  pub pcs_fault : Bool
  pub pcs_off_grid : Bool
  pub pcs_communication_fault : Bool
  pub bms_fault : Bool
  pub bms_communication_fault : Bool
  pub pcs_grid_mode : ℕ
  pub pcs_work_mode : ℕ
  pub pcs_power_on : ℕ
  pub actual_power : ℕ
  pub current : ℕ
  pub soc : ℕ
  pub soh : ℕ
  pub voltage : ℕ
  pub status : ℕ
  pub system_flags : ℕ
  pub max_charge : ℕ
  pub max_discharge : ℕ

-- `Option` as a chain of tests: the guard `if (!pcsFault || …)`.
abbrev pub bind_option {ℓ κ} : {A : Type ℓ} {B : Type κ} → Option A → (A → Option B) → Option B
bind_option none f = none
bind_option (some a) f = f a

unfoldable pub required : Readings → Option Required
required r = bind_option r.pcs_fault λ pcs_fault. bind_option r.pcs_off_grid λ pcs_off_grid.
    bind_option r.pcs_communication_fault λ pcs_communication_fault.
      bind_option r.bms_fault λ bms_fault.
        bind_option r.bms_communication_fault λ bms_communication_fault.
          bind_option r.pcs_grid_mode λ pcs_grid_mode. bind_option r.pcs_work_mode λ pcs_work_mode.
            bind_option r.pcs_power_on λ pcs_power_on. bind_option r.actual_power λ actual_power.
              bind_option r.current λ current. bind_option r.soc λ soc. bind_option r.soh λ soh.
                bind_option r.voltage λ voltage. bind_option r.status λ status.
                  bind_option r.system_flags λ system_flags. bind_option r.max_charge λ max_charge.
                    bind_option r.max_discharge λ max_discharge. some (record {
                      pcs_fault = pcs_fault;
                      pcs_off_grid = pcs_off_grid;
                      pcs_communication_fault = pcs_communication_fault;
                      bms_fault = bms_fault;
                      bms_communication_fault = bms_communication_fault;
                      pcs_grid_mode = pcs_grid_mode;
                      pcs_work_mode = pcs_work_mode;
                      pcs_power_on = pcs_power_on;
                      actual_power = actual_power;
                      current = current;
                      soc = soc;
                      soh = soh;
                      voltage = voltage;
                      status = status;
                      system_flags = system_flags;
                      max_charge = max_charge;
                      max_discharge = max_discharge;
                    })
