-- ===== src/Controller.antt =====
-- src/EdgeController.cpp: the controller that joins the driver and the safety envelope. A time is a
-- number of nanoseconds of the steady clock, which never runs backwards, so a difference of a later
-- and an earlier time is exact. The driver is shared with the main loop and is passed along.
pub mod Locked
pub mod Command
pub mod States
use gridex_edge_gateway.Prelude.{
  ℕ, ◌-◌, Bool, true, false, not, ◌&&◌, ◌||◌, Option, none, some, if◌then◌else◌, leb, ◌*◌,
}
use gridex_edge_gateway.Double.{Double, nought, lt, le}
use gridex_edge_gateway.Types.{
  EdgeState, boot, waiting_for_comms, waiting_for_bms_limits, ready, safe_mode,
  commissioning_locked, waiting_for_pcs_ready, BatteryTelemetry, SiteLimit, no_site_limit,
  ConfiguredPowerLimit, SafetyInput, SafetyResult, write_path_locked, write_failed, is_good,
}
use gridex_edge_gateway.Safety.{apply}
use gridex_edge_gateway.Modbus.{ModbusClient}
use gridex_edge_gateway.Driver.Poll.{Driver, poll, writes_enabled}
use gridex_edge_gateway.Driver.Writes.{refresh_heartbeat, write_power_setpoint_kw}

abbrev pub seconds : ℕ → ℕ
seconds n = n * 1_000_000_000

pub record ControllerConfig : Type 0 where
  pub ems_timeout : ℕ
  pub heartbeat_refresh : ℕ
  pub heartbeat_timeout_seconds : ℕ
  pub configured_limit : ConfiguredPowerLimit

-- The member initialisers: 15 s, 35 s, 60 s and no configured limit.
abbrev pub default_config : ControllerConfig
default_config = record {
  ems_timeout = seconds 15;
  heartbeat_refresh = seconds 35;
  heartbeat_timeout_seconds = 60;
  configured_limit = record { max_charge_kw = none; max_discharge_kw = none };
}

pub record ControllerSnapshot : Type 0 where
  pub state : EdgeState
  pub battery : BatteryTelemetry
  pub command : SafetyResult
  pub ems_connected : Bool
  pub heartbeat_ok : Bool

pub record Controller : Type 0 where
  pub config : ControllerConfig
  pub requested_power_kw : Double
  pub site : SiteLimit
  pub last_command_at : Option ℕ
  pub last_heartbeat_at : Option ℕ

unfoldable pub new_controller : ControllerConfig → Controller
new_controller config = record {
  config = config;
  requested_power_kw = nought;
  site = no_site_limit;
  last_command_at = none;
  last_heartbeat_at = none;
}

unfoldable pub receive_command : Controller → Double → SiteLimit → ℕ → Controller
receive_command c power site now = record c {
  requested_power_kw = power;
  site = site;
  last_command_at = some now;
}

-- The last command is at most the timeout old.
unfoldable pub is_connected : Option ℕ → ℕ → ℕ → Bool
is_connected none timeout now = false
is_connected (some at) timeout now = leb (now - at) timeout

unfoldable pub heartbeat_due : Option ℕ → ℕ → ℕ → Bool
heartbeat_due none refresh now = true
heartbeat_due (some at) refresh now = leb refresh (now - at)

unfoldable pub has_fault : BatteryTelemetry → Bool
has_fault b = b.pcs_fault || b.bms_fault || b.pcs_communication_fault || b.bms_communication_fault

-- The state of an unlocked controller before its write.
unfoldable pub state_of : BatteryTelemetry → Bool → Bool → EdgeState
unfolding has_fault
state_of b connected heartbeat_ok =
    if not heartbeat_ok
    then EdgeState.fault
    else if not (is_good b.quality)
    then waiting_for_comms
    else if not b.limits_valid
    then waiting_for_bms_limits
    else if not b.control_ready
    then (if has_fault b then EdgeState.fault else waiting_for_pcs_ready)
    else if not connected
    then safe_mode
    else ready

unfoldable pub safety_input : Controller → BatteryTelemetry → Bool → SafetyInput
safety_input c b available = record {
  requested_power_kw = c.requested_power_kw;
  battery = b;
  site = c.site;
  configured_limit = c.config.configured_limit;
  ems_connected = available;
}

-- The snapshot before the write: the state, and what the envelope makes of the request.
unfoldable pub assess : Controller → BatteryTelemetry → Bool → Bool → ControllerSnapshot
unfolding safety_input state_of
assess c b connected heartbeat_ok = record {
  state = state_of b connected heartbeat_ok;
  battery = b;
  command = apply (safety_input c b (connected && heartbeat_ok));
  ems_connected = connected;
  heartbeat_ok = heartbeat_ok;
}

-- The snapshot of a tick whose write path is locked.
unfoldable pub locked : Controller → ControllerSnapshot → ControllerSnapshot
locked c snapshot = record snapshot {
  state = commissioning_locked;
  command = record (snapshot.command) {
    applied_power_kw = nought;
    -- `requestedPowerKw_ != 0.0`, which also holds of NaN.
    clamped =
        snapshot.command.clamped
        || not (le c.requested_power_kw nought && le nought c.requested_power_kw);
    reason = write_path_locked;
  };
}

-- The snapshot of a tick whose write failed.
abbrev pub write_lost : ControllerSnapshot → ControllerSnapshot
write_lost snapshot = record snapshot {
  state = EdgeState.fault;
  command = record (snapshot.command) {
    applied_power_kw = nought;
    clamped = true;
    reason = write_failed;
  };
}

module _ {S : Type 0} (client : ModbusClient S) where
  -- The heartbeat of a tick: its result, the time that it was last refreshed, and the state.
  unfoldable pub beat : Controller → Driver → ℕ → S → Bool × Option ℕ × S
  beat c d now s =
      if heartbeat_due c.last_heartbeat_at c.config.heartbeat_refresh now
      then (let (done, s') = refresh_heartbeat client d c.config.heartbeat_timeout_seconds s in
          (done, (if done then some now else c.last_heartbeat_at), s'))
      else (true, c.last_heartbeat_at, s)

  -- The last part of a tick: the write of the applied power, where the PCS is ready for control.
  unfoldable pub write_command : Driver → ControllerSnapshot → S → ControllerSnapshot × S
  write_command d snapshot s =
      if snapshot.battery.control_ready
      then (let (done, s') = write_power_setpoint_kw client d snapshot.command.applied_power_kw s in
          ((if done then snapshot else write_lost snapshot), s'))
      else (snapshot, s)

  unfoldable pub tick : Controller → Driver → ℕ → S → ControllerSnapshot × Controller × Driver × S
  unfolding assess locked
  tick c d now s =
      let (battery, d', s1) = poll client d s in
      let connected = is_connected c.last_command_at c.config.ems_timeout now in
      let (heartbeat_ok, last, s2) = beat c d' now s1 in
      let c' = record c { last_heartbeat_at = last } in
      let snapshot = assess c battery connected heartbeat_ok in
      if not (writes_enabled d'.approval)
      then (locked c snapshot, c', d', s2)
      else let (final, s3) = write_command d' snapshot s2 in (final, c', d', s3)
