-- ===== src/Controller/States.antt =====
-- Which states a tick ends in.
use gridex_edge_gateway.Prelude.{
  ℕ, Bool, true, ◌≡◌, ◌≢◌, arith, Bool-cases, inl, inr, Option, some, ◌-◌, ◌≤◌, none, false, refl,
  ap, ◌∙◌, sym,
}
use gridex_edge_gateway.Types.{waiting_for_bms_limits, good, BatteryTelemetry, ready}
use gridex_edge_gateway.Modbus.{ModbusClient}
use gridex_edge_gateway.Driver.Poll.{Driver, poll, writes_enabled}
use gridex_edge_gateway.Driver.Poll.Mirror.{Mirrors, digest-Mirrors}
use gridex_edge_gateway.Controller.{
  Controller, tick, locked, write_command, assess, is_connected, state_of, ControllerSnapshot, beat,
  safety_input,
}
use gridex_edge_gateway.Driver.Writes.{write_power_setpoint_kw}
use gridex_edge_gateway.Driver.Registers.{pcs_power_command}
use gridex_edge_gateway.Driver.Codec.{encode_signed}
use gridex_edge_gateway.Safety.{apply}
use gridex_edge_gateway.Controller.Locked.{poll-approval}

module _ {S : Type 0} (client : ModbusClient S) (d : Driver) (s : S) where
  poll-Mirrors : Mirrors (poll client d s).1 (poll client d s).0
  unfolding poll
  poll-Mirrors = digest-Mirrors d _

-- A state that follows from telemetry whose quality and limits agree.
write_command-state :
    {S : Type 0} (client : ModbusClient S) (d : Driver) (c : Controller) (b : BatteryTelemetry)
    (connected heartbeat_ok : Bool) (s : S)
    → (b.quality ≡ good → b.limits_valid ≡ true)
    → (write_command client d (assess c b connected heartbeat_ok) s).0.state
      ≢ waiting_for_bms_limits
unfolding write_command assess
write_command-state client d c b connected heartbeat_ok s h = ground arith

-- No tick ends in the state that waits for the BMS limits, whatever the connection answers.
pub tick-state :
    {S : Type 0} (client : ModbusClient S) (c : Controller) (d : Driver) (now : ℕ) (s : S)
    → (tick client c d now s).0.state ≢ waiting_for_bms_limits
unfolding tick locked
tick-state client c d now s =
    let m = poll-Mirrors client d s in
    elim (Bool-cases (writes_enabled (poll client d s).1.approval)) [
      | inl e ↦ simp e (
          write_command-state client (poll client d s).1 c (poll client d s).0 _ _ _
            m.good_means_valid)
      | inr e ↦ simp e (λ h. cc)
    ]

is_connected-recent :
    (last : Option ℕ) (timeout now : ℕ)
    → is_connected last timeout now ≡ true
    → (at : ℕ) × (last ≡ some at) × (now - at ≤ timeout)
unfolding is_connected
is_connected-recent none timeout now h = cc
is_connected-recent (some at) timeout now h = (at, refl, ground arith)

state_of-ready :
    (b : BatteryTelemetry) (connected heartbeat_ok : Bool)
    → state_of b connected heartbeat_ok ≡ ready
    → (connected ≡ true)
      × (heartbeat_ok ≡ true)
      × (b.quality ≡ good)
      × (b.limits_valid ≡ true)
      × (b.control_ready ≡ true)
unfolding state_of
state_of-ready b connected heartbeat_ok h = ground arith

write_command-ready :
    {S : Type 0} (client : ModbusClient S) (d : Driver) (snapshot : ControllerSnapshot) (s : S)
    → snapshot.battery.control_ready ≡ true
    → (write_command client d snapshot s).0.state ≡ ready
    → let w =
        client.write_holding pcs_power_command
          (encode_signed snapshot.command.applied_power_kw 10)
          s in
      ((write_command client d snapshot s).0 ≡ snapshot)
      × (w.0 ≡ true)
      × ((write_command client d snapshot s).1 ≡ w.1)
unfolding write_command write_power_setpoint_kw
write_command-ready client d snapshot s h k = ground arith

-- What a tick of the controller did that ended in `ready`, with the outcome `r`.
pub record Commanded {S : Type 0} (client : ModbusClient S) (c : Controller) (d : Driver) (now : ℕ)
    (r : ControllerSnapshot × Controller × Driver × S) : Type 0 where
  pub approved : writes_enabled d.approval ≡ true
  pub fresh : (at : ℕ) × (c.last_command_at ≡ some at) × (now - at ≤ c.config.ems_timeout)
  pub heartbeat : r.0.heartbeat_ok ≡ true
  pub telemetry : r.0.battery.quality ≡ good
  pub limits : r.0.battery.limits_valid ≡ true
  pub prerequisites : r.0.battery.control_ready ≡ true
  pub enveloped : r.0.command ≡ apply (safety_input c r.0.battery true)
  -- The last call was a confirmed write of the applied power.
  pub confirmed :
      (t : S) × (client.write_holding pcs_power_command
          (encode_signed r.0.command.applied_power_kw 10)
          t
        ≡ (true, r.3))

pub open_tick :
    {S : Type 0} (client : ModbusClient S) (c : Controller) (d : Driver) (now : ℕ) (s : S)
    → writes_enabled d.approval ≡ true
    → let (b, d', s1) = poll client d s in
      let connected = is_connected c.last_command_at c.config.ems_timeout now in
      let (ok, last, s2) = beat client c d' now s1 in
      let (final, s3) = write_command client d' (assess c b connected ok) s2 in
      tick client c d now s ≡ (final, record c { last_heartbeat_at = last }, d', s3)
unfolding tick
open_tick client c d now s e = simp (poll-approval client d s, e)

closed_not_ready :
    {S : Type 0} (client : ModbusClient S) (c : Controller) (d : Driver) (now : ℕ) (s : S)
    → writes_enabled d.approval ≡ false
    → (tick client c d now s).0.state ≢ ready
unfolding tick locked
closed_not_ready client c d now s e = simp (poll-approval client d s, e) (λ h. cc)

write_command-state_of :
    {S : Type 0} (client : ModbusClient S) (d : Driver) (snapshot : ControllerSnapshot) (s : S)
    → (write_command client d snapshot s).0.state ≡ ready
    → snapshot.state ≡ ready
unfolding write_command
write_command-state_of client d snapshot s h = ground arith

enveloped_of :
    (c : Controller) (b : BatteryTelemetry) (connected ok : Bool)
    → connected ≡ true
    → ok ≡ true
    → (assess c b connected ok).command ≡ apply (safety_input c b true)
unfolding assess
enveloped_of c b connected ok p q = simp (p, q)

open_tick-Commanded :
    {S : Type 0} (client : ModbusClient S) (c : Controller) (d d' : Driver) (now : ℕ)
    (b : BatteryTelemetry) (ok : Bool) (last : Option ℕ) (s : S)
    → writes_enabled d.approval ≡ true
    → let connected = is_connected c.last_command_at c.config.ems_timeout now in
      let w = write_command client d' (assess c b connected ok) s in
      w.0.state ≡ ready
      → Commanded client c d now (w.0, record c { last_heartbeat_at = last }, d', w.1)
unfolding assess
open_tick-Commanded client c d d' now b ok last s e h =
    let connected = is_connected c.last_command_at c.config.ems_timeout now in
    let (up, beating, quality, valid, controllable) =
      state_of-ready b connected ok
        (write_command-state_of client d' (assess c b connected ok) s h) in
    let (same, done, after) =
      write_command-ready client d' (assess c b connected ok) s controllable h in
    record {
      approved = e;
      fresh = is_connected-recent c.last_command_at c.config.ems_timeout now up;
      heartbeat = ap (λ f. f.heartbeat_ok) same ∙ beating;
      telemetry = ap (λ f. f.battery.quality) same ∙ quality;
      limits = ap (λ f. f.battery.limits_valid) same ∙ valid;
      prerequisites = ap (λ f. f.battery.control_ready) same ∙ controllable;
      enveloped =
          ap (λ f. f.command) same
          ∙ enveloped_of c b connected ok up beating
          ∙ ap (λ f. apply (safety_input c f.battery true)) (sym same);
      confirmed = (s, rw same (λ i. (done i, sym after i)));
    }

-- A tick that ends in `ready` had the approval, a command that is not older than the timeout, a
-- heartbeat that did not fail, good telemetry with valid limits and a PCS ready for control; it
-- reports what the safety envelope makes of the request; and its last call was a confirmed write
-- of the applied power to the command register.
pub tick-ready :
    {S : Type 0} (client : ModbusClient S) (c : Controller) (d : Driver) (now : ℕ) (s : S)
    → (tick client c d now s).0.state ≡ ready
    → Commanded client c d now (tick client c d now s)
tick-ready client c d now s h = elim (Bool-cases (writes_enabled d.approval)) [
  | inl e ↦ rw (open_tick client c d now s e) (
      open_tick-Commanded client c d (poll client d s).1 now (poll client d s).0 _ _ _ e
        (rw (open_tick client c d now s e) at h))
  | inr e ↦ absurd (closed_not_ready client c d now s e h)
]
