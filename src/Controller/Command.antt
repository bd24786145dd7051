-- ===== src/Controller/Command.antt =====
-- What a tick writes to the command register of the PCS.
use gridex_edge_gateway.Prelude.{
  ℕ, Bool, true, false, ◌≡◌, arith, ◌*◌, sym, ◌∙◌, ap, if◌then◌else◌, ◌&&◌, some, Option, refl, ◌⊎◌,
  ◌<◌, Bool-cases, ◌-◌, inl, none, inr,
}
use gridex_edge_gateway.Prelude.Int.{pos, negsuc}
use gridex_edge_gateway.Double.{Double, nan, neg_inf, pos_inf, fin, nought, neg, max, milli, le}
use gridex_edge_gateway.Double.Order.{IsNumber}
use gridex_edge_gateway.Modbus.{ModbusClient}
use gridex_edge_gateway.Driver.Poll.{Driver, poll, digest, writes_enabled}
use gridex_edge_gateway.Driver.Poll.Mirror.{Mirrors, digest-Mirrors, HasWords, digest-LimitsFrom}
use gridex_edge_gateway.Driver.Writes.Setpoint.{LimitsFrom, WithinLimits, setpoint_written}
use gridex_edge_gateway.Driver.Writes.{setpoint_refused, write_power_setpoint_kw}
use gridex_edge_gateway.Controller.{
  Controller, beat, tick, write_command, assess, safety_input, ControllerSnapshot, is_connected,
  locked,
}
use gridex_edge_gateway.Types.{BatteryTelemetry}
use gridex_edge_gateway.Safety.Envelope.{RespectsLimits, apply-RespectsLimits}
use gridex_edge_gateway.Driver.Registers.{pcs_power_command}
use gridex_edge_gateway.Driver.Readings.{read_all}
use gridex_edge_gateway.Driver.Codec.{encode_signed, decode_signed}
use gridex_edge_gateway.Controller.Locked.{digest-approval}
use gridex_edge_gateway.Controller.States.{open_tick}
use gridex_edge_gateway.Safety.Refusal.{available}
use gridex_edge_gateway.Safety.{apply}

-- A power within the remembered limits passes the driver's guard.
setpoint_passes :
    (d : Driver) (p : Double) (charge discharge : ℕ)
    → LimitsFrom d charge discharge
    → WithinLimits d p
    → writes_enabled d.approval ≡ true
    → d.control_ready ≡ true
    → d.limits_valid ≡ true
    → setpoint_refused d p ≡ false
unfolding setpoint_refused neg
setpoint_passes d nan c k f w e r v = ground arith
setpoint_passes d neg_inf c k f w e r v = ground arith
setpoint_passes d pos_inf c k f w e r v = ground arith
setpoint_passes d (fin (pos m)) c k f w e r v = ground arith
setpoint_passes d (fin (negsuc m)) c k f w e r v = ground arith

-- A limit that is a register is its own part above 0.0.
max-register : (m : Double) (w : ℕ) → m ≡ milli (w * 100) → max nought m ≡ m
unfolding max
max-register m w e = ground arith

-- A power that the envelope permits is within the limits that the driver took from the same poll.
RespectsLimits-WithinLimits :
    (c : Controller) (b : BatteryTelemetry) (available : Bool) (d : Driver) (p : Double)
    (charge discharge : ℕ)
    → Mirrors d b
    → b.limits_valid ≡ true
    → LimitsFrom d charge discharge
    → RespectsLimits (safety_input c b available) p
    → WithinLimits d p
unfolding safety_input
RespectsLimits-WithinLimits c b available d p charge discharge m v f r =
    let mc = m.max_charge v in
    let md = m.max_discharge v in
    let ec = max-register b.max_charge_kw charge (sym mc ∙ f.charge_limit) in
    let ed = max-register b.max_discharge_kw discharge (sym md ∙ f.discharge_limit) in
    record {
      charge = ap (λ x. le (neg x) p) (mc ∙ sym ec) ∙ r.bms_charge;
      discharge = ap (λ x. le p x) (md ∙ sym ed) ∙ r.bms_discharge;
      no_charge = λ e. r.no_charge (rw (m.flags v) at e);
      no_discharge = λ e. r.no_discharge (rw (m.flags v) at e);
    }

-- A command that the guard lets through reaches the client.
write_command-reaches :
    {S : Type 0} (client : ModbusClient S) (d : Driver) (snapshot : ControllerSnapshot) (s : S)
    → snapshot.battery.control_ready ≡ true
    → setpoint_refused d snapshot.command.applied_power_kw ≡ false
    → let p = snapshot.command.applied_power_kw in
      let w = client.write_holding pcs_power_command (encode_signed p 10) s in
      ((write_command client d snapshot s).1 ≡ w.1)
      × ((write_command client d snapshot s).0.command.applied_power_kw
          ≡ (if w.0 then p else nought))
unfolding write_command write_power_setpoint_kw
write_command-reaches client d snapshot s h k = ground arith

-- The limits do not depend on the connection.
assess_respects :
    (c : Controller) (b : BatteryTelemetry) (connected ok : Bool)
    → IsNumber c.requested_power_kw
    → RespectsLimits (safety_input c b true) (assess c b connected ok).command.applied_power_kw
unfolding safety_input assess
assess_respects c b connected ok number =
    let r = apply-RespectsLimits (safety_input c b (connected && ok)) number in
    record {
      bms_charge = r.bms_charge;
      bms_discharge = r.bms_discharge;
      configured_charge = r.configured_charge;
      configured_discharge = r.configured_discharge;
      site_headroom = r.site_headroom;
      no_charge = r.no_charge;
      no_discharge = r.no_discharge;
    }

-- With the approval, telemetry that is ready for control and valid limits, a tick writes a power to
-- the command register that respects every limit of the safety envelope; the driver's own check
-- never refuses it; as the PCS reads the register, the power is within the BMS limits of this poll
-- exactly; and the tick reports it as applied if the write is confirmed, and 0.0 if it is not.
pub tick_writes :
    {S : Type 0} (client : ModbusClient S) (c : Controller) (d : Driver) (now : ℕ) (s : S)
    → IsNumber c.requested_power_kw
    → HasWords (read_all client s).0
    → writes_enabled d.approval ≡ true
    → (poll client d s).0.control_ready ≡ true
    → (poll client d s).0.limits_valid ≡ true
    → (p : Double) × (t : S) × RespectsLimits (safety_input c (poll client d s).0 true) p
      × WithinLimits (poll client d s).1 (decode_signed (encode_signed p 10) 10)
      × (let w = client.write_holding pcs_power_command (encode_signed p 10) t in
          ((tick client c d now s).3 ≡ w.1)
          × ((tick client c d now s).0.command.applied_power_kw ≡ (if w.0 then p else nought)))
unfolding poll assess
tick_writes client c d now s number words approved controllable valid =
    let r = (read_all client s).0 in
    let b = (digest d r).0 in
    let d' = (digest d r).1 in
    let s1 = (read_all client s).1 in
    let connected = is_connected c.last_command_at c.config.ems_timeout now in
    let (ok, last, s2) = beat client c d' now s1 in
    let m = digest-Mirrors d r in
    let (charge, discharge, _, _, limits) = digest-LimitsFrom d r words valid in
    let respects = assess_respects c b connected ok number in
    let p = (assess c b connected ok).command.applied_power_kw in
    let within =
      RespectsLimits-WithinLimits c b true d' p charge discharge m valid limits respects in
    let accepted =
      setpoint_passes d' p charge discharge limits within (rw (digest-approval d r) approved)
        (m.control_ready ∙ controllable) (m.limits_valid ∙ valid) in
    let reached =
      write_command-reaches client d' (assess c b connected ok) s2 controllable accepted in
    (
      p,
      s2,
      respects,
      setpoint_written d' p charge discharge limits accepted,
      rw (open_tick client c d now s approved) reached,
    )

-- No command has arrived, or the last one is older than the timeout.
abbrev pub IsStale : Controller → ℕ → Type 0
IsStale c now = (at : ℕ) → c.last_command_at ≡ some at → c.config.ems_timeout < now - at

stale_disconnected :
    (last : Option ℕ) (timeout now : ℕ)
    → ((at : ℕ) → last ≡ some at → timeout < now - at)
    → is_connected last timeout now ≡ false
unfolding is_connected
stale_disconnected none timeout now h = refl
stale_disconnected (some at) timeout now h = ground (arith, h at refl)

encode-nought : encode_signed nought 10 ≡ 0
unfolding encode_signed
encode-nought = refl

write_command-nought :
    {S : Type 0} (client : ModbusClient S) (d : Driver) (snapshot : ControllerSnapshot) (s : S)
    → snapshot.command.applied_power_kw ≡ nought
    → ((write_command client d snapshot s).0.command.applied_power_kw ≡ nought)
      × (((write_command client d snapshot s).1 ≡ s)
          ⊎ ((write_command client d snapshot s).1
              ≡ (client.write_holding pcs_power_command 0 s).1))
unfolding write_command write_power_setpoint_kw
write_command-nought client d snapshot s h =
    rw (h, encode-nought) (ground (arith, encode-nought, h))

assess_stale :
    (c : Controller) (b : BatteryTelemetry) (ok : Bool)
    → (assess c b false ok).command.applied_power_kw ≡ nought
unfolding assess apply
assess_stale c b ok = refl

-- Without a fresh command a tick applies 0.0: all that it writes after its heartbeat, if anything,
-- is 0 in the command register.
pub tick_stale :
    {S : Type 0} (client : ModbusClient S) (c : Controller) (d : Driver) (now : ℕ) (s : S)
    → IsStale c now
    → let r = tick client c d now s in
      let before = (beat client c (poll client d s).1 now (poll client d s).2).2 in
      (r.0.command.applied_power_kw ≡ nought)
      × ((r.3 ≡ before) ⊎ (r.3 ≡ (client.write_holding pcs_power_command 0 before).1))
unfolding tick locked
tick_stale client c d now s h =
    let (b, d', s1) = poll client d s in
    let (ok, last, s2) = beat client c d' now s1 in
    let off = stale_disconnected c.last_command_at c.config.ems_timeout now h in
    elim (Bool-cases (writes_enabled d'.approval)) [
      | inl e ↦
          rw (e, off)
            (write_command-nought client d' (assess c b false ok) s2 (assess_stale c b ok))
      | inr e ↦ rw e (refl, inl refl)
    ]
