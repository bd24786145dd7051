-- ===== src/Controller/Locked.antt =====
-- The write path before the commissioning is approved.
use gridex_edge_gateway.Driver.Readings.{read_all, Readings, required}
use gridex_edge_gateway.Types.{BatteryTelemetry, commissioning_locked}
use gridex_edge_gateway.Prelude.{
  sym, ◌∙◌, not, ℕ, Bool, false, ◌≡◌, refl, arith, Option-cases, inl, inr,
}
use gridex_edge_gateway.Double.{nought}
use gridex_edge_gateway.Modbus.{ModbusClient, Io}
use gridex_edge_gateway.Driver.Poll.{Driver, poll, digest, writes_enabled}
use gridex_edge_gateway.Driver.Writes.{refresh_heartbeat}
use gridex_edge_gateway.Controller.{
  Controller, beat, tick, locked, ControllerSnapshot, assess, heartbeat_due, is_connected,
}

pub digest-approval : (d : Driver) (r : Readings) → (digest d r).1.approval ≡ d.approval
unfolding digest
digest-approval d r = elim (Option-cases (required r)) [
  | inl e ↦ rw (e, digest) refl
  | inr (q, e) ↦ rw (e, digest) refl
]

-- What a tick comes to when nothing may be written.
abbrev locked_tick :
    {S : Type 0}
    → Controller
    → ℕ
    → BatteryTelemetry × Driver × S
    → ControllerSnapshot × Controller × Driver × S
locked_tick c now (b, d', t) = (
  locked c (
      assess c b (is_connected c.last_command_at c.config.ems_timeout now)
        (not (heartbeat_due c.last_heartbeat_at c.config.heartbeat_refresh now))),
  c,
  d',
  t,
)

module _ {S : Type 0} (client : ModbusClient S) (d : Driver) (s : S) where
  -- A poll leaves the approval as it is.
  pub poll-approval : (poll client d s).1.approval ≡ d.approval
  unfolding poll
  poll-approval = digest-approval d _

  poll_closed :
      writes_enabled d.approval ≡ false → writes_enabled (poll client d s).1.approval ≡ false
  poll_closed closed = rw poll-approval closed

  -- A heartbeat that is due is refused, and one that is not due is not sent either.
  beat_closed :
      (c : Controller) (d' : Driver) (now : ℕ) (t : S)
      → writes_enabled d'.approval ≡ false
      → beat client c d' now t ≡ (
        not (heartbeat_due c.last_heartbeat_at c.config.heartbeat_refresh now),
        c.last_heartbeat_at,
        t,
      )
  unfolding beat refresh_heartbeat
  beat_closed c d' now t closed = ground arith

  tick_closed :
      (c : Controller) (now : ℕ)
      → writes_enabled d.approval ≡ false
      → tick client c d now s ≡ locked_tick c now (poll client d s)
  unfolding tick
  tick_closed c now closed = simp (
    beat_closed c (poll client d s).1 now (poll client d s).2 (poll_closed closed),
    poll_closed closed,
  )

-- Without the approval a tick calls no write at all: its outcome is the same for every function
-- that stands for the write call. It ends in the locked state, with 0.0 applied, and leaves the
-- connection as its reads left it.
pub tick_locked :
    {S : Type 0} (client : ModbusClient S) (d : Driver) (s : S) (c : Controller) (now : ℕ)
    (write : ℕ → ℕ → Io S Bool)
    → writes_enabled d.approval ≡ false
    → let r = tick client c d now s in
      (tick (record client { write_holding = write }) c d now s ≡ r)
      × (r.0.state ≡ commissioning_locked)
      × (r.0.command.applied_power_kw ≡ nought)
      × (r.3 ≡ (poll client d s).2)
unfolding poll read_all locked
tick_locked client d s c now write closed =
    let e = tick_closed client d s c now closed in
    (
      tick_closed (record client { write_holding = write }) d s c now closed ∙ sym e,
      rw e,
      rw e,
      rw e,
    )
