-- ===== src/Driver/Poll/Mirror.antt =====
-- What a poll tells: the telemetry that it returns and what the driver remembers of it.
use gridex_edge_gateway.Driver.Codec.{decode_signed}
use gridex_edge_gateway.Double.{max, nought, milli}
use gridex_edge_gateway.Prelude.{
  ◌≡◌, true, false, some, arith, inl, inr, Option-cases, ◌≢◌, refl, ◌<◌, ◌*◌,
}
use gridex_edge_gateway.Driver.Poll.{
  Driver, digest, ready_for_control, ℕ, limits_ok, decode_signed, none, max, after_poll,
  telemetry_of,
}
use gridex_edge_gateway.Driver.Readings.{Readings, Required, required}
use gridex_edge_gateway.Types.{BatteryTelemetry, good}
use gridex_edge_gateway.Prelude.Words.{IsU16}
use gridex_edge_gateway.Double.Order.{◌≼◌}
use gridex_edge_gateway.Driver.Writes.Setpoint.{LimitsFrom}

-- What the driver's own checks go by is what the telemetry says.
pub record Mirrors (d : Driver) (v : BatteryTelemetry) : Type 0 where
  pub control_ready : d.control_ready ≡ v.control_ready
  pub limits_valid : d.limits_valid ≡ v.limits_valid
  pub max_charge : v.limits_valid ≡ true → d.max_charge_kw ≡ v.max_charge_kw
  pub max_discharge : v.limits_valid ≡ true → d.max_discharge_kw ≡ v.max_discharge_kw
  pub flags : v.limits_valid ≡ true → d.bms_system_flags ≡ v.bms_system_flags
  pub good_means_valid : v.quality ≡ good → v.limits_valid ≡ true
  pub valid_means_good : v.limits_valid ≡ true → v.quality ≡ good
  pub ready_means_polled : v.control_ready ≡ true → d.telemetry_valid ≡ true

-- After every poll, failed or not, the driver's memory and the returned telemetry agree.
pub digest-Mirrors : (d : Driver) (r : Readings) → Mirrors (digest d r).1 (digest d r).0
unfolding digest
digest-Mirrors d r = elim (Option-cases (required r)) [
  | inl e ↦ rw (e, digest) (ground arith)
  | inr (q, e) ↦ rw (e, digest) (ground arith)
]

-- The readings by which the vendor's protocol permits a power command.
pub record Permits (r : Readings) : Type 0 where
  pub powered_on : r.pcs_power_on ≡ some 1
  pub grid_mode : r.pcs_grid_mode ≡ some 0
  pub on_grid : r.pcs_off_grid ≡ some false
  pub current_source : r.pcs_work_mode ≡ some 1
  pub no_pcs_fault : r.pcs_fault ≡ some false
  pub no_pcs_communication_fault : r.pcs_communication_fault ≡ some false
  pub no_bms_fault : r.bms_fault ≡ some false
  pub no_bms_communication_fault : r.bms_communication_fault ≡ some false

required-some :
    (r : Readings) {q : Required}
    → required r ≡ some q
    → (r.pcs_fault ≡ some q.pcs_fault)
      × (r.pcs_off_grid ≡ some q.pcs_off_grid)
      × (r.pcs_communication_fault ≡ some q.pcs_communication_fault)
      × (r.bms_fault ≡ some q.bms_fault)
      × (r.bms_communication_fault ≡ some q.bms_communication_fault)
      × (r.pcs_grid_mode ≡ some q.pcs_grid_mode)
      × (r.pcs_work_mode ≡ some q.pcs_work_mode)
      × (r.pcs_power_on ≡ some q.pcs_power_on)
unfolding required
required-some r e = ground arith

-- The telemetry is ready for control only where each reading that the protocol asks for was made
-- and permits it; and it is, where besides no other required reading failed.
pub digest-control_ready :
    (d : Driver) (r : Readings)
    → ((digest d r).0.control_ready ≡ true → Permits r)
      × (Permits r → required r ≢ none → (digest d r).0.control_ready ≡ true)
unfolding digest ready_for_control
digest-control_ready d r = elim (Option-cases (required r)) [
  | inl e ↦ rw (e, digest) (λ h. cc, λ p some_needed. absurd (some_needed refl))
  | inr (q, e) ↦
      let facts = required-some r e in
      rw (e, digest) (λ h. ground (arith, facts), λ p n. ground (arith, facts))
]

-- The registers of the BMS limits hold 16-bit words.
pub record HasWords (r : Readings) : Type 0 where
  pub charge : (w : ℕ) → r.max_charge ≡ some w → IsU16 w
  pub discharge : (w : ℕ) → r.max_discharge ≡ some w → IsU16 w

required-limits :
    (r : Readings) {q : Required}
    → required r ≡ some q
    → (r.max_charge ≡ some q.max_charge) × (r.max_discharge ≡ some q.max_discharge)
unfolding required
required-limits r e = ground arith

failed_poll :
    (d : Driver) (r : Readings) → required r ≡ none → (digest d r).0.limits_valid ≡ true → ⊥
unfolding digest
failed_poll d r e h = cc (rw (e, digest) at h)

-- A register that is not negative at the scale 10.
decode-nonneg :
    (w : ℕ)
    → IsU16 w
    → nought ≼ decode_signed w 10
    → (w < 32768) × (max nought (decode_signed w 10) ≡ milli (w * 100))
unfolding decode_signed max
decode-nonneg w h k = ground arith

limits_of :
    (d : Driver) (r : Readings) (q : Required)
    → IsU16 q.max_charge
    → IsU16 q.max_discharge
    → limits_ok q ≡ true
    → LimitsFrom (after_poll d q (telemetry_of d.approval r q)) q.max_charge q.max_discharge
unfolding limits_ok after_poll telemetry_of
limits_of d r q hc hk v =
    let (c, charge) = decode-nonneg q.max_charge hc (ground arith) in
    let (k, discharge) = decode-nonneg q.max_discharge hk (ground arith) in
    record {
      charge_word = c;
      discharge_word = k;
      charge_limit = charge;
      discharge_limit = discharge;
    }

polled_valid :
    (d : Driver) (r : Readings) {q : Required}
    → required r ≡ some q
    → (digest d r).0.limits_valid ≡ true
    → limits_ok q ≡ true
unfolding digest
polled_valid d r e h = rw (e, digest) at h

-- Where a poll calls the limits valid, the driver remembers the two registers as they were read.
pub digest-LimitsFrom :
    (d : Driver) (r : Readings)
    → HasWords r
    → (digest d r).0.limits_valid ≡ true
    → (c : ℕ) × (k : ℕ) × (r.max_charge ≡ some c)
      × (r.max_discharge ≡ some k)
      × LimitsFrom (digest d r).1 c k
unfolding digest
digest-LimitsFrom d r words h = elim (Option-cases (required r)) [
  | inl e ↦ absurd (failed_poll d r e h)
  | inr (q, e) ↦
      let (hc, hk) = required-limits r e in
      let limits =
        limits_of d r q (words.charge _ hc) (words.discharge _ hk) (polled_valid d r e h) in
      (q.max_charge, q.max_discharge, hc, hk, rw (e, digest) limits)
]
