-- ===== src/Safety/Refusal.antt =====
-- When the safety envelope applies nothing, and what its reason says.
use gridex_edge_gateway.Prelude.{
  Bool, true, false, ◌&&◌, ◌≡◌, ◌≢◌, ◌⊎◌, inl, inr, arith, Bool-cases,
}
use gridex_edge_gateway.Double.{nought, lt, abs}
use gridex_edge_gateway.Types.{SafetyInput, is_good, safe}
use gridex_edge_gateway.Double.Order.{clamp_moved}
use gridex_edge_gateway.Safety.{
  lower_bound, upper_bound, apply, clamped_result, clamp_reason, tolerance_kw, not_ready_reason,
}

-- Control is available.
abbrev pub available : SafetyInput → Bool
available i =
    i.ems_connected
    && is_good i.battery.quality
    && i.battery.limits_valid
    && i.battery.control_ready

-- Where control is not available the applied power is 0.0, the reason is not `safe`, and the result
-- is marked as clamped exactly where the request was off zero by more than the tolerance.
pub apply_unavailable :
    (i : SafetyInput)
    → available i ≡ false
    → ((apply i).applied_power_kw ≡ nought)
      × ((apply i).clamped ≡ lt tolerance_kw (abs i.requested_power_kw))
      × ((apply i).reason ≢ safe)
unfolding apply not_ready_reason
apply_unavailable i h = ground arith

clamp_reason-ne-safe :
    (i : SafetyInput)
    → (lt i.requested_power_kw (lower_bound i) ≡ true)
      ⊎ (lt (upper_bound i) i.requested_power_kw ≡ true)
    → clamp_reason i true ≢ safe
unfolding clamp_reason
clamp_reason-ne-safe i h = ground arith

clamped_result-reason :
    (i : SafetyInput) → (clamped_result i).clamped ≡ true → (clamped_result i).reason ≢ safe
unfolding clamped_result
clamped_result-reason i h =
    rw h
      (clamp_reason-ne-safe i (clamp_moved i.requested_power_kw (lower_bound i) (upper_bound i) h))

apply-available : (i : SafetyInput) → available i ≡ true → apply i ≡ clamped_result i
unfolding apply
apply-available i h = ground arith

-- A result that changed the request by more than the tolerance never carries the reason `safe`.
pub clamped-reason : (i : SafetyInput) → (apply i).clamped ≡ true → (apply i).reason ≢ safe
clamped-reason i h = elim (Bool-cases (available i)) [
  | inr e ↦ (apply_unavailable i e).2
  | inl e ↦ rw (apply-available i e) (clamped_result-reason i (rw (apply-available i e) at h))
]
