-- ===== src/Tests/Safety.antt =====
-- The safety envelope on a concrete input.
use gridex_edge_gateway.Prelude.{true, false, ◌≡◌, ◌≢◌, refl, none, some}
use gridex_edge_gateway.Double.{milli, lt, abs, nought, max, clamp, sub, neg}
use gridex_edge_gateway.Types.{
  SafetyInput, BatteryTelemetry, default_telemetry, good, no_site_limit, safe,
}
use gridex_edge_gateway.Safety.{apply, tolerance_kw, capped, headroom_capped}
use gridex_edge_gateway.Safety.Envelope.{
  RespectsLimits, apply-RespectsLimits, apply_nearest, bounds-RespectsLimits,
}
use gridex_edge_gateway.Safety.Refusal.{apply_unavailable}
use gridex_edge_gateway.Tests.Bench.{runs}
use gridex_edge_gateway.Double.Order.{◌≼◌}

abbrev battery : BatteryTelemetry
battery = record default_telemetry {
  max_charge_kw = milli 100_000;
  max_discharge_kw = milli 125_000;
  quality = good;
  limits_valid = true;
  control_ready = true;
}

-- 200 kW of discharge are requested, and a software fuse allows 80 kW.
abbrev request : SafetyInput
request = record {
  requested_power_kw = milli 200_000;
  battery = battery;
  site = no_site_limit;
  configured_limit = record { max_charge_kw = none; max_discharge_kw = some (milli 80_000) };
  ems_connected = true;
}

fused : (apply request).applied_power_kw ≡ milli 80_000
unfolding runs capped headroom_capped max clamp gridex_edge_gateway.Double.min
fused = refl

apply-RespectsLimits_example : RespectsLimits request (apply request).applied_power_kw
apply-RespectsLimits_example = apply-RespectsLimits request refl

apply_nearest_example :
    (milli 80_000 ≼ milli 200_000 → milli 80_000 ≼ (apply request).applied_power_kw)
    × (milli 200_000 ≼ milli 80_000 → (apply request).applied_power_kw ≼ milli 80_000)
unfolding runs capped headroom_capped max gridex_edge_gateway.Double.min neg
apply_nearest_example =
    apply_nearest request (milli 80_000) refl refl refl refl refl
      (bounds-RespectsLimits request (milli 80_000) refl refl)

abbrev offline : SafetyInput
offline = record request { ems_connected = false }

apply_unavailable_example :
    ((apply offline).applied_power_kw ≡ nought)
    × ((apply offline).clamped ≡ lt tolerance_kw (abs (milli 200_000)))
    × ((apply offline).reason ≢ safe)
apply_unavailable_example = apply_unavailable offline refl
