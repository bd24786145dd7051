-- ===== src/Tests/Controller.antt =====
-- Ticks of the controller on the bench.
use gridex_edge_gateway.Prelude.{ℕ, true, false, ◌≡◌, ◌≢◌, refl, ◌+◌, ◌⊎◌, arith, if◌then◌else◌}
use gridex_edge_gateway.Controller.{tick, seconds, beat, safety_input}
use gridex_edge_gateway.Tests.Bench.{bench, driver, controller, runs}
use gridex_edge_gateway.Types.{ready, waiting_for_bms_limits, commissioning_locked}
use gridex_edge_gateway.Driver.Poll.{poll}
use gridex_edge_gateway.Controller.Command.{tick_writes, tick_stale}
use gridex_edge_gateway.Controller.Locked.{tick_locked}
use gridex_edge_gateway.Controller.States.{tick-ready, tick-state, Commanded}
use gridex_edge_gateway.Double.{nought, Double}
use gridex_edge_gateway.Driver.Poll.Mirror.{HasWords}
use gridex_edge_gateway.Safety.Envelope.{RespectsLimits}
use gridex_edge_gateway.Driver.Readings.{read_all}
use gridex_edge_gateway.Driver.Writes.Setpoint.{WithinLimits}
use gridex_edge_gateway.Driver.Registers.{pcs_power_command}
use gridex_edge_gateway.Driver.Codec.{decode_signed, encode_signed}

abbrev now : ℕ
now = seconds 105

awake_tick : (tick bench controller (driver true) now 0).0.state ≡ ready
unfolding runs
awake_tick = refl

-- 125.0 kW of the 200 kW that were asked for.
written_tick : (tick bench controller (driver true) now 0).3 ≡ 1250
unfolding runs
written_tick = refl

tick-ready_example :
    Commanded bench controller (driver true) now (tick bench controller (driver true) now 0)
tick-ready_example = tick-ready bench controller (driver true) now 0 awake_tick

tick-state_example : (tick bench controller (driver true) now 0).0.state ≢ waiting_for_bms_limits
tick-state_example = tick-state bench controller (driver true) now 0

bench_words : HasWords (read_all bench 0).0
unfolding runs
bench_words = record { charge = λ w e. ground arith; discharge = λ w e. ground arith }

tick_writes_example :
    (p : Double) × (t : ℕ) × RespectsLimits
      (safety_input controller (poll bench (driver true) 0).0 true)
      p
    × WithinLimits (poll bench (driver true) 0).1 (decode_signed (encode_signed p 10) 10)
    × (let w = bench.write_holding pcs_power_command (encode_signed p 10) t in
        ((tick bench controller (driver true) now 0).3 ≡ w.1)
        × ((tick bench controller (driver true) now 0).0.command.applied_power_kw
            ≡ (if w.0 then p else nought)))
unfolding runs
tick_writes_example =
    tick_writes bench controller (driver true) now 0 refl bench_words refl refl refl

tick_stale_example :
    let r = tick bench controller (driver true) (seconds 116) 0 in
    let before =
      (beat bench controller
        (poll bench (driver true) 0).1
        (seconds 116)
        (poll bench (driver true) 0).2).2 in
    (r.0.command.applied_power_kw ≡ nought)
    × ((r.3 ≡ before) ⊎ (r.3 ≡ (bench.write_holding pcs_power_command 0 before).1))
tick_stale_example =
    tick_stale bench controller (driver true) (seconds 116) 0 (λ at e. ground arith)

tick_locked_example :
    let r = tick bench controller (driver false) now 0 in
    (tick (record bench { write_holding = λ a v s. (false, s + 1) }) controller (driver false) now 0
      ≡ r)
    × (r.0.state ≡ commissioning_locked)
    × (r.0.command.applied_power_kw ≡ nought)
    × (r.3 ≡ (poll bench (driver false) 0).2)
unfolding runs
tick_locked_example =
    tick_locked bench (driver false) 0 controller now (λ a v s. (false, s + 1)) refl
