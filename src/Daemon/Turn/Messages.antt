-- ===== src/Daemon/Turn/Messages.antt =====
-- The messages of the reports of a turn.
use gridex_edge_gateway.Prelude.{
  ℕ, suc, ◌≡◌, refl, ◌+◌, ◌%◌, ◌^◌, Bool, true, false, ◌&&◌, leb, List, [], ◌∷◌, ◌∙◌, if-both,
  if◌then◌else◌, Bool-cases, inl, inr,
}
use gridex_edge_gateway.Double.{Double}
use gridex_edge_gateway.Telemetry.{MbusNodeTelemetry}
use gridex_edge_gateway.Controller.{ControllerSnapshot}
use gridex_edge_gateway.Mqtt.{topic_part, SystemTelemetrySample}
use gridex_edge_gateway.Mqtt.Publish.{
  Publish, MqttHealthPublisher, connected, is_empty, publish_health, publish_node_telemetry,
  publish_system_telemetry,
}
use gridex_edge_gateway.Journal.{FileSystem}
use gridex_edge_gateway.Daemon.Turn.{
  Reports, TurnInput, ReportConfig, report_health, report_telemetry, report_system, report_journal,
  publish_samples, report,
}

-- A publisher that can publish.
abbrev pub CanPublish : ReportConfig → MqttHealthPublisher → Type 0
CanPublish config publisher =
    (connected publisher ≡ true)
    × (is_empty (topic_part config.site_id) ≡ false)
    × (is_empty (topic_part config.gateway_id) ≡ false)

-- A broker that counts the retained messages that it was given.
module _ {F M : Type 0} (publish_message : Publish M) (count : M → ℕ)
    (counts : (topic payload : List ℕ) (retain : Bool) (m : M)
      → count (publish_message topic payload retain m).1
        ≡ (if retain then suc (count m) else count m))
    (timestamp : ℕ → List ℕ) (show_double : Double → List ℕ) (fs : FileSystem F)
    (config : ReportConfig) where
  -- A message that is not retained, sent under a condition.
  guarded :
      (refused : Bool) (topic payload : List ℕ) (m : M)
      → count (if refused then (false, m) else publish_message topic payload false m).1 ≡ count m
  guarded true topic payload m = refl
  guarded false topic payload m = counts topic payload false m

  publish_node_telemetry-count :
      (now slot : ℕ) (sample : MbusNodeTelemetry) (publisher : MqttHealthPublisher) (m : M)
      → count
          (publish_node_telemetry publish_message timestamp show_double now config.site_id
            config.gateway_id slot sample publisher m).1
        ≡ count m
  unfolding publish_node_telemetry
  publish_node_telemetry-count now slot sample publisher m = guarded _ _ _ m

  publish_samples-count :
      (now slot : ℕ) (samples : List MbusNodeTelemetry) (publisher : MqttHealthPublisher) (m : M)
      → count (
          publish_samples publish_message timestamp show_double fs config now slot samples publisher
            m)
        ≡ count m
  unfolding publish_samples
  publish_samples-count now slot [] publisher m = refl
  publish_samples-count now slot (sample ∷ samples) publisher m =
      let m' =
        (publish_node_telemetry publish_message timestamp show_double now config.site_id
          config.gateway_id (slot + 1) sample publisher m).1 in
      publish_samples-count now (suc slot) samples publisher m'
      ∙ publish_node_telemetry-count now (slot + 1) sample publisher m

  publish_system_telemetry-count :
      (now sequence : ℕ) (samples : List SystemTelemetrySample) (publisher : MqttHealthPublisher)
      (m : M)
      → count
          (publish_system_telemetry publish_message timestamp show_double now config.site_id
            config.gateway_id config.boot_id sequence samples publisher m).1
        ≡ count m
  unfolding publish_system_telemetry
  publish_system_telemetry-count now sequence samples publisher m = guarded _ _ _ m

  -- Later reports of a turn: the deadline, the publisher and the count stay.
  abbrev IsLater : Reports F M → Reports F M → Type 0
  IsLater r r' =
      (r'.next_health ≡ r.next_health)
      × (r'.publisher ≡ r.publisher)
      × (count r'.broker ≡ count r.broker)

  report_telemetry-IsLater :
      (i : TurnInput) (r : Reports F M)
      → IsLater r (report_telemetry publish_message timestamp show_double fs config i r)
  unfolding report_telemetry
  report_telemetry-IsLater i r =
      if-both (IsLater r) (leb r.next_telemetry i.now) _ _
        (λ _. (refl, refl, publish_samples-count i.system_now 0 i.samples r.publisher r.broker))
        (λ _. (refl, refl, refl))

  report_system-IsLater :
      (i : TurnInput) (r : Reports F M)
      → IsLater r (report_system publish_message timestamp show_double fs config i r)
  unfolding report_system
  report_system-IsLater i r =
      if-both (IsLater r)
        (config.system_enabled && connected r.publisher && leb r.next_system i.now) _ _
        (λ _. (
          refl,
          refl,
          publish_system_telemetry-count i.system_now ((r.sequence + 1) % 2 ^ 64) i.readings
              r.publisher r.broker,
        ))
        (λ _. (refl, refl, refl))

  report_journal-IsLater :
      (i : TurnInput) (r : Reports F M)
      → IsLater r (report_journal publish_message timestamp show_double fs config i r)
  unfolding report_journal
  report_journal-IsLater i r =
      if-both (IsLater r) (leb r.next_journal i.now) _ _ (λ _. (refl, refl, refl))
        (λ _. (refl, refl, refl))

  in_turn : (a b c : Reports F M) → IsLater a b → IsLater b c → IsLater a c
  in_turn a b c (p, q, l) (p', q', l') = (p' ∙ p, q' ∙ q, l' ∙ l)

  -- A report of the health, if it is due, and the next deadline.
  abbrev pub IsReported : TurnInput → Reports F M → Reports F M → Type 0
  IsReported i r r' =
      (r'.next_health
        ≡ (if leb r.next_health i.now then i.now + config.health_interval else r.next_health))
      × (r'.publisher ≡ r.publisher)
      × (count r'.broker
          ≡ (if leb r.next_health i.now then suc (count r.broker) else count r.broker))

  report_health-IsReported :
      (i : TurnInput) (snapshot : ControllerSnapshot) (r : Reports F M)
      → CanPublish config r.publisher
      → IsReported i r (report_health publish_message timestamp show_double fs config i snapshot r)
  unfolding report_health publish_health
  report_health-IsReported i snapshot r (up, site, gateway) =
      elim (Bool-cases (leb r.next_health i.now)) [
        | inl due ↦ rw (due, up, site, gateway) (refl, refl, counts _ _ true r.broker)
        | inr early ↦ rw early (refl, refl, refl)
      ]

  after_health :
      (i : TurnInput) (snapshot : ControllerSnapshot) (r : Reports F M)
      → IsLater
          (report_health publish_message timestamp show_double fs config i snapshot r)
          (report publish_message timestamp show_double fs config i snapshot r)
  unfolding report
  after_health i snapshot r =
      let r1 = report_health publish_message timestamp show_double fs config i snapshot r in
      let r2 = report_telemetry publish_message timestamp show_double fs config i r1 in
      let r3 = report_system publish_message timestamp show_double fs config i r2 in
      let r4 = report_journal publish_message timestamp show_double fs config i r3 in
      in_turn r1 r3 r4
        (in_turn r1 r2 r3 (report_telemetry-IsLater i r1) (report_system-IsLater i r2))
        (report_journal-IsLater i r3)

  pub report-IsReported :
      (i : TurnInput) (snapshot : ControllerSnapshot) (r : Reports F M)
      → CanPublish config r.publisher
      → IsReported i r (report publish_message timestamp show_double fs config i snapshot r)
  report-IsReported i snapshot r can =
      let (next, same, counted) = report_health-IsReported i snapshot r can in
      let (next', same', counted') = after_health i snapshot r in
      (next' ∙ next, same' ∙ same, counted' ∙ counted)
