-- ===== src/Mbus/Cloud.antt =====
-- `MqttTelemetryService` of node-esp32-evb/: telemetry from a node to a broker, and the configuration that
-- switches it off. The library of the broker (PubSubClient) and the text of a tenth are parameters.
use gridex_edge_gateway.Prelude.{
  ℕ, ◌≡◌, refl, ◌+◌, ◌%◌, ◌^◌, Bool, true, false, not, ◌&&◌, ◌||◌, List, [], ◌∷◌, ◌++◌,
  if◌then◌else◌, ◌==◌, leb, ap,
}
use gridex_edge_gateway.Prelude.Int.{ℤ}
use gridex_edge_gateway.Prelude.Text.{codes, decimal}
use gridex_edge_gateway.Modbus.{Io}
use gridex_edge_gateway.Mqtt.Publish.{is_empty}
use gridex_edge_gateway.Mbus.Board.{DriverSample}
use gridex_edge_gateway.Mbus.Provisioning.{Preferences}

pub record MqttTelemetryConfig : Type 0 where
  pub enabled : Bool
  pub host : List ℕ
  pub port : ℕ
  pub realm : List ℕ
  pub service_user : List ℕ
  pub service_secret : List ℕ
  pub client_id : List ℕ
  pub asset_id : List ℕ
  pub ca_certificate : List ℕ

pub record MqttTelemetryService : Type 0 where
  pub config : MqttTelemetryConfig
  pub next_reconnect_ms : ℕ
  pub active : Bool

-- `PubSubClient`, `WiFiClientSecure` and `ETH`, over a state `S`.
pub record PubSubClient (S : Type 0) : Type 0 where
  pub link_up : S → Bool
  pub connected : S → Bool
  -- The certificate, the server, the buffer and the time limits.
  pub configure : MqttTelemetryConfig → S → S
  -- The client id, the user, the secret and the topic of the will.
  pub connect : List ℕ → List ℕ → List ℕ → List ℕ → Io S Bool
  pub publish : List ℕ → List ℕ → Io S Bool
  pub serve : S → S

abbrev pub new_service : MqttTelemetryConfig → MqttTelemetryService
new_service config = record { config = config; next_reconnect_ms = 0; active = false }

-- What is kept in flash, but never in use: the configuration is not enabled.
unfoldable pub load_cloud_config : {S : Type 0} → Preferences S → S → MqttTelemetryConfig × S
load_cloud_config store s =
    let (opened, s1) = store.begin (codes "gridex-cloud") true s in
    (
      record {
        enabled = false;
        host = store.get_string (codes "mqtt_host") [] s1;
        port = store.get_number (codes "mqtt_port") 8883 s1;
        realm = store.get_string (codes "realm") (codes "master") s1;
        service_user = store.get_string (codes "mqtt_user") [] s1;
        service_secret = store.get_string (codes "mqtt_secret") [] s1;
        client_id = store.get_string (codes "client_id") [] s1;
        asset_id = store.get_string (codes "asset_id") [] s1;
        ca_certificate = store.get_string (codes "ca_cert") [] s1;
      },
      store.close s1,
    )

unfoldable pub topic : List ℕ → MqttTelemetryConfig → List ℕ
topic attribute c =
    c.realm
    ++ (codes "/"
        ++ (c.client_id
            ++ (codes "/writeattributevalue/" ++ (attribute ++ (codes "/" ++ c.asset_id)))))

unfoldable pub has_colon : List ℕ → Bool
has_colon [] = false
has_colon (c ∷ text) = c == 58 || has_colon text

unfoldable pub username : MqttTelemetryConfig → List ℕ
unfolding has_colon
username c =
    if has_colon c.service_user then c.service_user else c.realm ++ (codes ":" ++ c.service_user)

module _ {S : Type 0} (mqtt : PubSubClient S) (tenths : ℤ → List ℕ) where
  unfoldable pub begin : MqttTelemetryService × S → Bool × (MqttTelemetryService × S)
  begin (t, s) =
      let c = t.config in
      if not c.enabled
        || is_empty c.host
        || is_empty c.service_user
        || is_empty c.service_secret
        || is_empty c.client_id
        || is_empty c.asset_id
        || is_empty c.ca_certificate
      then (false, (t, s))
      else (true, (record t { active = true }, mqtt.configure c s))

  unfoldable pub publish_value : MqttTelemetryConfig → List ℕ → List ℕ → Io S Bool
  unfolding topic
  publish_value c attribute value = mqtt.publish (topic attribute c) value

  unfoldable pub connect_mqtt : MqttTelemetryConfig → Io S Bool
  unfolding topic username publish_value
  connect_mqtt c s =
      let (ok, s1) =
        mqtt.connect c.client_id (username c) c.service_secret (topic (codes "online") c) s in
      let (told, s2) = publish_value c (codes "online") (codes "true") s1 in
      if not (mqtt.link_up s) then (false, s) else if ok then (true, s2) else (false, s1)

  -- The clock is read once.
  unfoldable pub loop : ℕ → MqttTelemetryService × S → MqttTelemetryService × S
  unfolding connect_mqtt
  loop now (t, s) =
      if not t.active
      then (t, s)
      else if not (mqtt.link_up s)
      then (t, s)
      else if mqtt.connected s
      then (t, mqtt.serve s)
      else if leb t.next_reconnect_ms now
      then (record t { next_reconnect_ms = (now + 5000) % 2 ^ 32 }, (connect_mqtt t.config s).1)
      else (t, s)

  -- The attributes of a sample, in their order.
  abbrev pub attributes : DriverSample → ℕ → List (List ℕ × List ℕ)
  attributes sample heartbeat =
      (codes "actualPowerKw", tenths sample.actual_power_kw_x10)
      ∷ (codes "energyWh", decimal sample.energy_wh)
      ∷ (codes "deviceState", decimal sample.state)
      ∷ (codes "alarmBits", decimal sample.alarms)
      ∷ (codes "quality", decimal sample.quality)
      ∷ (codes "heartbeat", decimal heartbeat)
      ∷ []

  unfoldable pub publish_values : MqttTelemetryConfig → List (List ℕ × List ℕ) → S → S
  unfolding publish_value
  publish_values c [] s = s
  publish_values c ((attribute, value) ∷ rest) s =
      publish_values c rest (publish_value c attribute value s).1

  unfoldable pub publish : DriverSample → ℕ → MqttTelemetryService × S → S
  unfolding publish_values decimal
  publish sample heartbeat (t, s) =
      if not t.active || not (mqtt.connected s)
      then s
      else publish_values t.config (attributes sample heartbeat) s

  unfoldable pub is_connected : MqttTelemetryService × S → Bool
  is_connected (t, s) = t.active && mqtt.connected s

-- What the node does with the service.
pub data CloudCall : Type 0 where
  begin_call : CloudCall
  loop_call : ℕ → CloudCall
  publish_call : DriverSample → ℕ → CloudCall

module _ {S : Type 0} (mqtt : PubSubClient S) (tenths : ℤ → List ℕ) where
  unfoldable pub run_cloud : List CloudCall → MqttTelemetryService × S → MqttTelemetryService × S
  unfolding begin loop publish
  run_cloud [] x = x
  run_cloud (begin_call ∷ calls) x = run_cloud calls (begin mqtt tenths x).1
  run_cloud (loop_call now ∷ calls) x = run_cloud calls (loop mqtt tenths now x)
  run_cloud (publish_call sample heartbeat ∷ calls) x =
      run_cloud calls (x.0, publish mqtt tenths sample heartbeat x)

  idle_run :
      (calls : List CloudCall) (t : MqttTelemetryService) (s : S)
      → t.config.enabled ≡ false
      → t.active ≡ false
      → run_cloud calls (t, s) ≡ (t, s)
  unfolding run_cloud begin loop publish
  idle_run [] t s off idle = refl
  idle_run (begin_call ∷ calls) t s off idle = simp off (idle_run calls t s off idle)
  idle_run (loop_call now ∷ calls) t s off idle = simp idle (idle_run calls t s off idle)
  idle_run (publish_call sample heartbeat ∷ calls) t s off idle =
      simp idle (idle_run calls t s off idle)

  pub loop_idle :
      (now : ℕ) (t : MqttTelemetryService) (s : S)
      → t.config.enabled ≡ false
      → t.active ≡ false
      → loop mqtt tenths now (t, s) ≡ (t, s)
  unfolding run_cloud
  loop_idle now t s off idle = idle_run (loop_call now ∷ []) t s off idle

  pub publish_idle :
      (sample : DriverSample) (heartbeat : ℕ) (t : MqttTelemetryService) (s : S)
      → t.config.enabled ≡ false
      → t.active ≡ false
      → publish mqtt tenths sample heartbeat (t, s) ≡ s
  unfolding run_cloud
  publish_idle sample heartbeat t s off idle =
      ap (λ x. x.1) (idle_run (publish_call sample heartbeat ∷ []) t s off idle)
