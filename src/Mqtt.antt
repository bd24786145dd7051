-- ===== src/Mqtt.antt =====
-- `MqttHealthPublisher` of base-rockpie/: the texts that it publishes, their topics, and when it publishes.
-- libmosquitto stays a parameter, and so do the texts of a time and of a `double`.
pub mod Number
pub mod Json
pub mod Publish
pub mod Topic
pub mod Connect
use gridex_edge_gateway.Prelude.{
  ℕ, List, if◌then◌else◌, ◌∷◌, Bool, Option, ◌++◌, ◌==◌, [], false, length, some, true, ltb, ◌||◌,
  ◌&&◌, get_or, not, ◌/◌, none, ◌%◌,
}
use gridex_edge_gateway.Prelude.Text.{codes, decimal, printed, json_bool, hex_digits}
use gridex_edge_gateway.Double.{Double, is_finite, lt, fin, milli}
use gridex_edge_gateway.Prelude.Int.{negsuc}
use gridex_edge_gateway.Telemetry.{
  NodePollStatus, unknown, online, transport_failure, identity_failure, telemetry_failure,
  MbusNodeTelemetry,
}

-- One character of a JSON string, b'"' and b'\\' and the control characters escaped.
unfoldable pub escaped : ℕ → List ℕ
escaped c =
    if c == 34
    then codes "\\\""
    else if c == 92
    then codes "\\\\"
    else if c == 10
    then codes "\\n"
    else if c == 13
    then codes "\\r"
    else if c == 9
    then codes "\\t"
    else if ltb c 0x20
    then codes "\\u00" ++ (get_or hex_digits (c / 16) 0 ∷ get_or hex_digits (c % 16) 0 ∷ [])
    else c ∷ []

unfoldable pub all_escaped : List ℕ → List ℕ
unfolding escaped
all_escaped [] = []
all_escaped (c ∷ value) = escaped c ++ all_escaped value

unfoldable pub json_string : List ℕ → List ℕ
unfolding all_escaped
json_string value = 34 ∷ (all_escaped value ++ (34 ∷ []))

-- b'/' and b'+' and b'#'.
unfoldable pub has_special : List ℕ → Bool
has_special [] = false
has_special (c ∷ value) = let rest = has_special value in c == 47 || c == 43 || c == 35 || rest

unfoldable pub topic_part : List ℕ → List ℕ
unfolding has_special
topic_part value = if length value == 0 || has_special value then [] else value

pub record EdgeHealthMessage : Type 0 where
  pub site_id : List ℕ
  pub gateway_id : List ℕ
  pub state : List ℕ
  pub pcs_heartbeat_ok : Bool
  pub control_ready : Bool
  pub safe_mode : Bool
  pub northbound_ready : Bool
  pub node_online_count : ℕ
  pub node_total : ℕ
  pub cpu_temperature_c : Option Double

pub record SystemTelemetrySample : Type 0 where
  pub sensor_id : List ℕ
  pub unit : List ℕ
  pub value : Double

-- The number of the enumeration.
unfoldable pub poll_status_word : NodePollStatus → ℕ
poll_status_word unknown = 0
poll_status_word online = 1
poll_status_word transport_failure = 2
poll_status_word identity_failure = 3
poll_status_word telemetry_failure = 4

-- The texts of a time, in nanoseconds since the epoch, and of a double.
module _ (timestamp : ℕ → List ℕ) (show_double : Double → List ℕ) where
  -- -40 to 150 degrees.
  unfoldable pub temperature_text : Option Double → List ℕ
  temperature_text none = codes "null"
  temperature_text (some t) =
      if is_finite t && not (lt t (fin (negsuc 39999))) && not (lt (milli 150000) t)
      then show_double t
      else codes "null"

  unfoldable pub health_payload : ℕ → EdgeHealthMessage → List ℕ
  unfolding json_string temperature_text decimal
  health_payload now message = printed (
      (codes "{\"schemaVersion\":1,\"observedAt\":", json_string (timestamp now))
      ∷ (codes ",\"gatewayId\":", json_string message.gateway_id)
      ∷ (codes ",\"state\":", json_string message.state)
      ∷ (codes ",\"pcsHeartbeatOk\":", json_bool message.pcs_heartbeat_ok)
      ∷ (codes ",\"controlReady\":", json_bool message.control_ready)
      ∷ (codes ",\"safeMode\":", json_bool message.safe_mode)
      ∷ (codes ",\"northboundReady\":", json_bool message.northbound_ready)
      ∷ (codes ",\"nodeOnlineCount\":", decimal message.node_online_count)
      ∷ (codes ",\"nodeTotal\":", decimal message.node_total)
      ∷ (codes ",\"cpuTemperatureC\":", temperature_text message.cpu_temperature_c)
      ∷ [])

  unfoldable pub node_telemetry_payload : ℕ → ℕ → MbusNodeTelemetry → List ℕ
  unfolding json_string decimal poll_status_word
  node_telemetry_payload now slot sample = printed (
      (codes "{\"schemaVersion\":1,\"observedAt\":", json_string (timestamp now))
      ∷ (codes ",\"slot\":", decimal slot)
      ∷ (codes ",\"nodeAddress\":", decimal sample.address)
      ∷ (codes ",\"nodeType\":", decimal sample.node_type)
      ∷ (codes ",\"nodeState\":", decimal sample.node_state)
      ∷ (codes ",\"driverId\":", decimal sample.driver_id)
      ∷ (codes ",\"online\":", json_bool sample.online)
      ∷ (
        codes ",\"lastSuccessfulContactAt\":",
        (if sample.last_successful_contact == 0
            then codes "null"
            else json_string (timestamp sample.last_successful_contact)),
      )
      ∷ (codes ",\"quality\":", decimal sample.quality)
      ∷ (codes ",\"actualPowerKw\":", show_double sample.actual_power_kw)
      ∷ (codes ",\"energyWh\":", decimal sample.energy_wh)
      ∷ (codes ",\"deviceState\":", decimal sample.device_state)
      ∷ (codes ",\"alarmBits\":", decimal sample.alarm_bits)
      ∷ (codes ",\"heartbeat\":", decimal sample.heartbeat)
      ∷ (codes ",\"pollStatus\":", decimal (poll_status_word sample.poll_status))
      ∷ (codes ",\"consecutiveFailures\":", decimal sample.consecutive_failures)
      ∷ (codes ",\"ethernetStatus\":", decimal sample.ethernet_status)
      ∷ (codes ",\"modbusTcpStatus\":", decimal sample.modbus_tcp_status)
      ∷ (codes ",\"driverReady\":", decimal sample.driver_ready)
      ∷ (codes ",\"deviceBusStatus\":", decimal sample.device_bus_status)
      ∷ (codes ",\"watchdogStatus\":", decimal sample.watchdog_status)
      ∷ (codes ",\"recoveryCount\":", decimal sample.recovery_count)
      ∷ (codes ",\"lastError\":", decimal sample.last_error)
      ∷ [])

  unfoldable pub samples_text : Bool → List SystemTelemetrySample → List ℕ
  unfolding json_string
  samples_text first [] = codes "]}"
  samples_text first (sample ∷ samples) =
      (if first then [] else codes ",")
      ++ (codes "{\"sensorId\":"
          ++ (json_string sample.sensor_id
              ++ (codes ",\"value\":"
                  ++ (show_double sample.value
                      ++ (codes ",\"unit\":"
                          ++ (json_string sample.unit
                              ++ (codes "}" ++ samples_text false samples)))))))

  unfoldable pub system_telemetry_payload :
      ℕ → List ℕ → List ℕ → ℕ → List SystemTelemetrySample → List ℕ
  unfolding json_string decimal samples_text
  system_telemetry_payload now gateway_id boot_id sequence samples =
      codes "{\"schemaVersion\":1,\"observedAt\":"
      ++ (json_string (timestamp now)
          ++ (codes ",\"gatewayId\":"
              ++ (json_string gateway_id
                  ++ (codes ",\"bootId\":"
                      ++ (json_string boot_id
                          ++ (codes ",\"sequence\":"
                              ++ (decimal sequence
                                  ++ (codes ",\"samples\":[" ++ samples_text true samples))))))))
