-- ===== src/Daemon/Environment.antt =====
-- What `main` of base-rockpie/src/main.cpp reads from the environment. `std::stod` is a parameter.
pub mod Endpoints
pub mod Written
pub mod Approval
use gridex_edge_gateway.Prelude.{
  ℕ, suc, ◌+◌, ◌-◌, ◌*◌, ◌%◌, ◌^◌, Bool, true, false, not, ◌||◌, ◌&&◌, Option, none, some, List, [],
  ◌∷◌, if◌then◌else◌, ◌==◌, ltb, leb, length, take, drop,
}
use gridex_edge_gateway.Prelude.Int.{ℤ, pos, negsuc, neg_ℕ, ltb_ℤ}
use gridex_edge_gateway.Prelude.Text.{codes, decimal}
use gridex_edge_gateway.Double.{Double}
use gridex_edge_gateway.Types.{
  EdgeState, boot, waiting_for_comms, waiting_for_bms_limits, ready, safe_mode, fault,
  commissioning_locked, waiting_for_pcs_ready, ConfiguredPowerLimit,
}
use gridex_edge_gateway.Ota.Compare.{text_equal}
use gridex_edge_gateway.Apply.Arguments.{stoul}
use gridex_edge_gateway.Mqtt.Publish.{
  leading_number, is_decimal, after_spaces, is_empty, last_colon, MqttHealthPublisherConfig,
}
use gridex_edge_gateway.Controller.{ControllerConfig, default_config, seconds}
use gridex_edge_gateway.Northbound.Server.Lifecycle.{NorthboundServerConfig}
use gridex_edge_gateway.Daemon.Turn.{ReportConfig}

-- `std::getenv`.
abbrev pub Environment : Type 0
Environment = List ℕ → Option (List ℕ)

unfoldable pub env_string : Environment → List ℕ → List ℕ → List ℕ
env_string env name fallback = chosen (env name)
  where
    chosen : Option (List ℕ) → List ℕ
    chosen none = fallback
    chosen (some value) = if is_empty value then fallback else value

-- The digits that a text starts with, with a sign in front of them.
unfoldable pub signed_number : Bool → List ℕ → Option ℤ
unfolding leading_number
signed_number negative [] = none
signed_number negative (c ∷ text) =
    let n = leading_number 0 (c ∷ text) in
    if not (is_decimal c) || ltb (if negative then 2147483648 else 2147483647) n
    then none
    else some (if negative then neg_ℕ n else pos n)

-- `std::stoi`: spaces, a sign, digits, and whatever follows; none for an exception.
unfoldable pub stoi : List ℕ → Option ℤ
unfolding after_spaces signed_number
stoi text = signed (after_spaces text)
  where
    signed : List ℕ → Option ℤ
    signed [] = none
    signed (c ∷ rest) =
        if c == 43
        then signed_number false rest
        else if c == 45
        then signed_number true rest
        else signed_number false (c ∷ rest)

abbrev pub or_else : {A : Type 0} → Option A → A → A
or_else none fallback = fallback
or_else (some value) fallback = value

unfoldable pub env_int : Environment → List ℕ → ℕ → ℤ
unfolding env_string stoi decimal
env_int env name fallback = or_else (stoi (env_string env name (decimal fallback))) (pos fallback)

-- `std::clamp` of a number above 0.
abbrev pub clamp : ℕ → ℕ → ℕ → ℕ
clamp low high n = if ltb n low then low else if ltb high n then high else n

unfoldable pub clamped_size : ℕ → ℕ → ℕ → Option ℕ → ℕ
clamped_size fallback minimum maximum none = fallback
clamped_size fallback minimum maximum (some value) = clamp minimum maximum value

-- `std::size_t` has 64 bits, as `stoull` does.
unfoldable pub env_size : Environment → List ℕ → ℕ → ℕ → ℕ → ℕ
unfolding env_string stoul decimal clamped_size
env_size env name fallback minimum maximum =
    clamped_size fallback minimum maximum (stoul (env_string env name (decimal fallback)))

unfoldable pub env_bool : Environment → List ℕ → Bool → Bool
unfolding env_string
env_bool env name fallback =
    let value = env_string env name (if fallback then codes "1" else codes "0") in
    text_equal value (codes "1")
    || text_equal value (codes "true")
    || text_equal value (codes "yes")

unfoldable pub env_optional_double : (List ℕ → Option Double) → Environment → List ℕ → Option Double
unfolding env_string
env_optional_double stod env name =
    let value = env_string env name [] in if is_empty value then none else stod value

unfoldable pub state_name : EdgeState → List ℕ
state_name boot = codes "boot"
state_name waiting_for_comms = codes "waiting_for_comms"
state_name waiting_for_bms_limits = codes "waiting_for_bms_limits"
state_name ready = codes "ready"
state_name safe_mode = codes "safe_mode"
state_name fault = codes "fault"
state_name commissioning_locked = codes "commissioning_locked"
state_name waiting_for_pcs_ready = codes "waiting_for_pcs_ready"

-- A word of `width` bits that an `int` is cast to.
abbrev pub cast_word : ℕ → ℤ → ℕ
cast_word modulus (pos n) = n % modulus
cast_word modulus (negsuc n) = (modulus - suc n % modulus) % modulus

-- `std::clamp(envInt(...), low, high)`.
abbrev pub clamp_int : ℕ → ℕ → ℤ → ℕ
clamp_int low high (pos n) = clamp low high n
clamp_int low high (negsuc n) = low

unfoldable pub pcs_unit_id : Environment → ℕ
unfolding env_int
pcs_unit_id env = cast_word 256 (env_int env (codes "GRIDEX_PCS_UNIT_ID") 1)

unfoldable pub pcs_port : Environment → ℕ
unfolding env_int
pcs_port env = cast_word 65536 (env_int env (codes "GRIDEX_PCS_PORT") 3200)

unfoldable pub northbound_config : Environment → NorthboundServerConfig
unfolding env_string env_int
northbound_config env = record {
  bind_address = env_string env (codes "GRIDEX_NORTHBOUND_BIND") (codes "0.0.0.0");
  port = cast_word 65536 (env_int env (codes "GRIDEX_NORTHBOUND_PORT") 1502);
  unit_id = cast_word 256 (env_int env (codes "GRIDEX_NORTHBOUND_UNIT_ID") 1);
}

unfoldable pub controller_config : (List ℕ → Option Double) → Environment → ControllerConfig
unfolding env_optional_double
controller_config stod env = record default_config {
  configured_limit = record {
    max_charge_kw = env_optional_double stod env (codes "GRIDEX_MAX_CHARGE_KW");
    max_discharge_kw = env_optional_double stod env (codes "GRIDEX_MAX_DISCHARGE_KW");
  };
}

unfoldable pub publisher_config : Environment → MqttHealthPublisherConfig
unfolding env_string
publisher_config env = record {
  broker_url = env_string env (codes "GRIDEX_MQTT_BROKER_URL") [];
  topic_prefix = env_string env (codes "GRIDEX_MQTT_TOPIC_PREFIX") (codes "gridex/v1");
  client_id = env_string env (codes "GRIDEX_MQTT_CLIENT_ID") [];
  username = env_string env (codes "GRIDEX_MQTT_USERNAME") [];
  password_file = env_string env (codes "GRIDEX_MQTT_PASSWORD_FILE") [];
  ca_file = env_string env (codes "GRIDEX_MQTT_CA_FILE") [];
  client_certificate_file = env_string env (codes "GRIDEX_MQTT_CLIENT_CERT_FILE") [];
  client_key_file = env_string env (codes "GRIDEX_MQTT_CLIENT_KEY_FILE") [];
}

-- An interval in seconds, as nanoseconds.
unfoldable pub env_interval : Environment → List ℕ → ℕ → ℕ → ℕ → ℕ
unfolding env_int
env_interval env name fallback low high = seconds (clamp_int low high (env_int env name fallback))

unfoldable pub report_config : Environment → ReportConfig
unfolding env_string env_interval env_bool
report_config env = record {
  site_id = env_string env (codes "GRIDEX_SITE_ID") [];
  gateway_id = env_string env (codes "GRIDEX_GATEWAY_ID") [];
  boot_id = env_string env (codes "GRIDEX_BOOT_ID") (codes "unknown");
  health_interval = env_interval env (codes "GRIDEX_HEALTH_PUBLISH_SECONDS") 10 2 300;
  telemetry_interval = env_interval env (codes "GRIDEX_NODE_TELEMETRY_PUBLISH_SECONDS") 2 1 300;
  system_interval = env_interval env (codes "GRIDEX_SYSTEM_TELEMETRY_PUBLISH_SECONDS") 30 5 3600;
  journal_interval = env_interval env (codes "GRIDEX_TELEMETRY_JOURNAL_SECONDS") 5 1 300;
  system_enabled = env_bool env (codes "GRIDEX_SYSTEM_TELEMETRY_ENABLED") false;
}

unfoldable pub journal_bytes : Environment → ℕ
unfolding env_size
journal_bytes env =
    env_size env (codes "GRIDEX_TELEMETRY_JOURNAL_MAX_BYTES") (4 * 1024 * 1024) (64 * 1024)
      (64 * 1024 * 1024)
