-- ===== src/Mqtt/Publish.antt =====
-- When `MqttHealthPublisher` connects and publishes, and under which topics.
use gridex_edge_gateway.Prelude.{
  ℕ, List, Bool, Option, ◌==◌, false, length, some, none, leb, ◌∷◌, ◌||◌, not, if◌then◌else◌, ◌&&◌,
  ◌++◌, [], suc, ◌*◌, ltb, ◌+◌, true, ◌-◌, take, drop,
}
use gridex_edge_gateway.Prelude.Text.{codes, decimal}
use gridex_edge_gateway.Double.{Double}
use gridex_edge_gateway.Telemetry.{MbusNodeTelemetry}
use gridex_edge_gateway.Mqtt.{
  EdgeHealthMessage, SystemTelemetrySample, topic_part, health_payload, node_telemetry_payload,
  system_telemetry_payload,
}

pub record MqttHealthPublisherConfig : Type 0 where
  pub broker_url : List ℕ
  pub topic_prefix : List ℕ
  pub client_id : List ℕ
  pub username : List ℕ
  pub password_file : List ℕ
  pub ca_file : List ℕ
  pub client_certificate_file : List ℕ
  pub client_key_file : List ℕ

-- `has_client` says that `client_` is not null.
pub record MqttHealthPublisher : Type 0 where
  pub config : MqttHealthPublisherConfig
  pub has_client : Bool
  pub link_up : Bool

pub record BrokerEndpoint : Type 0 where
  pub host : List ℕ
  pub port : ℕ

abbrev pub is_empty : List ℕ → Bool
is_empty text = length text == 0

-- What is left after a prefix.
unfoldable pub after_prefix : List ℕ → List ℕ → Option (List ℕ)
after_prefix [] text = some text
after_prefix (p ∷ prefix) [] = none
after_prefix (p ∷ prefix) (c ∷ text) =
    let rest = after_prefix prefix text in if p == c then rest else none

-- The place of the last b':'.
unfoldable pub last_colon : List ℕ → Option ℕ
last_colon [] = none
last_colon (c ∷ text) = later (last_colon text)
  where
    later : Option ℕ → Option ℕ
    later (some i) = some (suc i)
    later none = if c == 58 then some 0 else none

abbrev pub is_decimal : ℕ → Bool
is_decimal c = leb 48 c && leb c 57

-- The value of the digits that a text starts with, on top of those before.
unfoldable pub leading_number : ℕ → List ℕ → ℕ
leading_number n [] = n
leading_number n (c ∷ text) =
    let rest = leading_number (n * 10 + (c - 48)) text in if is_decimal c then rest else n

-- A space of `isspace`.
abbrev pub is_space : ℕ → Bool
is_space c = c == 32 || (leb 9 c && leb c 13)

unfoldable pub after_spaces : List ℕ → List ℕ
after_spaces [] = []
after_spaces (c ∷ text) = let rest = after_spaces text in if is_space c then rest else c ∷ text

-- `std::stoi` of a text that names a number above 0: spaces, a sign, digits, and whatever follows. Of a
-- negative number, a 0, a number above 2147483647 or no number at all it gives none, or one that
-- the code refuses.
unfoldable pub positive : List ℕ → Option ℕ
unfolding leading_number
positive [] = none
positive (c ∷ text) =
    let n = leading_number 0 (c ∷ text) in
    if is_decimal c && not (n == 0) && leb n 2147483647 then some n else none

unfoldable pub stoi : List ℕ → Option ℕ
unfolding after_spaces positive
stoi text = signed (after_spaces text)
  where
    signed : List ℕ → Option ℕ
    signed [] = none
    signed (c ∷ rest) = if c == 43 then positive rest else positive (c ∷ rest)

unfoldable pub endpoint_of : List ℕ → Option ℕ → Option BrokerEndpoint
endpoint_of host none = none
endpoint_of host (some port) =
    if ltb port 1 || ltb 65535 port then none else some (record { host = host; port = port })

unfoldable pub split_endpoint : List ℕ → Option ℕ → Option BrokerEndpoint
unfolding stoi endpoint_of
split_endpoint endpoint none = none
split_endpoint endpoint (some separator) =
    if separator == 0 || leb (length endpoint) (separator + 1)
    then none
    else endpoint_of (take separator endpoint) (stoi (drop (separator + 1) endpoint))

unfoldable pub after_scheme : Option (List ℕ) → Option BrokerEndpoint
unfolding split_endpoint last_colon
after_scheme none = none
after_scheme (some endpoint) = split_endpoint endpoint (last_colon endpoint)

unfoldable pub parse_broker_url : List ℕ → Option BrokerEndpoint
unfolding after_scheme after_prefix
parse_broker_url url = after_scheme (after_prefix (codes "mqtts://") url)

abbrev pub configured : MqttHealthPublisherConfig → Bool
configured config =
    not (is_empty config.broker_url)
    && not (is_empty config.topic_prefix)
    && not (is_empty config.client_id)

abbrev pub when_empty : Bool → Option BrokerEndpoint → Option BrokerEndpoint
when_empty refused endpoint = if refused then none else endpoint

-- The checks of the constructor before it calls the library: the endpoint that it goes on with.
unfoldable pub endpoint_to_use : MqttHealthPublisherConfig → Option BrokerEndpoint
unfolding parse_broker_url
endpoint_to_use config =
    when_empty
      (not (configured config)
        || is_empty config.ca_file
        || not (same (is_empty config.client_certificate_file) (is_empty config.client_key_file)))
      (parse_broker_url config.broker_url)
  where
    same : Bool → Bool → Bool
    same true b = b
    same false b = not b

abbrev pub connected : MqttHealthPublisher → Bool
connected publisher = publisher.has_client && publisher.link_up

-- The callbacks; 0 is `MOSQ_ERR_SUCCESS`.
unfoldable pub on_connect : ℕ → MqttHealthPublisher → MqttHealthPublisher
on_connect result publisher = record publisher { link_up = result == 0 }

unfoldable pub on_disconnect : MqttHealthPublisher → MqttHealthPublisher
on_disconnect publisher = record publisher { link_up = false }

-- The topics, of parts that were checked.
unfoldable pub health_topic : List ℕ → List ℕ → List ℕ → List ℕ
health_topic prefix site gateway =
    prefix ++ (codes "/sites/" ++ (site ++ (codes "/edge/" ++ (gateway ++ codes "/health"))))

unfoldable pub node_topic : List ℕ → List ℕ → List ℕ → ℕ → List ℕ
unfolding decimal
node_topic prefix site gateway slot =
    prefix
    ++ (codes "/sites/"
        ++ (site
            ++ (codes "/edge/"
                ++ (gateway ++ (codes "/nodes/" ++ (decimal slot ++ codes "/telemetry"))))))

unfoldable pub system_topic : List ℕ → List ℕ → List ℕ → List ℕ
system_topic prefix site gateway =
    prefix
    ++ (codes "/sites/" ++ (site ++ (codes "/edge/" ++ (gateway ++ codes "/system/telemetry"))))

-- `mosquitto_publish`: topic, payload and the retain flag, at quality of service 1.
abbrev pub Publish : Type 0 → Type 0
Publish S = List ℕ → List ℕ → Bool → S → Bool × S

module _ {S : Type 0} (publish : Publish S) (timestamp : ℕ → List ℕ)
    (show_double : Double → List ℕ) where
  unfoldable pub publish_health : ℕ → EdgeHealthMessage → MqttHealthPublisher → S → Bool × S
  unfolding topic_part health_topic health_payload
  publish_health now message publisher s =
      let site = topic_part message.site_id in
      let gateway = topic_part message.gateway_id in
      if not (connected publisher) || is_empty site || is_empty gateway
      then (false, s)
      else publish (health_topic publisher.config.topic_prefix site gateway)
          (health_payload timestamp show_double now message) true s

  unfoldable pub publish_node_telemetry :
      ℕ → List ℕ → List ℕ → ℕ → MbusNodeTelemetry → MqttHealthPublisher → S → Bool × S
  unfolding topic_part node_topic node_telemetry_payload
  publish_node_telemetry now site_id gateway_id slot sample publisher s =
      let site = topic_part site_id in
      let gateway = topic_part gateway_id in
      if not (connected publisher) || is_empty site || is_empty gateway || slot == 0
      then (false, s)
      else publish (node_topic publisher.config.topic_prefix site gateway slot)
          (node_telemetry_payload timestamp show_double now slot sample) false s

  unfoldable pub publish_system_telemetry :
      ℕ
      → List ℕ
      → List ℕ
      → List ℕ
      → ℕ
      → List SystemTelemetrySample
      → MqttHealthPublisher
      → S
      → Bool × S
  unfolding topic_part system_topic system_telemetry_payload
  publish_system_telemetry now site_id gateway_id boot_id sequence samples publisher s =
      let site = topic_part site_id in
      let gateway = topic_part gateway_id in
      if not (connected publisher) || is_empty site || is_empty gateway || length samples == 0
      then (false, s)
      else publish (system_topic publisher.config.topic_prefix site gateway)
          (system_telemetry_payload timestamp show_double now gateway_id boot_id sequence samples)
          false s
