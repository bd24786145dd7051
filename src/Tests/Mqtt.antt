-- ===== src/Tests/Mqtt.antt =====
-- A text of the publisher, and the address of its broker.
use gridex_edge_gateway.Prelude.{◌∷◌, [], ◌≡◌, some, refl}
use gridex_edge_gateway.Prelude.Text.{codes}
use gridex_edge_gateway.Mqtt.{json_string}
use gridex_edge_gateway.Mqtt.Json.{read_text, before, finished, read_text-json_string}
use gridex_edge_gateway.Mqtt.Publish.{parse_broker_url}

-- A quote, a backslash, a line feed and the character 1.
read_text-json_string_example :
    read_text before (json_string (34 ∷ 92 ∷ 10 ∷ 1 ∷ [])) ≡ finished (34 ∷ 92 ∷ 10 ∷ 1 ∷ [])
read_text-json_string_example = read_text-json_string (34 ∷ 92 ∷ 10 ∷ 1 ∷ [])

port_of_url :
    parse_broker_url (codes "mqtts://router:8883")
    ≡ some (record { host = codes "router"; port = 8883 })
unfolding parse_broker_url
port_of_url = refl
