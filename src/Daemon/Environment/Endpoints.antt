-- ===== src/Daemon/Environment/Endpoints.antt =====
-- The addresses of the nodes in the environment of base-rockpie/src/main.cpp.
use gridex_edge_gateway.Prelude.{
  ℕ, List, [], ◌∷◌, if◌then◌else◌, ◌==◌, Option, some, none, ltb, take, ◌||◌, drop, ◌+◌,
}
use gridex_edge_gateway.Daemon.Environment.{stoi, env_string, Environment}
use gridex_edge_gateway.Mqtt.Publish.{last_colon, is_empty}
use gridex_edge_gateway.Prelude.Int.{ℤ, negsuc, pos}

pub record NodeTcpEndpoint : Type 0 where
  pub host : List ℕ
  pub port : ℕ
  pub unit_id : ℕ

-- `std::getline` up to each b',': a text that ends in one has no empty item after it.
unfoldable pub items : List ℕ → List (List ℕ)
items [] = []
items (c ∷ text) = started (items text)
  where
    -- The item that the text goes on with, behind `c`.
    extended : List (List ℕ) → List (List ℕ)
    extended [] = (c ∷ []) ∷ []
    extended (item ∷ rest) = (c ∷ item) ∷ rest

    started : List (List ℕ) → List (List ℕ)
    started rest = if c == 44 then [] ∷ rest else extended rest

unfoldable pub endpoint_at : List ℕ → Option ℤ → Option NodeTcpEndpoint
endpoint_at host none = none
endpoint_at host (some (negsuc n)) = none
endpoint_at host (some (pos port)) =
    if ltb port 1 || ltb 65535 port
    then none
    else some (record { host = host; port = port; unit_id = 1 })

-- An item with the place of its last b':'.
unfoldable pub split_item : List ℕ → Option ℕ → Option NodeTcpEndpoint
unfolding endpoint_at stoi
split_item item none = if is_empty item then none else endpoint_at item (some (pos 1502))
split_item item (some separator) =
    let host = take separator item in
    if is_empty host then none else endpoint_at host (stoi (drop (separator + 1) item))

-- `endpoints.push_back`, where there is one.
unfoldable pub with_endpoint : Option NodeTcpEndpoint → List NodeTcpEndpoint → List NodeTcpEndpoint
with_endpoint none others = others
with_endpoint (some e) others = e ∷ others

-- The endpoints of some items, in their order: another item is left out.
unfoldable pub endpoints_of : List (List ℕ) → List NodeTcpEndpoint
unfolding split_item last_colon with_endpoint
endpoints_of [] = []
endpoints_of (item ∷ rest) = with_endpoint (split_item item (last_colon item)) (endpoints_of rest)

unfoldable pub env_node_endpoints : Environment → List ℕ → List NodeTcpEndpoint
unfolding env_string items endpoints_of
env_node_endpoints env name = endpoints_of (items (env_string env name []))
