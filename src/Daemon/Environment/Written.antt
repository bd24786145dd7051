-- ===== src/Daemon/Environment/Written.antt =====
-- Numbers and addresses that are written into the environment, and what base-rockpie/src/main.cpp reads.
use gridex_edge_gateway.Prelude.{
  ℕ, List, [], ◌∷◌, if◌then◌else◌, ◌==◌, ◌++◌, ◌≡◌, some, false, refl, true, none, ◌≤◌, arith,
  length, ltb, take, ◌||◌, drop, ◌+◌, ap, sym, append-nil, ◌∙◌, Bool, suc, not,
}
use mathlib.Core.Bool.{true≢false}
use gridex_edge_gateway.Daemon.Environment.{stoi, env_string, Environment, signed_number, env_int}
use gridex_edge_gateway.Mqtt.Publish.{last_colon, is_empty, is_decimal, leading_number}
use gridex_edge_gateway.Mqtt.Number.{
  AreDigits, StartsDecimal, decimal-StartsDecimal, leading_number-decimal,
  after_spaces-StartsDecimal, decimal-AreDigits,
}
use gridex_edge_gateway.Prelude.Int.{pos}
use gridex_edge_gateway.Prelude.Text.{decimal}
use gridex_edge_gateway.Daemon.Environment.Endpoints.{
  NodeTcpEndpoint, items, endpoint_at, split_item, endpoints_of, env_node_endpoints, with_endpoint,
}

-- How a list of nodes is written.
abbrev pub written : List (List ℕ × ℕ) → List ℕ
written [] = []
written ((host, port) ∷ []) = host ++ (58 ∷ decimal port)
written ((host, port) ∷ nodes) = host ++ (58 ∷ (decimal port ++ (44 ∷ written nodes)))

-- No b',' in the text.
abbrev pub HasNoComma : List ℕ → Type 0
HasNoComma [] = Unit
HasNoComma (c ∷ text) = ((c == 44) ≡ false) × HasNoComma text

abbrev pub AreWritten : List (List ℕ × ℕ) → Type 0
AreWritten [] = Unit
AreWritten ((host, port) ∷ nodes) =
    (is_empty host ≡ false) × HasNoComma host × (1 ≤ port) × (port ≤ 65535) × AreWritten nodes

append-HasNoComma : (a b : List ℕ) → HasNoComma a → HasNoComma b → HasNoComma (a ++ b)
append-HasNoComma [] b ha hb = hb
append-HasNoComma (c ∷ a) b (h, ha) hb = (h, append-HasNoComma a b ha hb)

-- An item in front of a b',', and the last one.
items-next :
    (item rest : List ℕ) → HasNoComma item → items (item ++ (44 ∷ rest)) ≡ item ∷ items rest
unfolding items
items-next [] rest h = refl
items-next (c ∷ item) rest (h, hs) = rw (items-next item rest hs, h) refl

items-last : (c : ℕ) (item : List ℕ) → HasNoComma (c ∷ item) → items (c ∷ item) ≡ (c ∷ item) ∷ []
unfolding items
items-last c [] (h, hs) = rw h refl
items-last c (d ∷ item) (h, hs) = rw (items-last d item hs, h) refl

not_colon : (c : ℕ) → is_decimal c ≡ true → (c == 58) ≡ false
not_colon c h = ground (arith, h)

not_comma : (c : ℕ) → is_decimal c ≡ true → (c == 44) ≡ false
not_comma c h = ground (arith, h)

last_colon-AreDigits : (digits : List ℕ) → AreDigits digits → last_colon digits ≡ none
unfolding last_colon
last_colon-AreDigits [] h = refl
last_colon-AreDigits (c ∷ digits) (h, hs) = rw (last_colon-AreDigits digits hs, not_colon c h) refl

AreDigits-HasNoComma : (digits : List ℕ) → AreDigits digits → HasNoComma digits
AreDigits-HasNoComma [] h = tt
AreDigits-HasNoComma (c ∷ digits) (h, hs) = (not_comma c h, AreDigits-HasNoComma digits hs)

last_colon-host :
    (host digits : List ℕ)
    → last_colon digits ≡ none
    → last_colon (host ++ (58 ∷ digits)) ≡ some (length host)
unfolding last_colon
last_colon-host [] digits h = rw h refl
last_colon-host (c ∷ host) digits h = rw (last_colon-host host digits h) refl

append_assoc : (a b c : List ℕ) → (a ++ b) ++ c ≡ a ++ (b ++ c)
append_assoc [] b c = refl
append_assoc (x ∷ a) b c = ap (λ t. x ∷ t) (append_assoc a b c)

no_sign : (c : ℕ) → is_decimal c ≡ true → ((c == 43) ≡ false) × ((c == 45) ≡ false)
no_sign c h = (ground (arith, h), ground (arith, h))

chosen :
    (d : Bool) (n : ℕ)
    → d ≡ true
    → n ≤ 2147483647
    → (if not d || ltb 2147483647 n then none else some (pos n)) ≡ some (pos n)
chosen d n h small =
    let fits : (not d || ltb 2147483647 n) ≡ false = ground (arith, h, small) in rw fits refl

signed_number-digits :
    (c n : ℕ) (text : List ℕ)
    → is_decimal c ≡ true
    → leading_number 0 (c ∷ text) ≡ n
    → n ≤ 2147483647
    → signed_number false (c ∷ text) ≡ some (pos n)
unfolding signed_number
signed_number-digits c n text h e small =
    chosen (is_decimal c) (leading_number 0 (c ∷ text)) h (omega (arith, e, small))
    ∙ ap (λ m. some (pos m)) e

stoi-StartsDecimal :
    (text : List ℕ) (n : ℕ)
    → StartsDecimal text
    → leading_number 0 text ≡ n
    → n ≤ 2147483647
    → stoi text ≡ some (pos n)
unfolding stoi
stoi-StartsDecimal [] n h e small = elim h [ ]
stoi-StartsDecimal (c ∷ text) n h e small =
    let (plus, minus) = no_sign c h in
    rw (after_spaces-StartsDecimal (c ∷ text) h, plus, minus)
      (signed_number-digits c n text h e small)

no_more : (n : ℕ) → leading_number n [] ≡ n
unfolding leading_number
no_more n = refl

nothing_written : items [] ≡ []
unfolding items
nothing_written = refl

pub stoi-decimal : (n : ℕ) → n ≤ 2147483647 → stoi (decimal n) ≡ some (pos n)
stoi-decimal n small =
    ap stoi (sym (append-nil (decimal n)))
    ∙ stoi-StartsDecimal (decimal n ++ []) n (decimal-StartsDecimal n [])
        (leading_number-decimal n [] ∙ no_more n) small

-- The endpoints as they were meant.
abbrev pub meant : List (List ℕ × ℕ) → List NodeTcpEndpoint
meant [] = []
meant ((host, port) ∷ nodes) = record { host = host; port = port; unit_id = 1 } ∷ meant nodes

take_host : (host rest : List ℕ) → take (length host) (host ++ rest) ≡ host
take_host [] rest = refl
take_host (c ∷ host) rest = ap (λ t. c ∷ t) (take_host host rest)

drop_host :
    (host : List ℕ) (c : ℕ) (rest : List ℕ) → drop (length host + 1) (host ++ (c ∷ rest)) ≡ rest
drop_host [] c rest = refl
drop_host (d ∷ host) c rest =
    let more : length (d ∷ host) + 1 ≡ suc (length host + 1) = omega arith in
    rw more (drop_host host c rest)

split_item-written :
    (host : List ℕ) (port : ℕ)
    → is_empty host ≡ false
    → 1 ≤ port
    → port ≤ 65535
    → let item = host ++ (58 ∷ decimal port) in
      split_item item (last_colon item) ≡ some (record { host = host; port = port; unit_id = 1 })
unfolding split_item endpoint_at
split_item-written host port named low high =
    let in_range : (ltb port 1 || ltb 65535 port) ≡ false = ground arith in
    rw
      (
        last_colon-host host (decimal port)
            (last_colon-AreDigits (decimal port) (decimal-AreDigits port)),
        take_host host (58 ∷ decimal port),
        named,
        drop_host host 58 (decimal port),
        stoi-decimal port (omega arith),
        in_range,
      )
      refl

one_item : (host : List ℕ) (port : ℕ) → HasNoComma host → HasNoComma (host ++ (58 ∷ decimal port))
one_item host port h =
    append-HasNoComma host (58 ∷ decimal port) h
      (refl, AreDigits-HasNoComma (decimal port) (decimal-AreDigits port))

items-written :
    (host : List ℕ) (port : ℕ)
    → is_empty host ≡ false
    → HasNoComma host
    → items (host ++ (58 ∷ decimal port)) ≡ (host ++ (58 ∷ decimal port)) ∷ []
items-written [] port named h = absurd (true≢false named)
items-written (c ∷ host) port named h =
    items-last c (host ++ (58 ∷ decimal port)) (one_item (c ∷ host) port h)

endpoints_of-next :
    (item : List ℕ) (rest : List (List ℕ)) (e : NodeTcpEndpoint)
    → split_item item (last_colon item) ≡ some e
    → endpoints_of (item ∷ rest) ≡ e ∷ endpoints_of rest
unfolding endpoints_of with_endpoint
endpoints_of-next item rest e h = ap (λ o. with_endpoint o (endpoints_of rest)) h

endpoints_of-written :
    (nodes : List (List ℕ × ℕ))
    → AreWritten nodes
    → endpoints_of (items (written nodes)) ≡ meant nodes
unfolding endpoints_of
endpoints_of-written [] h = ap endpoints_of nothing_written
endpoints_of-written ((host, port) ∷ []) (named, plain, low, high, rest) =
    ap endpoints_of (items-written host port named plain)
    ∙ endpoints_of-next (host ++ (58 ∷ decimal port)) [] _
        (split_item-written host port named low high)
endpoints_of-written ((host, port) ∷ node ∷ nodes) (named, plain, low, high, rest) =
    let item = host ++ (58 ∷ decimal port) in
    let next = written (node ∷ nodes) in
    let e : NodeTcpEndpoint = record { host = host; port = port; unit_id = 1 } in
    ap (λ t. endpoints_of (items t)) (sym (append_assoc host (58 ∷ decimal port) (44 ∷ next)))
    ∙ ap endpoints_of (items-next item next (one_item host port plain))
    ∙ endpoints_of-next item (items next) e (split_item-written host port named low high)
    ∙ ap (λ t. e ∷ t) (endpoints_of-written (node ∷ nodes) rest)

-- A list of nodes with names and ports from 1 to 65535, written with a b':' before each port and a b','
-- between two nodes, is read back as these endpoints in their order, with unit 1. A name may
-- hold b':' but no b','. Without the variable, a number is its fallback.
pub env_node_endpoints-written :
    (env : Environment) (name other : List ℕ) (nodes : List (List ℕ × ℕ)) (fallback : ℕ)
    → env_string env name [] ≡ written nodes
    → AreWritten nodes
    → env other ≡ none
    → fallback ≤ 2147483647
    → (env_node_endpoints env name ≡ meant nodes) × (env_int env other fallback ≡ pos fallback)
unfolding env_node_endpoints env_int env_string
env_node_endpoints-written env name other nodes fallback given h unset small = (
  ap (λ t. endpoints_of (items t)) given ∙ endpoints_of-written nodes h,
  rw (unset, stoi-decimal fallback small) refl,
)
