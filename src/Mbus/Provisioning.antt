-- ===== src/Mbus/Provisioning.antt =====
-- The local configuration of a node in node-esp32-evb/src/main.cpp: what it stores, what it loads at the start,
-- and the lines of the serial port. The store (`Preferences`), the parser of an IPv4 address and the
-- hash of the OTA secret are parameters. An answer is a constructor in place of its text.
pub mod Printed
pub mod Restart
pub mod Lock
use gridex_edge_gateway.Prelude.{
  ℕ, zero, suc, ◌%◌, ◌+◌, ◌-◌, ◌^◌, Bool, true, false, not, ◌&&◌, ◌||◌, Option, none, some, List,
  [], ◌∷◌, if◌then◌else◌, ◌==◌, ltb, length, take, get_or,
}
use gridex_edge_gateway.Prelude.Text.{codes}
use gridex_edge_gateway.Modbus.{Io}
use gridex_edge_gateway.Ota.Compare.{text_equal}
use gridex_edge_gateway.Ota.{EspOtaConfig}
use gridex_edge_gateway.Mqtt.Publish.{
  leading_number, is_decimal, is_space, after_spaces, after_prefix, is_empty,
}
use gridex_edge_gateway.Mqtt.Number.{after_digits}
use gridex_edge_gateway.Mbus.Reg as Reg
use gridex_edge_gateway.Mbus.Node.{NodeConfig, MbusNode, provision, take_configuration_changed}
use gridex_edge_gateway.Mbus.Line.{ProvisioningLine, push}
use gridex_edge_gateway.Mbus.Server.{EthernetControlServer, set_rock_pi_address}

-- `Preferences` over a state `S`: the calls name a key of the part that `begin` opened.
pub record Preferences (S : Type 0) : Type 0 where
  -- The name of the part, and whether it is only read.
  pub begin : List ℕ → Bool → Io S Bool
  pub get_number : List ℕ → ℕ → S → ℕ
  pub get_string : List ℕ → List ℕ → S → List ℕ
  -- How many bytes were stored.
  pub put_number : List ℕ → ℕ → Io S ℕ
  pub put_string : List ℕ → List ℕ → Io S ℕ
  pub remove : List ℕ → S → S
  pub close : S → S

-- What the node knows of itself while it runs. The driver of this build has no device; `restarts` says
-- that `ESP.restart` was called.
pub record Station : Type 0 where
  pub node : MbusNode
  pub control : EthernetControlServer
  pub driver_ready : Bool
  pub restarts : Bool

pub data Answer : Type 0 where
  help status_line unsupported invalid_address invalid_node node_stored : Answer
  store_closed secret_cleared secret_length secret_not_saved secret_saved : Answer
  source_not_saved source_saved : Answer

-- `strtoul`, as `%u` uses it on 32 bits: a number that is too large is the largest.
abbrev pub saturated : ℕ → ℕ
saturated n = if ltb 4294967295 n then 4294967295 else n

unfoldable pub scan_digits : Bool → List ℕ → Option (ℕ × List ℕ)
unfolding leading_number after_digits
scan_digits negative [] = none
scan_digits negative (c ∷ text) =
    let n = saturated (leading_number 0 (c ∷ text)) in
    if is_decimal c
    then some ((if negative then (2 ^ 32 - n) % 2 ^ 32 else n), after_digits (c ∷ text))
    else none

-- `%u` of `sscanf`: the number, and the text after it.
unfoldable pub scan_unsigned : List ℕ → Option (ℕ × List ℕ)
unfolding after_spaces scan_digits
scan_unsigned text = signed (after_spaces text)
  where
    signed : List ℕ → Option (ℕ × List ℕ)
    signed [] = none
    signed (c ∷ rest) =
        if c == 43
        then scan_digits false rest
        else if c == 45
        then scan_digits true rest
        else scan_digits false (c ∷ rest)

abbrev pub text_after : Option (ℕ × List ℕ) → List ℕ
text_after none = []
text_after (some (n, rest)) = rest

-- A number in front of others.
abbrev pub with_number : Option (ℕ × List ℕ) → Option (List ℕ) → Option (List ℕ)
with_number none others = none
with_number (some (n, rest)) none = none
with_number (some (n, rest)) (some others) = some (n ∷ others)

-- `sscanf` with as many numbers as asked for, spaces between them; none unless all are there.
unfoldable pub scan_all : ℕ → List ℕ → Option (List ℕ)
unfolding scan_unsigned
scan_all zero text = some []
scan_all (suc count) text =
    let number = scan_unsigned text in with_number number (scan_all count (text_after number))

-- `String::trim`.
unfoldable pub trim_end : List ℕ → List ℕ
trim_end [] = []
trim_end (c ∷ text) =
    let rest = trim_end text in if is_space c && is_empty rest then [] else c ∷ rest

unfoldable pub trim : List ℕ → List ℕ
unfolding trim_end after_spaces
trim text = trim_end (after_spaces text)

-- The text up to the first character 0, as `c_str` shows it.
unfoldable pub up_to_nul : List ℕ → List ℕ
up_to_nul [] = []
up_to_nul (c ∷ text) = let rest = up_to_nul text in if c == 0 then [] else c ∷ rest

module _ {S : Type 0} (store : Preferences S) where
  -- `uid` is the number of the chip.
  unfoldable pub load_config : ℕ → S → NodeConfig × S
  load_config uid s =
      let (opened, s1) = store.begin (codes "gridex-mbus") false s in
      (
        record {
          address = store.get_number (codes "node_address") 0 s1;
          node_type = store.get_number (codes "node_type") 0 s1;
          driver_id = store.get_number (codes "driver_id") 0 s1;
          uid = uid;
        },
        store.close s1,
      )

  -- The identity of a node, as it is stored.
  unfoldable pub store_config : NodeConfig → S → S
  store_config config s =
      let (opened, s1) = store.begin (codes "gridex-mbus") false s in
      let (n1, s2) = store.put_number (codes "node_address") config.address s1 in
      let (n2, s3) = store.put_number (codes "node_type") config.node_type s2 in
      let (n3, s4) = store.put_number (codes "driver_id") config.driver_id s3 in store.close s4

  unfoldable pub persist_node_config : MbusNode → S → MbusNode × S
  unfolding take_configuration_changed store_config
  persist_node_config n s =
      let (changed, n') = take_configuration_changed n in
      if not changed then (n', s) else (n', store_config n'.config s)

  -- The numbers of a `node` line, if `sscanf` found all three.
  unfoldable pub provision_numbers : Option (List ℕ) → Station → S → Answer × (Station × S)
  unfolding provision persist_node_config
  provision_numbers none x s = (invalid_node, (x, s))
  provision_numbers (some numbers) x s =
      let address = get_or numbers 0 0 in
      let type = get_or numbers 1 0 in
      let driver = get_or numbers 2 0 in
      let (accepted, n) = provision address type driver x.node in
      let (n', s') = persist_node_config n s in
      if ltb 247 address || ltb Reg.type_second_cabinet type || ltb 65535 driver || not accepted
      then (invalid_node, (x, s))
      else (node_stored, (record x { node = n'; driver_ready = false }, s'))

  unfoldable pub provision_node : List ℕ → Station → S → Answer × (Station × S)
  unfolding scan_all provision_numbers
  provision_node arguments x s = provision_numbers (scan_all 3 arguments) x s

  unfoldable pub clear_secret : Station → S → Answer × (Station × S)
  clear_secret x s =
      let (opened, s1) = store.begin (codes "gridex-control") false s in
      if not opened then (store_closed, (x, s1)) else (
        secret_cleared,
        (record x { restarts = true }, store.close (store.remove (codes "ota_token_hash") s1)),
      )

  -- `sha256_hex` is empty where the hash fails.
  unfoldable pub store_secret : (List ℕ → List ℕ) → List ℕ → Station → S → Answer × (Station × S)
  store_secret sha256_hex token x s =
      let (opened, s1) = store.begin (codes "gridex-control") false s in
      let hash = sha256_hex token in
      let (stored, s2) = store.put_string (codes "ota_token_hash") hash s1 in
      if ltb (length token) 32 || ltb 128 (length token)
      then (secret_length, (x, s))
      else if not opened
      then (store_closed, (x, s1))
      else if is_empty hash
      then (secret_not_saved, (x, store.close s1))
      else if not (stored == length hash)
      then (secret_not_saved, (x, store.close s2))
      else (secret_saved, (record x { restarts = true }, store.close s2))

  unfoldable pub store_source : List ℕ → Option ℕ → Station → S → Answer × (Station × S)
  unfolding set_rock_pi_address
  store_source value none x s = (invalid_address, (x, s))
  store_source value (some address) x s =
      let (opened, s1) = store.begin (codes "gridex-control") false s in
      let (stored, s2) = store.put_string (codes "rockpi_ip") value s1 in
      if not opened
      then (store_closed, (x, s1))
      else if not (stored == length value)
      then (source_not_saved, (x, store.close s2))
      else (
        source_saved,
        (record x { control = set_rock_pi_address address x.control }, store.close s2),
      )

  module _ (sha256_hex : List ℕ → List ℕ) (parse_ip : List ℕ → Option ℕ) where
    -- The lines with an argument: what stands behind `node `, `ota-key ` and `rockpi `.
    unfoldable pub process_argument :
        Option (List ℕ) → Option (List ℕ) → Option (List ℕ) → Station → S → Answer × (Station × S)
    unfolding provision_node store_secret store_source
    process_argument (some arguments) key source x s = provision_node arguments x s
    process_argument none (some token) source x s = store_secret sha256_hex token x s
    process_argument none none (some value) x s = store_source value (parse_ip value) x s
    process_argument none none none x s = (unsupported, (x, s))

    unfoldable pub process_trimmed : List ℕ → Station → S → Answer × (Station × S)
    unfolding clear_secret process_argument after_prefix
    process_trimmed line x s =
        if text_equal line (codes "help")
        then (help, (x, s))
        else if text_equal line (codes "status")
        then (status_line, (x, s))
        else if text_equal line (codes "ota-clear")
        then clear_secret x s
        else process_argument (after_prefix (codes "node ") line)
            (after_prefix (codes "ota-key ") line) (after_prefix (codes "rockpi ") line) x s

    unfoldable pub process_line : List ℕ → Station → S → Answer × (Station × S)
    unfolding trim process_trimmed
    process_line text x s = process_trimmed (trim text) x s

    -- A line that is complete, or not.
    unfoldable pub process_pushed : Option (List ℕ) → Station → S → Station × S
    unfolding process_line up_to_nul
    process_pushed none x s = (x, s)
    process_pushed (some line) x s = (process_line (up_to_nul line) x s).1

    unfoldable pub process_characters :
        List ℕ → ProvisioningLine → Station → S → ProvisioningLine × (Station × S)
    unfolding push process_pushed
    process_characters [] l x s = (l, (x, s))
    process_characters (c ∷ cs) l x s =
        let (line, l') = push c l in
        let (x', s') = process_pushed line x s in process_characters cs l' x' s'

    -- At most 80 of the characters that have arrived.
    unfoldable pub process_serial :
        List ℕ → ProvisioningLine → Station → S → ProvisioningLine × (Station × S)
    unfolding process_characters
    process_serial arrived l x s = process_characters (take 80 arrived) l x s

  -- An address that cannot be parsed is `IPAddress()`.
  abbrev pub address_or_none : Option ℕ → ℕ
  address_or_none none = 0
  address_or_none (some address) = address

  unfoldable pub load_control_config : (List ℕ → Option ℕ) → S → EthernetControlServer × S
  load_control_config parse_ip s =
      let (opened, s1) = store.begin (codes "gridex-control") true s in
      (
        record {
          port = store.get_number (codes "port") 1502 s1;
          unit_id = 1;
          rock_pi_address = address_or_none (parse_ip (store.get_string (codes "rockpi_ip") [] s1));
          client = none;
          rx = [];
          last_byte_ms = 0;
          rejected_clients = 0;
        },
        store.close s1,
      )

  unfoldable pub load_ota_config : (List ℕ → Option ℕ) → S → EspOtaConfig × S
  load_ota_config parse_ip s =
      let (opened, s1) = store.begin (codes "gridex-control") true s in
      (
        record {
          port = store.get_number (codes "ota_port") 8080 s1;
          rock_pi_address = address_or_none (parse_ip (store.get_string (codes "rockpi_ip") [] s1));
          token_hash = store.get_string (codes "ota_token_hash") [] s1;
        },
        store.close s1,
      )
