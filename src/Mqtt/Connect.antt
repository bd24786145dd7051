-- ===== src/Mqtt/Connect.antt =====
-- The constructor and the destructor of `MqttHealthPublisher`, over the calls of libmosquitto.
use gridex_edge_gateway.Prelude.{
  ℕ, ◌≡◌, Bool, true, false, not, ◌&&◌, Option, none, some, List, if◌then◌else◌, sym, if-both,
  arith, refl,
}
use gridex_edge_gateway.Modbus.{Io}
use gridex_edge_gateway.Mqtt.Publish.{
  MqttHealthPublisherConfig, MqttHealthPublisher, BrokerEndpoint, is_empty, endpoint_to_use,
}

-- The calls of the library, over a state `S`: whether each succeeds. The callbacks are `on_connect` and
-- `on_disconnect`.
pub record Mosquitto (S : Type 0) : Type 0 where
  pub lib_init : Io S Bool
  pub lib_cleanup : S → S
  pub create : List ℕ → Io S Bool
  -- The file of the authority; the certificate and the key of the client, empty for none.
  pub tls_set : List ℕ → List ℕ → List ℕ → Io S Bool
  -- The user and the password, empty for none.
  pub username_pw_set : List ℕ → List ℕ → Io S Bool
  pub tls_verify : Io S Bool
  pub callbacks_set : S → S
  pub connect_async : BrokerEndpoint → Io S Bool
  pub loop_start : Io S Bool
  pub disconnect : S → S
  pub loop_stop : S → S
  pub destroy : S → S

-- The members beside those of the publisher.
pub record Handles : Type 0 where
  pub publisher : MqttHealthPublisher
  pub library_initialized : Bool
  pub loop_started : Bool

abbrev pub no_handles : MqttHealthPublisherConfig → Handles
no_handles config = record {
  publisher = record { config = config; has_client = false; link_up = false };
  library_initialized = false;
  loop_started = false;
}

abbrev pub with_client : Bool → Handles → Handles
with_client has h = record h { publisher = record (h.publisher) { has_client = has } }

module _ {S : Type 0} (lib : Mosquitto S) where
  -- The settings of a client; all of them are made, whatever the earlier ones said.
  unfoldable pub configure_client : MqttHealthPublisherConfig → List ℕ → S → Bool × S
  configure_client config password s =
      let (tls, s1) =
        lib.tls_set config.ca_file config.client_certificate_file config.client_key_file s in
      let no_auth = is_empty config.username && is_empty password in
      let (auth, s2) =
        if no_auth then (true, s1) else lib.username_pw_set config.username password s1 in
      let (secure, s3) = lib.tls_verify s2 in (tls && auth && secure, lib.callbacks_set s3)

  -- A client that exists: it connects, or it is destroyed.
  unfoldable pub start_client : List ℕ → BrokerEndpoint → Handles → S → Handles × S
  unfolding configure_client
  start_client password endpoint h s =
      let (fine, s1) = configure_client h.publisher.config password s in
      let (connecting, s2) = lib.connect_async endpoint s1 in
      let (looping, s3) = lib.loop_start s2 in
      if not fine
      then (with_client false h, lib.destroy s1)
      else if not connecting
      then (with_client false h, lib.destroy s2)
      else if not looping
      then (with_client false h, lib.destroy s3)
      else (record h { loop_started = true }, s3)

  unfoldable pub construct_with :
      List ℕ → MqttHealthPublisherConfig → Option BrokerEndpoint → S → Handles × S
  unfolding start_client
  construct_with password config none s = (no_handles config, s)
  construct_with password config (some endpoint) s =
      let (ready, s1) = lib.lib_init s in
      let h = record (no_handles config) { library_initialized = true } in
      let (created, s2) = lib.create config.client_id s1 in
      if not ready
      then (no_handles config, s1)
      else if not created
      then (h, s2)
      else start_client password endpoint (with_client true h) s2

  -- `password` is the first line of the password file, empty without one.
  unfoldable pub construct : List ℕ → MqttHealthPublisherConfig → S → Handles × S
  unfolding construct_with endpoint_to_use
  construct password config s = construct_with password config (endpoint_to_use config) s

  unfoldable pub destruct : Handles × S → S
  destruct (h, s) =
      let stopped = if h.loop_started then lib.loop_stop (lib.disconnect s) else s in
      let freed = if h.publisher.has_client then lib.destroy stopped else s in
      if h.library_initialized then lib.lib_cleanup freed else freed

-- A client is kept exactly if its loop was started, and the library is initialised for it.
abbrev IsConsistent : Handles → Type 0
IsConsistent h =
    (h.publisher.has_client ≡ h.loop_started)
    × (h.loop_started && not h.library_initialized ≡ false)

module _ {S : Type 0} (lib : Mosquitto S) where
  start_client-IsConsistent :
      (password : List ℕ) (endpoint : BrokerEndpoint) (h : Handles) (s : S)
      → h.publisher.has_client ≡ true
      → h.loop_started ≡ false
      → h.library_initialized ≡ true
      → IsConsistent (start_client lib password endpoint h s).0
  unfolding start_client
  start_client-IsConsistent password endpoint h s has idle ready =
      let (fine, s1) = configure_client lib h.publisher.config password s in
      let (connecting, s2) = lib.connect_async endpoint s1 in
      let none_left : IsConsistent (with_client false h) = (sym idle, ground (arith, idle)) in
      if-both {A = Handles × S} (λ r. IsConsistent r.0) (not fine) _ _ (λ _. none_left)
        (λ _.
          if-both {A = Handles × S} (λ r. IsConsistent r.0) (not connecting) _ _ (λ _. none_left)
            (λ _.
              if-both {A = Handles × S} (λ r. IsConsistent r.0) (not (lib.loop_start s2).0) _ _
                (λ _. none_left) (λ _. (has, ground (arith, ready)))))

  construct_with-IsConsistent :
      (password : List ℕ) (config : MqttHealthPublisherConfig) (endpoint : Option BrokerEndpoint)
      (s : S)
      → IsConsistent (construct_with lib password config endpoint s).0
  unfolding construct_with
  construct_with-IsConsistent password config none s = (refl, refl)
  construct_with-IsConsistent password config (some endpoint) s =
      let (ready, s1) = lib.lib_init s in
      let h = record (no_handles config) { library_initialized = true } in
      let (created, s2) = lib.create config.client_id s1 in
      if-both {A = Handles × S} (λ r. IsConsistent r.0) (not ready) _ _ (λ _. (refl, refl))
        (λ _.
          if-both {A = Handles × S} (λ r. IsConsistent r.0) (not created) _ _ (λ _. (refl, refl))
            (λ _.
              start_client-IsConsistent password endpoint (with_client true h) s2 refl refl refl))

  pub construct-IsConsistent :
      (password : List ℕ) (config : MqttHealthPublisherConfig) (s : S)
      → IsConsistent (construct lib password config s).0
  unfolding construct
  construct-IsConsistent password config s =
      construct_with-IsConsistent password config (endpoint_to_use config) s
