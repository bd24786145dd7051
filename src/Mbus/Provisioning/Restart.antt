-- ===== src/Mbus/Provisioning/Restart.antt =====
-- The identity that a line of the serial port gives a node, and what the node finds after a restart.
use gridex_edge_gateway.Prelude.{
  ℕ, ◌≡◌, refl, arith, Bool, true, false, some, List, [], ◌∷◌, ltb, ◌==◌, ap, sym, ◌∙◌, Option, ◌≤◌,
  ◌||◌, not,
}
use mathlib.Core.Path.{subst}
use gridex_edge_gateway.Prelude.Text.{codes}
use gridex_edge_gateway.Mqtt.Publish.{after_prefix}
use gridex_edge_gateway.Mbus.Provisioning.{
  scan_all, Preferences, Answer, persist_node_config, provision_numbers, process_line, Station,
  process_argument, node_stored, store_config, provision_node, process_trimmed, load_config,
}
use gridex_edge_gateway.Mbus.Node.{
  NodeConfig, provision, valid_type, MbusNode, take_configuration_changed,
}
use gridex_edge_gateway.Mbus.Provisioning.Printed.{
  node_arguments, scan_all-node_arguments, node_line, trim-node_line,
}
use gridex_edge_gateway.Ota.Compare.{text_equal}

-- The identity that a line asks for, where `provision` takes it.
abbrev pub MayIdentify : ℕ → ℕ → ℕ → Type 0
MayIdentify address type driver =
    (1 ≤ address)
    × (address ≤ 247)
    × (valid_type type ≡ true)
    × (type ≤ 6)
    × (1 ≤ driver)
    × (driver ≤ 65535)

abbrev pub identified : ℕ → ℕ → ℕ → NodeConfig → NodeConfig
identified address type driver c = record c {
  address = address;
  node_type = type;
  driver_id = driver;
}

provision-done :
    (address type driver : ℕ) (n : MbusNode)
    → MayIdentify address type driver
    → let r = provision address type driver n in
      (r.0 ≡ true)
      × (r.1.config ≡ identified address type driver n.config)
      × (r.1.configuration_changed ≡ true)
unfolding provision
provision-done address type driver n (a1, a2, valid, t2, d1, d2) =
    let taken : (ltb address 1 || ltb 247 address || not (valid_type type) || driver == 0) ≡ false =
      ground (arith, valid) in
    rw taken (refl, refl, refl)

-- The registers and the store after a line was taken.
abbrev Stored : {S : Type 0} → Preferences S → NodeConfig → S → Answer × (Station × S) → Type 0
Stored store config s r =
    (r.0 ≡ node_stored)
    × (r.1.0.node.config ≡ config)
    × (r.1.0.driver_ready ≡ false)
    × (r.1.1 ≡ store_config store config s)

module _ {S : Type 0} (store : Preferences S) where
  persist-changed :
      (n : MbusNode) (s : S)
      → n.configuration_changed ≡ true
      → ((persist_node_config store n s).0.config ≡ n.config)
        × ((persist_node_config store n s).1 ≡ store_config store n.config s)
  unfolding persist_node_config take_configuration_changed
  persist-changed n s e = rw e (refl, refl)

  provision_numbers-Stored :
      (address type driver : ℕ) (x : Station) (s : S)
      → MayIdentify address type driver
      → Stored store
          (identified address type driver x.node.config)
          s
          (provision_numbers store (some (address ∷ type ∷ driver ∷ [])) x s)
  unfolding provision_numbers
  provision_numbers-Stored address type driver x s may =
      let (a1, a2, valid, t2, d1, d2) = may in
      let (done, config, changed) = provision-done address type driver x.node may in
      let n = (provision address type driver x.node).1 in
      let (same, kept) = persist-changed n s changed in
      let taken : (ltb 247 address || ltb 6 type || ltb 65535 driver) ≡ false = ground arith in
      rw (taken, done) (refl, same ∙ config, refl, kept ∙ ap (λ c. store_config store c s) config)

  trimmed-numbers :
      (sha256_hex : List ℕ → List ℕ) (parse_ip : List ℕ → Option ℕ) (address type driver : ℕ)
      (x : Station) (s : S)
      → process_trimmed store sha256_hex parse_ip (node_line address type driver) x s
        ≡ provision_numbers store (scan_all 3 (node_arguments address type driver)) x s
  unfolding process_trimmed process_argument provision_node after_prefix
  trimmed-numbers sha256_hex parse_ip address type driver x s = refl

  process_line-Stored :
      (sha256_hex : List ℕ → List ℕ) (parse_ip : List ℕ → Option ℕ) (address type driver : ℕ)
      (x : Station) (s : S)
      → MayIdentify address type driver
      → Stored store
          (identified address type driver x.node.config)
          s
          (process_line store sha256_hex parse_ip (node_line address type driver) x s)
  unfolding process_line
  process_line-Stored sha256_hex parse_ip address type driver x s may =
      let (a1, a2, valid, t2, d1, d2) = may in
      let found =
        scan_all-node_arguments address type driver (omega arith) (omega arith) (omega arith) in
      subst (Stored store (identified address type driver x.node.config) s)
        (sym (
          ap (λ line. process_trimmed store sha256_hex parse_ip line x s)
            (trim-node_line address type driver)
          ∙ trimmed-numbers sha256_hex parse_ip address type driver x s
          ∙ ap (λ o. provision_numbers store o x s) found))
        (provision_numbers-Stored address type driver x s may)

-- What a store promises: a number that was put under a key of the part that is open is the number of
-- that key until another is put, also after the part was closed and opened anew.
pub record IsStore {S : Type 0} (store : Preferences S) (opened : S → List ℕ) : Type 0 where
  pub begin_opens : (part : List ℕ) (ro : Bool) (s : S) → opened (store.begin part ro s).1 ≡ part
  pub put_keeps_open :
      (key : List ℕ) (v : ℕ) (s : S) → opened (store.put_number key v s).1 ≡ opened s
  pub get_put :
      (key : List ℕ) (v d : ℕ) (s : S) → store.get_number key d (store.put_number key v s).1 ≡ v
  pub get_other :
      (key other : List ℕ) (v d : ℕ) (s : S)
      → text_equal key other ≡ false
      → store.get_number key d (store.put_number other v s).1 ≡ store.get_number key d s
  pub reopened :
      (key part : List ℕ) (ro : Bool) (d : ℕ) (s : S)
      → opened s ≡ part
      → store.get_number key d (store.begin part ro (store.close s)).1 ≡ store.get_number key d s

module _ {S : Type 0} (store : Preferences S) (opened : S → List ℕ)
    (laws : IsStore store opened) where
  load_config-store_config :
      (config : NodeConfig) (uid : ℕ) (s : S)
      → (load_config store uid (store_config store config s)).0 ≡ record config { uid = uid }
  unfolding load_config store_config
  load_config-store_config config uid s =
      let part = codes "gridex-mbus" in
      let s1 = (store.begin part false s).1 in
      let s2 = (store.put_number (codes "node_address") config.address s1).1 in
      let s3 = (store.put_number (codes "node_type") config.node_type s2).1 in
      let s4 = (store.put_number (codes "driver_id") config.driver_id s3).1 in
      let open4 =
        laws.put_keeps_open (codes "driver_id") config.driver_id s3
        ∙ laws.put_keeps_open (codes "node_type") config.node_type s2
        ∙ laws.put_keeps_open (codes "node_address") config.address s1
        ∙ laws.begin_opens part false s in
      let address =
        laws.reopened (codes "node_address") part false 0 s4 open4
        ∙ laws.get_other (codes "node_address") (codes "driver_id") config.driver_id 0 s3 refl
        ∙ laws.get_other (codes "node_address") (codes "node_type") config.node_type 0 s2 refl
        ∙ laws.get_put (codes "node_address") config.address 0 s1 in
      let type =
        laws.reopened (codes "node_type") part false 0 s4 open4
        ∙ laws.get_other (codes "node_type") (codes "driver_id") config.driver_id 0 s3 refl
        ∙ laws.get_put (codes "node_type") config.node_type 0 s2 in
      let driver =
        laws.reopened (codes "driver_id") part false 0 s4 open4
        ∙ laws.get_put (codes "driver_id") config.driver_id 0 s3 in
      λ i. record { address = address i; node_type = type i; driver_id = driver i; uid = uid }

  -- A line `node`, with a space before each of an address from 1 to 247, a known type and a driver from 1
  -- to 65535, all written in decimal, is accepted; the node has this identity and its driver is
  -- locked; and after a restart, over a store that keeps what it is given, the node loads the same
  -- identity.
  pub process_line_restart :
      (sha256_hex : List ℕ → List ℕ) (parse_ip : List ℕ → Option ℕ) (address type driver : ℕ)
      (x : Station) (s : S)
      → MayIdentify address type driver
      → let r = process_line store sha256_hex parse_ip (node_line address type driver) x s in
        let config = identified address type driver x.node.config in
        (r.0 ≡ node_stored)
        × (r.1.0.node.config ≡ config)
        × (r.1.0.driver_ready ≡ false)
        × ((load_config store config.uid r.1.1).0 ≡ config)
  process_line_restart sha256_hex parse_ip address type driver x s may =
      let (answered, same, locked, kept) =
        process_line-Stored store sha256_hex parse_ip address type driver x s may in
      let config = identified address type driver x.node.config in
      (
        answered,
        same,
        locked,
        ap (λ t. (load_config store config.uid t).0) kept
            ∙ load_config-store_config config config.uid s,
      )
