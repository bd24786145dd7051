-- ===== src/Mbus/Server/Guard.antt =====
-- Only the ROCK Pi reaches the registers of a node.
use gridex_edge_gateway.Prelude.{
  ℕ, Option, some, ◌≡◌, if-both, ◌≤◌, not, none, arith, ◌⊎◌, Bool, List, inl, false, ◌&&◌, length,
  inr, take, ◌||◌, ap, ◌-◌, ◌==◌, refl, ltb, ◌∙◌, [],
}
use gridex_edge_gateway.Mbus.Server.{
  EthernetControlServer, source_allowed, admit, accept_client, receive, answer_client, has_client,
  loop,
}
use gridex_edge_gateway.Mbus.Node.{MbusNode}
use gridex_edge_gateway.Mbus.Stream.{serve}
use gridex_edge_gateway.Mbus.Command.{elapsed}

-- The peer, if there is one, is the configured ROCK Pi.
abbrev IsPeer : ℕ → Option ℕ → Type 0
IsPeer rock_pi none = Unit
IsPeer rock_pi (some address) = (address ≡ rock_pi) × (1 ≤ rock_pi)

abbrev pub IsGuarded : EthernetControlServer → Type 0
IsGuarded server = IsPeer server.rock_pi_address server.client

admit-IsGuarded :
    (waiting : Option ℕ) (server : EthernetControlServer) → IsGuarded (admit waiting server)
unfolding admit source_allowed
admit-IsGuarded none server = tt
admit-IsGuarded (some address) server =
    if-both IsGuarded (not (source_allowed address server)) _ _ (λ e. tt)
      (λ e. (ground (arith, e), ground (arith, e)))

accept_client-IsGuarded :
    (waiting : Option ℕ) (alive : Bool) (server : EthernetControlServer)
    → IsGuarded server
    → IsGuarded (accept_client waiting alive server)
unfolding accept_client
accept_client-IsGuarded waiting alive server g =
    if-both IsGuarded (has_client server && alive) _ _ (λ e. g)
      (λ e. admit-IsGuarded waiting server)

receive-IsGuarded :
    (now : ℕ) (arrived : List ℕ) (server : EthernetControlServer)
    → IsGuarded server
    → IsGuarded (receive now arrived server)
unfolding receive
receive-IsGuarded now arrived server g =
    if-both IsGuarded (length (take (300 - length server.rx) arrived) == 0) _ _ (λ e. g) (λ e. g)

answer_client-IsGuarded :
    (now : ℕ) (server : EthernetControlServer) (n : MbusNode)
    → IsGuarded server
    → IsGuarded (answer_client now server n).0.0
unfolding answer_client
answer_client-IsGuarded now server n g =
    let r = serve server.unit_id server.rx n in
    if-both IsGuarded (r.3 || (not (length r.1 == 0) && ltb 1000 (elapsed now server.last_byte_ms)))
      _ _ (λ e. tt) (λ e. g)

-- The client of a guarded server, where there is one.
peer_of :
    (rock_pi : ℕ) (client : Option ℕ)
    → IsPeer rock_pi client
    → (client ≡ none) ⊎ ((client ≡ some rock_pi) × (1 ≤ rock_pi))
peer_of rock_pi none g = inl refl
peer_of rock_pi (some address) (same, set) = inr (ap some same, set)

no_client : (server : EthernetControlServer) → server.client ≡ none → has_client server ≡ false
no_client server e = rw e refl

same_rock_pi :
    (waiting : Option ℕ) (alive : Bool) (server : EthernetControlServer)
    → (accept_client waiting alive server).rock_pi_address ≡ server.rock_pi_address
unfolding accept_client admit
same_rock_pi none alive server =
    if-both {A = EthernetControlServer} (λ r. r.rock_pi_address ≡ server.rock_pi_address)
      (has_client server && alive) _ _ (λ e. refl) (λ e. refl)
same_rock_pi (some address) alive server =
    if-both {A = EthernetControlServer} (λ r. r.rock_pi_address ≡ server.rock_pi_address)
      (has_client server && alive) _ _ (λ e. refl)
      (λ e.
        if-both {A = EthernetControlServer} (λ r. r.rock_pi_address ≡ server.rock_pi_address)
          (not (source_allowed address server)) _ _ (λ e1. refl) (λ e1. refl))

first_holds : (a b : Bool) → a ≡ false → ¬ (not (a && b) ≡ false)
first_holds a b off e = ground (arith, off, e)

rock_pi_only :
    (accepted : EthernetControlServer) (rock_pi : ℕ) (lives : Bool)
    → accepted.rock_pi_address ≡ rock_pi
    → IsGuarded accepted
    → not (has_client accepted && lives) ≡ false
    → (accepted.client ≡ some rock_pi) × (1 ≤ rock_pi)
rock_pi_only accepted rock_pi lives same g e =
    elim (peer_of accepted.rock_pi_address accepted.client g) [
      | inl nobody ↦ absurd (first_holds (has_client accepted) lives (no_client accepted nobody) e)
      | inr (peer, set) ↦ (peer ∙ ap some same, omega (arith, same))
    ]

-- In a server whose client, if there is one, is the configured ROCK Pi, that stays so in every turn.
-- A turn leaves the node as it was and writes no answer, unless the ROCK Pi is configured and is
-- the client.
pub loop-IsGuarded :
    (now : ℕ) (waiting : Option ℕ) (alive lives : Bool) (arrived : List ℕ)
    (server : EthernetControlServer) (n : MbusNode)
    → IsGuarded server
    → let r = loop now waiting alive lives arrived server n in
      IsGuarded r.0.0
      × (((r.0.1 ≡ n) × (r.1 ≡ []))
          ⊎ (((accept_client waiting alive server).client ≡ some server.rock_pi_address)
              × (1 ≤ server.rock_pi_address)))
unfolding loop
loop-IsGuarded now waiting alive lives arrived server n g =
    let accepted = accept_client waiting alive server in
    let g' = accept_client-IsGuarded waiting alive server g in
    if-both {A = (EthernetControlServer × MbusNode) × List ℕ}
      (λ r.
        IsGuarded r.0.0
        × (((r.0.1 ≡ n) × (r.1 ≡ []))
            ⊎ ((accepted.client ≡ some server.rock_pi_address) × (1 ≤ server.rock_pi_address))))
      (not (has_client accepted && lives)) _ _ (λ e. (g', inl (refl, refl)))
      (λ e. (
        answer_client-IsGuarded now (receive now arrived accepted) n
            (receive-IsGuarded now arrived accepted g'),
        inr (
            rock_pi_only accepted server.rock_pi_address lives (same_rock_pi waiting alive server)
              g' e),
      ))
