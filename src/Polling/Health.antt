-- ===== src/Polling/Health.antt =====
-- What a cycle of polls does to the samples of the nodes.
use gridex_edge_gateway.Prelude.{
  ℕ, ◌≡◌, List, Option, true, length, some, ◌∷◌, arith, none, not, [], get_or, ◌==◌, refl, Bool,
  false, is_some, ◌&&◌, ◌+◌, ◌%◌, ◌^◌, if◌then◌else◌,
}
use gridex_edge_gateway.Telemetry.{
  NodePollStatus, unknown, online, identity_failure, MbusNodeTelemetry,
}
use gridex_edge_gateway.Tcp.{Socket, TcpClient}
use gridex_edge_gateway.Tcp.Calls.{read_holding_range}
use gridex_edge_gateway.Polling.{failed, poll_node, poll_cycle, after_identity, after_telemetry}

-- The three ways to fail: a transport failure, another identity, and no telemetry.
abbrev pub IsFailure : NodePollStatus → Type 0
IsFailure unknown = ⊥
IsFailure online = ⊥
IsFailure _ = Unit

-- What is known of the node stays, but for the mark, the reason and one failure more.
abbrev pub IsLost : MbusNodeTelemetry → MbusNodeTelemetry → Type 0
IsLost sample sample' =
    IsFailure sample'.poll_status
    × (sample' ≡ record sample {
      online = false;
      poll_status = sample'.poll_status;
      consecutive_failures = (sample.consecutive_failures + 1) % 2 ^ 32;
    })

abbrev has_magic : Option (List ℕ) → Bool
has_magic none = false
has_magic (some identity) = get_or identity 0 0 == 0x4758

abbrev pub Either : Bool → Type 0 → Type 0 → Type 0
Either true A B = A
Either false A B = B

module _ (steady_now system_now : ℕ) where
  -- The node answered now.
  abbrev pub IsSeen : MbusNodeTelemetry → Type 0
  IsSeen sample =
      (sample.online ≡ true)
      × (sample.poll_status ≡ online)
      × (sample.consecutive_failures ≡ 0)
      × (sample.last_seen ≡ steady_now)
      × (sample.last_successful_contact ≡ system_now)

  module _ {S : Type 0} (socket : Socket S) where
    -- Whether the node answers on this connection: 13 registers from 0 on that start with the magic
    -- number, and then 6 registers from 0x40 on.
    abbrev pub answers : TcpClient × S → Bool
    answers x =
        let (identity, x') = read_holding_range socket 0 13 x in
        let (telemetry, _) = read_holding_range socket 0x40 6 x' in
        has_magic identity && is_some telemetry

    abbrev pub ArePolled :
        List MbusNodeTelemetry → List (TcpClient × S) → List MbusNodeTelemetry → Type 0
    ArePolled [] xs [] = Unit
    ArePolled (sample ∷ samples) (x ∷ xs) (sample' ∷ samples') =
        Either (answers x) (IsSeen sample') (IsLost sample sample') × ArePolled samples xs samples'
    ArePolled _ _ _ = ⊥

    after_telemetry-polled :
        (identity : List ℕ) (telemetry : Option (List ℕ)) (sample : MbusNodeTelemetry)
        (x : TcpClient × S)
        → let r = (after_telemetry socket steady_now system_now identity telemetry sample x).0 in
          Either (is_some telemetry) (IsSeen r) (IsLost sample r)
    unfolding after_telemetry failed
    after_telemetry-polled identity none sample x = (tt, refl)
    after_telemetry-polled identity (some telemetry) sample x = (refl, refl, refl, refl, refl)

    after_identity-polled :
        (identity : Option (List ℕ)) (sample : MbusNodeTelemetry) (x : TcpClient × S)
        → let r = (after_identity socket steady_now system_now identity sample x).0 in
          Either
            (has_magic identity && is_some (read_holding_range socket 0x40 6 x).0)
            (IsSeen r)
            (IsLost sample r)
    unfolding after_identity failed
    after_identity-polled none sample x = (tt, refl)
    after_identity-polled (some identity) sample x =
        let (telemetry, x') = read_holding_range socket 0x40 6 x in
        marked (get_or identity 0 0 == 0x4758) (is_some telemetry) _
          (after_telemetry-polled identity telemetry sample x')
      where
        marked :
            (b t : Bool) (r : MbusNodeTelemetry × (TcpClient × S))
            → Either t (IsSeen r.0) (IsLost sample r.0)
            → let r' : MbusNodeTelemetry × (TcpClient × S) =
                if not b then (failed identity_failure sample, x) else r in
              Either (b && t) (IsSeen r'.0) (IsLost sample r'.0)
        marked true t r h = h
        marked false t r h = (tt, refl)

    -- A cycle polls every node once, each on its own connection. A node whose answers are complete, with the
    -- magic number in front, is seen now, without failures. Every other keeps all that is known of it, and
    -- is marked as not online, with one failure more and one of three reasons.
    pub poll_cycle-ArePolled :
        (samples : List MbusNodeTelemetry) (xs : List (TcpClient × S))
        → length samples ≡ length xs
        → ArePolled samples xs (poll_cycle socket steady_now system_now samples xs).0
    unfolding poll_cycle poll_node
    poll_cycle-ArePolled [] xs e = tt
    poll_cycle-ArePolled (sample ∷ samples) [] e = absurd (omega arith)
    poll_cycle-ArePolled (sample ∷ samples) (x ∷ xs) e =
        let (identity, x') = read_holding_range socket 0 13 x in
        (after_identity-polled identity sample x', poll_cycle-ArePolled samples xs (omega arith))
