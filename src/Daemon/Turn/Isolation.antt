-- ===== src/Daemon/Turn/Isolation.antt =====
-- What the reports and the nodes can do to the control of the storage system.
use gridex_edge_gateway.Prelude.{
  ℕ, suc, ◌≡◌, refl, arith, List, [], ◌∷◌, length, ap, sym, ◌∙◌, ◌==◌, replicate, zero, Bool-cases,
  inl, inr,
}
use gridex_edge_gateway.Double.{Double}
use gridex_edge_gateway.Modbus.{ModbusClient}
use gridex_edge_gateway.Telemetry.{NodePollStatus, MbusNodeTelemetry, unknown}
use gridex_edge_gateway.Tcp.{Socket}
use gridex_edge_gateway.Controller.{ControllerSnapshot}
use gridex_edge_gateway.Northbound.Bank.{NorthboundRegisterBank, take_node_command}
use gridex_edge_gateway.Northbound.Publish.{publish, publish_node}
use gridex_edge_gateway.Mqtt.Publish.{Publish}
use gridex_edge_gateway.Journal.{TelemetryJournal, FileSystem}
use gridex_edge_gateway.Daemon.Nodes.{resized, publish_nodes, journal_node, dispatch_node}
use gridex_edge_gateway.Daemon.Turn.{
  Gateway, Control, TurnInput, ReportConfig, steer, serve_all, turn, turns,
}

-- The samples in the register bank.
abbrev pub publish_all :
    ℕ → ℕ → List MbusNodeTelemetry → NorthboundRegisterBank → NorthboundRegisterBank
publish_all now slot [] b = b
publish_all now slot (sample ∷ samples) b =
    publish_all now (suc slot) samples (publish_node now slot sample b)

-- What a turn makes of its control: the registers that show it.
abbrev pub shown :
    {S : Type 0} → TurnInput → ControllerSnapshot × Control S → ControllerSnapshot × Control S
shown i (snapshot, k) =
    let b = publish snapshot k.controller.config.configured_limit (take_node_command k.bank).1 in
    (snapshot, record k { bank = publish_all i.now 0 i.samples b })

-- A turn without reports and without nodes that answer.
abbrev pub bare_turn :
    {S : Type 0} → ModbusClient S → TurnInput → Control S → ControllerSnapshot × Control S
bare_turn client i k =
    shown i (steer client i.now (record k { bank = serve_all i.requests k.bank }))

abbrev pub bare_turns :
    {S : Type 0} → ModbusClient S → List TurnInput → Control S → List ControllerSnapshot × Control S
bare_turns client [] k = ([], k)
bare_turns client (i ∷ is) k =
    let (snapshot, k') = bare_turn client i k in
    let (snapshots, k'') = bare_turns client is k' in (snapshot ∷ snapshots, k'')

length-replicate_unknown : (n : ℕ) → length (replicate n unknown) ≡ n
length-replicate_unknown zero = refl
length-replicate_unknown (suc n) = ap suc (length-replicate_unknown n)

length-resized : (n : ℕ) (statuses : List NodePollStatus) → length (resized n statuses) ≡ n
unfolding resized
length-resized n statuses = elim (Bool-cases (length statuses == n)) [
  | inl e ↦ rw e (ground (arith, e))
  | inr e ↦ rw e (length-replicate_unknown n)
]

publish_nodes-bank :
    {F : Type 0} (fs : FileSystem F) (observed_at : List ℕ) (show_double : Double → List ℕ)
    (now slot : ℕ) (samples : List MbusNodeTelemetry) (statuses : List NodePollStatus)
    (b : NorthboundRegisterBank) (x : TelemetryJournal × F)
    → length statuses ≡ length samples
    → (publish_nodes fs observed_at show_double now slot samples statuses (b, x)).1.0
      ≡ publish_all now slot samples b
unfolding publish_nodes
publish_nodes-bank fs observed_at show_double now slot [] [] b x e = refl
publish_nodes-bank fs observed_at show_double now slot [] (p ∷ statuses) b x e =
    absurd (omega arith)
publish_nodes-bank fs observed_at show_double now slot (sample ∷ samples) [] b x e =
    absurd (omega arith)
publish_nodes-bank fs observed_at show_double now slot (sample ∷ samples) (p ∷ statuses) b x e =
    publish_nodes-bank fs observed_at show_double now (suc slot) samples statuses
      (publish_node now slot sample b) (journal_node fs observed_at show_double now slot sample p x)
      (omega arith)

module _ {S N F M : Type 0} (client : ModbusClient S) (socket : Socket N)
    (publish_message : Publish M) (timestamp : ℕ → List ℕ) (show_double : Double → List ℕ)
    (fs : FileSystem F) (config : ReportConfig) where
  turn-bare :
      (i : TurnInput) (g : Gateway S N F M)
      → let r = turn publish_message timestamp show_double fs config client socket i g in
        let bare = bare_turn client i g.control in (r.0 ≡ bare.0) × (r.1.control ≡ bare.1)
  unfolding turn dispatch_node
  turn-bare i g =
      let k =
        steer client i.now (record (g.control) { bank = serve_all i.requests g.control.bank }) in
      (
        refl,
        ap (λ b. record (k.1) { bank = b })
            (publish_nodes-bank fs i.observed_at show_double i.now 0 i.samples
              (resized (length i.samples) g.reports.statuses) _ g.reports.journal
              (length-resized (length i.samples) g.reports.statuses)),
      )

  pub turns-bare :
      (is : List TurnInput) (g : Gateway S N F M)
      → let r = turns publish_message timestamp show_double fs config client socket is g in
        let bare = bare_turns client is g.control in (r.0 ≡ bare.0) × (r.1.control ≡ bare.1)
  unfolding turns
  turns-bare [] g = (refl, refl)
  turns-bare (i ∷ is) g =
      let (same, next) = turn-bare i g in
      let g' = (turn publish_message timestamp show_double fs config client socket i g).1 in
      let (rest, last) = turns-bare is g' in
      let first = rest ∙ ap (λ k. (bare_turns client is k).0) next in
      (λ j. same j ∷ first j, last ∙ ap (λ k. (bare_turns client is k).1) next)

-- Two gateways that start with the same controller, driver, register bank and storage system, and see
-- the same clock, requests and samples, go through the same turns: the same snapshots, the same
-- registers and the same state of the storage system. Their brokers, their journals on disk, their
-- nodes behind the sockets, and the settings of their reports may differ, fail or not.
pub turns_isolated :
    {S N N' F F' M M' : Type 0} (client : ModbusClient S) (timestamp : ℕ → List ℕ)
    (show_double : Double → List ℕ) (socket : Socket N) (publish_message : Publish M)
    (fs : FileSystem F) (config : ReportConfig) (g : Gateway S N F M) (socket' : Socket N')
    (publish_message' : Publish M') (fs' : FileSystem F') (config' : ReportConfig)
    (g' : Gateway S N' F' M') (is : List TurnInput)
    → g.control ≡ g'.control
    → let r = turns publish_message timestamp show_double fs config client socket is g in
      let r' = turns publish_message' timestamp show_double fs' config' client socket' is g' in
      (r.0 ≡ r'.0) × (r.1.control ≡ r'.1.control)
turns_isolated client timestamp show_double socket publish_message fs config g socket'
      publish_message' fs' config' g' is e =
    let (here, end) =
      turns-bare client socket publish_message timestamp show_double fs config is g in
    let (here', end') =
      turns-bare client socket' publish_message' timestamp show_double fs' config' is g' in
    (
      here ∙ ap (λ k. (bare_turns client is k).0) e ∙ sym here',
      end ∙ ap (λ k. (bare_turns client is k).1) e ∙ sym end',
    )
