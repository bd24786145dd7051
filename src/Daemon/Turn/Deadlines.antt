-- ===== src/Daemon/Turn/Deadlines.antt =====
-- When the control loop reports.
use gridex_edge_gateway.Prelude.{
  ℕ, suc, ◌≡◌, arith, ◌≤◌, Bool, true, false, leb, List, [], ◌∷◌, length, ◌++◌, sym, if◌then◌else◌,
  if-both, ◌+◌, ap,
}
use gridex_edge_gateway.Double.{Double}
use gridex_edge_gateway.Controller.{ControllerSnapshot}
use gridex_edge_gateway.Mqtt.Publish.{Publish}
use gridex_edge_gateway.Journal.{FileSystem}
use gridex_edge_gateway.Daemon.Turn.{
  Reports, TurnInput, ReportConfig, Gateway, turn, turns, serve_all, steer,
}
use gridex_edge_gateway.Modbus.{ModbusClient}
use gridex_edge_gateway.Tcp.{Socket}
use gridex_edge_gateway.Daemon.Nodes.{dispatch_node, publish_nodes, resized}
use gridex_edge_gateway.Northbound.Publish.{publish}
use mathlib.Core.Path.{subst}
use gridex_edge_gateway.Daemon.Turn.Messages.{CanPublish, IsReported, report-IsReported}

-- How many turns of a run are at or after the deadline of the health message, where each such turn puts
-- off the deadline by the interval.
abbrev pub due_turns : ℕ → ℕ → List TurnInput → ℕ
due_turns interval next [] = 0
due_turns interval next (i ∷ is) =
    let reported = suc (due_turns interval (i.now + interval) is) in
    let waiting = due_turns interval next is in if leb next i.now then reported else waiting

-- There is one, if a turn is late enough.
some_due :
    (interval next : ℕ) (before : List TurnInput) (i : TurnInput) (after : List TurnInput)
    → next ≤ i.now
    → 1 ≤ due_turns interval next (before ++ (i ∷ after))
some_due interval next [] i after due =
    if-both (λ n. 1 ≤ n) (leb next i.now) _ _ (λ _. omega arith) (λ e. absurd (ground (arith, e)))
some_due interval next (j ∷ before) i after due =
    if-both (λ n. 1 ≤ n) (leb next j.now) _ _ (λ _. omega arith)
      (λ _. some_due interval next before i after due)

one_turn :
    (due : Bool) (is : List TurnInput) (interval now next next' c c' total : ℕ)
    → next' ≡ (if due then now + interval else next)
    → c' ≡ (if due then suc c else c)
    → total ≡ c' + due_turns interval next' is
    → total
      ≡ c
        + (if due then suc (due_turns interval (now + interval) is) else due_turns interval next is)
one_turn true is interval now next next' c c' total deadline counted rest =
    omega (arith, rest, counted, ap (λ n. due_turns interval n is) deadline)
one_turn false is interval now next next' c c' total deadline counted rest =
    omega (arith, rest, counted, ap (λ n. due_turns interval n is) deadline)

module _ {F M : Type 0} (publish_message : Publish M) (count : M → ℕ)
    (counts : (topic payload : List ℕ) (retain : Bool) (m : M)
      → count (publish_message topic payload retain m).1
        ≡ (if retain then suc (count m) else count m))
    (timestamp : ℕ → List ℕ) (show_double : Double → List ℕ) (fs : FileSystem F)
    (config : ReportConfig) {S N : Type 0} (client : ModbusClient S) (socket : Socket N) where
  abbrev next : TurnInput → Gateway S N F M → Gateway S N F M
  next i g = (turn publish_message timestamp show_double fs config client socket i g).1

  abbrev last : List TurnInput → Gateway S N F M → Gateway S N F M
  last is g = (turns publish_message timestamp show_double fs config client socket is g).1

  abbrev snapshot_of : TurnInput → Gateway S N F M → ControllerSnapshot
  snapshot_of i g = (turn publish_message timestamp show_double fs config client socket i g).0

  -- The reports of a turn start with the statuses and the journal of its transitions.
  abbrev start_of : TurnInput → Gateway S N F M → Reports F M
  start_of i g =
      let served = serve_all i.requests g.control.bank in
      let (snapshot, k) = steer client i.now (record (g.control) { bank = served }) in
      let b = (dispatch_node socket k.bank g.nodes).1 in
      let (statuses, (b', journal)) =
        publish_nodes fs i.observed_at show_double i.now 0 i.samples
          (resized (length i.samples) g.reports.statuses)
          (publish snapshot k.controller.config.configured_limit b, g.reports.journal) in
      record (g.reports) { statuses = statuses; journal = journal }

  next-IsReported :
      (i : TurnInput) (g : Gateway S N F M)
      → CanPublish config g.reports.publisher
      → IsReported publish_message count counts timestamp show_double fs config i g.reports
          (next i g).reports
  unfolding turn
  next-IsReported i g can =
      report-IsReported publish_message count counts timestamp show_double fs config i
        (snapshot_of i g) (start_of i g) can

  last-count :
      (is : List TurnInput) (g : Gateway S N F M)
      → CanPublish config g.reports.publisher
      → count (last is g).reports.broker
        ≡ count g.reports.broker + due_turns config.health_interval g.reports.next_health is
  unfolding turns
  last-count [] g can = omega arith
  last-count (i ∷ is) g can =
      let g' = next i g in
      let (deadline, same, counted) = next-IsReported i g can in
      let rest = last-count is g' (subst (CanPublish config) (sym same) can) in
      one_turn (leb g.reports.next_health i.now) is config.health_interval i.now
        g.reports.next_health g'.reports.next_health (count g.reports.broker)
        (count g'.reports.broker) (count (last is g').reports.broker) deadline counted rest

  -- While the publisher is connected and the site and the gateway have names, a run gives the broker
  -- exactly as many retained messages as it has turns at or after the deadline of the health message,
  -- which each of them puts off by the interval: no other report is retained. And with a turn
  -- at or after the first deadline there is one, whatever the other turns, reports and journals do, and
  -- whether or not the broker takes a message.
  pub health_is_reported :
      (before : List TurnInput) (i : TurnInput) (after : List TurnInput) (g : Gateway S N F M)
      → CanPublish config g.reports.publisher
      → g.reports.next_health ≤ i.now
      → let is = before ++ (i ∷ after) in
        let reports = due_turns config.health_interval g.reports.next_health is in
        (count (last is g).reports.broker ≡ count g.reports.broker + reports) × (1 ≤ reports)
  health_is_reported before i after g can due = (
    last-count (before ++ (i ∷ after)) g can,
    some_due config.health_interval g.reports.next_health before i after due,
  )
