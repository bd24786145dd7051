-- ===== src/Polling/Reach.antt =====
-- A command from the gateway's polling service to the device of a node: `applyPowerCommand` of the
-- service, the connection, the node's server and its registers, and the node's `applyCommand`.
use gridex_edge_gateway.Prelude.{
  length, if◌then◌else◌, Bool, ℕ, ◌<◌, List, ◌≡◌, arith, false, ◌++◌, ◌≤◌, ◌∷◌, ap, [], refl, ◌≢◌,
  ◌==◌, true, not, ltb, ◌*◌, ◌&&◌, get_or, copy_to, ◌+◌, get_or-copy_to_within, ◌∙◌, sym,
}
use gridex_edge_gateway.Double.{Double, fin, nan, pos_inf, neg_inf, round_scaled, to_ℤ}
use gridex_edge_gateway.Prelude.Int.{ℤ, pos, negsuc}
use gridex_edge_gateway.Prelude.Words.{int16, u16_of}
use gridex_edge_gateway.Northbound.Server.Words.{AreWords}
use gridex_edge_gateway.Mbus.Reg as Reg
use gridex_edge_gateway.Tcp.{Socket, TcpClient, Call}
use gridex_edge_gateway.Polling.{on_slot, command_refused, command_start, apply_power_command}
use gridex_edge_gateway.Mbus.Command.{
  apply_command, take_new_command, PowerCommand, CommandState, ttl_valid, elapsed,
}
use gridex_edge_gateway.Mbus.Node.{register_value, MbusNode}
use gridex_edge_gateway.Mbus.Control.Write.{WriteFits}
use gridex_edge_gateway.Tcp.Link.{link, ready}
use gridex_edge_gateway.Tcp.Link.Node.{node_peer, write_holding_range-node}
use gridex_edge_gateway.Tcp.Calls.{write_holding_range}

-- The call goes to the client of the slot, and the others stay.
on_slot-append :
    {S : Type 0} (socket : Socket S) (call : Call S Bool) (before after : List (TcpClient × S))
    (x : TcpClient × S)
    → on_slot socket (length before) call (before ++ (x ∷ after))
      ≡ ((call x).0, before ++ ((call x).1 ∷ after))
unfolding on_slot
on_slot-append socket call [] after x = refl
on_slot-append socket call (y ∷ before) after x =
    ap (λ r. (r.0, y ∷ r.1)) (on_slot-append socket call before after x)

-- The power in tenths of a kW.
abbrev pub tenths : Double → ℤ
tenths power = to_ℤ (round_scaled power 10)

-- A command that is not refused has a power that a register holds, and a valid TTL.
power_fits :
    (nodes slot : ℕ) (power : Double) (ttl : ℕ)
    → command_refused nodes slot power ttl ≡ false
    → int16 (u16_of (tenths power)) ≡ tenths power
unfolding command_refused round_scaled to_ℤ u16_of int16
power_fits nodes slot nan ttl h = ground arith
power_fits nodes slot neg_inf ttl h = ground arith
power_fits nodes slot pos_inf ttl h = ground arith
power_fits nodes slot (fin (pos m)) ttl h = ground arith
power_fits nodes slot (fin (negsuc m)) ttl h = ground arith

ttl_fits :
    (nodes slot : ℕ) (power : Double) (ttl : ℕ)
    → command_refused nodes slot power ttl ≡ false
    → (1 ≤ ttl) × (ttl ≤ 30)
unfolding command_refused
ttl_fits nodes slot power ttl h = ground arith

u16_of-IsU16 : (a : ℤ) → u16_of a < 65536
unfolding u16_of
u16_of-IsU16 (pos n) = omega arith
u16_of-IsU16 (negsuc n) = omega arith

no_end : {A : Type 0} (b : Bool) (x y : A) → (if b && false then x else y) ≡ y
no_end true x y = refl
no_end false x y = refl

-- A sequence number that is new, with a valid TTL: the device is told the power, if the command enables,
-- and the same turn does not end the command.
new_command :
    {S : Type 0} (drive : PowerCommand S) (now : ℕ) (c : CommandState) (enabled : Bool) (s : S)
    → register_value Reg.command_sequence c.node ≢ c.last_command_sequence
    → (register_value Reg.command_enable c.node == 1) ≡ enabled
    → ttl_valid (register_value Reg.command_ttl_seconds c.node) ≡ true
    → (apply_command drive now c s).1 ≡ (
        if enabled
        then (drive (int16 (register_value Reg.requested_power_kw_x10 c.node)) s).1
        else s)
unfolding apply_command take_new_command
new_command drive now c true s new enable valid =
    let fresh : not (register_value Reg.command_sequence c.node == c.last_command_sequence) ≡ true =
      ground arith in
    let young : ltb (register_value Reg.command_ttl_seconds c.node * 1000) (elapsed now now)
        ≡ false =
      ground arith in
    rw (fresh, enable, valid, young) (ap {A = CommandState × _} (λ r. r.1) (no_end _ _ _))
new_command drive now c false s new enable valid =
    let fresh : not (register_value Reg.command_sequence c.node == c.last_command_sequence) ≡ true =
      ground arith in
    rw (fresh, enable) refl

-- The four registers of a command.
abbrev command_values : ℕ → Double → Bool → ℕ → List ℕ
command_values sequence power enabled ttl =
    sequence ∷ u16_of (tenths power) ∷ (if enabled then 1 else 0) ∷ ttl ∷ []

-- The node takes the command.
abbrev pub Ready : MbusNode → Type 0
Ready n =
    (length n.registers ≡ Reg.holding_count)
    × (1 ≤ n.config.address)
    × (get_or n.registers Reg.apply_configuration 0 ≢ Reg.apply_key)

fits :
    (sequence : ℕ) (power : Double) (enabled : Bool) (ttl : ℕ) (n : MbusNode)
    → sequence < 65536
    → ttl ≤ 30
    → Ready n
    → WriteFits command_start (command_values sequence power enabled ttl) n
fits sequence power true ttl n small short (size, own, idle) =
    let words : AreWords (command_values sequence power true ttl) =
      (small, (u16_of-IsU16 (tenths power), (omega arith, (omega arith, tt)))) in
    (words, omega arith, omega arith, omega arith, size, own, idle)
fits sequence power false ttl n small short (size, own, idle) =
    let words : AreWords (command_values sequence power false ttl) =
      (small, (u16_of-IsU16 (tenths power), (omega arith, (omega arith, tt)))) in
    (words, omega arith, omega arith, omega arith, size, own, idle)

flag : (b : Bool) → ((if b then 1 else 0) == 1) ≡ b
flag true = refl
flag false = refl

-- The node after the command.
abbrev pub with_command : ℕ → Double → Bool → ℕ → MbusNode → MbusNode
with_command sequence power enabled ttl n = record n {
  registers = copy_to command_start (command_values sequence power enabled ttl) n.registers;
}

module _ (sequence : ℕ) (power : Double) (enabled : Bool) (ttl : ℕ) (n : MbusNode)
    (size : length n.registers ≡ Reg.holding_count) where
  command_register :
      (i : ℕ)
      → i < 4
      → register_value (command_start + i) (with_command sequence power enabled ttl n)
        ≡ get_or (command_values sequence power enabled ttl) i 0
  unfolding register_value
  command_register i h =
      get_or-copy_to_within command_start (command_values sequence power enabled ttl) n.registers i
        0 (omega arith) (omega arith)

  -- What the device of the node is told.
  told :
      {S : Type 0} (nodes slot : ℕ) (drive : PowerCommand S) (now last_ms last : ℕ) (armed : Bool)
      (s : S)
      → command_refused nodes slot power ttl ≡ false
      → sequence ≢ last
      → (apply_command drive now
          (record {
            node = with_command sequence power enabled ttl n;
            last_command_ms = last_ms;
            last_command_sequence = last;
            command_armed = armed;
          })
          s).1
        ≡ (if enabled then (drive (tenths power) s).1 else s)
  told nodes slot drive now last_ms last armed s accepted new =
      let (some_seconds, short) = ttl_fits nodes slot power ttl accepted in
      let n' = with_command sequence power enabled ttl n in
      let enable : (register_value Reg.command_enable n' == 1) ≡ enabled =
        rw (command_register 2 (omega arith)) (flag enabled) in
      let valid : ttl_valid (register_value Reg.command_ttl_seconds n') ≡ true =
        rw (command_register 3 (omega arith)) (ground arith) in
      let requested : int16 (register_value Reg.requested_power_kw_x10 n') ≡ tenths power =
        ap int16 (command_register 1 (omega arith)) ∙ power_fits nodes slot power ttl accepted in
      new_command drive now
        (record {
          node = n';
          last_command_ms = last_ms;
          last_command_sequence = last;
          command_armed = armed;
        })
        enabled s (λ e. new (sym (command_register 0 (omega arith)) ∙ e)) enable valid
      ∙ ap (λ p. if enabled then (drive p s).1 else s) requested

-- A command of the gateway that the service does not refuse, to a slot whose node is there, holds all its
-- registers, has an address and no configuration pending, and whose sequence number is a word other than
-- the last one that the node took, be it above or below: the service reports success, the node holds
-- the command, and the next turn of the node gives its device the power, rounded to tenths of a kW,
-- if the command enables, and else leaves the device. However the answer is split on the way.
pub command_reaches_device :
    {S : Type 0} (chunk : List ℕ → ℕ) (before after : List (TcpClient × (MbusNode × List ℕ)))
    (c : TcpClient) (n : MbusNode) (power : Double) (enabled : Bool) (sequence ttl : ℕ)
    (drive : PowerCommand S) (now last_ms last : ℕ) (armed : Bool) (s : S)
    → Ready n
    → sequence < 65536
    → sequence ≢ last
    → command_refused (length (before ++ ((c, (n, [])) ∷ after))) (length before) power ttl ≡ false
    → let n' = with_command sequence power enabled ttl n in
      (apply_power_command
          (link (node_peer c.unit_id) chunk)
          (length before)
          power
          enabled
          sequence
          ttl
          (before ++ ((c, (n, [])) ∷ after))
        ≡ (true, before ++ ((ready c, (n', [])) ∷ after)))
      × ((apply_command drive now
            (record {
              node = n';
              last_command_ms = last_ms;
              last_command_sequence = last;
              command_armed = armed;
            })
            s).1
          ≡ (if enabled then (drive (tenths power) s).1 else s))
unfolding apply_power_command
command_reaches_device chunk before after c n power enabled sequence ttl drive now last_ms last
      armed s there small new accepted =
    let (some_seconds, short) = ttl_fits _ (length before) power ttl accepted in
    let values = command_values sequence power enabled ttl in
    let socket = link (node_peer c.unit_id) chunk in
    (
      rw accepted (
          on_slot-append socket (write_holding_range socket command_start values) before after
            (c, (n, []))
          ∙ ap (λ r. (r.0, before ++ (r.1 ∷ after)))
              (write_holding_range-node chunk command_start values c n
                (fits sequence power enabled ttl n small short there))),
      told sequence power enabled ttl n there.0 _ (length before) drive now last_ms last armed s
          accepted new,
    )
