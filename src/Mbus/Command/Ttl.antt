-- ===== src/Mbus/Command/Ttl.antt =====
-- What `applyCommand` promises about the power of the device.
use gridex_edge_gateway.Prelude.{
  ℕ, ◌≡◌, refl, arith, ◌<◌, ◌*◌, ◌≢◌, ltb, ◌==◌, true, false, get_or-set_self, get_or-set_ne,
  length, if◌then◌else◌, ◌++◌, List, [], ◌∷◌, sym, ◌∙◌, not, ◌&&◌, set, length-set, ◌≤◌, ap,
}
use gridex_edge_gateway.Prelude.Int.{ℤ, pos}
use gridex_edge_gateway.Prelude.Words.{int16, u16_of}
use gridex_edge_gateway.Mbus.Node.{MbusNode, register_value, set_register}
use gridex_edge_gateway.Mbus.Command.{
  PowerCommand, CommandState, apply_command, expire, elapsed, ttl_valid,
}
use gridex_edge_gateway.Mbus.Reg as Reg
use mathlib.Core.Path.{subst}

-- The registers are all there.
abbrev pub HasRegisters : CommandState → Type 0
HasRegisters c = length c.node.registers ≡ Reg.holding_count

-- The registers of the result are not those of a command.
command_same :
    (a v w : ℕ) (n : MbusNode)
    → a ≢ Reg.last_command_result
    → a ≢ Reg.applied_power_kw_x10
    → register_value a
        (set_register Reg.last_command_result v (set_register Reg.applied_power_kw_x10 w n))
      ≡ register_value a n
unfolding register_value set_register
command_same a v w n other other' =
    get_or-set_ne (set n.registers Reg.applied_power_kw_x10 w) Reg.last_command_result a v 0
      (λ e. other (sym e))
    ∙ get_or-set_ne n.registers Reg.applied_power_kw_x10 a w 0 (λ e. other' (sym e))

results :
    (c : CommandState) (v w : ℕ)
    → HasRegisters c
    → let n =
        set_register Reg.last_command_result v (set_register Reg.applied_power_kw_x10 w c.node) in
      (register_value Reg.applied_power_kw_x10 n ≡ w)
      × (register_value Reg.last_command_result n ≡ v)
unfolding register_value set_register
results c v w size =
    let inner = set c.node.registers Reg.applied_power_kw_x10 w in
    let long : Reg.last_command_result < length inner =
      omega (arith, length-set c.node.registers Reg.applied_power_kw_x10 w, size) in
    (
      rw (get_or-set_ne inner Reg.last_command_result Reg.applied_power_kw_x10 v 0 (omega arith))
          (get_or-set_self c.node.registers Reg.applied_power_kw_x10 w 0 (omega arith)),
      get_or-set_self inner Reg.last_command_result v 0 long,
    )

-- A turn of the loop: its time, and what else happened to the node since the turn before.
abbrev pub CommandTurn : Type 0
CommandTurn = ℕ × (MbusNode → MbusNode)

abbrev pub Keeps : ℕ → (MbusNode → MbusNode) → Type 0
Keeps a change = (n : MbusNode) → register_value a (change n) ≡ register_value a n

abbrev pub KeepsCommand : (MbusNode → MbusNode) → Type 0
KeepsCommand change = Keeps Reg.command_sequence change × Keeps Reg.command_ttl_seconds change

abbrev pub KeepSequence : List CommandTurn → Type 0
KeepSequence [] = Unit
KeepSequence ((now, change) ∷ turns) = Keeps Reg.command_sequence change × KeepSequence turns

-- Turns within the time-to-live of a command.
abbrev pub AreWithin : ℕ → ℕ → List CommandTurn → Type 0
AreWithin started ttl [] = Unit
AreWithin started ttl ((now, change) ∷ turns) =
    KeepsCommand change × (elapsed now started ≤ ttl * 1000) × AreWithin started ttl turns

abbrev pub requested_power : CommandState → ℤ
requested_power c = int16 (register_value Reg.requested_power_kw_x10 c.node)

-- After a command that was accepted.
abbrev taken_state : ℕ → CommandState → CommandState
taken_state now c = record {
  node =
      set_register Reg.last_command_result 1
        (set_register Reg.applied_power_kw_x10 (u16_of (requested_power c)) c.node);
  last_command_ms = now;
  last_command_sequence = register_value Reg.command_sequence c.node;
  command_armed = true;
}

no_time : (now : ℕ) → elapsed now now ≡ 0
no_time now = omega arith

expired_sequence :
    {S : Type 0} (drive : PowerCommand S) (c : CommandState) (s : S)
    → register_value Reg.command_sequence (expire drive c s).0.node
      ≡ register_value Reg.command_sequence c.node
unfolding expire
expired_sequence drive c s =
    command_same Reg.command_sequence 3 0 c.node (λ e. omega (arith, e)) (λ e. omega (arith, e))

module _ {S : Type 0} (apply_power_command : PowerCommand S) where
  -- The two parts of `applyCommand` put together.
  expires :
      (now : ℕ) (c : CommandState) (s : S)
      → not (register_value Reg.command_sequence c.node == c.last_command_sequence) ≡ false
      → c.command_armed ≡ true
      → ltb (register_value Reg.command_ttl_seconds c.node * 1000) (elapsed now c.last_command_ms)
        ≡ true
      → apply_command apply_power_command now c s ≡ expire apply_power_command c s
  unfolding apply_command
  expires now c s e a l = rw (e, a, l) refl

  keeps :
      (now : ℕ) (c : CommandState) (s : S)
      → not (register_value Reg.command_sequence c.node == c.last_command_sequence) ≡ false
      → c.command_armed ≡ true
      → ltb (register_value Reg.command_ttl_seconds c.node * 1000) (elapsed now c.last_command_ms)
        ≡ false
      → apply_command apply_power_command now c s ≡ (c, s)
  unfolding apply_command
  keeps now c s e a l = rw (e, a, l) refl

  idles :
      (now : ℕ) (c : CommandState) (s : S)
      → not (register_value Reg.command_sequence c.node == c.last_command_sequence) ≡ false
      → c.command_armed ≡ false
      → apply_command apply_power_command now c s ≡ (c, s)
  unfolding apply_command
  idles now c s e a = rw (e, a) refl

  -- The registers after a command that was not accepted.
  abbrev pub refused_state : ℕ → CommandState → CommandState
  refused_state now c = record {
    node =
        set_register Reg.last_command_result
          (if ttl_valid (register_value Reg.command_ttl_seconds c.node) then 2 else 4)
          (set_register Reg.applied_power_kw_x10 0 c.node);
    last_command_ms = now;
    last_command_sequence = register_value Reg.command_sequence c.node;
    command_armed = false;
  }

  refuses :
      (now : ℕ) (c : CommandState) (s : S)
      → not (register_value Reg.command_sequence c.node == c.last_command_sequence) ≡ true
      → (register_value Reg.command_enable c.node == 1)
          && ttl_valid (register_value Reg.command_ttl_seconds c.node)
        ≡ false
      → apply_command apply_power_command now c s ≡ (refused_state now c, s)
  unfolding apply_command
  refuses now c s e w = rw (e, w) refl

  takes :
      (now : ℕ) (c : CommandState) (s : S)
      → not (register_value Reg.command_sequence c.node == c.last_command_sequence) ≡ true
      → (register_value Reg.command_enable c.node == 1)
          && ttl_valid (register_value Reg.command_ttl_seconds c.node)
        ≡ true
      → (apply_power_command (requested_power c) s).0 ≡ true
      → ltb (register_value Reg.command_ttl_seconds c.node * 1000) (elapsed now now) ≡ false
      → apply_command apply_power_command now c s
        ≡ (taken_state now c, (apply_power_command (requested_power c) s).1)
  unfolding apply_command
  takes now c s e w done short = rw (e, w, done, short) refl

  -- The loop of the node: each turn has its time, and what else happened to the node before it.
  unfoldable pub calls : List CommandTurn → CommandState → S → CommandState × S
  unfolding apply_command
  calls [] c s = (c, s)
  calls ((now, change) ∷ turns) c s =
      let (c', s') = apply_command apply_power_command now (record c { node = change c.node }) s in
      calls turns c' s'

  after :
      (P : CommandState × S → Type 0) (turns : List CommandTurn) (r r' : CommandState × S)
      → r ≡ r'
      → P (calls turns r'.0 r'.1)
      → P (calls turns r.0 r.1)
  after P turns r r' e = subst (λ t. P (calls turns t.0 t.1)) (sym e)

  -- The device was left in this state, and no command is armed.
  abbrev IsOver : S → CommandState × S → Type 0
  IsOver s r = (r.1 ≡ s) × (r.0.command_armed ≡ false)

  idle_calls :
      (turns : List CommandTurn) (c : CommandState) (s : S)
      → register_value Reg.command_sequence c.node ≡ c.last_command_sequence
      → c.command_armed ≡ false
      → KeepSequence turns
      → ((calls turns c s).1 ≡ s) × ((calls turns c s).0.command_armed ≡ false)
  unfolding calls
  idle_calls [] c s same idle others = (refl, idle)
  idle_calls ((now, change) ∷ turns) c s same idle (other, others) =
      let c' = record c { node = change c.node } in
      let same' : register_value Reg.command_sequence c'.node ≡ c'.last_command_sequence =
        other c.node ∙ same in
      let stays = idles now c' s (ground (arith, same')) idle in
      after (IsOver s) turns _ _ stays (idle_calls turns c' s same' idle others)

  expires_within :
      (ttl : ℕ) (early : List CommandTurn) (late : CommandTurn) (later : List CommandTurn)
      (c : CommandState) (s : S)
      → register_value Reg.command_sequence c.node ≡ c.last_command_sequence
      → c.command_armed ≡ true
      → register_value Reg.command_ttl_seconds c.node ≡ ttl
      → AreWithin c.last_command_ms ttl early
      → KeepsCommand late.1
      → ttl * 1000 < elapsed late.0 c.last_command_ms
      → KeepSequence later
      → let r = calls (early ++ (late ∷ later)) c s in
        (r.1 ≡ (apply_power_command (pos 0) s).1) × (r.0.command_armed ≡ false)
  unfolding calls
  expires_within ttl [] (now, change) later c s same armed seconds within (keep, keep_ttl) late
        others =
      let c' = record c { node = change c.node } in
      let same' : register_value Reg.command_sequence c'.node ≡ c'.last_command_sequence =
        keep c.node ∙ same in
      let seconds' : register_value Reg.command_ttl_seconds c'.node ≡ ttl =
        keep_ttl c.node ∙ seconds in
      after (IsOver (apply_power_command (pos 0) s).1) later _ _
        (expires now c' s (ground (arith, same')) armed (ground (arith, late, seconds')))
        (idle_calls later (expire apply_power_command c' s).0 (apply_power_command (pos 0) s).1
          (expired_sequence apply_power_command c' s ∙ same') (unfold expire in refl) others)
  expires_within ttl ((now, change) ∷ early) late later c s same armed seconds
        ((keep, keep_ttl), short, within) keeps_late long others =
      let c' = record c { node = change c.node } in
      let same' : register_value Reg.command_sequence c'.node ≡ c'.last_command_sequence =
        keep c.node ∙ same in
      let seconds' : register_value Reg.command_ttl_seconds c'.node ≡ ttl =
        keep_ttl c.node ∙ seconds in
      after (IsOver (apply_power_command (pos 0) s).1) (early ++ (late ∷ later)) _ _
        (keeps now c' s (ground (arith, same')) armed (ground (arith, short, seconds')))
        (expires_within ttl early late later c' s same' armed seconds' within keeps_late long
          others)

  -- The life of a command. A new sequence number with the enable flag and a time-to-live of 1 to 30
  -- seconds, whose power the device accepts: in all turns up to the first one that comes more milliseconds
  -- later than the time-to-live, and in all turns after that one, the device is told exactly two
  -- things, the requested power and then 0, and in the end no command is armed. Between the turns the
  -- node may change in any way that leaves the sequence number and, until the end of the command, the
  -- time-to-live.
  pub command_ends :
      (now : ℕ) (early : List CommandTurn) (late : CommandTurn) (later : List CommandTurn)
      (c : CommandState) (s : S)
      → let ttl = register_value Reg.command_ttl_seconds c.node in
        register_value Reg.command_sequence c.node ≢ c.last_command_sequence
        → register_value Reg.command_enable c.node ≡ 1
        → 1 ≤ ttl
        → ttl ≤ 30
        → (apply_power_command (requested_power c) s).0 ≡ true
        → AreWithin now ttl early
        → KeepsCommand late.1
        → ttl * 1000 < elapsed late.0 now
        → KeepSequence later
        → let r = calls ((now, λ n. n) ∷ (early ++ (late ∷ later))) c s in
          (r.1 ≡ (apply_power_command (pos 0) (apply_power_command (requested_power c) s).1).1)
          × (r.0.command_armed ≡ false)
  unfolding calls
  command_ends now early late later c s fresh enabled low high done within keep long others =
      let ttl = register_value Reg.command_ttl_seconds c.node in
      after (IsOver (apply_power_command (pos 0) (apply_power_command (requested_power c) s).1).1)
        (early ++ (late ∷ later)) _ _
        (takes now c s (ground (arith, fresh)) (ground (arith, enabled, low, high)) done
          (ground (arith, no_time now)))
        (expires_within ttl early late later (taken_state now c)
          (apply_power_command (requested_power c) s).1
          (command_same Reg.command_sequence 1 _ c.node (λ e. omega (arith, e))
            (λ e. omega (arith, e)))
          refl
          (command_same Reg.command_ttl_seconds 1 _ c.node (λ e. omega (arith, e))
            (λ e. omega (arith, e)))
          within keep long others)

  -- A new sequence number whose command is not accepted, because it does not enable, or its
  -- time-to-live is not in 1..30: the device is told nothing, and the register of the applied power says
  -- 0; and the device is told nothing in any number of later turns, at whatever times, whatever else
  -- happens to the node, as long as the sequence number stays. So what an earlier command set goes on.
  pub refusal_leaves_device :
      (now : ℕ) (later : List CommandTurn) (c : CommandState) (s : S)
      → HasRegisters c
      → register_value Reg.command_sequence c.node ≢ c.last_command_sequence
      → (register_value Reg.command_enable c.node == 1)
          && ttl_valid (register_value Reg.command_ttl_seconds c.node)
        ≡ false
      → KeepSequence later
      → let r = apply_command apply_power_command now c s in
        (register_value Reg.applied_power_kw_x10 r.0.node ≡ 0)
        × ((calls ((now, λ n. n) ∷ later) c s).1 ≡ s)
  unfolding calls
  refusal_leaves_device now later c s size fresh refused others =
      let result : ℕ = if ttl_valid (register_value Reg.command_ttl_seconds c.node) then 2 else 4 in
      let first = refuses now c s (ground arith) refused in
      let stays =
        idle_calls later (refused_state now c) s
          (command_same Reg.command_sequence result 0 c.node (λ e. omega (arith, e))
            (λ e. omega (arith, e)))
          refl others in
      (
        ap {A = CommandState × S} (λ r. register_value Reg.applied_power_kw_x10 r.0.node) first
            ∙ (results c result 0 size).0,
        ap {A = CommandState × S} (λ r. (calls later r.0 r.1).1) first ∙ stays.0,
      )
