-- ===== src/Driver/Writes/SocWindow.antt =====
-- `writeSocLimitsPct` against a device that holds the two limits of the state of charge.
use gridex_edge_gateway.Prelude.{
  Option, none, some, refl, ◌≤◌, arith, ◌*◌, ltb, leb, Bool-cases, inl, inr, ℕ, ◌≡◌, ◌<◌, Bool,
  if◌then◌else◌, ◌⊎◌,
}
use gridex_edge_gateway.Driver.Codec.{decode_signed, encode_signed}
use gridex_edge_gateway.Driver.Codec.RoundTrip.{encode_pos, magnitude}
use gridex_edge_gateway.Modbus.{ModbusClient}
use gridex_edge_gateway.Driver.Writes.{
  write_if, true, Io, some, false, pure, move_soc_window, milli, write_soc_limits_pct, Driver,
  soc_limits_refused, after_window_reads, Option,
}
use gridex_edge_gateway.Driver.Registers.{pcs_soc_lower_limit, pcs_soc_upper_limit}

-- The device behind the client, seen through its two limit registers. `Open` is a property of the
-- whole history that a write keeps where it leaves the window open, and that a read keeps. A write
-- that is not confirmed may have reached the register or not.
pub record WindowDevice {S : Type 0} (client : ModbusClient S) (lower upper : S → ℕ)
    (Open : S → Type 0) : Type 0 where
  pub read_keeps : (a : ℕ) (s : S) → Open s → Open (client.read_holding a s).1
  pub read_lower_same : (a : ℕ) (s : S) → lower (client.read_holding a s).1 ≡ lower s
  pub read_upper_same : (a : ℕ) (s : S) → upper (client.read_holding a s).1 ≡ upper s
  pub read_lower :
      (s : S) (v : ℕ) → (client.read_holding pcs_soc_lower_limit s).0 ≡ some v → v ≡ lower s
  pub read_upper :
      (s : S) (v : ℕ) → (client.read_holding pcs_soc_upper_limit s).0 ≡ some v → v ≡ upper s
  pub write_lower_keeps :
      (v : ℕ) (s : S) → Open s → v < upper s → Open (client.write_holding pcs_soc_lower_limit v s).1
  pub write_upper_keeps :
      (v : ℕ) (s : S) → Open s → lower s < v → Open (client.write_holding pcs_soc_upper_limit v s).1
  pub write_lower :
      (v : ℕ) (s : S)
      → let r = client.write_holding pcs_soc_lower_limit v s in
        (upper r.1 ≡ upper s) × ((lower r.1 ≡ v) ⊎ ((r.0 ≡ false) × (lower r.1 ≡ lower s)))
  pub write_upper :
      (v : ℕ) (s : S)
      → let r = client.write_holding pcs_soc_upper_limit v s in
        (lower r.1 ≡ lower s) × ((upper r.1 ≡ v) ⊎ ((r.0 ≡ false) × (upper r.1 ≡ upper s)))

-- A whole percentage is written as itself, and a limit below 2 ^ 15 is read as itself.
whole_percent : (n : ℕ) → n ≤ 100 → encode_signed (milli (n * 1000)) 1 ≡ n
whole_percent n h = rw (encode_pos 1 (n * 1000)) (unfold magnitude in omega arith)

percent_read : (n : ℕ) → n < 32768 → decode_signed n 1 ≡ milli (n * 1000)
unfolding decode_signed
percent_read n h = ground arith

-- The guard lets only a window within 0 and 100 percent through.
percents :
    (d : Driver) (l u : ℕ)
    → soc_limits_refused d (milli (l * 1000)) (milli (u * 1000)) ≡ false
    → (l < u) × (u ≤ 100)
unfolding soc_limits_refused
percents d l u h = ground arith

module _ {S : Type 0} (client : ModbusClient S) (lower upper : S → ℕ) (Open : S → Type 0)
    (device : WindowDevice client lower upper Open) where
  -- The window is open and has been so far.
  abbrev pub IsGood : S → Type 0
  IsGood s = Open s × (lower s < upper s)

  -- The window stayed open, and a confirmed result means that the device has the limits.
  abbrev pub Moved : ℕ → ℕ → Bool × S → Type 0
  Moved l u r = IsGood r.1 × (r.0 ≡ true → (lower r.1 ≡ l) × (upper r.1 ≡ u))

  -- The rest runs only where the write before it was confirmed.
  confirmed :
      (l u : ℕ) (rest : Io S Bool) (r : Bool × S)
      → IsGood r.1
      → (r.0 ≡ true → Moved l u (rest r.1))
      → Moved l u ((if r.0 then rest else pure false) r.1)
  confirmed l u rest (true, t) g k = k refl
  confirmed l u rest (false, t) g k = (g, λ e. cc)

  -- One guarded write of the upper limit, before a rest that does what is left.
  write_if-upper :
      (l u v : ℕ) (test : Bool) (rest : Io S Bool) (s : S)
      → IsGood s
      → (test ≡ true → lower s < v)
      → ((t : S)
          → IsGood t
          → lower t ≡ lower s
          → upper t ≡ (if test then v else upper s)
          → Moved l u (rest t))
      → Moved l u (write_if client test pcs_soc_upper_limit v rest s)
  unfolding write_if
  write_if-upper l u v true rest s (clean, wide) fits k =
      let r = client.write_holding pcs_soc_upper_limit v s in
      let (same, now) = device.write_upper v s in
      let good : IsGood r.1 =
        (device.write_upper_keeps v s clean (fits refl), ground (arith, fits refl)) in
      confirmed l u rest r good (λ done. k r.1 good same (ground arith))
  write_if-upper l u v false rest s g fits k = k s g refl refl

  write_if-lower :
      (l u v : ℕ) (test : Bool) (rest : Io S Bool) (s : S)
      → IsGood s
      → (test ≡ true → v < upper s)
      → ((t : S)
          → IsGood t
          → upper t ≡ upper s
          → lower t ≡ (if test then v else lower s)
          → Moved l u (rest t))
      → Moved l u (write_if client test pcs_soc_lower_limit v rest s)
  unfolding write_if
  write_if-lower l u v true rest s (clean, wide) fits k =
      let r = client.write_holding pcs_soc_lower_limit v s in
      let (same, now) = device.write_lower v s in
      let good : IsGood r.1 =
        (device.write_lower_keeps v s clean (fits refl), ground (arith, fits refl)) in
      confirmed l u rest r good (λ done. k r.1 good same (ground arith))
  write_if-lower l u v false rest s g fits k = k s g refl refl

  -- The four guarded writes: whichever tests hold, each write finds a window that it leaves open.
  steps :
      (l u : ℕ) (t1 t2 t3 t4 : Bool) (s : S)
      → l < u
      → IsGood s
      → t1 ≡ ltb (upper s) u
      → t2 ≡ ltb l (lower s)
      → t3 ≡ leb u (upper s)
      → t4 ≡ leb (lower s) l
      → Moved l u (
          write_if client t1 pcs_soc_upper_limit u
            (write_if client t2 pcs_soc_lower_limit l (
              write_if client t3 pcs_soc_upper_limit u
                (write_if client t4 pcs_soc_lower_limit l (pure true))))
            s)
  steps l u t1 t2 t3 t4 s h g e1 e2 e3 e4 =
      write_if-upper l u u t1 _ s g (λ e. ground arith)
        λ a ga la ua.
          write_if-lower l u l t2 _ a ga (λ e. ground arith)
            λ b gb ub lb.
              write_if-upper l u u t3 _ b gb (λ e. ground arith)
                λ c gc lc uc.
                  write_if-lower l u l t4 _ c gc (λ e. ground arith)
                    λ d gd ud ld. (gd, λ _. (ground arith, ground arith))

  move_soc_window-Moved :
      (l u : ℕ) (s : S)
      → l < u
      → u ≤ 100
      → IsGood s
      → upper s < 32768
      → (ol ou : ℕ) → ol ≡ lower s
      → ou ≡ upper s
      → Moved l u (
          move_soc_window client
            (milli (l * 1000))
            (milli (u * 1000))
            (decode_signed ol 1)
            (decode_signed ou 1)
            s)
  unfolding move_soc_window
  move_soc_window-Moved l u s h top g word ol ou el eu =
      rw
        (
          whole_percent l (omega arith),
          whole_percent u top,
          percent_read ol (omega arith),
          percent_read ou (omega arith),
        )
        (steps l u _ _ _ _ s h g (ground arith) (ground arith) (ground arith) (ground arith))

  after_reads-Moved :
      (l u : ℕ) (s : S) (read_u read_l : Option ℕ)
      → l < u
      → u ≤ 100
      → IsGood s
      → upper s < 32768
      → ((v : ℕ) → read_u ≡ some v → v ≡ upper s)
      → ((v : ℕ) → read_l ≡ some v → v ≡ lower s)
      → Moved l u (after_window_reads client (milli (l * 1000)) (milli (u * 1000)) read_u read_l s)
  unfolding after_window_reads
  after_reads-Moved l u s none read_l h top g word ru rl = (g, λ e. cc)
  after_reads-Moved l u s (some ou) none h top g word ru rl = (g, λ e. cc)
  after_reads-Moved l u s (some ou) (some ol) h top g word ru rl =
      move_soc_window-Moved l u s h top g word ol ou (rl ol refl) (ru ou refl)

  -- From an open window that has stayed open so far, `writeSocLimitsPct` with whole percentages
  -- leaves the window open at every moment, whichever calls fail and whether or not a write that
  -- was not confirmed reached the device; and if it returns true the device has the two limits.
  pub write_soc_limits_keeps_open :
      (d : Driver) (l u : ℕ) (s : S)
      → Open s
      → lower s < upper s
      → upper s < 32768
      → Moved l u (write_soc_limits_pct client d (milli (l * 1000)) (milli (u * 1000)) s)
  unfolding write_soc_limits_pct
  write_soc_limits_keeps_open d l u s clean wide word =
      let a = client.read_holding pcs_soc_upper_limit s in
      let b = client.read_holding pcs_soc_lower_limit a.1 in
      let la = device.read_lower_same pcs_soc_upper_limit s in
      let ua = device.read_upper_same pcs_soc_upper_limit s in
      let lb = device.read_lower_same pcs_soc_lower_limit a.1 in
      let ub = device.read_upper_same pcs_soc_lower_limit a.1 in
      let kept =
        device.read_keeps pcs_soc_lower_limit a.1 (device.read_keeps pcs_soc_upper_limit s clean) in
      elim (Bool-cases (soc_limits_refused d (milli (l * 1000)) (milli (u * 1000)))) [
        | inl e ↦ rw e ((clean, wide), λ done. cc)
        | inr e ↦
            let (h, top) = percents d l u e in
            rw e (
              after_reads-Moved l u b.1 a.0 b.0 h top (kept, omega arith) (omega arith)
                (λ v r. omega (arith, device.read_upper s v r))
                (λ v r. omega (arith, device.read_lower a.1 v r)))
      ]
