-- ===== src/Northbound/Server/Session/Turns.antt =====
-- The turns of the two transfers of a connection.
use gridex_edge_gateway.Prelude.{
  ℕ, zero, suc, ◌≡◌, refl, arith, ◌+◌, ◌-◌, ◌≤◌, List, [], ◌∷◌, length, drop, length-drop, ap,
}
use gridex_edge_gateway.Northbound.Server.Session.{
  Transfer, Connection, Outcome, out_of_turns, failed, done, prepend, broken, interrupted, moved,
  delivered, taken, after_recv, after_send, receive_exact, send_all,
}

abbrev pub IsFinished : {A : Type 0} → Outcome A → Type 0
IsFinished out_of_turns = ⊥
IsFinished failed = Unit
IsFinished (done a) = Unit

-- A call that a signal has interrupted.
abbrev pub signal : {A : Type 0} → Transfer A → ℕ
signal broken = 0
signal interrupted = 1
signal (moved a) = 0

-- A call after which the loop goes on.
abbrev IsReceiving : Transfer (List ℕ) → Type 0
IsReceiving broken = ⊥
IsReceiving interrupted = Unit
IsReceiving (moved []) = ⊥
IsReceiving (moved (b ∷ chunk)) = Unit

abbrev pub IsSending : Transfer ℕ → Type 0
IsSending broken = ⊥
IsSending interrupted = Unit
IsSending (moved n) = Unit

received_some : (t : Transfer (List ℕ)) → IsReceiving t → 1 ≤ length (delivered t) + signal t
received_some broken h = absurd h
received_some interrupted h = omega arith
received_some (moved []) h = absurd h
received_some (moved (b ∷ chunk)) h = omega arith

-- Two runs of a loop that both have enough turns.
abbrev pub AreSame : {A S : Type 0} → Outcome A × S → Outcome A × S → Type 0
AreSame r r' = (r ≡ r') × IsFinished r.0

prepend-IsFinished :
    {S : Type 0} (chunk : List ℕ) (r : Outcome (List ℕ) × S)
    → IsFinished r.0
    → IsFinished (prepend chunk r).0
prepend-IsFinished chunk (out_of_turns, s) h = absurd h
prepend-IsFinished chunk (failed, s) h = tt
prepend-IsFinished chunk (done bytes, s) h = tt

after_recv-AreSame :
    {S : Type 0} (t : Transfer (List ℕ)) (s : S) (rest rest' : Outcome (List ℕ) × S)
    → (IsReceiving t → AreSame rest rest')
    → AreSame (after_recv t s rest) (after_recv t s rest')
after_recv-AreSame broken s rest rest' h = (refl, tt)
after_recv-AreSame interrupted s rest rest' h = h tt
after_recv-AreSame (moved []) s rest rest' h = (refl, tt)
after_recv-AreSame (moved (b ∷ chunk)) s rest rest' h =
    (ap (prepend (b ∷ chunk)) (h tt).0, prepend-IsFinished (b ∷ chunk) rest (h tt).1)

after_send-AreSame :
    {S : Type 0} (t : Transfer ℕ) (s : S) (rest rest' : Outcome Unit × S)
    → (IsSending t → AreSame rest rest')
    → AreSame (after_send t s rest) (after_send t s rest')
after_send-AreSame broken s rest rest' h = (refl, tt)
after_send-AreSame interrupted s rest rest' h = h tt
after_send-AreSame (moved n) s rest rest' h = h tt

-- What the operating system does: at most `signals` calls are interrupted, and `send` takes some of the
-- bytes where it does not fail.
pub record Interrupts {S : Type 0} (c : Connection S) (signals : S → ℕ) : Type 0 where
  pub in_recv : (n : ℕ) (s : S) → signals (c.recv n s).1 + signal (c.recv n s).0 ≤ signals s
  pub in_send :
      (bytes : List ℕ) (s : S) → signals (c.send bytes s).1 + signal (c.send bytes s).0 ≤ signals s
  pub takes :
      (b : ℕ) (bytes : List ℕ) (s : S)
      → IsSending (c.send (b ∷ bytes) s).0
      → 1 ≤ taken (c.send (b ∷ bytes) s).0 + signal (c.send (b ∷ bytes) s).0

module _ {S : Type 0} (c : Connection S) (signals : S → ℕ) (law : Interrupts c signals) where
  receive-AreSame :
      (f g missing : ℕ) (s : S)
      → missing + signals s ≤ f
      → missing + signals s ≤ g
      → AreSame (receive_exact c f missing s) (receive_exact c g missing s)
  unfolding receive_exact
  receive-AreSame zero zero zero s hf hg = (refl, tt)
  receive-AreSame zero (suc g) zero s hf hg = (refl, tt)
  receive-AreSame (suc f) zero zero s hf hg = (refl, tt)
  receive-AreSame (suc f) (suc g) zero s hf hg = (refl, tt)
  receive-AreSame zero g (suc n) s hf hg = absurd (omega arith)
  receive-AreSame (suc f) zero (suc n) s hf hg = absurd (omega arith)
  receive-AreSame (suc f) (suc g) (suc n) s hf hg =
      let (t, s') = c.recv (suc n) s in
      after_recv-AreSame t s' _ _ (λ h.
        receive-AreSame f g (suc n - length (delivered t)) s'
          (omega (arith, received_some t h, law.in_recv (suc n) s))
          (omega (arith, received_some t h, law.in_recv (suc n) s)))

  send-AreSame :
      (f g : ℕ) (bytes : List ℕ) (s : S)
      → length bytes + signals s ≤ f
      → length bytes + signals s ≤ g
      → AreSame (send_all c f bytes s) (send_all c g bytes s)
  unfolding send_all
  send-AreSame zero zero [] s hf hg = (refl, tt)
  send-AreSame zero (suc g) [] s hf hg = (refl, tt)
  send-AreSame (suc f) zero [] s hf hg = (refl, tt)
  send-AreSame (suc f) (suc g) [] s hf hg = (refl, tt)
  send-AreSame zero g (b ∷ bytes) s hf hg = absurd (omega arith)
  send-AreSame (suc f) zero (b ∷ bytes) s hf hg = absurd (omega arith)
  send-AreSame (suc f) (suc g) (b ∷ bytes) s hf hg =
      let (t, s') = c.send (b ∷ bytes) s in
      let left = length-drop (taken t) (b ∷ bytes) in
      after_send-AreSame t s' _ _ (λ h.
        send-AreSame f g (drop (taken t) (b ∷ bytes)) s'
          (omega (arith, left, law.takes b bytes s h, law.in_send (b ∷ bytes) s))
          (omega (arith, left, law.takes b bytes s h, law.in_send (b ∷ bytes) s)))

  -- Where signals interrupt finitely many calls and `send` takes some bytes where it does not fail, as
  -- many turns as there are bytes and signals left suffice for either transfer, whatever pieces
  -- the bytes move in and whichever call fails: the transfer ends within them, and more turns give the
  -- same outcome and the same state. That a call returns at all is taken for granted.
  pub transfers_end :
      (f g missing : ℕ) (bytes : List ℕ) (s : S)
      → missing + signals s ≤ f
      → missing + signals s ≤ g
      → length bytes + signals s ≤ f
      → length bytes + signals s ≤ g
      → AreSame (receive_exact c f missing s) (receive_exact c g missing s)
        × AreSame (send_all c f bytes s) (send_all c g bytes s)
  transfers_end f g missing bytes s hf hg kf kg =
      (receive-AreSame f g missing s hf hg, send-AreSame f g bytes s kf kg)
