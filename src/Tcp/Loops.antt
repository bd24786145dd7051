-- ===== src/Tcp/Loops.antt =====
-- The loops over `send` and `recv` never run out of turns.
use gridex_edge_gateway.Prelude.{
  ℕ, zero, suc, ◌≡◌, refl, arith, ◌-◌, ◌≤◌, ◌==◌, false, List, [], ◌∷◌, length, drop, length-drop,
  Bool-cases, inl, inr, ap,
}
use gridex_edge_gateway.Tcp.{Socket, send_loop, receive_loop, prepend}

positive : (n : ℕ) → (n == 0) ≡ false → 1 ≤ n
positive n h = ground arith

module _ {S : Type 0} (socket : Socket S) where
  pub receive_ends :
      (f g missing : ℕ) (s : S)
      → missing ≤ f
      → missing ≤ g
      → receive_loop socket f missing s ≡ receive_loop socket g missing s
  unfolding receive_loop
  receive_ends zero zero zero s hf hg = refl
  receive_ends zero (suc g) zero s hf hg = refl
  receive_ends (suc f) zero zero s hf hg = refl
  receive_ends (suc f) (suc g) zero s hf hg = refl
  receive_ends zero g (suc n) s hf hg = absurd (omega arith)
  receive_ends (suc f) zero (suc n) s hf hg = absurd (omega arith)
  receive_ends (suc f) (suc g) (suc n) s hf hg =
      let (chunk, s') = socket.recv (suc n) s in
      elim (Bool-cases (length chunk == 0)) [
        | inl e ↦ rw e refl
        | inr e ↦ rw e (
            ap (prepend chunk) (
              receive_ends f g (suc n - length chunk) s' (omega (arith, positive (length chunk) e))
                (omega (arith, positive (length chunk) e))))
      ]

  pub send_ends :
      (f g : ℕ) (bytes : List ℕ) (s : S)
      → length bytes ≤ f
      → length bytes ≤ g
      → send_loop socket f bytes s ≡ send_loop socket g bytes s
  unfolding send_loop
  send_ends zero zero [] s hf hg = refl
  send_ends zero (suc g) [] s hf hg = refl
  send_ends (suc f) zero [] s hf hg = refl
  send_ends (suc f) (suc g) [] s hf hg = refl
  send_ends zero g (b ∷ bytes) s hf hg = absurd (omega arith)
  send_ends (suc f) zero (b ∷ bytes) s hf hg = absurd (omega arith)
  send_ends (suc f) (suc g) (b ∷ bytes) s hf hg =
      let (sent, s') = socket.send (b ∷ bytes) s in
      elim (Bool-cases (sent == 0)) [
        | inl e ↦ rw e refl
        | inr e ↦ rw e (
            send_ends f g (drop sent (b ∷ bytes)) s'
              (omega (arith, positive sent e, length-drop sent (b ∷ bytes)))
              (omega (arith, positive sent e, length-drop sent (b ∷ bytes))))
      ]

-- For every socket, also one that delivers byte by byte or more than it was asked for, the loop of
-- `receiveAll` ends within as many turns as bytes are missing: more turns give the same result and the
-- same state of the socket. So does the loop of `sendAll` within as many as bytes are left.
pub loops_end :
    {S : Type 0} (socket : Socket S) (f g missing : ℕ) (bytes : List ℕ) (s : S)
    → missing ≤ f
    → missing ≤ g
    → length bytes ≤ f
    → length bytes ≤ g
    → (receive_loop socket f missing s ≡ receive_loop socket g missing s)
      × (send_loop socket f bytes s ≡ send_loop socket g bytes s)
loops_end socket f g missing bytes s hf hg kf kg =
    (receive_ends socket f g missing s hf hg, send_ends socket f g bytes s kf kg)
