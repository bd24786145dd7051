-- ===== src/Tests/Tcp.antt =====
-- The client, at a socket that delivers byte by byte.
use gridex_edge_gateway.Prelude.{ℕ, List, ◌∷◌, true, [], length, ◌≡◌, take, arith, some, drop, refl}
use gridex_edge_gateway.Tcp.{Socket, receive_loop, send_loop}
use gridex_edge_gateway.Tcp.Loops.{loops_end}

-- The state is what is on the way; `send` takes two bytes at most.
abbrev trickle : Socket (List ℕ)
trickle = record {
  connect = λ s. (true, s);
  send = λ bytes s. (length (take 2 bytes), s);
  recv = λ n s. (take 1 s, drop 1 s);
  close = λ s. [];
}

loops_end_example :
    (receive_loop trickle 5 3 (9 ∷ 8 ∷ 7 ∷ 6 ∷ []) ≡ receive_loop trickle 9 3 (9 ∷ 8 ∷ 7 ∷ 6 ∷ []))
    × (send_loop trickle 5 (1 ∷ 2 ∷ 3 ∷ []) (9 ∷ 8 ∷ 7 ∷ 6 ∷ [])
        ≡ send_loop trickle 9 (1 ∷ 2 ∷ 3 ∷ []) (9 ∷ 8 ∷ 7 ∷ 6 ∷ []))
loops_end_example =
    loops_end trickle 5 9 3 (1 ∷ 2 ∷ 3 ∷ []) (9 ∷ 8 ∷ 7 ∷ 6 ∷ []) (omega arith) (omega arith)
      (omega arith) (omega arith)

received : (receive_loop trickle 3 3 (9 ∷ 8 ∷ 7 ∷ 6 ∷ [])).0 ≡ some (9 ∷ 8 ∷ 7 ∷ [])
unfolding receive_loop
received = refl
