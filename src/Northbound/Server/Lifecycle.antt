-- ===== src/Northbound/Server/Lifecycle.antt =====
-- Start and stop of `NorthboundModbusTcpServer` of base-rockpie/. The calls of the operating system are a
-- parameter.
use gridex_edge_gateway.Prelude.{
  ℕ, ◌≡◌, refl, arith, ◌+◌, Bool, true, false, not, List, ◌∷◌, [], if◌then◌else◌, ◌-◌, Bool-cases,
  inl, inr, ◌∙◌, ap,
}
use gridex_edge_gateway.Modbus.{Io}

pub record NorthboundServerConfig : Type 0 where
  pub bind_address : List ℕ
  pub port : ℕ
  pub unit_id : ℕ

-- `listening` says that `listenFd_` is no negative number.
pub record NorthboundModbusTcpServer : Type 0 where
  pub config : NorthboundServerConfig
  pub running : Bool
  pub listening : Bool

-- What start and stop ask of the operating system.
pub record ListenCalls (S : Type 0) : Type 0 where
  -- `::socket`.
  pub open_socket : Io S Bool
  -- `inet_pton`, `bind` and `listen` on the new socket, up to the first that fails.
  pub listen : NorthboundServerConfig → Io S Bool
  -- `shutdown` and `close`.
  pub close : S → S
  -- The thread that calls `run`.
  pub spawn : S → S
  pub join : S → S

unfoldable pub new_server : NorthboundServerConfig → NorthboundModbusTcpServer
new_server config = record { config = config; running = false; listening = false }

module _ {S : Type 0} (os : ListenCalls S) where
  unfoldable pub start : Io (NorthboundModbusTcpServer × S) Bool
  start (v, s) =
      let (opened, s') = os.open_socket s in
      let (listens, s'') = os.listen v.config s' in
      if v.running
      then (true, (v, s))
      else if not opened
      then (false, (record v { listening = false }, s'))
      else if not listens
      then (false, (record v { listening = false }, os.close s''))
      else (true, (record v { running = true; listening = true }, os.spawn s''))

  unfoldable pub stop : NorthboundModbusTcpServer × S → NorthboundModbusTcpServer × S
  stop (v, s) = if not v.running then (v, s) else (
    record v { running = false; listening = false },
    os.join (if v.listening then os.close s else s),
  )

-- What a program does with the server.
pub data ServerCall : Type 0 where
  start_server : ServerCall
  stop_server : ServerCall

unfoldable pub call_all :
    {S : Type 0}
    → ListenCalls S
    → List ServerCall
    → NorthboundModbusTcpServer × S
    → NorthboundModbusTcpServer × S
unfolding start stop
call_all os [] x = x
call_all os (start_server ∷ calls) x = call_all os calls (start os x).1
call_all os (stop_server ∷ calls) x = call_all os calls (stop os x)

abbrev one_if : Bool → ℕ
one_if true = 1
one_if false = 0

-- `sockets` counts the open sockets of the server.
module _ {S : Type 0} (os : ListenCalls S) (sockets : S → ℕ)
    (open_socket_adds : (s : S)
      → sockets (os.open_socket s).1 ≡ one_if (os.open_socket s).0 + sockets s)
    (listen_keeps : (config : NorthboundServerConfig) (s : S)
      → sockets (os.listen config s).1 ≡ sockets s)
    (close_takes : (s : S) → sockets (os.close s) ≡ sockets s - 1)
    (spawn_keeps : (s : S) → sockets (os.spawn s) ≡ sockets s)
    (join_keeps : (s : S) → sockets (os.join s) ≡ sockets s) where
  -- A socket is open exactly while the server runs, and it is only one.
  abbrev IsBalanced : NorthboundModbusTcpServer × S → Type 0
  IsBalanced (v, s) = (v.listening ≡ v.running) × (sockets s ≡ one_if v.running)

  opening :
      (v : NorthboundModbusTcpServer) (s : S)
      → v.running ≡ false
      → sockets s ≡ one_if v.running
      → sockets (os.open_socket s).1 ≡ one_if (os.open_socket s).0
  opening v s off count =
      let none_open : sockets s ≡ 0 = count ∙ ap one_if off in
      omega (arith, open_socket_adds s, none_open)

  start-IsBalanced : (x : NorthboundModbusTcpServer × S) → IsBalanced x → IsBalanced (start os x).1
  unfolding start
  start-IsBalanced (v, s) (same, count) =
      let (opened, s') = os.open_socket s in
      let (listens, s'') = os.listen v.config s' in
      elim (Bool-cases v.running) [
        | inl on ↦ rw on (same ∙ on, count ∙ ap one_if on)
        | inr off ↦ rw off (elim (Bool-cases opened) [
          | inr e ↦ rw e (refl, opening v s off count ∙ ap one_if e)
          | inl e ↦ rw e (elim (Bool-cases listens) [
            | inr k ↦ rw k (
              refl,
              close_takes s''
                  ∙ ap (λ n. n - 1)
                      ((listen_keeps v.config s' ∙ opening v s off count ∙ ap one_if e)),
            )
            | inl k ↦ rw k (
              refl,
              spawn_keeps s'' ∙ (listen_keeps v.config s' ∙ opening v s off count ∙ ap one_if e),
            )
          ])
        ])
      ]

  stop-IsBalanced : (x : NorthboundModbusTcpServer × S) → IsBalanced x → IsBalanced (stop os x)
  unfolding stop
  stop-IsBalanced (v, s) (same, count) = elim (Bool-cases v.running) [
    | inr off ↦ rw off (same ∙ off, count ∙ ap one_if off)
    | inl on ↦
        rw (on, same ∙ on)
          (refl, join_keeps (os.close s) ∙ close_takes s ∙ ap (λ n. n - 1) (count ∙ ap one_if on))
  ]

  -- After any sequence of starts and stops of a new server, the listening socket is open exactly while
  -- the server runs, also where a call of the operating system failed.
  pub call_all-IsBalanced :
      (calls : List ServerCall) (x : NorthboundModbusTcpServer × S)
      → IsBalanced x
      → IsBalanced (call_all os calls x)
  unfolding call_all
  call_all-IsBalanced [] x h = h
  call_all-IsBalanced (start_server ∷ calls) x h =
      call_all-IsBalanced calls (start os x).1 (start-IsBalanced x h)
  call_all-IsBalanced (stop_server ∷ calls) x h =
      call_all-IsBalanced calls (stop os x) (stop-IsBalanced x h)
