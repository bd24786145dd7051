-- ===== src/Tests/Apply.antt =====
-- The program that sends an update: its hash, its arguments and a whole run.
use gridex_edge_gateway.Prelude.{
  ◌∷◌, [], ◌≡◌, refl, none, List, false, some, ℕ, true, length, ◌++◌, take,
}
use gridex_edge_gateway.Prelude.Text.{codes}
use gridex_edge_gateway.Apply.Sha256.{hash_pieces}
use gridex_edge_gateway.Apply.Arguments.{parse_arguments, Arguments}
use gridex_edge_gateway.Apply.Upload.{Network, Files}
use Prim.Native.Nat.{min}

-- `selfTest` of the program.
digest_of_abc :
    hash_pieces (codes "abc" ∷ [])
    ≡ codes "ba7816bf8f01cfea414140de5dae2223b00361a396177a9cb410ff61f20015ad"
unfolding hash_pieces
digest_of_abc = refl

port_checked :
    parse_arguments (codes "--host" ∷ codes "n1" ∷ codes "--port" ∷ codes "70000" ∷ []) ≡ none
unfolding parse_arguments
port_checked = refl

-- A network that takes at most 100 bytes in a call, and a node that answers at once. Its state is what
-- the node has received.
abbrev slow_network : Network (List ℕ)
slow_network = record {
  connect = λ host port s. (true, s);
  send = λ bytes s. (min 100 (length bytes), s ++ take (min 100 (length bytes)) bytes);
  recv = λ size s. (codes "HTTP/1.1 200 OK" ++ (13 ∷ 10 ∷ []), s);
  close = λ s. s;
}

abbrev to_node : Arguments
to_node = record {
  host = codes "n1";
  port = 8080;
  firmware = codes "f.bin";
  token_file = codes "t";
  self_test = false;
}

abbrev three_bytes : Files
three_bytes = record {
  size = some 3;
  token_mode = some 384;
  token_line = codes "0123456789abcdef0123456789abcdef";
  hashed = some (codes "abc" ∷ []);
  sent = codes "ab" ∷ codes "c" ∷ [];
}
