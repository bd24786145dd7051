-- ===== src/Apply/Upload.antt =====
-- `main` of the program: the request that it sends to the node, and its exit codes.
pub mod Whole
use gridex_edge_gateway.Prelude.{
  ℕ, zero, suc, List, [], Option, Bool, false, none, some, if◌then◌else◌, ◌==◌, ◌∷◌, ◌&&◌, ◌||◌,
  true, not, ltb, length, ◌*◌, ◌++◌, ◌+◌, drop,
}
use gridex_edge_gateway.Prelude.Text.{codes, decimal}
use gridex_edge_gateway.Modbus.{Io}
use gridex_edge_gateway.Mqtt.Publish.{is_empty, after_prefix}
use gridex_edge_gateway.Ota.Compare.{text_equal}
use gridex_edge_gateway.Ota.Session.{joined}
use gridex_edge_gateway.Apply.Sha256.{hash_pieces}
use gridex_edge_gateway.Apply.Arguments.{Arguments, read_token, has_ok}

-- The calls of the operating system on sockets.
pub record Network (S : Type 0) : Type 0 where
  -- `connectIpv4` to a host and a port.
  pub connect : List ℕ → ℕ → Io S Bool
  -- `send`: how many of the bytes were taken, 0 for an error.
  pub send : List ℕ → Io S ℕ
  -- `recv`: at most as many bytes as asked for; none for an error or the end.
  pub recv : ℕ → Io S (List ℕ)
  pub close : S → S

-- What reading the files gives.
pub record Files : Type 0 where
  -- `file_size` of the firmware.
  pub size : Option ℕ
  -- The mode and the first line of the token file.
  pub token_mode : Option ℕ
  pub token_line : List ℕ
  -- The pieces of the firmware as `hashFile` reads them, and as they are read to be sent.
  pub hashed : Option (List (List ℕ))
  pub sent : List (List ℕ)

abbrev pub crlf : List ℕ
crlf = 13 ∷ 10 ∷ []

abbrev pub boundary : List ℕ
boundary = codes "gridex-ota-v1-boundary"

unfoldable pub multipart_start : List ℕ
multipart_start = joined (
    codes "--"
    ∷ boundary
    ∷ crlf
    ∷ codes "Content-Disposition: form-data; name=\"firmware\"; filename=\"firmware.bin\""
    ∷ crlf
    ∷ codes "Content-Type: application/octet-stream"
    ∷ crlf
    ∷ crlf
    ∷ [])

unfoldable pub multipart_end : List ℕ
multipart_end = joined (crlf ∷ codes "--" ∷ boundary ∷ codes "--" ∷ crlf ∷ [])

-- The header of the request, with the length that it announces.
unfoldable pub header : List ℕ → ℕ → List ℕ → List ℕ → List ℕ
unfolding decimal
header host content_length digest token = joined (
    codes "POST /gridex/ota HTTP/1.1"
    ∷ crlf
    ∷ codes "Host: "
    ∷ host
    ∷ crlf
    ∷ codes "Content-Type: multipart/form-data; boundary="
    ∷ boundary
    ∷ crlf
    ∷ codes "Content-Length: "
    ∷ decimal content_length
    ∷ crlf
    ∷ codes "X-GrideX-SHA256: "
    ∷ digest
    ∷ crlf
    ∷ codes "X-GrideX-Token: "
    ∷ token
    ∷ crlf
    ∷ codes "Connection: close"
    ∷ crlf
    ∷ crlf
    ∷ [])

unfoldable pub content_length_of : ℕ → ℕ
unfolding multipart_start multipart_end
content_length_of size = length multipart_start + size + length multipart_end

-- The answer up to the end of its first line.
unfoldable pub status_line : List ℕ → List ℕ
unfolding after_prefix
status_line [] = []
status_line (c ∷ text) =
    let rest = status_line text in if ends (after_prefix crlf (c ∷ text)) then [] else c ∷ rest
  where
    ends : Option (List ℕ) → Bool
    ends none = false
    ends (some left) = true

unfoldable pub accepted : List ℕ → Bool
unfolding status_line has_ok
accepted answer = not (is_empty answer) && has_ok (status_line answer)

unfoldable pub self_test : Bool
unfolding hash_pieces
self_test =
    text_equal (hash_pieces (codes "abc" ∷ []))
      (codes "ba7816bf8f01cfea414140de5dae2223b00361a396177a9cb410ff61f20015ad")

abbrev pub digest_of : Option (List (List ℕ)) → Option (List ℕ)
digest_of none = none
digest_of (some pieces) = some (hash_pieces pieces)

module _ {S : Type 0} (net : Network S) where
  -- The loop of `sendAll`, on as many turns as there are bytes left.
  unfoldable pub send_bytes : ℕ → List ℕ → Io S Bool
  send_bytes turns [] s = (true, s)
  send_bytes zero (b ∷ bytes) s = (false, s)
  send_bytes (suc turns) (b ∷ bytes) s =
      let (sent, s') = net.send (b ∷ bytes) s in
      let rest = send_bytes turns (drop sent (b ∷ bytes)) s' in
      if sent == 0 then (false, s') else rest

  -- One text after the other, up to the first that fails.
  unfoldable pub send_texts : List (List ℕ) → Io S Bool
  unfolding send_bytes
  send_texts [] s = (true, s)
  send_texts (text ∷ texts) s =
      let (success, s') = send_bytes (length text) text s in
      let rest = send_texts texts s' in if success then rest else (false, s')

  -- The connection to the node: the exit code.
  unfoldable pub send_update : Arguments → ℕ → List ℕ → List ℕ → List (List ℕ) → Io S ℕ
  unfolding send_texts header content_length_of multipart_start multipart_end accepted
  send_update arguments size token digest pieces s =
      let request = header arguments.host (content_length_of size) digest token in
      let (connected, s1) = net.connect arguments.host arguments.port s in
      let (success, s2) =
        send_texts (request ∷ multipart_start ∷ (pieces ++ (multipart_end ∷ []))) s1 in
      let (answer, s3) = net.recv 255 s2 in
      if not connected
      then (67, s1)
      else ((if not success || not (accepted answer) then 68 else 0), net.close s3)

  unfoldable pub with_secrets :
      Arguments → ℕ → Option (List ℕ) → Option (List ℕ) → List (List ℕ) → Io S ℕ
  unfolding send_update
  with_secrets arguments size none digest pieces s = (66, s)
  with_secrets arguments size (some token) none pieces s = (66, s)
  with_secrets arguments size (some token) (some digest) pieces s =
      send_update arguments size token digest pieces s

  unfoldable pub with_size : Arguments → Files → Option ℕ → Io S ℕ
  unfolding with_secrets read_token
  with_size arguments files none s = (65, s)
  with_size arguments files (some size) s =
      if size == 0 || ltb (3 * 1024 * 1024) size
      then (65, s)
      else with_secrets arguments size (read_token files.token_mode files.token_line)
          (digest_of files.hashed) files.sent s

  -- The exit code of the program with these arguments.
  unfoldable pub run_main : Option Arguments → Files → Io S ℕ
  unfolding with_size self_test
  run_main none files s = (64, s)
  run_main (some arguments) files s =
      if arguments.self_test
      then ((if self_test then 0 else 1), s)
      else with_size arguments files files.size s
