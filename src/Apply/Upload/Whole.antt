-- ===== src/Apply/Upload/Whole.antt =====
-- What a node has received when the program reports success.
use gridex_edge_gateway.Prelude.{ℕ, ◌≡◌, List, [], ◌∷◌, ◌++◌, take, length, some}
use gridex_edge_gateway.Ota.Session.{joined}
use gridex_edge_gateway.Apply.Upload.{Network, multipart_start, multipart_end, header, Files}
use gridex_edge_gateway.Apply.Arguments.{Arguments, read_token}
use gridex_edge_gateway.Apply.Sha256.{hash_pieces}

-- The body of the request, around the firmware.
abbrev pub body : List ℕ → List ℕ
body image = multipart_start ++ (image ++ multipart_end)

-- A network that tells which bytes the node has received: those that `send` took, in their order, and
-- by nothing else.
pub record Received {S : Type 0} (net : Network S) (received : S → List ℕ) : Type 0 where
  pub by_send :
      (bytes : List ℕ) (s : S)
      → received (net.send bytes s).1 ≡ received s ++ take (net.send bytes s).0 bytes
  pub by_connect :
      (host : List ℕ) (port : ℕ) (s : S) → received (net.connect host port s).1 ≡ received s
  pub by_recv : (size : ℕ) (s : S) → received (net.recv size s).1 ≡ received s
  pub by_close : (s : S) → received (net.close s) ≡ received s

module _ {S : Type 0} (received : S → List ℕ) where
  -- What has arrived of a request that announces the length of its body.
  abbrev HasArrived : List ℕ → List ℕ → List ℕ → List ℕ → S → S → Type 0
  HasArrived host image digest token s s' =
      received s' ≡ received s ++ (header host (length (body image)) digest token ++ body image)

  -- What the node has of the image, with the token and the digest of it.
  abbrev pub IsWhole : Arguments → Files → S → S → Type 0
  IsWhole arguments files s s' =
      (token : List ℕ) × (read_token files.token_mode files.token_line ≡ some token)
      × HasArrived arguments.host (joined files.sent) (hash_pieces (joined files.sent ∷ [])) token s
          s'
