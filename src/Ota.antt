-- ===== src/Ota.antt =====
-- `EspOtaService` of node-esp32-evb/: the update of a node's firmware over the air. The flash and the
-- hash are the platform's, and stay parameters; so does the parser of the HTTP requests.
pub mod Compare
pub mod Texts
pub mod Session
pub mod Verified
pub mod Routes
use gridex_edge_gateway.Prelude.Text.{hex_digits}
use gridex_edge_gateway.Prelude.{
  ℕ, List, Bool, false, ◌*◌, Option, if◌then◌else◌, ◌∷◌, not, leb, true, [], ◌&&◌, ◌+◌, length,
  ◌==◌, get_or, bit_or, ◌||◌, some, ◌%◌, ltb, ◌/◌, bit_xor, none, ◌^◌, ◌-◌,
}

unfoldable pub hex_text : List ℕ → List ℕ
hex_text [] = []
hex_text (value ∷ digest) =
    get_or hex_digits (value / 16) 0 ∷ get_or hex_digits (value % 16) 0 ∷ hex_text digest

-- The characters whose differences `difference` gathers.
unfoldable pub difference : List ℕ → List ℕ → ℕ → ℕ
difference (l ∷ left) (r ∷ right) d = difference left right (bit_or d (bit_xor l r % 256))
difference left right d = d

unfoldable pub secure_equals : List ℕ → List ℕ → Bool
unfolding difference
secure_equals left right =
    if not (length left == length right) then false else difference left right 0 == 0

abbrev pub is_hex : ℕ → Bool
is_hex c = (leb 48 c && leb c 57) || (leb 97 c && leb c 102) || (leb 65 c && leb c 70)

unfoldable pub all_hex : List ℕ → Bool
all_hex [] = true
all_hex (c ∷ value) = if not (is_hex c) then false else all_hex value

unfoldable pub valid_sha256 : List ℕ → Bool
unfolding all_hex
valid_sha256 value = if not (length value == 64) then false else all_hex value

-- The address 0 is `IPAddress()`.
pub record EspOtaConfig : Type 0 where
  pub port : ℕ
  pub rock_pi_address : ℕ
  pub token_hash : List ℕ

-- The reasons that `fail` is given, and the two initial ones.
pub data Failure : Type 0 where
  not_started upload_incomplete authorization flash_initialization hash_initialization : Failure
  chunk_write_or_size integrity_or_flash_finalization upload_was_aborted : Failure

-- The members, and the module's `hashStarted`.
pub record EspOtaService : Type 0 where
  pub config : EspOtaConfig
  pub accepted : Bool
  pub completed : Bool
  pub restart_pending : Bool
  pub restart_at_ms : ℕ
  pub rejected_requests : ℕ
  pub written_bytes : ℕ
  pub expected_sha256 : List ℕ
  pub failure_reason : Failure
  pub hash_started : Bool

abbrev pub new_service : EspOtaConfig → EspOtaService
new_service config = record {
  config = config;
  accepted = false;
  completed = false;
  restart_pending = false;
  restart_at_ms = 0;
  rejected_requests = 0;
  written_bytes = 0;
  expected_sha256 = [];
  failure_reason = not_started;
  hash_started = false;
}

-- The peer and the two headers of a request.
pub record Request : Type 0 where
  pub remote_ip : ℕ
  pub sha_header : List ℕ
  pub token_header : List ℕ

pub data Upload : Type 0 where
  file_start : Upload
  file_write : List ℕ → Upload
  file_end file_aborted : Upload

-- `Update` and mbedtls, over a state `S`; a call may fail. `token_digest` is the whole of a hash on a
-- context of its own.
pub record Platform (S : Type 0) : Type 0 where
  pub update_begin : S → Bool × S
  pub update_write : List ℕ → S → ℕ × S
  pub update_end : S → Bool × S
  pub update_abort : S → S
  pub hash_starts : S → Bool × S
  pub hash_update : List ℕ → S → Bool × S
  pub hash_finish : S → Option (List ℕ) × S
  pub token_digest : List ℕ → Option (List ℕ)

abbrev pub max_firmware_bytes : ℕ
max_firmware_bytes = 3 * 1024 * 1024

unfoldable pub enabled : EspOtaService → Bool
unfolding valid_sha256
enabled svc = not (svc.config.rock_pi_address == 0) && valid_sha256 svc.config.token_hash

unfoldable pub source_allowed : Request → EspOtaService → Bool
unfolding enabled
source_allowed req svc = enabled svc && (req.remote_ip == svc.config.rock_pi_address)

unfoldable pub text_of : Option (List ℕ) → List ℕ
unfolding hex_text
text_of none = []
text_of (some digest) = hex_text digest

-- `fail`, with the count and the flag.
unfoldable pub refused : Failure → EspOtaService → EspOtaService
refused reason svc = record svc {
  accepted = false;
  failure_reason = reason;
  rejected_requests = (svc.rejected_requests + 1) % 2 ^ 32;
}

module _ {S : Type 0} (p : Platform S) where
  unfoldable pub request_authorized : Request → EspOtaService → Bool
  unfolding source_allowed valid_sha256 secure_equals text_of
  request_authorized req svc =
      source_allowed req svc
      && valid_sha256 req.sha_header
      && secure_equals (text_of (p.token_digest req.token_header)) svc.config.token_hash

  unfoldable pub upload_start : Request → EspOtaService × S → EspOtaService × S
  unfolding request_authorized refused
  upload_start req (svc, s) =
      let opened : EspOtaService = record svc {
        accepted = request_authorized req svc;
        completed = false;
        failure_reason = upload_incomplete;
        written_bytes = 0;
        expected_sha256 = req.sha_header;
      } in
      let (begun, s1) = p.update_begin s in
      let (hashing, s2) = p.hash_starts s1 in
      if not opened.accepted
      then (refused authorization opened, s)
      else if not begun
      then (refused flash_initialization opened, s1)
      else if not hashing
      then (refused hash_initialization opened, p.update_abort s2)
      else (record opened { hash_started = true }, s2)

  unfoldable pub upload_write : List ℕ → EspOtaService × S → EspOtaService × S
  unfolding refused
  upload_write bytes (svc, s) =
      let size = length bytes in
      let (written, s1) = p.update_write bytes s in
      let (fed, s2) = p.hash_update bytes s1 in
      if size == 0 || ltb max_firmware_bytes ((svc.written_bytes + size) % 2 ^ 32)
      then (refused chunk_write_or_size svc, p.update_abort s)
      else if not (written == size)
      then (refused chunk_write_or_size svc, p.update_abort s1)
      else if not fed
      then (refused chunk_write_or_size svc, p.update_abort s2)
      else (record svc { written_bytes = (svc.written_bytes + size) % 2 ^ 32 }, s2)

  unfoldable pub finish_firmware_hash : EspOtaService × S → List ℕ × (EspOtaService × S)
  unfolding text_of
  finish_firmware_hash (svc, s) =
      let (digest, s1) = p.hash_finish s in
      let done : EspOtaService = record svc { hash_started = false } in
      if not svc.hash_started then ([], (done, s)) else (text_of digest, (done, s1))

  unfoldable pub upload_end : EspOtaService × S → EspOtaService × S
  unfolding finish_firmware_hash secure_equals refused
  upload_end x =
      let (digest, (svc, s)) = finish_firmware_hash x in
      let (ended, s1) = p.update_end s in
      if svc.written_bytes == 0 || not (secure_equals digest svc.expected_sha256)
      then (refused integrity_or_flash_finalization svc, p.update_abort s)
      else if not ended
      then (refused integrity_or_flash_finalization svc, p.update_abort s1)
      else (record svc { completed = true }, s1)

  -- What is left of `handleUpload` once the first part was accepted.
  unfoldable pub upload_more : Upload → EspOtaService × S → EspOtaService × S
  unfolding upload_write upload_end refused
  upload_more file_start x = x
  upload_more (file_write bytes) x = upload_write bytes x
  upload_more file_end x = upload_end x
  upload_more file_aborted (svc, s) = (refused upload_was_aborted svc, p.update_abort s)

  unfoldable pub handle_upload : Request → Upload → EspOtaService × S → EspOtaService × S
  unfolding upload_start upload_more
  handle_upload req file_start x = upload_start req x
  handle_upload req upload x = if not (x.0).accepted then x else upload_more upload x

  -- The calls that the web server makes for one request.
  unfoldable pub handle_uploads : Request → List Upload → EspOtaService × S → EspOtaService × S
  unfolding handle_upload
  handle_uploads req [] x = x
  handle_uploads req (upload ∷ uploads) x = handle_uploads req uploads (handle_upload req upload x)

-- The two answers of `handleResult`.
pub data Answer : Type 0 where
  rejected : Failure → Answer
  restarting : Answer

unfoldable pub handle_result : ℕ → EspOtaService → Answer × EspOtaService
handle_result now svc =
    if not svc.completed
    then (rejected svc.failure_reason, svc)
    else (restarting, record svc { restart_pending = true; restart_at_ms = (now + 250) % 2 ^ 32 })

-- `static_cast<long>(millis() - restartAtMs_) >= 0` on 32-bit words.
unfoldable pub restart_due : ℕ → EspOtaService → Bool
restart_due now svc =
    svc.restart_pending && ltb ((now + 2 ^ 32 - svc.restart_at_ms) % 2 ^ 32) (2 ^ 31)
