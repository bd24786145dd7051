-- ===== src/Tests/Ota.antt =====
-- Updates over the air, on a platform whose hash is 32 times the length of the file.
use gridex_edge_gateway.Prelude.{
  ℕ, List, true, Option, ap, replicate, ◌∷◌, ◌≡◌, length, [], sym, arith, false, ◌%◌, ◌++◌, some,
  refl, none,
}
use gridex_edge_gateway.Ota.{
  EspOtaService, Request, file_start, Platform, new_service, hex_text, request_authorized,
  handle_uploads,
}
use gridex_edge_gateway.Ota.Session.{Laws, joined, rest_of_upload}
use gridex_edge_gateway.Ota.Routes.{Endpoint, LoopTurn, posted, not_found, begin, loops}
use gridex_edge_gateway.Ota.Routes.Strangers.{IsIdle, AreStrangers, IsUntouched, loops_strangers}
use gridex_edge_gateway.Ota.Verified.{IsVerified, completed_upload}

abbrev sha : List ℕ → List ℕ
sha image = replicate 32 (length image % 256)

-- What the flash holds, and what was hashed.
abbrev Device : Type 0
Device = List ℕ × List ℕ

abbrev platform : Platform Device
platform = record {
  update_begin = λ s. (true, ([], s.1));
  update_write = λ bytes s. (length bytes, (s.0 ++ bytes, s.1));
  update_end = λ s. (true, s);
  update_abort = λ s. s;
  hash_starts = λ s. (true, (s.0, []));
  hash_update = λ bytes s. (true, (s.0, s.1 ++ bytes));
  hash_finish = λ s. (some (sha s.1), s);
  token_digest = λ token. some (sha token);
}

abbrev digest_in : Option (List ℕ) → List ℕ
digest_in none = []
digest_in (some digest) = digest

platform-Laws : Laws platform sha (λ s. s.1) (λ s. s.0)
platform-Laws = record {
  begins = λ s e. refl;
  writes = λ bytes s e. refl;
  write_keeps = λ bytes s. refl;
  end_keeps = λ s. refl;
  starts = λ s e. refl;
  starts_keeps = λ s. refl;
  feeds = λ bytes s e. refl;
  feed_keeps = λ bytes s. refl;
  finishes = λ s digest e. ap digest_in (sym e);
  finish_keeps = λ s. refl;
}

-- The token has three characters.
abbrev service : EspOtaService
service =
    new_service
      (record { port = 8080; rock_pi_address = 7; token_hash = hex_text (replicate 32 3) })

-- The header announces a file of five bytes.
abbrev request : ℕ → Request
request address = record {
  remote_ip = address;
  sha_header = hex_text (replicate 32 5);
  token_header = 1 ∷ 2 ∷ 3 ∷ [];
}

abbrev pieces : List (List ℕ)
pieces = (10 ∷ 11 ∷ 12 ∷ []) ∷ (13 ∷ 14 ∷ []) ∷ []

abbrev old_firmware : Device
old_firmware = (1 ∷ 1 ∷ [], [])

completed_upload_example :
    (request_authorized platform (request 7) service ≡ true)
    × IsVerified platform sha
        (λ s. s.1)
        (λ s. s.0)
        platform-Laws
        (request 7)
        (joined pieces)
        (handle_uploads platform
          (request 7)
          (file_start ∷ rest_of_upload pieces)
          (service, old_firmware))
unfolding handle_uploads request_authorized hex_text
completed_upload_example =
    completed_upload platform sha (λ s. s.1) (λ s. s.0) platform-Laws (request 7) pieces service
      old_firmware (ground arith) (omega arith, (omega arith, tt)) refl

abbrev listening : Endpoint
listening = begin (record { service = service; started = false; restarts = 0 })

-- A whole upload from another address, and a request to another path.
abbrev strange_turns : List LoopTurn
strange_turns =
    record {
      visit = posted (request 8) (file_start ∷ rest_of_upload pieces);
      served_at = 5;
      checked_at = 9;
    }
    ∷ record { visit = not_found; served_at = 20; checked_at = 500 }
    ∷ []

is_listening : listening.started ≡ true
unfolding begin hex_text
is_listening = refl

service-IsIdle : IsIdle (service.config) (listening.service)
unfolding begin hex_text
service-IsIdle = record { same = refl; closed = refl; incomplete = refl; staying = refl }

strange_turns-AreStrangers : AreStrangers platform (service.config) strange_turns
unfolding request_authorized hex_text
strange_turns-AreStrangers = (refl, (tt, tt))

loops_strangers_example :
    IsUntouched platform (service.config) old_firmware (
      (loops platform strange_turns (listening, old_firmware)).0.service,
      (loops platform strange_turns (listening, old_firmware)).1,
    )
    × ((loops platform strange_turns (listening, old_firmware)).0.restarts ≡ listening.restarts)
loops_strangers_example =
    loops_strangers platform (service.config) strange_turns listening old_firmware
      strange_turns-AreStrangers service-IsIdle
