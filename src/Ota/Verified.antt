-- ===== src/Ota/Verified.antt =====
-- An upload that completes is the one that was announced.
use gridex_edge_gateway.Prelude.{
  ℕ, List, arith, ◌∷◌, ◌≡◌, length, ◌≤◌, ◌<◌, true, false, ◌%◌, ◌⊎◌, ◌^◌, [], ◌++◌, if-both, ◌==◌,
  not, ◌||◌, inl, ltb, inr, ◌+◌, ◌∙◌, ap, refl, length-append, Option, sym, some, append-nil, none,
  append_assoc, Bool-cases,
}
use mathlib.Core.Path.{subst}
use mathlib.Core.Bool.{true≢false}
use gridex_edge_gateway.Ota.{
  EspOtaService, Request, file_write, file_end, Platform, max_firmware_bytes, hex_text, text_of,
  request_authorized, upload_start, upload_write, upload_end, upload_more, handle_upload,
  handle_uploads, secure_equals, finish_firmware_hash, refused, valid_sha256, file_start,
}
use gridex_edge_gateway.Ota.Texts.{
  hex_text-AreBytes, empty_invalid, second_true, second_holds, passed,
}
use gridex_edge_gateway.Ota.Compare.{secure_equals_iff, AreBytes}
use gridex_edge_gateway.Ota.Session.{
  unauthorized_upload, Laws, AreShort, joined, rest_of_upload, refused_stays,
}

module _ {S : Type 0} (p : Platform S) (sha : List ℕ → List ℕ) (fed flash : S → List ℕ)
    (laws : Laws p sha fed flash) (req : Request) where
  -- The upload goes on, with this much of the file.
  record Loading (image : List ℕ) (x : EspOtaService × S) : Type 0 where
    pub going : (x.0).accepted ≡ true
    pub hashing : (x.0).hash_started ≡ true
    pub unfinished : (x.0).completed ≡ false
    pub expected : (x.0).expected_sha256 ≡ req.sha_header
    pub hashed : fed x.1 ≡ image
    pub stored : flash x.1 ≡ image
    pub counted : (x.0).written_bytes ≡ length image
    pub bounded : length image ≤ max_firmware_bytes

  -- It goes on, or it was refused.
  abbrev Progress : List ℕ → EspOtaService × S → Type 0
  Progress image x = (((x.0).accepted ≡ false) × ((x.0).completed ≡ false)) ⊎ Loading image x

  write-Progress :
      (image piece : List ℕ) (x : EspOtaService × S)
      → length piece < 2 ^ 31
      → Loading image x
      → Progress (image ++ piece) (upload_write p piece x)
  unfolding upload_write refused
  write-Progress image piece (svc, s) short l =
      if-both {A = EspOtaService × S} (Progress (image ++ piece))
        (length piece == 0 || ltb max_firmware_bytes ((svc.written_bytes + length piece) % 2 ^ 32))
        _ _ (λ e. inl (refl, l.unfinished))
        (λ e.
          if-both {A = EspOtaService × S} (Progress (image ++ piece))
            (not ((p.update_write piece s).0 == length piece)) _ _ (λ e1. inl (refl, l.unfinished))
            (λ e1.
              if-both {A = EspOtaService × S} (Progress (image ++ piece))
                (not (p.hash_update piece (p.update_write piece s).1).0) _ _
                (λ e2. inl (refl, l.unfinished))
                (λ e2. inr (record {
                  going = l.going;
                  hashing = l.hashing;
                  unfinished = l.unfinished;
                  expected = l.expected;
                  hashed =
                      laws.feeds piece (p.update_write piece s).1 (ground (arith, e2))
                      ∙ ap (λ b. b ++ piece) (laws.write_keeps piece s ∙ l.hashed);
                  stored =
                      laws.feed_keeps piece (p.update_write piece s).1
                      ∙ laws.writes piece s (ground (arith, e1))
                      ∙ ap (λ b. b ++ piece) l.stored;
                  counted = ground (arith, e, length-append image piece, l.counted, l.bounded);
                  bounded = ground (arith, e, length-append image piece, l.counted, l.bounded);
                }))))

  start-Progress :
      (svc : EspOtaService) (s : S)
      → request_authorized p req svc ≡ true
      → Progress [] (upload_start p req (svc, s))
  unfolding upload_start refused
  start-Progress svc s e = rw e (
      if-both {A = EspOtaService × S} (Progress []) (not (p.update_begin s).0) _ _
        (λ e1. inl (refl, refl))
        (λ e1.
          if-both {A = EspOtaService × S} (Progress []) (not (p.hash_starts (p.update_begin s).1).0)
            _ _ (λ e2. inl (refl, refl))
            (λ e2. inr (record {
              going = refl;
              hashing = refl;
              unfinished = refl;
              expected = refl;
              hashed = laws.starts (p.update_begin s).1 (ground (arith, e2));
              stored = laws.starts_keeps (p.update_begin s).1 ∙ laws.begins s (ground (arith, e1));
              counted = refl;
              bounded = omega arith;
            }))))

  -- What a finished upload has.
  abbrev pub IsVerified : List ℕ → EspOtaService × S → Type 0
  IsVerified image x =
      (1 ≤ length image)
      × (length image ≤ max_firmware_bytes)
      × (hex_text (sha image) ≡ req.sha_header)
      × (flash x.1 ≡ image)

  announced :
      (image : List ℕ) (s : S) (digest : Option (List ℕ))
      → AreBytes req.sha_header
      → valid_sha256 req.sha_header ≡ true
      → fed s ≡ image
      → (p.hash_finish s).0 ≡ digest
      → secure_equals (text_of digest) req.sha_header ≡ true
      → hex_text (sha image) ≡ req.sha_header
  unfolding text_of
  announced image s none bytes valid hashed e equal =
      let nothing : valid_sha256 [] ≡ true =
        ap valid_sha256 ((secure_equals_iff [] req.sha_header tt bytes).0 equal) ∙ valid in
      absurd (empty_invalid nothing)
  announced image s (some digest) bytes valid hashed e equal =
      ap (λ d. hex_text (sha d)) (sym hashed)
      ∙ ap hex_text (sym (laws.finishes s digest e))
      ∙ (secure_equals_iff (hex_text digest) req.sha_header (hex_text-AreBytes digest) bytes).0
          equal

  end-IsVerified :
      (image : List ℕ) (x : EspOtaService × S)
      → AreBytes req.sha_header
      → valid_sha256 req.sha_header ≡ true
      → Loading image x
      → ((upload_end p x).0).completed ≡ true
      → IsVerified image (upload_end p x)
  unfolding upload_end refused finish_firmware_hash
  end-IsVerified image (svc, s) bytes valid l =
      let impossible : svc.completed ≡ true → ⊥ = λ c. true≢false (sym c ∙ l.unfinished) in
      let P : EspOtaService × S → Type 0 = λ r. (r.0).completed ≡ true → IsVerified image r in
      rw l.hashing (
        if-both {A = EspOtaService × S} P
          (svc.written_bytes == 0
            || not (secure_equals (text_of (p.hash_finish s).0) svc.expected_sha256))
          _ _ (λ e c. absurd (impossible c))
          (λ e.
            if-both {A = EspOtaService × S} P (not (p.update_end (p.hash_finish s).1).0) _ _
              (λ e1 c. absurd (impossible c))
              (λ e1 c. (
                ground (arith, e, l.counted),
                l.bounded,
                announced image s (p.hash_finish s).0 bytes valid l.hashed refl (
                    ap (secure_equals (text_of (p.hash_finish s).0)) (sym l.expected)
                    ∙ second_true _ _ e),
                laws.end_keeps (p.hash_finish s).1 ∙ laws.finish_keeps s ∙ l.stored,
              ))))

  authorized_if_completed :
      (pieces : List (List ℕ)) (svc : EspOtaService) (s : S)
      → ((handle_uploads p req (file_start ∷ rest_of_upload pieces) (svc, s)).0).completed ≡ true
      → request_authorized p req svc ≡ true
  authorized_if_completed pieces svc s c = elim (Bool-cases (request_authorized p req svc)) [
    | inl e ↦ e
    | inr e ↦ absurd (true≢false (sym c ∙ (unauthorized_upload p req pieces svc s e).1))
  ]

  module _ (bytes : AreBytes req.sha_header) (valid : valid_sha256 req.sha_header ≡ true) where
    pieces-IsVerified :
        (image : List ℕ) (pieces : List (List ℕ)) (x : EspOtaService × S)
        → AreShort pieces
        → Progress image x
        → let r = handle_uploads p req (rest_of_upload pieces) x in
          (r.0).completed ≡ true → IsVerified (image ++ joined pieces) r
    unfolding handle_uploads handle_upload upload_more
    pieces-IsVerified image pieces x short (inl (closed, unfinished)) c = absurd (
        true≢false (
          sym c
          ∙ ap {A = EspOtaService × S} (λ r. (r.0).completed) (refused_stays p req pieces x closed)
          ∙ unfinished))
    pieces-IsVerified image [] x short (inr l) c =
        let r : handle_uploads p req (file_end ∷ []) x ≡ upload_end p x =
          passed (x.0).accepted x (upload_end p x) l.going in
        let done : IsVerified image (upload_end p x) =
          end-IsVerified image x bytes valid l
            (ap {A = EspOtaService × S} (λ r. (r.0).completed) (sym r) ∙ c) in
        subst (λ i. IsVerified i (handle_uploads p req (file_end ∷ []) x)) (sym (append-nil image))
          (subst (IsVerified image) (sym r) done)
    pieces-IsVerified image (piece ∷ pieces) x short (inr l) c =
        let r : handle_upload p req (file_write piece) x ≡ upload_write p piece x =
          passed (x.0).accepted x (upload_write p piece x) l.going in
        let next : handle_uploads p req (rest_of_upload (piece ∷ pieces)) x
            ≡ handle_uploads p req (rest_of_upload pieces) (upload_write p piece x) =
          ap (handle_uploads p req (rest_of_upload pieces)) r in
        let done =
          pieces-IsVerified (image ++ piece) pieces (upload_write p piece x) short.1
            (write-Progress image piece x short.0 l)
            (ap {A = EspOtaService × S} (λ r. (r.0).completed) (sym next) ∙ c) in
        subst (λ i. IsVerified i (handle_uploads p req (rest_of_upload (piece ∷ pieces)) x))
          (append_assoc image piece (joined pieces))
          (subst (IsVerified ((image ++ piece) ++ joined pieces)) (sym next) done)

  header_valid :
      (svc : EspOtaService)
      → request_authorized p req svc ≡ true
      → valid_sha256 req.sha_header ≡ true
  unfolding request_authorized
  header_valid svc e = second_holds _ (valid_sha256 req.sha_header) _ e

  -- On a platform that keeps its laws, where the header is a text of bytes and no piece has 2 GiB:
  -- an upload that completes was authorized, is of an allowed size, has the digest that its request
  -- announced, and is what the flash holds.
  pub completed_upload :
      (pieces : List (List ℕ)) (svc : EspOtaService) (s : S)
      → AreBytes req.sha_header
      → AreShort pieces
      → ((handle_uploads p req (file_start ∷ rest_of_upload pieces) (svc, s)).0).completed ≡ true
      → (request_authorized p req svc ≡ true)
        × IsVerified
            (joined pieces)
            (handle_uploads p req (file_start ∷ rest_of_upload pieces) (svc, s))
  unfolding handle_uploads handle_upload
  completed_upload pieces svc s bytes short c =
      let authorized = authorized_if_completed pieces svc s c in
      (
        authorized,
        pieces-IsVerified bytes (header_valid svc authorized) [] pieces
            (upload_start p req (svc, s)) short (start-Progress svc s authorized) c,
      )
