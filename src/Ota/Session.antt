-- ===== src/Ota/Session.antt =====
-- An upload as the web server hands it on: its start, the pieces of the file, its end.
use gridex_edge_gateway.Prelude.{
  ℕ, List, ◌≡◌, ◌∷◌, true, length, ◌++◌, [], false, some, ◌<◌, refl, ◌+◌, ◌^◌, ◌%◌, Bool, ap,
  if◌then◌else◌, ◌∙◌, not,
}
use mathlib.Core.Bool.{true≢false}
use gridex_edge_gateway.Ota.{
  upload_incomplete, EspOtaService, Request, Upload, file_start, file_write, file_end, Platform,
  request_authorized, upload_start, handle_upload, handle_uploads, refused, authorization,
}

-- What the code relies on: the hash is of what it was fed since it was started, and the update holds
-- what was written since it was begun. The other calls keep them.
pub record Laws {S : Type 0} (p : Platform S) (sha : List ℕ → List ℕ) (fed flash : S → List ℕ)
    : Type 0 where
  pub begins : (s : S) → (p.update_begin s).0 ≡ true → flash (p.update_begin s).1 ≡ []
  pub writes :
      (bytes : List ℕ) (s : S)
      → (p.update_write bytes s).0 ≡ length bytes
      → flash (p.update_write bytes s).1 ≡ flash s ++ bytes
  pub write_keeps : (bytes : List ℕ) (s : S) → fed (p.update_write bytes s).1 ≡ fed s
  pub end_keeps : (s : S) → flash (p.update_end s).1 ≡ flash s
  pub starts : (s : S) → (p.hash_starts s).0 ≡ true → fed (p.hash_starts s).1 ≡ []
  pub starts_keeps : (s : S) → flash (p.hash_starts s).1 ≡ flash s
  pub feeds :
      (bytes : List ℕ) (s : S)
      → (p.hash_update bytes s).0 ≡ true
      → fed (p.hash_update bytes s).1 ≡ fed s ++ bytes
  pub feed_keeps : (bytes : List ℕ) (s : S) → flash (p.hash_update bytes s).1 ≡ flash s
  pub finishes :
      (s : S) (digest : List ℕ) → (p.hash_finish s).0 ≡ some digest → digest ≡ sha (fed s)
  pub finish_keeps : (s : S) → flash (p.hash_finish s).1 ≡ flash s

-- The pieces, each with less than 2 GiB.
abbrev pub AreShort : List (List ℕ) → Type 0
AreShort [] = Unit
AreShort (piece ∷ pieces) = (length piece < 2 ^ 31) × AreShort pieces

abbrev pub joined : List (List ℕ) → List ℕ
joined [] = []
joined (piece ∷ pieces) = piece ++ joined pieces

-- The calls for the pieces and the end of the file.
abbrev pub rest_of_upload : List (List ℕ) → List Upload
rest_of_upload [] = file_end ∷ []
rest_of_upload (piece ∷ pieces) = file_write piece ∷ rest_of_upload pieces

closed : {A : Type 0} (b : Bool) (x y : A) → b ≡ false → (if not b then x else y) ≡ x
closed true x y e = absurd (true≢false e)
closed false x y e = refl

-- The service after a start that is not authorized.
abbrev pub turned_away : Request → EspOtaService → EspOtaService
turned_away req svc = refused authorization (record svc {
  accepted = false;
  completed = false;
  failure_reason = upload_incomplete;
  written_bytes = 0;
  expected_sha256 = req.sha_header;
})

module _ {S : Type 0} (p : Platform S) where
  pub refused_stays :
      (req : Request) (pieces : List (List ℕ)) (x : EspOtaService × S)
      → (x.0).accepted ≡ false
      → handle_uploads p req (rest_of_upload pieces) x ≡ x
  unfolding handle_uploads handle_upload
  refused_stays req [] x e = closed (x.0).accepted x _ e
  refused_stays req (piece ∷ pieces) x e =
      ap (handle_uploads p req (rest_of_upload pieces)) (closed (x.0).accepted x _ e)
      ∙ refused_stays req pieces x e

  pub start_unauthorized :
      (req : Request) (svc : EspOtaService) (s : S)
      → request_authorized p req svc ≡ false
      → upload_start p req (svc, s) ≡ (turned_away req svc, s)
  unfolding upload_start
  start_unauthorized req svc s e = rw e refl

  -- An upload whose start is not authorized leaves the flash and the hash as they were, does not
  -- complete, gives the authorization as the reason, and counts as one refusal.
  pub unauthorized_upload :
      (req : Request) (pieces : List (List ℕ)) (svc : EspOtaService) (s : S)
      → request_authorized p req svc ≡ false
      → let r = handle_uploads p req (file_start ∷ rest_of_upload pieces) (svc, s) in
        (r.1 ≡ s)
        × ((r.0).completed ≡ false)
        × ((r.0).failure_reason ≡ authorization)
        × ((r.0).rejected_requests ≡ (svc.rejected_requests + 1) % 2 ^ 32)
  unfolding handle_uploads handle_upload refused
  unauthorized_upload req pieces svc s e =
      let r : handle_uploads p req (file_start ∷ rest_of_upload pieces) (svc, s)
          ≡ (turned_away req svc, s) =
        ap (handle_uploads p req (rest_of_upload pieces)) (start_unauthorized req svc s e)
        ∙ refused_stays req pieces (turned_away req svc, s) refl in
      rw r (refl, refl, refl, refl)
