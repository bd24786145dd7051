-- ===== src/Ota/Routes/Strangers.antt =====
-- What requests that are not authorized do to the service, however many there are.
use mathlib.Core.Path.{subst}
use gridex_edge_gateway.Prelude.{
  ℕ, ◌≡◌, refl, List, [], ◌∷◌, false, not, ◌+◌, if◌then◌else◌, if-both, arith, ap, ◌∙◌, sym,
}
use gridex_edge_gateway.Ota.{
  EspOtaConfig, EspOtaService, new_service, Request, Upload, file_start, file_write, file_end,
  file_aborted, Platform, enabled, source_allowed, handle_upload, handle_uploads, handle_result,
  restart_due, request_authorized, upload_start, refused, Answer,
}
use gridex_edge_gateway.Ota.Session.{start_unauthorized}
use gridex_edge_gateway.Ota.Routes.{
  Endpoint, Visit, no_visit, not_found, posted, LoopTurn, reject, handle_client, loop, loops,
}

-- Nothing was accepted, nothing is complete, and no restart is to come.
pub record IsIdle (config : EspOtaConfig) (svc : EspOtaService) : Type 0 where
  pub same : svc.config ≡ config
  pub closed : svc.accepted ≡ false
  pub incomplete : svc.completed ≡ false
  pub staying : svc.restart_pending ≡ false

module _ {S : Type 0} (p : Platform S) (config : EspOtaConfig) where
  abbrev pub IsStranger : Visit → Type 0
  IsStranger (posted req uploads) = request_authorized p req (new_service config) ≡ false
  IsStranger visit = Unit

  abbrev pub AreStrangers : List LoopTurn → Type 0
  AreStrangers [] = Unit
  AreStrangers (t ∷ turns) = IsStranger t.visit × AreStrangers turns

  -- Idle, with the platform as it was.
  abbrev pub IsUntouched : S → EspOtaService × S → Type 0
  IsUntouched s x = IsIdle config x.0 × (x.1 ≡ s)

  unauthorized :
      (req : Request) (svc : EspOtaService)
      → request_authorized p req (new_service config) ≡ false
      → IsIdle config svc
      → request_authorized p req svc ≡ false
  unfolding request_authorized source_allowed enabled
  unauthorized req svc h idle = ap (λ c. request_authorized p req (new_service c)) idle.same ∙ h

  start-IsUntouched :
      (req : Request) (svc : EspOtaService) (s : S)
      → request_authorized p req (new_service config) ≡ false
      → IsIdle config svc
      → IsUntouched s (upload_start p req (svc, s))
  unfolding refused
  start-IsUntouched req svc s h idle =
      subst (IsUntouched s) (sym (start_unauthorized p req svc s (unauthorized req svc h idle))) (
        record { same = idle.same; closed = refl; incomplete = refl; staying = idle.staying },
        refl,
      )

  unless_open :
      (x more : EspOtaService × S)
      → IsIdle config x.0
      → IsUntouched x.1 (if not (x.0).accepted then x else more)
  unless_open x more idle =
      if-both {A = EspOtaService × S} (IsUntouched x.1) (not (x.0).accepted) _ _ (λ e. (idle, refl))
        (λ e. absurd (ground (arith, e, idle.closed)))

  upload-IsUntouched :
      (req : Request) (upload : Upload) (x : EspOtaService × S)
      → request_authorized p req (new_service config) ≡ false
      → IsIdle config x.0
      → IsUntouched x.1 (handle_upload p req upload x)
  unfolding handle_upload
  upload-IsUntouched req file_start (svc, s) h idle = start-IsUntouched req svc s h idle
  upload-IsUntouched req (file_write bytes) x h idle = unless_open x _ idle
  upload-IsUntouched req file_end x h idle = unless_open x _ idle
  upload-IsUntouched req file_aborted x h idle = unless_open x _ idle

  uploads-IsUntouched :
      (req : Request) (uploads : List Upload) (x : EspOtaService × S)
      → request_authorized p req (new_service config) ≡ false
      → IsIdle config x.0
      → IsUntouched x.1 (handle_uploads p req uploads x)
  unfolding handle_uploads
  uploads-IsUntouched req [] x h idle = (idle, refl)
  uploads-IsUntouched req (upload ∷ uploads) x h idle =
      let (idle', same) = upload-IsUntouched req upload x h idle in
      let (idle'', same') =
        uploads-IsUntouched req uploads (handle_upload p req upload x) h idle' in
      (idle'', same' ∙ same)

  result-IsIdle :
      (now : ℕ) (svc : EspOtaService) → IsIdle config svc → IsIdle config (handle_result now svc).1
  unfolding handle_result
  result-IsIdle now svc idle =
      if-both {A = Answer × EspOtaService} (λ r. IsIdle config r.1) (not svc.completed) _ _
        (λ e. idle) (λ e. absurd (ground (arith, e, idle.incomplete)))

  client-IsUntouched :
      (visit : Visit) (now : ℕ) (x : EspOtaService × S)
      → IsStranger visit
      → IsIdle config x.0
      → IsUntouched x.1 (handle_client p visit now x)
  unfolding handle_client reject
  client-IsUntouched no_visit now x h idle = (idle, refl)
  client-IsUntouched not_found now x h idle = (
    record {
      same = idle.same;
      closed = idle.closed;
      incomplete = idle.incomplete;
      staying = idle.staying;
    },
    refl,
  )
  client-IsUntouched (posted req uploads) now x h idle =
      let (idle', same) = uploads-IsUntouched req uploads x h idle in
      (result-IsIdle now _ idle', same)

  loop-IsUntouched :
      (t : LoopTurn) (e : Endpoint) (s : S)
      → IsStranger t.visit
      → IsIdle config e.service
      → IsUntouched s ((loop p t (e, s)).0.service, (loop p t (e, s)).1)
        × ((loop p t (e, s)).0.restarts ≡ e.restarts)
  unfolding loop restart_due
  loop-IsUntouched t e s h idle =
      let served =
        if-both {A = EspOtaService × S} (IsUntouched s) e.started _ _
          (λ on. client-IsUntouched t.visit t.served_at (e.service, s) h idle)
          (λ off. (idle, refl)) in
      let (svc', s') =
        if e.started then handle_client p t.visit t.served_at (e.service, s) else (e.service, s) in
      (
        served,
        if-both {A = ℕ} (λ n. n ≡ e.restarts) (restart_due t.checked_at svc') (e.restarts + 1)
            e.restarts (λ due. absurd (ground (arith, due, (served.0).staying))) (λ due. refl),
      )

  -- Whatever requests arrive, in however many turns, with whatever parts of a file in whatever order:
  -- where none of them is authorized, a service that has accepted nothing leaves the flash and the hash
  -- as they are, does not restart the chip, and still has accepted nothing.
  pub loops_strangers :
      (turns : List LoopTurn) (e : Endpoint) (s : S)
      → AreStrangers turns
      → IsIdle config e.service
      → IsUntouched s ((loops p turns (e, s)).0.service, (loops p turns (e, s)).1)
        × ((loops p turns (e, s)).0.restarts ≡ e.restarts)
  unfolding loops
  loops_strangers [] e s h idle = ((idle, refl), refl)
  loops_strangers (t ∷ turns) e s (h, hs) idle =
      let ((idle', same), stays) = loop-IsUntouched t e s h idle in
      let ((idle'', same'), stays') =
        loops_strangers turns (loop p t (e, s)).0 (loop p t (e, s)).1 hs idle' in
      ((idle'', same' ∙ same), stays' ∙ stays)
