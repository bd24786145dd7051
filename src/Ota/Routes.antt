-- ===== src/Ota/Routes.antt =====
-- The web server of `EspOtaService`, which is a library: its start, its requests and the restart.
pub mod Strangers
use gridex_edge_gateway.Prelude.{
  ℕ, ◌≡◌, refl, List, [], ◌∷◌, Bool, true, false, not, ◌||◌, ◌+◌, ◌%◌, ◌^◌, if◌then◌else◌, if-both,
  arith, ap, ◌∙◌, sym,
}
use gridex_edge_gateway.Ota.{
  EspOtaConfig, EspOtaService, new_service, Request, Upload, file_start, file_write, file_end,
  file_aborted, Platform, enabled, handle_upload, handle_uploads, handle_result, restart_due,
  Answer, source_allowed, request_authorized, upload_start, refused,
}
use mathlib.Core.Path.{subst}
use gridex_edge_gateway.Ota.Session.{start_unauthorized}

-- The service, whether it was started, and how often the chip was restarted.
pub record Endpoint : Type 0 where
  pub service : EspOtaService
  pub started : Bool
  pub restarts : ℕ

unfoldable pub begin : Endpoint → Endpoint
unfolding enabled
begin e = if e.started || not (enabled e.service) then e else record e { started = true }

-- A new secret or source restarts the chip.
unfoldable pub set_config : EspOtaConfig → Endpoint → Endpoint
set_config config e = record e {
  service = record (e.service) { config = config };
  restarts = e.restarts + 1;
}

-- What `handleClient` finds: no request, one to `kPath` with the parts of its file, or another one.
pub data Visit : Type 0 where
  no_visit not_found : Visit
  posted : Request → List Upload → Visit

-- `millis()` in `handleResult` and after it.
pub record LoopTurn : Type 0 where
  pub visit : Visit
  pub served_at : ℕ
  pub checked_at : ℕ

-- `reject`.
unfoldable pub reject : EspOtaService → EspOtaService
reject svc = record svc { rejected_requests = (svc.rejected_requests + 1) % 2 ^ 32 }

module _ {S : Type 0} (p : Platform S) where
  unfoldable pub handle_client : Visit → ℕ → EspOtaService × S → EspOtaService × S
  unfolding reject handle_uploads handle_result
  handle_client no_visit now x = x
  handle_client not_found now (svc, s) = (reject svc, s)
  handle_client (posted req uploads) now x =
      let (svc, s) = handle_uploads p req uploads x in ((handle_result now svc).1, s)

  unfoldable pub loop : LoopTurn → Endpoint × S → Endpoint × S
  unfolding handle_client restart_due
  loop t (e, s) =
      let (svc, s') =
        if e.started then handle_client t.visit t.served_at (e.service, s) else (e.service, s) in
      (
        record e {
          service = svc;
          restarts = if restart_due t.checked_at svc then e.restarts + 1 else e.restarts;
        },
        s',
      )

  unfoldable pub loops : List LoopTurn → Endpoint × S → Endpoint × S
  unfolding loop
  loops [] x = x
  loops (t ∷ turns) x = loops turns (loop t x)
