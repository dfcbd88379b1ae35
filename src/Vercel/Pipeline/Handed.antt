-- ===== src/Vercel/Pipeline/Handed.antt =====
-- A request that passes the guards of the pipeline.
use model_dispatcher.Prelude.{String, ◌≡◌, refl, none}
use model_dispatcher.Types.{CompletionRequest}
use model_dispatcher.Errors.{ok}
use model_dispatcher.Routing.Triage.{classify}
use model_dispatcher.Gateway.{dispatch}
use model_dispatcher.Vercel.Auth.{accepted, AuthClaims}
use model_dispatcher.Vercel.AppCheck.{AppCheckClaims}
use model_dispatcher.Vercel.Pipeline.{
  HttpRequest, Pipeline, adapt, tenant_id_of, answer_of, complexity_name, invoke_gateway,
  after_adapt, after_auth, run_dispatch,
}

-- What is done with a request whose app and user are verified and whose body is well formed.
pub run_dispatch-answer_of :
    {S : Type 0} (p : Pipeline S) (r : HttpRequest) (s : S) (app : AppCheckClaims)
    (claims : AuthClaims) (request : CompletionRequest) (declared : String)
    → p.verifier r.app_check_token ≡ accepted app
    → p.auth_verifier r.authorization_header ≡ accepted claims
    → adapt p.loads r.raw_body ≡ ok (request, declared)
    → run_dispatch p r s
      ≡ answer_of (complexity_name (classify p.triage request)) (
          dispatch
            (p.gateway_factory s).0
            request
            (p.tenant_factory (tenant_id_of claims declared))
            none
            (p.gateway_factory s).1)
unfolding run_dispatch after_auth after_adapt invoke_gateway
run_dispatch-answer_of p r s app claims request declared attested signed_in adapted =
    rw (run_dispatch, attested, after_auth, signed_in, adapted) refl
