-- ===== src/Vercel/Pipeline.antt =====
-- templates/vercel-app/api/_lib/pipeline.py: one request from its headers to its response.
pub mod Adapting
pub mod Guards
pub mod Handed
use model_dispatcher.Prelude.{ℕ, String, Option, none, some, List, [], ◌∷◌, if◌then◌else◌}
use model_dispatcher.Prelude.Text.{codes, is_nonempty}
use model_dispatcher.Types.{TaskComplexity, trivial, simple, moderate, complex, CompletionRequest}
use model_dispatcher.Types.Json.{JsonValue, object}
use model_dispatcher.Errors.{dispatcher, value_error, Res, ok, raised, Payload, to_payload}
use model_dispatcher.Onboarding.Handoff.{text}
use model_dispatcher.Quota.Tenant.{TenantContext}
use model_dispatcher.Routing.Triage.{ComplexityScorer, classify}
use model_dispatcher.Orchestration.State.{RunResult}
use model_dispatcher.Gateway.{ModelGateway, dispatch}
use model_dispatcher.Vercel.Auth.{Verified, accepted, rejected, crashed, AuthClaims, AuthVerifier}
use model_dispatcher.Vercel.AppCheck.{AppCheckVerifier}
use model_dispatcher.Vercel.Http.{parse_dispatch_request, serialise_result}

-- What `run_dispatch` is given of a request; the body is its bytes.
pub record HttpRequest : Type 0 where
  pub app_check_token : Option String
  pub authorization_header : Option String
  pub raw_body : List ℕ

pub data Body : Type 0 where
  error_body : Payload → Body
  result_body : JsonValue → Body

pub record Response : Type 0 where
  pub status : ℕ
  pub body : Body

-- `json.loads` of bytes
abbrev pub Loads : Type 0
Loads = List ℕ → Res JsonValue

-- `complexity.name`
abbrev pub complexity_name : TaskComplexity → String
complexity_name trivial = "TRIVIAL"
complexity_name simple = "SIMPLE"
complexity_name moderate = "MODERATE"
complexity_name complex = "COMPLEX"

-- `raw_body or b"{}"`
abbrev pub body_or_empty : List ℕ → List ℕ
body_or_empty [] = codes "{}"
body_or_empty (b ∷ body) = b ∷ body

parse_decoded : Res JsonValue → Res (CompletionRequest × String)
unfolding parse_dispatch_request
parse_decoded (raised e) = raised e
parse_decoded (ok (object payload)) = parse_dispatch_request payload
parse_decoded (ok _) = raised (value_error (text "request body must be a JSON object" ∷ []))

-- The `try` around the decoding.
unfoldable pub adapt : Loads → List ℕ → Res (CompletionRequest × String)
unfolding parse_decoded
adapt loads raw_body = parse_decoded (loads (body_or_empty raw_body))

abbrev pub refusal : ℕ → String → Payload → Response
refusal status error rest = record {
  status = status;
  body = error_body (("error", text error ∷ []) ∷ rest);
}

-- `claims.uid or declared_tenant_id`
abbrev pub tenant_id_of : AuthClaims → String → String
tenant_id_of claims declared = elim claims.uid [
  | none ↦ declared
  | some uid ↦ if is_nonempty uid then uid else declared
]

-- What becomes of the outcome of `dispatch`; an exception that is none of the library's goes on.
unfoldable pub answer_of :
    {S : Type 0} → String → Option (Res RunResult × S) → Option (Res Response × S)
unfolding serialise_result to_payload
answer_of complexity none = none
answer_of complexity (some (ok result, s)) =
    some (ok (record { status = 200; body = result_body (serialise_result result complexity) }), s)
answer_of complexity (some (raised (dispatcher e), s)) =
    some (ok (record { status = e.http_status; body = error_body (to_payload e) }), s)
answer_of complexity (some (raised e, s)) = some (raised e, s)

-- The collaborators of `run_dispatch`.
pub record Pipeline (S : Type 0) : Type 0 where
  pub loads : Loads
  pub verifier : AppCheckVerifier
  pub auth_verifier : AuthVerifier
  pub gateway_factory : S → ModelGateway S × S
  pub tenant_factory : String → TenantContext
  pub triage : Option ComplexityScorer

module _ {S : Type 0} (p : Pipeline S) where
  invoke_gateway : CompletionRequest → String → S → Option (Res Response × S)
  unfolding answer_of dispatch
  invoke_gateway request tenant_id s =
      let (gateway, s') = p.gateway_factory s in
      answer_of (complexity_name (classify p.triage request))
        (dispatch gateway request (p.tenant_factory tenant_id) none s')

  after_adapt : AuthClaims → Res (CompletionRequest × String) → S → Option (Res Response × S)
  unfolding invoke_gateway
  after_adapt claims (raised (value_error message)) s =
      some (ok (refusal 400 "bad_request" (("detail", message) ∷ [])), s)
  after_adapt claims (raised e) s = some (raised e, s)
  after_adapt claims (ok (request, declared)) s =
      invoke_gateway request (tenant_id_of claims declared) s

  after_auth : List ℕ → Verified AuthClaims → S → Option (Res Response × S)
  unfolding adapt after_adapt
  after_auth raw_body (rejected _) s = some (ok (refusal 401 "unauthenticated" []), s)
  after_auth raw_body (crashed e) s = some (raised e, s)
  after_auth raw_body (accepted claims) s = after_adapt claims (adapt p.loads raw_body) s

  -- `run_dispatch`
  unfoldable pub run_dispatch : HttpRequest → S → Option (Res Response × S)
  unfolding after_auth
  run_dispatch r s = elim (p.verifier r.app_check_token) [
    | rejected _ ↦ some (ok (refusal 403 "app_check_failed" []), s)
    | crashed e ↦ some (raised e, s)
    | accepted _ ↦ after_auth r.raw_body (p.auth_verifier r.authorization_header) s
  ]
