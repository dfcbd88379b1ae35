-- ===== src/Vercel/Pipeline/Guards.antt =====
-- What stands between a request and the gateway.
use model_dispatcher.Prelude.{ℕ, String, ◌≡◌, ◌⊎◌, Option, none, some, List}
use model_dispatcher.Types.{CompletionRequest}
use model_dispatcher.Errors.{Payload, value_error, Res, ok, raised}
use model_dispatcher.Routing.Triage.{classify}
use model_dispatcher.Gateway.{dispatch}
use model_dispatcher.Vercel.Firebase.{
  Environment, FirebaseAdmin, ServiceAccounts, ensure_default_app,
}
use model_dispatcher.Vercel.Auth.{AuthClaims}
use model_dispatcher.Vercel.Pipeline.{
  HttpRequest, Response, Pipeline, complexity_name, adapt, refusal, answer_of,
}
use model_dispatcher.Vercel.Auth.Identity.{Identified}
use model_dispatcher.Vercel.Pipeline.Adapting.{RaisesValueError}
use model_dispatcher.Vercel.AppCheck.Attested.{Attested}

-- A response, or a ValueError that nothing catches.
abbrev pub IsAnswer : {S : Type 0} → Option (Res Response × S) → Type 0
IsAnswer (some (ok response, s)) = Unit
IsAnswer (some (raised (value_error message), s)) = Unit
IsAnswer _ = ⊥

-- Refused before the gateway is built: nothing has happened.
abbrev pub Refused : {S : Type 0} → S → Option (Res Response × S) → Type 0
Refused s out =
    (status : ℕ) × (((status ≡ 403) ⊎ ((status ≡ 401) ⊎ (status ≡ 400)))
      × ((error : String) × (rest : Payload) × (out ≡ some (ok (refusal status error rest), s))))

-- Handed to the gateway, for an attested app, on behalf of the verified user.
pub record Dispatched {S : Type 0} (admin : FirebaseAdmin) (p : Pipeline S) (r : HttpRequest)
    (s : S) (out : Option (Res Response × S)) : Type 0 where
  pub app : Attested admin r.app_check_token
  pub claims : AuthClaims
  pub user : Identified admin r.authorization_header claims
  pub request : CompletionRequest
  pub declared : String
  pub adapted : adapt p.loads r.raw_body ≡ ok (request, declared)
  pub served :
      out
      ≡ answer_of (complexity_name (classify p.triage request)) (
          dispatch
            (p.gateway_factory s).0
            request
            (p.tenant_factory user.uid)
            none
            (p.gateway_factory s).1)
  pub answered : IsAnswer out

module _ {S : Type 0} (admin : FirebaseAdmin) (accounts : ServiceAccounts) (environ : Environment)
    (ready : ensure_default_app admin accounts environ ≡ ok tt) (p : Pipeline S)
    (loads : (body : List ℕ) → RaisesValueError (p.loads body)) where
  abbrev pub Guarded : HttpRequest → S → Option (Res Response × S) → Type 0
  Guarded r s out = Refused s out ⊎ Dispatched admin p r s out
