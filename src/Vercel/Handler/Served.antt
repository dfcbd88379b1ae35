-- ===== src/Vercel/Handler/Served.antt =====
-- A POST from a user who is signed in, where one of the candidates answers.
use model_dispatcher.Prelude.{
  ℕ, ◌<◌, String, ◌≡◌, refl, ap, ◌∙◌, Option, none, some, List, [], ◌∷◌, ◌++◌, All,
}
use model_dispatcher.Prelude.Int.{ℤ}
use model_dispatcher.Types.{Message, assistant, TenantId, CompletionRequest, CompletionResponse}
use model_dispatcher.Types.Json.{JsonValue, string, object}
use model_dispatcher.Errors.{Res, ok}
use model_dispatcher.Providers.Base.{completed, ModelProvider}
use model_dispatcher.Quota.Tenant.{TenantContext}
use model_dispatcher.Quota.Store.{Window}
use model_dispatcher.Quota.Manager.Laws.{StoreLaws}
use model_dispatcher.Security.Perimeter.{validate}
use model_dispatcher.Routing.Triage.{classify}
use model_dispatcher.Routing.Router.{route}
use model_dispatcher.Fallback.Chain.Failover.{IsDown, IsUp, Room}
use model_dispatcher.Fallback.Invocation.{sync_mode}
use model_dispatcher.Orchestration.State.{StopReason, RunResult}
use model_dispatcher.Gateway.{ModelGateway, dispatch}
use model_dispatcher.Gateway.Serving.{first_turn, dispatch-AnsweredBy}
use model_dispatcher.Vercel.Auth.{accepted, AuthClaims}
use model_dispatcher.Vercel.AppCheck.{AppCheckClaims}
use model_dispatcher.Vercel.Http.{get_field, text_or_null, serialise_result, stop_reason_value}
use model_dispatcher.Vercel.Pipeline.{
  Body, result_body, Pipeline, adapt, tenant_id_of, answer_of, complexity_name,
}
use model_dispatcher.Vercel.Pipeline.Handed.{run_dispatch-answer_of}
use model_dispatcher.Vercel.Handler.{
  Incoming, Written, write_json, write_response, request_of, receive, respond, do_post,
}

-- A field of a JSON object.
abbrev pub json_field : String → JsonValue → Option JsonValue
json_field key (object fs) = get_field key fs
json_field key _ = none

-- Status 200, with the answer's text and the stop reason "completed".
pub record Replied {S : Type 0} (dumps : Body → List ℕ) (a : CompletionResponse)
    (out : Option (Res Written × S)) : Type 0 where
  pub json : JsonValue
  pub after : S
  pub written : out ≡ some (ok (write_json dumps 200 (result_body json)), after)
  pub final : json_field "final" json ≡ some (text_or_null a.message.content)
  pub stop_reason : json_field "stop_reason" json ≡ some (string "completed")

module _ {S : Type 0} (p : Pipeline S) (dumps : Body → List ℕ) (incoming : Incoming) (s : S) where
  final-field :
      (result : RunResult) (complexity : String)
      → json_field "final" (serialise_result result complexity)
        ≡ some (text_or_null result.final_message.content)
  unfolding serialise_result get_field
  final-field result complexity = refl

  stop_reason-field :
      (result : RunResult) (complexity : String)
      → json_field "stop_reason" (serialise_result result complexity)
        ≡ some (string (stop_reason_value result.stop_reason))
  unfolding serialise_result get_field
  stop_reason-field result complexity = refl

  module _ (body : List ℕ) (app : AppCheckClaims) (claims : AuthClaims)
      (request : CompletionRequest) (declared : String) (received : receive incoming ≡ ok body)
      (attested : p.verifier (request_of incoming body).app_check_token ≡ accepted app)
      (signed_in : p.auth_verifier (request_of incoming body).authorization_header
        ≡ accepted claims)
      (adapted : adapt p.loads body ≡ ok (request, declared)) where
    abbrev g : ModelGateway S
    g = (p.gateway_factory s).0

    abbrev tenant : TenantContext
    tenant = p.tenant_factory (tenant_id_of claims declared)

    do_post-answer_of :
        do_post dumps p incoming s
        ≡ write_response dumps p (
            answer_of
              (complexity_name (classify p.triage request))
              (dispatch g request tenant none (p.gateway_factory s).1))
    unfolding do_post respond
    do_post-answer_of =
        ap (λ b. respond dumps p incoming b s) received
        ∙ ap (write_response dumps p) (
            run_dispatch-answer_of p (request_of incoming body) s app claims request declared
              attested signed_in adapted)

    answered-Replied :
        (a : CompletionResponse) (result : RunResult) (after : S)
        → result.final_message ≡ a.message
        → result.stop_reason ≡ StopReason.completed
        → dispatch g request tenant none (p.gateway_factory s).1 ≡ some (ok result, after)
        → Replied dumps a (do_post dumps p incoming s)
    unfolding write_response answer_of
    answered-Replied a result after final stopped returned =
        let complexity = complexity_name (classify p.triage request) in
        record {
          json = serialise_result result complexity;
          after = after;
          written =
              do_post-answer_of
              ∙ ap (λ o. write_response dumps p (answer_of complexity o)) returned;
          final =
              final-field result complexity
              ∙ ap (λ (m : Message). some (text_or_null m.content)) final;
          stop_reason =
              stop_reason-field result complexity
              ∙ ap (λ r. some (string (stop_reason_value r))) stopped;
        }

    -- A POST whose body can be read, whose app and user are verified and whose body asks for a
    -- completion gets status 200 and JSON with the text of the answer of the first candidate that is
    -- up and the stop reason "completed", where the perimeter lets the request and its first turn
    -- pass, at least one attempt and one turn are allowed, every candidate ahead fails each call with
    -- a rate limit, a quota or a transient error whose retry hint, if any, can be read and is not
    -- negative, that candidate answers in the role of the assistant without asking for tools, neither
    -- pauses nor failing calls touch the counters, and every window has room for the estimates of all
    -- these candidates together.
    pub do_post-Replied :
        (seen : TenantId → Window → S → ℤ) (laws : StoreLaws g.quota seen)
        → validate g.settings.security request tenant ≡ ok tt
        → validate g.settings.security (first_turn g seen laws request tenant none) tenant ≡ ok tt
        → 0 < g.settings.retry_max_attempts
        → 0 < g.settings.max_iterations
        → (ahead behind : List (ModelProvider S)) → (q : ModelProvider S)
        → route g.providers g.settings.routing request (classify g.scorer request)
          ≡ ahead ++ q ∷ behind
        → ((delay : ℕ) (u : TenantId) (w : Window) (s' : S)
            → seen u w (g.clock.sleep delay s') ≡ seen u w s')
        → All (IsDown seen (sync_mode g.clock) tenant) ahead
        → IsUp (sync_mode g.clock) (first_turn g seen laws request tenant none) tenant q
        → ((key : Option String) (s' : S) (a : CompletionResponse)
            → (q.complete (first_turn g seen laws request tenant none) key s').0 ≡ completed a
            → (a.message.role ≡ assistant) × (a.message.tool_calls ≡ []))
        → Room seen
            (first_turn g seen laws request tenant none)
            tenant
            (ahead ++ q ∷ [])
            (p.gateway_factory s).1
        → (a : CompletionResponse) × ((key : Option String) × (s' : S) × ((q.complete
                (first_turn g seen laws request tenant none)
                key
                s').0
              ≡ completed a))
          × Replied dumps a (do_post dumps p incoming s)
    do_post-Replied seen laws allowed turn tries turns ahead behind q routed pauses down up plain
          room =
        let d =
          dispatch-AnsweredBy g seen laws request tenant none allowed turn tries turns ahead behind
            q routed pauses (p.gateway_factory s).1 down up plain room in
        (
          d.answer,
          (d.key, d.asked_in, d.origin),
          answered-Replied d.answer d.result d.after d.final d.stopped d.returned,
        )
