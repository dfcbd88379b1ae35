-- ===== src/Tests/Failing.antt =====
-- A gateway whose cheapest vendor is down, alone and behind the serverless function.
use model_dispatcher.Prelude.{
  ℕ, String, List, ◌≡◌, refl, sym, ap, Option, none, some, [], ◌∷◌, arith,
}
use model_dispatcher.Prelude.Text.{codes, append, before, split, strip}
use model_dispatcher.Prelude.Int.{◌+ℤ◌, ℤ}
use model_dispatcher.Types.{TenantId, trivial, assistant, CompletionResponse}
use model_dispatcher.Providers.Base.{completed}
use model_dispatcher.Errors.{ok}
use model_dispatcher.Quota.Store.{Window, requests_per_min, tokens_per_min, tokens_per_day, read_in}
use model_dispatcher.Quota.Manager.Laws.{seen_in_memory}
use model_dispatcher.Security.Credentials.{resolve_candidates}
use model_dispatcher.Security.Perimeter.{validate}
use model_dispatcher.Routing.Triage.{classify}
use model_dispatcher.Routing.Router.{required_capabilities, tier_floor, eligible, route}
use model_dispatcher.Providers.Registry.{at_or_above, insert_by, sorted}
use model_dispatcher.Fallback.Chain.Failover.{IsDown, IsUp, Room}
use model_dispatcher.Fallback.Invocation.{sync_mode}
use model_dispatcher.Gateway.{ModelGateway, prepared, dispatch}
use model_dispatcher.Gateway.Serving.{AnsweredBy, dispatch-AnsweredBy}
use model_dispatcher.Types.Json.{string, object, end, field}
use model_dispatcher.Vercel.Firebase.{ensure_default_app}
use model_dispatcher.Vercel.Auth.{accepted, extract_bearer_token, firebase_auth}
use model_dispatcher.Vercel.AppCheck.{firebase_app_check}
use model_dispatcher.Vercel.Http.{get_field, parse_dispatch_request}
use model_dispatcher.Vercel.Pipeline.{Body, Pipeline, adapt}
use model_dispatcher.Vercel.Handler.{Incoming, receive, request_of, get_header, do_post}
use model_dispatcher.Vercel.Handler.Served.{Replied, do_post-Replied}
use model_dispatcher.Tests.Function.{function}
use model_dispatcher.Tests.Fixtures.{
  World, still_clock, first_period, still_clock-IsSteady, laws, clock, start, tenant, request,
  steady, flaky, gateway, too_many, answer,
}

abbrev seen : TenantId → Window → World → ℤ
seen = seen_in_memory still_clock first_period still_clock-IsSteady

flaky-IsDown : IsDown seen (sync_mode clock) tenant flaky
unfolding resolve_candidates append before
flaky-IsDown = record {
  keys = _;
  found = refl;
  fails = λ r key s. (too_many, refl, refl, tt);
  leaves = λ r key u w s. refl;
}

steady-IsUp : IsUp (sync_mode clock) request tenant steady
unfolding resolve_candidates append before split strip
steady-IsUp = record { keys = _; found = refl; answers = λ key s. (answer "steady", refl) }

steady_is_plain :
    (key : Option String) (s : World) (a : CompletionResponse)
    → (steady.complete request key s).0 ≡ completed a
    → (a.message.role ≡ assistant) × (a.message.tool_calls ≡ [])
steady_is_plain key s a e =
    let same : answer "steady" ≡ a = cc in
    (
      ap (λ (r : CompletionResponse). r.message.role) (sym same),
      ap (λ (r : CompletionResponse). r.message.tool_calls) (sym same),
    )

-- Every request counts as trivial.
abbrev cheap_gateway : ModelGateway World
cheap_gateway = record gateway { scorer = some (λ r. trivial) }

passes : validate cheap_gateway.settings.security request tenant ≡ ok tt
unfolding validate
passes = refl

cheapest_first :
    route cheap_gateway.providers cheap_gateway.settings.routing request
      (classify cheap_gateway.scorer request)
    ≡ flaky ∷ steady ∷ []
unfolding route classify required_capabilities at_or_above sorted tier_floor eligible insert_by
cheapest_first = refl

start-Room : Room seen request tenant (flaky ∷ steady ∷ []) start
unfolding read_in ◌+ℤ◌
start-Room requests_per_min = omega arith
start-Room tokens_per_min = omega arith
start-Room tokens_per_day = omega arith

dispatch-AnsweredBy_example :
    AnsweredBy cheap_gateway seen laws request tenant none
      (sync_mode clock)
      steady
      (dispatch cheap_gateway request tenant none start)
unfolding prepared
dispatch-AnsweredBy_example =
    dispatch-AnsweredBy cheap_gateway seen laws request tenant none passes passes (omega arith)
      (omega arith) (flaky ∷ []) [] steady cheapest_first (λ delay u w s. refl) start
      (flaky-IsDown, tt) steady-IsUp steady_is_plain start-Room

-- The serverless function in front of that gateway, with a `json` that reads every body as the same.
abbrev posting : Pipeline World
posting = record function {
  loads =
      λ body. ok (object (field "prompt" (string "hello") (field "tenant_id" (string "acme") end)));
  gateway_factory = λ s. (cheap_gateway, s);
  tenant_factory = λ tenant_id. tenant;
}

abbrev posted : Incoming
posted = record {
  headers =
      ("content-length", "2")
      ∷ ("x-firebase-appcheck", "app")
      ∷ ("authorization", "Bearer ada")
      ∷ [];
  rest = codes "[]";
}

abbrev dumps : Body → List ℕ
dumps body = codes "{}"

posted_received : receive posted ≡ ok (codes "[]")
unfolding receive
posted_received = refl

posted_attested :
    posting.verifier (request_of posted (codes "[]")).app_check_token
    ≡ accepted (record { app_id = "1"; subject = "1" })
unfolding ensure_default_app firebase_app_check get_header
posted_attested = refl

posted_signed_in :
    posting.auth_verifier (request_of posted (codes "[]")).authorization_header
    ≡ accepted (record { uid = some "uid-ada" })
unfolding ensure_default_app firebase_auth get_header extract_bearer_token
posted_signed_in = refl

posted_adapted : adapt posting.loads (codes "[]") ≡ ok (request, "acme")
unfolding adapt parse_dispatch_request get_field strip
posted_adapted = refl

do_post-Replied_example :
    (a : CompletionResponse) × ((key : Option String) × (s' : World) × ((steady.complete request key
          s').0
        ≡ completed a))
    × Replied dumps a (do_post dumps posting posted start)
unfolding prepared
do_post-Replied_example =
    do_post-Replied posting dumps posted start (codes "[]") (record { app_id = "1"; subject = "1" })
      (record { uid = some "uid-ada" }) request "acme" posted_received posted_attested
      posted_signed_in posted_adapted seen laws passes passes (omega arith) (omega arith)
      (flaky ∷ []) [] steady cheapest_first (λ delay u w s. refl) (flaky-IsDown, tt) steady-IsUp
      steady_is_plain start-Room
