-- ===== src/Demo/Wire.antt =====
-- The demonstration's responses beside those of the serverless function.
use model_dispatcher.Prelude.{String, ◌≡◌, refl, Bool, Option, none, some, List, [], ◌∷◌}
use model_dispatcher.Errors.{
  dispatcher, value_error, assertion_error, key_error, index_error, no_capable_provider, Res, ok,
  raised,
}
use model_dispatcher.Fallback.Context.{AttemptRecord}
use model_dispatcher.Orchestration.State.{StepResult, RunResult}
use model_dispatcher.Routing.Triage.{classify}
use model_dispatcher.Gateway.{ModelGateway, dispatch}
use model_dispatcher.Vercel.Http.{
  prompt_request, serialise_attempts, serialise_steps, serialise_result,
}
use model_dispatcher.Vercel.Pipeline.{complexity_name, answer_of}
use model_dispatcher.Demo.{
  DispatchBody, demo_tenant, demo_attempts, demo_steps, demo_body, demo_answer, demo_dispatch,
}

attempts-same : (l : List AttemptRecord) → demo_attempts l ≡ serialise_attempts l
unfolding demo_attempts serialise_attempts
attempts-same [] = refl
attempts-same (a ∷ l) = rw (attempts-same l) refl

steps-same : (l : List StepResult) → demo_steps l ≡ serialise_steps l
unfolding demo_steps serialise_steps
steps-same [] = refl
steps-same (step ∷ l) = rw (attempts-same step.attempts, steps-same l) refl

body-same :
    (r : RunResult) (complexity : String) → demo_body r complexity ≡ serialise_result r complexity
unfolding demo_body serialise_result
body-same r complexity = rw (steps-same r.steps) refl

answer-same :
    {S : Type 0} (complexity : String) (o : Option (Res RunResult × S))
    → demo_answer complexity o ≡ answer_of complexity o
unfolding demo_answer answer_of
answer-same complexity none = refl
answer-same complexity (some (ok result, s)) = rw (body-same result complexity) refl
answer-same complexity (some (raised (dispatcher e), s)) = refl
answer-same complexity (some (raised (value_error m), s)) = refl
answer-same complexity (some (raised (assertion_error m), s)) = refl
answer-same complexity (some (raised (key_error k), s)) = refl
answer-same complexity (some (raised (index_error k), s)) = refl
answer-same complexity (some (raised (no_capable_provider t c), s)) = refl

-- The demonstration renders a dispatch exactly as the serverless function does: status, keys and
-- values of the response are those of the function's answer for the same gateway, request and
-- tenant, whether the dispatch succeeds or fails.
pub demo_dispatch-answer_of :
    {S : Type 0} (build : Bool → S → ModelGateway S × S) (body : DispatchBody) (s : S)
    → let request = prompt_request body.prompt body.tenant_id in
      let built = build body.simulate_rate_limit s in
      demo_dispatch build body s
      ≡ answer_of
          (complexity_name (classify none request))
          (dispatch built.0 request (demo_tenant body.tenant_id) none built.1)
unfolding demo_dispatch
demo_dispatch-answer_of build body s = answer-same _ _
