-- ===== src/Tests/Serving.antt =====
-- The theorems on the fallback chain, on a vendor that is rate limited and one that answers.
use model_dispatcher.Prelude.{◌≡◌, refl, Option, none, some, [], ◌∷◌}
use model_dispatcher.Types.{rate_limit}
use model_dispatcher.Errors.{ok, raised, value_error, to_payload, RateLimitError}
use model_dispatcher.Onboarding.Handoff.{text}
use model_dispatcher.Security.Credentials.{Credential}
use model_dispatcher.Fallback.Context.{continue, fallback, InvocationContext}
use model_dispatcher.Fallback.Handlers.{rate_limit_handle, retry_handle}
use model_dispatcher.Fallback.Invocation.{sync_mode, invoke}
use model_dispatcher.Fallback.Invocation.Rounds.{refs_in_turn, Recorded, invoke-Recorded}
use model_dispatcher.Fallback.Chain.{build, execute_handles}
use model_dispatcher.Fallback.Chain.Frame.{Frame-refl, IsTame}
use model_dispatcher.Fallback.Chain.Refinement.{serve, execute_handles-refines}
use model_dispatcher.Tests.Fixtures.{World, store, clock, start, flaky, steady, context, policy}

payload :
    to_payload (RateLimitError (text "slow" ∷ []))
    ≡ ("error", text "rate_limited" ∷ []) ∷ ("detail", text "slow" ∷ []) ∷ []
unfolding to_payload
payload = refl

build_empty :
    build {S = World} []
    ≡ raised (value_error (text "a fallback chain needs at least one handler" ∷ []))
unfolding build
build_empty = refl

-- The two optional links.
abbrev limited : InvocationContext World
limited = record context {
  attempts =
      record {
        provider_name = "flaky";
        error_class = some rate_limit;
        detail = none;
        credential_ref = none;
      }
      ∷ [];
}

rate_limit_handle-limited : rate_limit_handle limited start ≡ (ok fallback, limited, start)
unfolding rate_limit_handle
rate_limit_handle-limited = refl

retry_handle-limited : retry_handle limited start ≡ (ok continue, limited, start)
unfolding retry_handle
retry_handle-limited = refl

abbrev IsAny : Option Credential → Type 0
IsAny k = Unit

invoke-Recorded_example :
    Recorded store
      (sync_mode clock)
      policy
      flaky
      (refs_in_turn context.credentials)
      context
      (invoke store (sync_mode clock) policy context start).1
invoke-Recorded_example =
    invoke-Recorded store (sync_mode clock) policy flaky (steady ∷ []) context start refl

retry_handle-IsTame : IsTame {S = World} retry_handle
unfolding retry_handle
retry_handle-IsTame = record { at = λ c s. Frame-refl c }

execute_handles-refines_example :
    execute_handles (retry_handle ∷ []) context start
    ≡ some (serve (retry_handle ∷ []) context.candidates context start)
execute_handles-refines_example =
    execute_handles-refines (retry_handle ∷ []) (retry_handle-IsTame, tt) context start
