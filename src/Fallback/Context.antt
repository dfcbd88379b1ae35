-- ===== src/Fallback/Context.antt =====
-- src/model_dispatcher/fallback/handlers.py: the state of one model turn, and what a handler is.
-- The `_next` link that `build` sets is read by nothing; the executor walks the list.
use model_dispatcher.Prelude.{String, Option, none, some, List, [], ◌∷◌}
use model_dispatcher.Types.{ErrorClass, CompletionRequest, CompletionResponse}
use model_dispatcher.Errors.{Exn, Res}
use model_dispatcher.Onboarding.Handoff.{Text}
use model_dispatcher.Providers.Base.{ModelProvider}
use model_dispatcher.Quota.Tenant.{TenantContext}
use model_dispatcher.Quota.Manager.{QuotaDecision}
use model_dispatcher.Security.Credentials.{Credential}

pub data HandlerOutcome : Type 0 where
  continue success fallback stop : HandlerOutcome

pub record AttemptRecord : Type 0 where
  pub provider_name : String
  pub error_class : Option ErrorClass
  pub detail : Option String
  pub credential_ref : Option String

pub record InvocationContext (S : Type 0) : Type 0 where
  pub request : CompletionRequest
  pub tenant : TenantContext
  pub candidates : List (ModelProvider S)
  pub attempts : List AttemptRecord
  pub credentials : List Credential
  pub reservation : Option QuotaDecision
  pub response : Option CompletionResponse
  pub error : Option Exn
  pub warnings : List Text

-- A context as the agent loop makes it.
abbrev pub fresh_context :
    {S : Type 0} → CompletionRequest → TenantContext → List (ModelProvider S) → InvocationContext S
fresh_context request tenant candidates = record {
  request = request;
  tenant = tenant;
  candidates = candidates;
  attempts = [];
  credentials = [];
  reservation = none;
  response = none;
  error = none;
  warnings = [];
}

module _ {S : Type 0} where
  -- `context.current`
  abbrev pub current : InvocationContext S → Option (ModelProvider S)
  current c = elim c.candidates [ [] ↦ none | p ∷ _ ↦ some p ]

  -- `reset_candidate_state`
  abbrev pub reset_candidate_state : InvocationContext S → InvocationContext S
  reset_candidate_state c = record c { credentials = []; reservation = none }

-- How a call on a context ends: its result or exception, the context, and the state outside.
abbrev pub Ended : Type 0 → Type 0 → Type 0
Ended S A = Res A × InvocationContext S × S

-- `handle`, or `ahandle` once awaited.
abbrev pub Handle : Type 0 → Type 0
Handle S = InvocationContext S → S → Ended S HandlerOutcome

-- A link of the chain.
pub record FallbackHandler (S : Type 0) : Type 0 where
  pub handle : Handle S
  pub ahandle : Handle S
