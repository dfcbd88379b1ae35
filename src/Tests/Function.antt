-- ===== src/Tests/Function.antt =====
-- The theorems on the redaction and on the serverless function.
use model_dispatcher.Prelude.{
  String, ℕ, ◌≡◌, refl, inl, inr, true, false, none, some, List, [], ◌∷◌, map, ◌==◌, eqb,
  if◌then◌else◌, Bool-cases,
}
use model_dispatcher.Types.{ModelTier, tier_value, free, cheap, standard, premium}
use model_dispatcher.Types.Json.{JsonValue, string, object, end, field}
use model_dispatcher.Errors.{ok, raised, value_error}
use model_dispatcher.Prelude.Text.{codes}
use model_dispatcher.Providers.Base.{ModelProvider, Clock}
use model_dispatcher.Providers.Openai.{openai_provider, provider_name}
use model_dispatcher.Providers.Openai.Sdk.{answered, threw}
use model_dispatcher.Providers.Mock.{MockState, initial_state}
use model_dispatcher.Security.Redaction.{scrub}
use model_dispatcher.Security.Redaction.Scrubbed.{IsScrubbed, RedactedAs, scrub_lem}
use model_dispatcher.Vercel.Firebase.{
  Environment, FirebaseAdmin, ServiceAccounts, ensure_default_app,
}
use model_dispatcher.Vercel.Auth.{extract_bearer_token, accepted, same_codes, firebase_auth}
use model_dispatcher.Vercel.AppCheck.{firebase_app_check}
use model_dispatcher.Vercel.Pipeline.{HttpRequest, Pipeline, Loads}
use model_dispatcher.Vercel.Pipeline.Adapting.{RaisesValueError}
use model_dispatcher.Vercel.Wiring.{
  gemini_slot, openai_slot, anthropic_slot, build_gateway, Vendors, build_tenant, slots,
  register_slots,
}
use model_dispatcher.Vercel.Wiring.Ladder.{register_slots-rungs}
use model_dispatcher.Prelude.Int.{pos}
use model_dispatcher.Prelude.Text.{append}
use model_dispatcher.Quota.Manager.{QuotaStore}
use model_dispatcher.Tests.Fixtures.{floats, World, gateway, too_many}

abbrev logged : JsonValue
logged =
    object
      (field "api_key" (string "x") (field "note" (string "sent sk-abcdefghijklmnopqrst away") end))

scrub_lem_example : IsScrubbed (scrub logged) × RedactedAs logged (scrub logged)
scrub_lem_example = scrub_lem logged

bearer : extract_bearer_token (some "bearer abc def") ≡ accepted "abc def"
unfolding extract_bearer_token
bearer = refl

-- A Firebase that knows one user and one app.
abbrev pub admin : FirebaseAdmin
admin = record {
  has_app = true;
  initialize_app = λ info. ok tt;
  verify_id_token = λ token.
      if token == "ada" then answered (record { uid = some "uid-ada" }) else threw too_many;
  verify_token = λ token.
      if token == "app"
      then answered (record { app_id = some "1"; sub = none })
      else threw too_many;
}

abbrev pub accounts : ServiceAccounts
accounts = record { loads = λ raw. none; loads_base64 = λ raw. raised (value_error []) }

abbrev pub no_variables : Environment
no_variables name = none

-- A `json` that knows one body.
abbrev pub loads : Loads
loads body =
    if same_codes body (codes "{}")
    then raised (value_error [])
    else ok (object (field "prompt" (string "hello") (field "tenant_id" (string "eve") end)))

pub loads-RaisesValueError : (body : List ℕ) → RaisesValueError (loads body)
loads-RaisesValueError body = elim (Bool-cases (same_codes body (codes "{}"))) [
  | inl e ↦ rw e tt
  | inr e ↦ rw e tt
]

-- Vendors who refuse every call, and a mock for each tier.
abbrev Mocks : Type 0
Mocks = ModelTier → MockState

set_mock : ModelTier → MockState → Mocks → Mocks
set_mock tier m s t = if eqb (tier_value t) (tier_value tier) then m else s t

set_mock-same : (tier : ModelTier) (m : MockState) (s : Mocks) → set_mock tier m s tier ≡ m
unfolding set_mock
set_mock-same free m s = refl
set_mock-same cheap m s = refl
set_mock-same standard m s = refl
set_mock-same premium m s = refl

abbrev vendors : Vendors Mocks
vendors = record {
  json = record { dumps = λ fs. "{}"; loads = λ raw. none };
  openai = record {
    create = λ key url kwargs s. (threw too_many, s);
    acreate = λ key url kwargs s. (threw too_many, s);
    is_rate_limit_error = λ e. true;
    is_authentication_error = λ e. false;
    is_permission_denied_error = λ e. false;
    is_bad_request_error = λ e. false;
    is_api_status_error = λ e. true;
  };
  anthropic = record {
    create = λ key kwargs s. (threw too_many, s);
    acreate = λ key kwargs s. (threw too_many, s);
    is_rate_limit_error = λ e. true;
    is_authentication_error = λ e. false;
    is_bad_request_error = λ e. false;
    is_api_status_error = λ e. true;
  };
  gemini = record {
    generate_content = λ key model contents config s. (threw too_many, s);
    agenerate_content = λ key model contents config s. (threw too_many, s);
    is_api_error = λ e. true;
  };
  cell = λ tier. record { get = λ s. s tier; set = set_mock tier; get_set = set_mock-same tier };
  floats = floats;
}

abbrev keyed : Environment
keyed name = if name == "MD_OPENAI_API_KEY" then some "sk-1" else none

register_slots-rungs_example :
    map {B = String × ModelTier}
      (λ (p : ModelProvider Mocks). (p.name, p.tier))
      (register_slots vendors keyed (slots vendors) [] (λ tier. initial_state [] 0)).0
    ≡ ("mock:free", free) ∷ ("openai:gpt-4o-mini", standard) ∷ ("mock:premium", premium) ∷ []
unfolding append
register_slots-rungs_example = register_slots-rungs vendors keyed (λ tier. initial_state [] 0)

abbrev no_counts : QuotaStore Mocks
no_counts = record { read = λ t w s. (pos 0, s); incr = λ t w n s. (n, s) }

abbrev no_clock : Clock Mocks
no_clock = record { sleep = λ delay s. s; async_sleep = λ delay s. s; monotonic = λ s. (0, s) }

ladder :
    map
      (λ p. p.name)
      (build_gateway vendors keyed no_counts no_counts no_clock
        (λ tier. initial_state [] 0)).0.providers
    ≡ "mock:free" ∷ "openai:gpt-4o-mini" ∷ "mock:premium" ∷ []
unfolding build_gateway gemini_slot openai_slot anthropic_slot provider_name append openai_provider
ladder = refl

abbrev pub function : Pipeline World
function = record {
  loads = loads;
  verifier = firebase_app_check admin accounts no_variables;
  auth_verifier = firebase_auth admin accounts no_variables;
  gateway_factory = λ s. (gateway, s);
  tenant_factory = build_tenant;
  triage = none;
}

abbrev signed_in : HttpRequest
signed_in = record {
  app_check_token = some "app";
  authorization_header = some "Bearer ada";
  raw_body = codes "prompt";
}

pub ready : ensure_default_app admin accounts no_variables ≡ ok tt
unfolding ensure_default_app
ready = refl
