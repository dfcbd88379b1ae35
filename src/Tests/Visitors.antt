-- ===== src/Tests/Visitors.antt =====
-- The theorems on visitors' keys.
use model_dispatcher.Prelude.{String, ◌≡◌, refl, none, some, List, [], ◌∷◌, ◌==◌, if◌then◌else◌}
use model_dispatcher.Prelude.Text.{before}
use model_dispatcher.Quota.Tenant.{TenantContext}
use model_dispatcher.Security.Credentials.{user_keys, family}
use model_dispatcher.Byok.Registry.{
  Environ, ProviderSpec, Credentials, credential_metadata, configured_providers, keys_of,
}
use model_dispatcher.Byok.Registry.Keys.{user_keys-credential_metadata}
use model_dispatcher.Tests.Fixtures.{World, tenant, steady, flaky}
use model_dispatcher.Tests.Security.{keys, keys-IsKey}

abbrev credentials : Credentials
credentials = ("other", []) ∷ ("steady", keys) ∷ []

abbrev visitor : TenantContext
visitor = record tenant { metadata = credential_metadata credentials }

user_keys-credential_metadata_example : user_keys visitor "steady:large" ≡ "sk-1" ∷ "sk-2" ∷ []
unfolding family before keys_of
user_keys-credential_metadata_example =
    user_keys-credential_metadata visitor "steady:large" "steady" "sk-1" ("sk-2" ∷ []) credentials
      refl refl refl keys-IsKey

abbrev env : Environ
env name = if name == "FLAKY_KEY" then some "sk-9" else none

abbrev specs : List (String × ProviderSpec World)
specs =
    (
      "steady",
      record {
        provider_cls = λ model key. steady;
        key_env_var = "STEADY_KEY";
        model_env_var = "STEADY_MODEL";
        default_model = "large";
      },
    )
    ∷ (
      "flaky",
      record {
        provider_cls = λ model key. flaky;
        key_env_var = "FLAKY_KEY";
        model_env_var = "FLAKY_MODEL";
        default_model = "small";
      },
    )
    ∷ []

configured : configured_providers env specs ≡ "flaky" ∷ []
unfolding configured_providers
configured = refl
