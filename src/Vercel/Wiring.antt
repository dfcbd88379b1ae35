-- ===== src/Vercel/Wiring.antt =====
-- templates/vercel-app/api/_lib/wiring.py: the gateway of the function.
pub mod Ladder
use model_dispatcher.Prelude.{◌-◌, String, true, none, some, List, [], ◌∷◌, if◌then◌else◌}
use model_dispatcher.Prelude.Text.{append, is_nonempty}
use model_dispatcher.Types.{ModelTier, free, cheap, standard, premium, no_capability, rate_limit}
use model_dispatcher.Config.{default_settings}
use model_dispatcher.Providers.RetryHints.{Floats}
use model_dispatcher.Providers.Base.{Seconds, ModelProvider, Clock}
use model_dispatcher.Providers.Registry.{ProviderRegistry, register}
use model_dispatcher.Providers.Mock.{Cell, MockProvider, initial_state, mock_provider}
use model_dispatcher.Providers.Openai.{openai_provider}
use model_dispatcher.Providers.Openai.Sdk.{Json, OpenaiSdk}
use model_dispatcher.Providers.Anthropic.{AnthropicSdk, anthropic_provider}
use model_dispatcher.Providers.Gemini.{gemini_provider}
use model_dispatcher.Providers.Gemini.Sdk.{GeminiSdk}
use model_dispatcher.Quota.Tenant.{TenantContext, TenantQuota}
use model_dispatcher.Quota.Manager.{QuotaStore}
use model_dispatcher.Gateway.{ModelGateway, create}
use model_dispatcher.Vercel.Firebase.{Environment}

-- `_DEFAULT_QUOTA`
abbrev pub default_quota : TenantQuota
default_quota = record {
  requests_per_min = 30;
  tokens_per_min = 4_000;
  tokens_per_day = 40_000;
  budget_usd = none;
  soft_limit_ratio = record { num = 9; den = 10 };
}

-- `build_tenant`
abbrev pub build_tenant : String → TenantContext
build_tenant tenant_id = record {
  tenant_id = tenant_id;
  quota = default_quota;
  is_zero_setup = true;
  max_tier = premium;
  metadata = [];
}

-- `_ProviderSlot`
pub record ProviderSlot (S : Type 0) : Type 0 where
  pub tier : ModelTier
  pub api_key_env : String
  pub model_env : String
  pub default_model : String
  pub build : String → ModelTier → String → ModelProvider S
  pub mock_reply : String

-- The packages, where the mocks of the tiers keep their state, and the `retry_after_seconds` that
-- the providers inherit.
pub record Vendors (S : Type 0) : Type 0 where
  pub json : Json
  pub openai : OpenaiSdk S
  pub anthropic : AnthropicSdk S
  pub gemini : GeminiSdk S
  pub cell : ModelTier → Cell S
  pub floats : Floats Seconds

-- `slot.tier.name.lower()`
abbrev pub tier_name : ModelTier → String
tier_name free = "free"
tier_name cheap = "cheap"
tier_name standard = "standard"
tier_name premium = "premium"

-- `MockProvider(f"mock:{...}", tier=..., reply=...)`, with its other arguments' defaults
pub tier_mock : ModelTier → String → MockProvider
unfolding append
tier_mock tier reply = record {
  name = append "mock:" (tier_name tier);
  tier = tier;
  capabilities = record no_capability { tools = true };
  reply = reply;
  fail_with = rate_limit;
  chars_per_token = record { num = 4; den = 1 };
}

module _ {S : Type 0} (vendors : Vendors S) where
  unfoldable pub gemini_slot : ProviderSlot S
  unfolding gemini_provider
  gemini_slot = record {
    tier = free;
    api_key_env = "MD_GEMINI_API_KEY";
    model_env = "MD_GEMINI_MODEL";
    default_model = "gemini-1.5-flash";
    build = λ model tier api_key.
        gemini_provider vendors.gemini vendors.floats
          (record { model = model; tier = tier; api_key = some api_key });
    mock_reply = "[free tier] Done.";
  }

  unfoldable pub openai_slot : ProviderSlot S
  unfolding openai_provider
  openai_slot = record {
    tier = standard;
    api_key_env = "MD_OPENAI_API_KEY";
    model_env = "MD_OPENAI_MODEL";
    default_model = "gpt-4o-mini";
    build = λ model tier api_key.
        openai_provider vendors.json vendors.openai vendors.floats (record {
          model = model;
          tier = tier;
          api_key = some api_key;
          base_url = none;
          name = none;
        });
    mock_reply = "[standard tier] Done.";
  }

  unfoldable pub anthropic_slot : ProviderSlot S
  unfolding anthropic_provider
  anthropic_slot = record {
    tier = premium;
    api_key_env = "MD_ANTHROPIC_API_KEY";
    model_env = "MD_ANTHROPIC_MODEL";
    default_model = "claude-opus-4-8";
    build = λ model tier api_key.
        anthropic_provider vendors.anthropic vendors.floats
          (record { model = model; tier = tier; api_key = some api_key });
    mock_reply = "[premium tier] Reasoned answer.";
  }

  -- `_SLOTS`
  abbrev pub slots : List (ProviderSlot S)
  slots = gemini_slot ∷ openai_slot ∷ anthropic_slot ∷ []

  module _ (environ : Environment) where
    live : ProviderSlot S → String → ModelProvider S
    live slot api_key =
        slot.build
          (elim (environ slot.model_env) [ none ↦ slot.default_model | some model ↦ model ])
          slot.tier api_key

    mocked : ProviderSlot S → ModelProvider S
    unfolding mock_provider tier_mock
    mocked slot =
        mock_provider (vendors.cell slot.tier) vendors.floats (tier_mock slot.tier slot.mock_reply)

    -- The provider of a slot: `if api_key`.
    pub provider_of : ProviderSlot S → ModelProvider S
    unfolding live mocked
    provider_of slot = elim (environ slot.api_key_env) [
      | none ↦ mocked slot
      | some api_key ↦ if is_nonempty api_key then live slot api_key else mocked slot
    ]

    -- A new mock begins without a script and without failures.
    prepare_cell : ProviderSlot S → S → S
    prepare_cell slot s = elim (environ slot.api_key_env) [
      | none ↦ (vendors.cell slot.tier).set (initial_state [] 0) s
      | some api_key ↦
          if is_nonempty api_key then s else (vendors.cell slot.tier).set (initial_state [] 0) s
    ]

    -- `_register_providers`, on a registry
    pub register_slots : List (ProviderSlot S) → ProviderRegistry S → S → ProviderRegistry S × S
    unfolding provider_of prepare_cell register
    register_slots [] registry s = (registry, s)
    register_slots (slot ∷ slots) registry s =
        register_slots slots (register (provider_of slot) registry) (prepare_cell slot s)

    -- `build_gateway`
    unfoldable pub build_gateway : QuotaStore S → QuotaStore S → Clock S → S → ModelGateway S × S
    unfolding register_slots create
    build_gateway store memory clock s =
        let (registry, s') = register_slots slots [] s in
        (create registry (some default_settings) (some store) none memory clock, s')
