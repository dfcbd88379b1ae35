-- ===== src/Config.antt =====
-- src/model_dispatcher/config.py: the settings bundle.
use model_dispatcher.Prelude.{ℕ, String, Bool, true, List, [], none, Option}
use model_dispatcher.Types.{
  ModelTier, free, cheap, standard, premium, TaskComplexity, trivial, simple, moderate, complex,
  FloatText,
}
use model_dispatcher.Quota.Tenant.{Ratio}

-- `complexity_floor` has an entry for each complexity, so it is a function.
pub record RoutingPolicy : Type 0 where
  pub complexity_floor : TaskComplexity → ModelTier
  pub allow_escalation : Bool
  pub max_candidates : ℕ

abbrev pub default_floor : TaskComplexity → ModelTier
default_floor trivial = free
default_floor simple = cheap
default_floor moderate = standard
default_floor complex = premium

abbrev pub default_routing : RoutingPolicy
default_routing = record {
  complexity_floor = default_floor;
  allow_escalation = true;
  max_candidates = 4;
}

pub record SecuritySettings : Type 0 where
  pub max_payload_bytes : ℕ
  pub allowed_providers : List String
  pub require_tenant_auth : Bool

abbrev pub default_security : SecuritySettings
default_security = record {
  max_payload_bytes = 1_000_000;
  allowed_providers = [];
  require_tenant_auth = true;
}

pub record QuotaDefaults : Type 0 where
  pub requests_per_min : ℕ
  pub tokens_per_min : ℕ
  pub tokens_per_day : ℕ
  pub budget_usd : Option FloatText
  pub soft_limit_ratio : Ratio

abbrev pub default_quota : QuotaDefaults
default_quota = record {
  requests_per_min = 20;
  tokens_per_min = 40_000;
  tokens_per_day = 1_000_000;
  budget_usd = none;
  soft_limit_ratio = record { num = 9; den = 10 };
}

pub record GatewaySettings : Type 0 where
  pub routing : RoutingPolicy
  pub security : SecuritySettings
  pub quota_defaults : QuotaDefaults
  pub global_app_tenant : String
  pub max_iterations : ℕ
  pub retry_max_attempts : ℕ

abbrev pub default_settings : GatewaySettings
default_settings = record {
  routing = default_routing;
  security = default_security;
  quota_defaults = default_quota;
  global_app_tenant = "__global_app__";
  max_iterations = 8;
  retry_max_attempts = 3;
}
