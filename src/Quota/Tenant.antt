-- ===== src/Quota/Tenant.antt =====
-- src/model_dispatcher/quota/tenant.py: a tenant's limits and identity.
use model_dispatcher.Prelude.{
  ℕ, String, Bool, Option, none, some, List, [], ◌∷◌, ◌==◌, if◌then◌else◌,
}
use model_dispatcher.Types.{TenantId, ModelTier, FloatText}

-- `soft_limit_ratio` as the fraction num / den.
pub record Ratio : Type 0 where
  pub num : ℕ
  pub den : ℕ

pub record TenantQuota : Type 0 where
  pub requests_per_min : ℕ
  pub tokens_per_min : ℕ
  pub tokens_per_day : ℕ
  pub budget_usd : Option FloatText
  pub soft_limit_ratio : Ratio

-- A `dict[str, str]`, in insertion order.
abbrev pub Metadata : Type 0
Metadata = List (String × String)

-- `metadata.get(key)`
abbrev pub metadata_get : String → Metadata → Option String
metadata_get k [] = none
metadata_get k ((j, v) ∷ d) = if k == j then some v else metadata_get k d

pub record TenantContext : Type 0 where
  pub tenant_id : TenantId
  pub quota : TenantQuota
  pub is_zero_setup : Bool
  pub max_tier : ModelTier
  pub metadata : Metadata
