-- ===== src/Onboarding/Flow.antt =====
-- src/model_dispatcher/onboarding/flow.py: which stage a tenant is in, and the Stage-2 handoff.
use model_dispatcher.Prelude.{String, Bool, some, if◌then◌else◌}
use model_dispatcher.Onboarding.Handoff.{HandoffResponse, build}
use model_dispatcher.Quota.Tenant.{TenantContext}

pub data OnboardingStage : Type 0 where
  zero_setup guided_handoff : OnboardingStage

unfoldable pub stage : TenantContext → OnboardingStage
stage tenant = if tenant.is_zero_setup then zero_setup else guided_handoff

-- `escalate`
unfoldable pub escalate : TenantContext → String → Bool → HandoffResponse
unfolding build
escalate tenant provider rate_window = build provider "quota_exceeded" rate_window (
    some (
      if tenant.is_zero_setup
      then "Free usage limit reached. Add your own API key to continue."
      else "Quota exceeded. Add or upgrade your API key to continue."))
