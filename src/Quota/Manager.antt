-- ===== src/Quota/Manager.antt =====
-- src/model_dispatcher/quota/manager.py: reserve before a call, commit after it. `QuotaStore` is
-- the protocol of store.py, by which the manager reaches the counters.
pub mod Laws
pub mod Reserve
pub mod Commit
pub mod Interleaving
use model_dispatcher.Prelude.{
  ℕ, ◌+◌, ◌*◌, String, Bool, Option, none, some, List, [], ◌∷◌, eqb, if◌then◌else◌,
}
use model_dispatcher.Prelude.Int.{ℤ, pos, ◌+ℤ◌, sub_ℕ, scale, ltb_ℤ}
use model_dispatcher.Types.{TenantId, Usage, total_tokens}
use model_dispatcher.Providers.Base.{ModelProvider}
use model_dispatcher.Quota.Tenant.{Ratio, TenantQuota, TenantContext}
use model_dispatcher.Quota.Store.{
  Window, requests_per_min, tokens_per_min, tokens_per_day, InMemoryQuotaStore, read, incr,
}

-- The protocol `QuotaStore`, over all that a call can change.
pub record QuotaStore (S : Type 0) : Type 0 where
  pub read : TenantId → Window → S → ℤ × S
  pub incr : TenantId → Window → ℤ → S → ℤ × S

-- `InMemoryQuotaStore` as the manager sees it.
abbrev pub in_memory : {W : Type 0} → (W → ℕ × W) → QuotaStore (InMemoryQuotaStore W)
in_memory monotonic = record { read = read monotonic; incr = incr monotonic }

pub data QuotaOutcome : Type 0 where
  allow soft_limit deny : QuotaOutcome

pub record QuotaDecision : Type 0 where
  pub outcome : QuotaOutcome
  pub reserved_tokens : ℕ
  pub breached_window : Option Window
  pub provider_name : Option String

-- A row of `checks`: the window, the prospective total and the cap.
pub record Check : Type 0 where
  pub window : Window
  pub prospective : ℤ
  pub cap : ℕ

pub data Checked : Type 0 where
  denied : Window → Checked
  passed : QuotaOutcome → Option Window → Checked

pub over_cap : Check → Bool
over_cap c = ltb_ℤ (pos c.cap) c.prospective

-- `prospective > cap * ratio`, multiplied by the denominator
pub over_soft : Ratio → Check → Bool
over_soft ratio c = ltb_ℤ (pos (c.cap * ratio.num)) (scale ratio.den c.prospective)

-- The loop over `checks`.
pub run_checks : Ratio → QuotaOutcome → Option Window → List Check → Checked
run_checks ratio outcome breached [] = passed outcome breached
run_checks ratio outcome breached (c ∷ cs) =
    let soft = over_soft ratio c in
    let rest =
      run_checks ratio (if soft then soft_limit else outcome)
        (if soft then some c.window else breached) cs in
    if over_cap c then denied c.window else rest

abbrev pub cap : TenantQuota → Window → ℕ
cap q requests_per_min = q.requests_per_min
cap q tokens_per_min = q.tokens_per_min
cap q tokens_per_day = q.tokens_per_day

-- What a reservation adds to a window.
abbrev pub charge : ℕ → Window → ℕ
charge estimated requests_per_min = 1
charge estimated _ = estimated

abbrev pub check_row : TenantQuota → ℕ → Window → ℤ → Check
check_row q estimated w count = record {
  window = w;
  prospective = count +ℤ pos (charge estimated w);
  cap = cap q w;
}

module _ {S : Type 0} (store : QuotaStore S) where
  -- The three increments of `reserve`.
  pre_charge : TenantId → ℕ → S → S
  pre_charge tid estimated s =
      let (_, s') = store.incr tid requests_per_min (pos 1) s in
      let (_, s'') = store.incr tid tokens_per_min (pos estimated) s' in
      let (_, s''') = store.incr tid tokens_per_day (pos estimated) s'' in s'''

  settle : TenantId → ℕ → String → Checked → S → QuotaDecision × S
  unfolding pre_charge
  settle tid estimated provider_name (denied w) s = (
    record {
      outcome = deny;
      reserved_tokens = 0;
      breached_window = some w;
      provider_name = some provider_name;
    },
    s,
  )
  settle tid estimated provider_name (passed outcome breached) s = (
    record {
      outcome = outcome;
      reserved_tokens = estimated;
      breached_window = breached;
      provider_name = some provider_name;
    },
    pre_charge tid estimated s,
  )

  unfoldable pub reserve : TenantContext → ℕ → ModelProvider S → S → QuotaDecision × S
  unfolding settle run_checks ◌+ℤ◌ over_cap over_soft
  reserve tenant estimated provider s =
      let tid = tenant.tenant_id in
      let q = tenant.quota in
      let (requests, s') = store.read tid requests_per_min s in
      let (minute, s'') = store.read tid tokens_per_min s' in
      let (day, s''') = store.read tid tokens_per_day s'' in
      settle tid estimated provider.name
        (run_checks q.soft_limit_ratio allow none (
          check_row q estimated requests_per_min requests
          ∷ check_row q estimated tokens_per_min minute
          ∷ check_row q estimated tokens_per_day day
          ∷ []))
        s'''

  unfoldable pub commit : TenantContext → QuotaDecision → Usage → S → S
  commit tenant decision actual s =
      let delta = sub_ℕ (total_tokens actual) decision.reserved_tokens in
      let (_, s') = store.incr tenant.tenant_id tokens_per_min delta s in
      let (_, s'') = store.incr tenant.tenant_id tokens_per_day delta s' in
      if eqb (total_tokens actual) decision.reserved_tokens then s else s''
