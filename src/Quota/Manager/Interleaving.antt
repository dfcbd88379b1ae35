-- ===== src/Quota/Manager/Interleaving.antt =====
-- src/model_dispatcher/quota/manager.py under concurrency: calls of one tenant that reserve and
-- commit at the same time. Only a single call of the store is atomic, as the protocol in store.py
-- asks; between two of them any other call may run.
pub mod Accounted
pub mod Race
pub mod Alone
use model_dispatcher.Prelude.{
  ℕ, ◌≡◌, false, Option, none, some, List, [], ◌∷◌, ◌==◌, eqb, if◌then◌else◌,
}
use model_dispatcher.Prelude.Int.{ℤ, pos, sub_ℕ}
use model_dispatcher.Types.{TenantId, Usage, total_tokens}
use model_dispatcher.Providers.Base.{ModelProvider}
use model_dispatcher.Quota.Tenant.{TenantContext}
use model_dispatcher.Quota.Store.{Window, requests_per_min, tokens_per_min, tokens_per_day}
use model_dispatcher.Quota.Manager.{
  QuotaStore, QuotaOutcome, allow, deny, QuotaDecision, Checked, denied, passed, run_checks,
  check_row,
}

-- What a call asks for, and the usage that its provider will report.
pub record Job (S : Type 0) : Type 0 where
  pub estimated : ℕ
  pub provider : ModelProvider S
  pub actual : Usage

-- Where a call stands: before which access to the store, with what it has found out.
pub data Call : Type 0 where
  start : Call
  read_requests : ℤ → Call
  read_minute : ℤ → ℤ → Call
  read_day : ℤ → ℤ → ℤ → Call
  granted : QuotaOutcome → Option Window → Call
  charged_requests : QuotaOutcome → Option Window → Call
  charged_minute : QuotaOutcome → Option Window → Call
  refused : Window → Call  -- `reserve` has returned `deny_decision`
  holding : QuotaOutcome → Option Window → Call  -- `reserve` has returned `grant_decision`
  corrected_minute : QuotaOutcome → Option Window → Call
  finished : Call  -- `commit` has returned

abbrev pub after_checks : Checked → Call
after_checks (denied w) = refused w
after_checks (passed outcome breached) = granted outcome breached

-- What `reserve` returns, of each kind.
abbrev pub deny_decision : {S : Type 0} → Job S → Window → QuotaDecision
deny_decision job w = record {
  outcome = deny;
  reserved_tokens = 0;
  breached_window = some w;
  provider_name = some job.provider.name;
}

abbrev pub grant_decision : {S : Type 0} → Job S → QuotaOutcome → Option Window → QuotaDecision
grant_decision job outcome breached = record {
  outcome = outcome;
  reserved_tokens = job.estimated;
  breached_window = breached;
  provider_name = some job.provider.name;
}

module _ {S : Type 0} (store : QuotaStore S) (tenant : TenantContext) where
  -- `commit` up to its first access to the store.
  begin_commit : Job S → QuotaOutcome → Option Window → S → S × Call
  begin_commit job o b s =
      let reserved = (grant_decision job o b).reserved_tokens in
      let (_, s') =
        store.incr tenant.tenant_id tokens_per_min (sub_ℕ (total_tokens job.actual) reserved) s in
      if eqb (total_tokens job.actual) reserved then (s, finished) else (s', corrected_minute o b)

  -- The next access of a call to the store, in the order of `reserve` and then `commit`.
  pub advance : Job S → Call → S → S × Call
  unfolding begin_commit run_checks
  advance job start s =
      let (n, s') = store.read tenant.tenant_id requests_per_min s in (s', read_requests n)
  advance job (read_requests requests) s =
      let (n, s') = store.read tenant.tenant_id tokens_per_min s in (s', read_minute requests n)
  advance job (read_minute requests minute) s =
      let (n, s') = store.read tenant.tenant_id tokens_per_day s in (s', read_day requests minute n)
  advance job (read_day requests minute day) s = (
    s,
    after_checks (
        run_checks tenant.quota.soft_limit_ratio allow none (
          check_row tenant.quota job.estimated requests_per_min requests
          ∷ check_row tenant.quota job.estimated tokens_per_min minute
          ∷ check_row tenant.quota job.estimated tokens_per_day day
          ∷ [])),
  )
  advance job (granted o b) s =
      let (_, s') = store.incr tenant.tenant_id requests_per_min (pos 1) s in
      (s', charged_requests o b)
  advance job (charged_requests o b) s =
      let (_, s') = store.incr tenant.tenant_id tokens_per_min (pos job.estimated) s in
      (s', charged_minute o b)
  advance job (charged_minute o b) s =
      let (_, s') = store.incr tenant.tenant_id tokens_per_day (pos job.estimated) s in
      (s', holding o b)
  advance job (refused w) s = (s, refused w)
  advance job (holding o b) s = begin_commit job o b s
  advance job (corrected_minute o b) s =
      let delta = sub_ℕ (total_tokens job.actual) (grant_decision job o b).reserved_tokens in
      let (_, s') = store.incr tenant.tenant_id tokens_per_day delta s in (s', finished)
  advance job finished s = (s, finished)

  -- One of the calls makes its next access.
  pub data Turn : S → List (Job S × Call) → S → List (Job S × Call) → Type 0 where
    this :
        {s : S} {job : Job S} {c : Call} {cs : List (Job S × Call)}
        → Turn s ((job, c) ∷ cs) (advance job c s).0 ((job, (advance job c s).1) ∷ cs)
    other :
        {s s' : S} {x : Job S × Call} {cs cs' : List (Job S × Call)}
        → Turn s cs s' cs'
        → Turn s (x ∷ cs) s' (x ∷ cs')

  -- What can happen next: a turn of one of the tenant's calls, or an access for another tenant.
  pub data Step : S → List (Job S × Call) → S → List (Job S × Call) → Type 0 where
    turn : {s s' : S} {cs cs' : List (Job S × Call)} → Turn s cs s' cs' → Step s cs s' cs'
    elsewhere :
        {s : S} {cs : List (Job S × Call)} (u : TenantId) (w : Window) (n : ℤ)
        → (u == tenant.tenant_id) ≡ false
        → Step s cs (store.incr u w n s).1 cs

  -- The states that interleaved steps lead to.
  pub data Reach (s₀ : S) (cs₀ : List (Job S × Call)) : S → List (Job S × Call) → Type 0 where
    begin : Reach s₀ cs₀ s₀ cs₀
    later :
        {s s' : S} {cs cs' : List (Job S × Call)}
        → Reach s₀ cs₀ s cs
        → Step s cs s' cs'
        → Reach s₀ cs₀ s' cs'

-- Calls that have not begun.
pub unbegun : {S : Type 0} → List (Job S) → List (Job S × Call)
unbegun [] = []
unbegun (job ∷ jobs) = (job, start) ∷ unbegun jobs
