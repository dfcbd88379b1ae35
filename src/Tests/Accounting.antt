-- ===== src/Tests/Accounting.antt =====
-- The quota theorems on the tenant's counters.
use model_dispatcher.Prelude.{
  ℕ, ◌+◌, ◌*◌, ◌≤◌, ◌<◌, ◌≡◌, refl, ◌≢◌, none, some, [], ◌∷◌, arith, ◌==◌, if◌then◌else◌, length,
}
use model_dispatcher.Types.{TenantId}
use model_dispatcher.Quota.Tokenizer.{default_counter, estimate}
use model_dispatcher.Quota.Tokenizer.Bounds.{weight, estimate-bounds}
use model_dispatcher.Prelude.Int.{ℤ, pos, ◌+ℤ◌}
use model_dispatcher.Quota.Store.{
  lookup, Window, requests_per_min, tokens_per_min, tokens_per_day, read_in, read, reset_expired,
}
use model_dispatcher.Quota.Store.Expiry.{read_in-reset_expired}
use model_dispatcher.Quota.Manager.{QuotaDecision, allow, deny, reserve, commit}
use model_dispatcher.Quota.Manager.Laws.{StoreLaws, seen_in_memory, in_memory-StoreLaws}
use model_dispatcher.Quota.Manager.Reserve.{Decided, reserve_lem}
use model_dispatcher.Quota.Manager.Commit.{
  final_charge, reserve-commit, WithinCap, late_commit_over_grants,
}
use model_dispatcher.Tests.Fixtures.{
  World, still_clock, first_period, still_clock-IsSteady, store, laws, start, tenant, spent, steady,
  request,
}

abbrev seen : TenantId → Window → World → ℤ
seen = seen_in_memory still_clock first_period still_clock-IsSteady

abbrev charged : World
charged = record {
  counts =
      record {
        tenant = "acme";
        window = tokens_per_min;
        entry = record { count = pos 95; period = 0 };
      }
      ∷ [];
  world = 0;
}

-- A call that does not fit is denied.
reserve_denies : (reserve store tenant 20 steady charged).0.outcome ≡ deny
unfolding reserve read_in read ◌+ℤ◌
reserve_denies = refl

reserve_lem_example : Decided store seen laws tenant 20 start (reserve store tenant 20 steady start)
reserve_lem_example = reserve_lem store seen laws tenant 20 steady start

abbrev held : QuotaDecision
held = record {
  outcome = allow;
  reserved_tokens = 20;
  breached_window = none;
  provider_name = some "steady";
}

allow-ne-deny : allow ≢ deny
allow-ne-deny = λ e. cc

granted : (reserve store tenant 20 steady start).0.outcome ≢ deny
unfolding reserve read_in read
granted = allow-ne-deny

reserve-commit_example :
    let r = reserve store tenant 20 steady start in
    seen "acme" tokens_per_min (commit store tenant r.0 spent r.1) ≡ (
      if tenant.tenant_id == "acme"
      then seen "acme" tokens_per_min start +ℤ pos (final_charge spent tokens_per_min)
      else seen "acme" tokens_per_min start)
reserve-commit_example =
    reserve-commit store seen laws tenant 20 steady spent start granted "acme" tokens_per_min

start-WithinCap : WithinCap store seen laws tenant start
unfolding read_in
start-WithinCap requests_per_min = omega arith
start-WithinCap tokens_per_min = omega arith
start-WithinCap tokens_per_day = omega arith

-- A decision of the minute before.
abbrev stale : QuotaDecision
stale = record held { reserved_tokens = 90 }

late_commit_over_grants_example :
    (100 < 178)
    × ((reserve store tenant 178 steady (commit store tenant stale spent start)).0.outcome ≢ deny)
unfolding read_in ◌+ℤ◌
late_commit_over_grants_example =
    late_commit_over_grants store seen laws tenant stale spent 178 steady start refl (omega arith)
      refl (omega arith) (omega arith)

in_memory-StoreLaws_example : StoreLaws store seen
in_memory-StoreLaws_example = in_memory-StoreLaws still_clock first_period still_clock-IsSteady

read_in-reset_expired_example :
    read_in
      (first_period tokens_per_min)
      "acme"
      tokens_per_min
      (reset_expired still_clock charged).counts
    ≡ read_in (first_period tokens_per_min) "acme" tokens_per_min charged.counts
unfolding lookup
read_in-reset_expired_example =
    read_in-reset_expired still_clock first_period still_clock-IsSteady "acme" tokens_per_min
      charged (refl, tt)

estimate-bounds_example :
    (k : ℕ) × ((estimate default_counter request ≡ k + 4 * length request.messages)
      × ((weight default_counter request ≤ k * 4) × (k * 4 < weight default_counter request + 4)))
estimate-bounds_example = estimate-bounds default_counter request (omega arith)
