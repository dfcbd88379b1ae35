-- ===== src/Tests/Racing.antt =====
-- The theorems on interleaved calls, on two calls of 60 tokens in a minute of 100.
use model_dispatcher.Prelude.{◌≡◌, List, [], ◌∷◌, arith}
use model_dispatcher.Types.{TenantId}
use model_dispatcher.Prelude.Int.{ℤ, pos, ◌+ℤ◌}
use model_dispatcher.Quota.Store.{Window, requests_per_min, tokens_per_min, tokens_per_day, read_in}
use model_dispatcher.Quota.Manager.Laws.{seen_in_memory}
use model_dispatcher.Quota.Manager.Reserve.{Fits}
use model_dispatcher.Quota.Manager.Interleaving.{Job, Call, Reach, unbegun}
use model_dispatcher.Quota.Manager.Interleaving.Accounted.{total_landed, reach-landed}
use model_dispatcher.Quota.Manager.Interleaving.Race.{
  Each, IsHolding, total_charge, AllFit, all_granted,
}
use model_dispatcher.Tests.Fixtures.{
  World, still_clock, first_period, still_clock-IsSteady, store, laws, start, tenant, spent, steady,
  flaky,
}

abbrev seen : TenantId → Window → World → ℤ
seen = seen_in_memory still_clock first_period still_clock-IsSteady

abbrev job : Job World
job = record { estimated = 60; provider = steady; actual = spent }

abbrev jobs : List (Job World)
jobs = job ∷ record job { provider = flaky } ∷ []

jobs_fit : AllFit store seen laws tenant jobs start
unfolding read_in ◌+ℤ◌
jobs_fit = (job_fits, (job_fits, tt))
  where
    job_fits : Fits store seen laws tenant 60 start
    job_fits requests_per_min = omega arith
    job_fits tokens_per_min = omega arith
    job_fits tokens_per_day = omega arith

-- Both calls are granted, and the minute counts 120 tokens of at most 100.
both_granted : (s : World) × (seen "acme" tokens_per_min s ≡ pos 120)
unfolding read_in ◌+ℤ◌
both_granted =
    let (s, _, _, _, sums) = all_granted store seen laws tenant jobs start jobs_fit in
    (s, sums tokens_per_min)

all_granted_example :
    (s : World) × (cs : List (Job World × Call)) × Reach store tenant start (unbegun jobs) s cs
    × Each IsHolding jobs cs
    × ((w : Window) → seen "acme" w s ≡ seen "acme" w start +ℤ pos (total_charge jobs w))
all_granted_example = all_granted store seen laws tenant jobs start jobs_fit

reach-landed_example :
    let (s, cs, _, _, _) = all_granted store seen laws tenant jobs start jobs_fit in
    seen "acme" tokens_per_min s
    ≡ seen "acme" tokens_per_min start +ℤ pos (total_landed cs tokens_per_min)
reach-landed_example =
    reach-landed store seen laws tenant jobs
      (all_granted store seen laws tenant jobs start jobs_fit).2 tokens_per_min
