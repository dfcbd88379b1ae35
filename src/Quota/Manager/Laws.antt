-- ===== src/Quota/Manager/Laws.antt =====
-- What the manager relies on: the counter that a read returns, and how an increment changes the
-- counters.
use model_dispatcher.Prelude.{ℕ, ◌≡◌, refl, if◌then◌else◌}
use model_dispatcher.Prelude.Int.{ℤ, ◌+ℤ◌}
use model_dispatcher.Types.{TenantId}
use model_dispatcher.Quota.Store.{Window, same_key, read_in, read, incr, InMemoryQuotaStore}
use model_dispatcher.Quota.Store.Counts.{read_in-incr_in}
use model_dispatcher.Quota.Store.Expiry.{IsSteady, current_period-IsSteady}
use model_dispatcher.Quota.Manager.{QuotaStore, in_memory}

pub record StoreLaws {S : Type 0} (store : QuotaStore S) (seen : TenantId → Window → S → ℤ)
    : Type 0 where
  pub read_value : (t : TenantId) (w : Window) (s : S) → (store.read t w s).0 ≡ seen t w s
  pub read_keeps :
      (t : TenantId) (v : Window) (u : TenantId) (w : Window) (s : S)
      → seen u w (store.read t v s).1 ≡ seen u w s
  pub incr_adds :
      (t : TenantId) (v : Window) (u : TenantId) (w : Window) (n : ℤ) (s : S)
      → seen u w (store.incr t v n s).1 ≡ (if same_key t v u w then seen t v s +ℤ n else seen u w s)

module _ {W : Type 0} (monotonic : W → ℕ × W) (k : Window → ℕ) (steady : IsSteady monotonic k) where
  -- The counter in the period that the clock stays in.
  abbrev pub seen_in_memory : TenantId → Window → InMemoryQuotaStore W → ℤ
  seen_in_memory t w s = read_in (k w) t w s.counts

  -- While the clock stays in one period of each window, the in-memory store keeps the laws of a
  -- store: a read returns the counter and changes none, and an increment adds to the one counter of
  -- its tenant and window.
  pub in_memory-StoreLaws : StoreLaws (in_memory monotonic) seen_in_memory
  unfolding read incr
  in_memory-StoreLaws = record {
    read_value = λ t w s. rw (current_period-IsSteady monotonic k steady w s.world);
    read_keeps = λ t v u w s. refl;
    incr_adds = λ t v u w n s.
        rw (current_period-IsSteady monotonic k steady v s.world)
          (read_in-incr_in k t v u w n s.counts);
  }
