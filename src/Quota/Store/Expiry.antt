-- ===== src/Quota/Store/Expiry.antt =====
-- `reset_expired`, and the counts that a read returns.
use model_dispatcher.Prelude.{ℕ, ◌*◌, ◌/◌, ◌≡◌, refl, none, [], ◌∷◌, arith}
use model_dispatcher.Types.{TenantId}
use model_dispatcher.Quota.Store.{
  Window, window_seconds, Counts, lookup, current, read_in, current_period, sweep, reset_expired,
  InMemoryQuotaStore,
}
use model_dispatcher.Quota.Store.Counts.{Distinct, same_key_iff}

-- Every reading of the clock falls in the same period of each window.
pub record IsSteady {W : Type 0} (monotonic : W → ℕ × W) (k : Window → ℕ) : Type 0 where
  pub at : (w : Window) (world : W) → (monotonic world).0 / (1000 * window_seconds w) ≡ k w

module _ {W : Type 0} (monotonic : W → ℕ × W) (k : Window → ℕ) (steady : IsSteady monotonic k) where
  pub current_period-IsSteady :
      (w : Window) (world : W) → (current_period monotonic w world).0 ≡ k w
  unfolding current_period
  current_period-IsSteady w world = steady.at w world

  lookup-sweep-none :
      (t : TenantId) (w : Window) (bs : Counts) (world : W)
      → lookup t w bs ≡ none
      → lookup t w (sweep monotonic bs world).0 ≡ none
  unfolding lookup sweep
  lookup-sweep-none t w [] world h = refl
  lookup-sweep-none t w (b ∷ bs) world h =
      ground (arith, lookup-sweep-none t w bs (current_period monotonic b.window world).1)

  read_in-sweep :
      (t : TenantId) (w : Window) (bs : Counts) (world : W)
      → Distinct bs
      → read_in (k w) t w (sweep monotonic bs world).0 ≡ read_in (k w) t w bs
  unfolding read_in current lookup sweep
  read_in-sweep t w [] world h = refl
  read_in-sweep t w (b ∷ bs) world h = ground (
    arith,
    read_in-sweep t w bs (current_period monotonic b.window world).1 h.1,
    lookup-sweep-none t w bs (current_period monotonic b.window world).1,
    current_period-IsSteady b.window world,
    same_key_iff t w b.tenant b.window,
    h.0,
  )

  -- While the clock stays in one period of each window, dropping the expired counters changes no
  -- count that a read returns.
  pub read_in-reset_expired :
      (t : TenantId) (w : Window) (s : InMemoryQuotaStore W)
      → Distinct s.counts
      → read_in (k w) t w (reset_expired monotonic s).counts ≡ read_in (k w) t w s.counts
  unfolding reset_expired
  read_in-reset_expired t w s h = read_in-sweep t w s.counts s.world h
