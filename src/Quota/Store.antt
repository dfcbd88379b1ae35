-- ===== src/Quota/Store.antt =====
-- src/model_dispatcher/quota/store.py: counters in tumbling windows. The clock reads milliseconds,
-- and every call of `_period` reads it again.
pub mod Counts
pub mod Expiry
use model_dispatcher.Prelude.{
  ℕ, ◌+◌, ◌*◌, ◌/◌, String, Bool, ◌&&◌, Option, none, some, List, [], ◌∷◌, eqb, ◌==◌, if◌then◌else◌,
}
use model_dispatcher.Prelude.Int.{ℤ, pos, ◌+ℤ◌}
use model_dispatcher.Types.{TenantId}

-- The keys of `WINDOW_SECONDS`.
pub data Window : Type 0 where
  requests_per_min tokens_per_min tokens_per_day : Window

abbrev pub window_name : Window → String
window_name requests_per_min = "requests_per_min"
window_name tokens_per_min = "tokens_per_min"
window_name tokens_per_day = "tokens_per_day"

-- `WINDOW_SECONDS`
abbrev pub window_seconds : Window → ℕ
window_seconds requests_per_min = 60
window_seconds tokens_per_min = 60
window_seconds tokens_per_day = 86_400

abbrev window_index : Window → ℕ
window_index requests_per_min = 0
window_index tokens_per_min = 1
window_index tokens_per_day = 2

abbrev pub same_window : Window → Window → Bool
same_window v w = eqb (window_index v) (window_index w)

-- A counter and the period that it belongs to.
pub record Entry : Type 0 where
  pub count : ℤ
  pub period : ℕ

-- `_counts`: a dict by (tenant, window).
pub record Bucket : Type 0 where
  pub tenant : TenantId
  pub window : Window
  pub entry : Entry

abbrev pub Counts : Type 0
Counts = List Bucket

-- Equality of two keys (tenant, window).
unfoldable pub same_key : TenantId → Window → TenantId → Window → Bool
same_key t v u w = (t == u) && same_window v w

abbrev pub is_key : TenantId → Window → Bucket → Bool
is_key t w b = same_key t w b.tenant b.window

-- `_counts.get((tenant, window))`
unfoldable pub lookup : TenantId → Window → Counts → Option Entry
lookup t w [] = none
lookup t w (b ∷ bs) = if is_key t w b then some b.entry else lookup t w bs

-- `_counts[(tenant, window)] = e`
assign : TenantId → Window → Entry → Counts → Counts
assign t w e [] = record { tenant = t; window = w; entry = e } ∷ []
assign t w e (b ∷ bs) = if is_key t w b then record b { entry = e } ∷ bs else b ∷ assign t w e bs

-- The count of an entry that belongs to the period, else 0.
current : ℕ → Option Entry → ℤ
current period none = pos 0
current period (some e) = if eqb e.period period then e.count else pos 0

-- What `read` returns in a given period.
unfoldable pub read_in : ℕ → TenantId → Window → Counts → ℤ
unfolding current lookup same_key
read_in period t w counts = current period (lookup t w counts)

-- What `incr` returns and leaves in a given period.
pub incr_in : ℕ → TenantId → Window → ℤ → Counts → ℤ × Counts
unfolding read_in assign ◌+ℤ◌ same_key
incr_in period t w tokens counts =
    let updated = read_in period t w counts +ℤ tokens in
    (updated, assign t w (record { count = updated; period = period }) counts)

-- The store: the counters, and the world that holds the clock.
pub record InMemoryQuotaStore (W : Type 0) : Type 0 where
  pub counts : Counts
  pub world : W

module _ {W : Type 0} (monotonic : W → ℕ × W) where
  -- `_period`
  pub current_period : Window → W → ℕ × W
  current_period w world =
      let (now, world') = monotonic world in (now / (1000 * window_seconds w), world')

  unfoldable pub read : TenantId → Window → InMemoryQuotaStore W → ℤ × InMemoryQuotaStore W
  unfolding current_period read_in
  read t w s =
      let (period, world') = current_period w s.world in
      (read_in period t w s.counts, record s { world = world' })

  unfoldable pub incr : TenantId → Window → ℤ → InMemoryQuotaStore W → ℤ × InMemoryQuotaStore W
  unfolding current_period incr_in
  incr t w tokens s =
      let (period, world') = current_period w s.world in
      let (total, counts') = incr_in period t w tokens s.counts in
      (total, record { counts = counts'; world = world' })

  -- `reset_expired`. The keys of a dict are distinct, so deleting the stale keys leaves the entries
  -- whose period is the current one; each entry has its own reading of the clock.
  sweep : Counts → W → Counts × W
  unfolding current_period
  sweep [] world = ([], world)
  sweep (b ∷ bs) world =
      let (period, world') = current_period b.window world in
      let (kept, world'') = sweep bs world' in
      (if eqb b.entry.period period then b ∷ kept else kept, world'')

  unfoldable pub reset_expired : InMemoryQuotaStore W → InMemoryQuotaStore W
  unfolding sweep
  reset_expired s =
      let (kept, world') = sweep s.counts s.world in record { counts = kept; world = world' }
