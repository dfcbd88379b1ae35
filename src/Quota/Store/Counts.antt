-- ===== src/Quota/Store/Counts.antt =====
-- The dict of counters: what a read sees after a write, and its keys.
use model_dispatcher.Prelude.{
  ℕ, ◌≡◌, refl, ◌↔◌, inl, inr, true, none, some, [], ◌∷◌, arith, eq_iff, if◌then◌else◌, Bool-cases,
}
use model_dispatcher.Prelude.Int.{ℤ, ◌+ℤ◌}
use model_dispatcher.Types.{TenantId}
use model_dispatcher.Quota.Store.{
  Window, Entry, Counts, lookup, assign, current, read_in, incr_in, same_key,
}

pub same_key_iff :
    (t : TenantId) (v : Window) (u : TenantId) (w : Window)
    → (same_key t v u w ≡ true) ↔ ((t ≡ u) × (v ≡ w))
unfolding same_key
same_key_iff t v u w = (
  (λ h. ((eq_iff t u).0 (ground arith), ground arith)),
  (λ h. ground (arith, eq_iff t u, h.0, h.1)),
)

lookup-assign :
    (t : TenantId) (v : Window) (u : TenantId) (w : Window) (e : Entry) (bs : Counts)
    → lookup u w (assign t v e bs) ≡ (if same_key t v u w then some e else lookup u w bs)
unfolding lookup assign
lookup-assign t v u w e [] = ground (arith, same_key_iff t v u w, same_key_iff u w t v)
lookup-assign t v u w e (b ∷ bs) = ground (
  arith,
  same_key_iff t v u w,
  same_key_iff u w t v,
  same_key_iff t v b.tenant b.window,
  same_key_iff u w b.tenant b.window,
  lookup-assign t v u w e bs,
)

-- A counter after an increment, in one period of each window.
pub read_in-incr_in :
    (k : Window → ℕ) (t : TenantId) (v : Window) (u : TenantId) (w : Window) (n : ℤ) (bs : Counts)
    → read_in (k w) u w (incr_in (k v) t v n bs).1
      ≡ (if same_key t v u w then read_in (k v) t v bs +ℤ n else read_in (k w) u w bs)
unfolding read_in incr_in current
read_in-incr_in k t v u w n bs =
    let total = read_in (k v) t v bs +ℤ n in
    rw (lookup-assign t v u w (record { count = total; period = k v }) bs)
      (elim (Bool-cases (same_key t v u w)) [
        | inl same ↦ rw same (ground (arith, ((same_key_iff t v u w).0 same).1))
        | inr other ↦ rw other refl
      ])

-- No key stands twice.
abbrev pub Distinct : Counts → Type 0
Distinct [] = Unit
Distinct (b ∷ bs) = (lookup b.tenant b.window bs ≡ none) × Distinct bs

assign-Distinct :
    (t : TenantId) (w : Window) (e : Entry) (bs : Counts) → Distinct bs → Distinct (assign t w e bs)
unfolding assign lookup
assign-Distinct t w e [] h = (refl, tt)
assign-Distinct t w e (b ∷ bs) h = ground (
  arith,
  h.0,
  h.1,
  assign-Distinct t w e bs,
  lookup-assign t w b.tenant b.window e bs,
  same_key_iff t w b.tenant b.window,
)

-- Writing a counter keeps the keys distinct.
pub incr_in-Distinct :
    (period : ℕ) (t : TenantId) (w : Window) (n : ℤ) (bs : Counts)
    → Distinct bs
    → Distinct (incr_in period t w n bs).1
unfolding incr_in
incr_in-Distinct period t w n bs h =
    assign-Distinct t w (record { count = read_in period t w bs +ℤ n; period = period }) bs h
