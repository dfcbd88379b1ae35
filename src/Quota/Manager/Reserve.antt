-- ===== src/Quota/Manager/Reserve.antt =====
-- `reserve`: when it denies, and what it charges.
use model_dispatcher.Prelude.{
  ℕ, String, ◌≡◌, refl, ◌∙◌, ◌≢◌, ◌⊎◌, inl, inr, Bool, true, false, ◌&&◌, Option, none, some, List,
  [], ◌∷◌, arith, ◌==◌, if◌then◌else◌, Bool-cases, any,
}
use model_dispatcher.Prelude.Int.{ℤ, pos, ◌+ℤ◌, ◌≤ℤ◌}
use model_dispatcher.Types.{TenantId}
use model_dispatcher.Providers.Base.{ModelProvider}
use model_dispatcher.Quota.Tenant.{Ratio, TenantContext}
use model_dispatcher.Quota.Store.{
  Window, requests_per_min, tokens_per_min, tokens_per_day, same_key, same_window,
}
use model_dispatcher.Quota.Store.Counts.{same_key_iff}
use model_dispatcher.Quota.Manager.{
  QuotaStore, QuotaOutcome, allow, soft_limit, deny, QuotaDecision, Check, Checked, denied, passed,
  over_cap, over_soft, run_checks, cap, charge, check_row, pre_charge, settle, reserve,
}
use model_dispatcher.Quota.Manager.Laws.{StoreLaws}

-- What the outcome of the checks says of the rows.
abbrev pub Verdict : Bool → Checked → Type 0
Verdict over (denied w) = over ≡ true
Verdict over (passed o b) = (over ≡ false) × (o ≢ deny)

soft-ne-deny : (soft : Bool) (o : QuotaOutcome) → o ≢ deny → (if soft then soft_limit else o) ≢ deny
soft-ne-deny true o n = λ e. cc
soft-ne-deny false o n = n

pub run_checks-Verdict :
    (ratio : Ratio) (o : QuotaOutcome) (b : Option Window) (cs : List Check)
    → o ≢ deny
    → Verdict (any over_cap cs) (run_checks ratio o b cs)
unfolding run_checks
run_checks-Verdict ratio o b [] n = (refl, n)
run_checks-Verdict ratio o b (c ∷ cs) n =
    let soft = over_soft ratio c in
    elim (Bool-cases (over_cap c)) [
      | inl over ↦ rw over refl
      | inr fits ↦ rw fits (
          run_checks-Verdict ratio (if soft then soft_limit else o)
            (if soft then some c.window else b) cs (soft-ne-deny soft o n))
    ]

module _ {S : Type 0} (store : QuotaStore S) (seen : TenantId → Window → S → ℤ)
    (laws : StoreLaws store seen) where
  -- An increment, seen at any counter.
  pub incr_at :
      (t : TenantId) (v : Window) (u : TenantId) (w : Window) (n : ℤ) (s : S)
      → seen u w (store.incr t v n s).1
        ≡ (if (t == u) && same_window v w then seen u w s +ℤ n else seen u w s)
  unfolding same_key
  incr_at t v u w n s = elim (Bool-cases (same_key t v u w)) [
    | inl same ↦
        let (e, f) = (same_key_iff t v u w).0 same in
        laws.incr_adds t v u w n s ∙ rw (same, e, f) refl
    | inr other ↦ laws.incr_adds t v u w n s ∙ rw other refl
  ]

  pre_charge_lem :
      (t : TenantId) (e : ℕ) (u : TenantId) (w : Window) (s : S)
      → seen u w (pre_charge store t e s)
        ≡ (if t == u then seen u w s +ℤ pos (charge e w) else seen u w s)
  unfolding pre_charge
  pre_charge_lem t e u requests_per_min s = simp incr_at (ground arith)
  pre_charge_lem t e u tokens_per_min s = simp incr_at (ground arith)
  pre_charge_lem t e u tokens_per_day s = simp incr_at (ground arith)

  module _ (tenant : TenantContext) (estimated : ℕ) where
    -- In every window the count and the charge stay within the cap.
    abbrev pub Fits : S → Type 0
    Fits s =
        (w : Window)
        → seen tenant.tenant_id w s +ℤ pos (charge estimated w) ≤ℤ pos (cap tenant.quota w)

    abbrev pub Unchanged : S → S → Type 0
    Unchanged s s' = (u : TenantId) (w : Window) → seen u w s' ≡ seen u w s

    -- The tenant's windows have grown by the charge, and no other tenant's have changed.
    abbrev pub Charged : S → S → Type 0
    Charged s s' =
        (u : TenantId) (w : Window)
        → seen u w s'
          ≡ (if tenant.tenant_id == u then seen u w s +ℤ pos (charge estimated w) else seen u w s)

    abbrev pub Decided : S → QuotaDecision × S → Type 0
    Decided s r =
        ((r.0.outcome ≡ deny) × ¬ Fits s × Unchanged s r.1 × (r.0.reserved_tokens ≡ 0))
        ⊎ ((r.0.outcome ≢ deny) × Fits s × Charged s r.1 × (r.0.reserved_tokens ≡ estimated))

    -- The rows that `reserve` checks, at the counts of a state.
    abbrev pub rows : S → List Check
    rows s =
        let row = λ (w : Window). check_row tenant.quota estimated w (seen tenant.tenant_id w s) in
        row requests_per_min ∷ row tokens_per_min ∷ row tokens_per_day ∷ []

    Fits-rows : (s : S) → any over_cap (rows s) ≡ false → Fits s
    unfolding over_cap
    Fits-rows s h requests_per_min = ground arith
    Fits-rows s h tokens_per_min = ground arith
    Fits-rows s h tokens_per_day = ground arith

    pub not-Fits-rows : (s : S) → any over_cap (rows s) ≡ true → ¬ Fits s
    unfolding over_cap
    not-Fits-rows s h fits =
        ground (arith, fits requests_per_min, fits tokens_per_min, fits tokens_per_day)

    settle-Decided :
        (name : String) (s s' : S) (c : Checked)
        → Unchanged s s'
        → Verdict (any over_cap (rows s)) c
        → Decided s (settle store tenant.tenant_id estimated name c s')
    unfolding settle
    settle-Decided name s s' (denied w) same h = inl (refl, not-Fits-rows s h, same, refl)
    settle-Decided name s s' (passed o b) same h = inr (
      h.1,
      Fits-rows s h.0,
      (λ u w. pre_charge_lem tenant.tenant_id estimated u w s' ∙ rw (same u w) refl),
      refl,
    )

    -- `reserve` denies and changes no counter, and then some window would have passed its cap; or
    -- it grants, every window stays within its cap, exactly the tenant's windows are charged, and
    -- the decision carries the estimate.
    pub reserve_lem :
        (provider : ModelProvider S) (s : S) → Decided s (reserve store tenant estimated provider s)
    unfolding reserve
    reserve_lem provider s =
        let tid = tenant.tenant_id in
        let s' = (store.read tid requests_per_min s).1 in
        let s'' = (store.read tid tokens_per_min s').1 in
        let s''' = (store.read tid tokens_per_day s'').1 in
        settle-Decided provider.name s s''' _ (λ u w. simp laws.read_keeps)
          (simp (laws.read_value, laws.read_keeps)
            (run_checks-Verdict tenant.quota.soft_limit_ratio allow none (rows s) (λ e. cc)))
