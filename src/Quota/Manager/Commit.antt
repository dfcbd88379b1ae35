-- ===== src/Quota/Manager/Commit.antt =====
-- `commit`, and what reservations and commits come to together.
use model_dispatcher.Prelude.{
  ℕ, ◌+◌, ◌<◌, ◌≡◌, refl, ◌∙◌, ◌≢◌, inl, inr, true, List, [], ◌∷◌, arith, ◌==◌, eq_refl, eqb,
  if◌then◌else◌, Bool-cases,
}
use model_dispatcher.Prelude.Int.{ℤ, pos, ◌+ℤ◌, ◌≤ℤ◌, sub_ℕ, int_laws, add_zero}
use model_dispatcher.Types.{TenantId, Usage, total_tokens}
use model_dispatcher.Providers.Base.{ModelProvider}
use model_dispatcher.Quota.Tenant.{TenantContext}
use model_dispatcher.Quota.Store.{Window, requests_per_min, tokens_per_min, tokens_per_day}
use model_dispatcher.Quota.Manager.{QuotaStore, deny, QuotaDecision, cap, reserve, commit}
use model_dispatcher.Quota.Manager.Laws.{StoreLaws}
use model_dispatcher.Quota.Manager.Reserve.{incr_at, Fits, Decided, reserve_lem}

-- What a commit adds to a window.
abbrev pub settled : QuotaDecision → Usage → Window → ℤ
settled d actual requests_per_min = pos 0
settled d actual _ = sub_ℕ (total_tokens actual) d.reserved_tokens

-- What a window has been charged once the call is done.
abbrev pub final_charge : Usage → Window → ℕ
final_charge actual requests_per_min = 1
final_charge actual _ = total_tokens actual

settle_charge : (e n : ℕ) (a : ℤ) → a +ℤ pos e +ℤ sub_ℕ n e ≡ a +ℤ pos n
unfolding ◌+ℤ◌
settle_charge e n a = ground arith

refund_room :
    (n e limit estimated : ℕ)
    → n < e
    → estimated + n ≡ limit + e
    → pos 0 +ℤ sub_ℕ n e +ℤ pos estimated ≤ℤ pos limit
unfolding ◌+ℤ◌
refund_room n e limit estimated less big = ground arith

module _ {S : Type 0} (store : QuotaStore S) (seen : TenantId → Window → S → ℤ)
    (laws : StoreLaws store seen) where
  no_delta :
      (d : QuotaDecision) (actual : Usage) (w : Window) (a : ℤ)
      → eqb (total_tokens actual) d.reserved_tokens ≡ true
      → a ≡ a +ℤ settled d actual w
  unfolding ◌+ℤ◌
  no_delta d actual requests_per_min a e = ground arith
  no_delta d actual tokens_per_min a e = ground arith
  no_delta d actual tokens_per_day a e = ground arith

  both_adds :
      (t : TenantId) (n : ℤ) (u : TenantId) (w : Window) (s : S) (d : QuotaDecision)
      (actual : Usage)
      → n ≡ sub_ℕ (total_tokens actual) d.reserved_tokens
      → seen u w (store.incr t tokens_per_day n (store.incr t tokens_per_min n s).1).1
        ≡ (if t == u then seen u w s +ℤ settled d actual w else seen u w s)
  both_adds t n u requests_per_min s d actual e =
      simp (incr_at store seen laws) (ground (arith, add_zero (seen u requests_per_min s)))
  both_adds t n u tokens_per_min s d actual e = simp (incr_at store seen laws) (ground arith)
  both_adds t n u tokens_per_day s d actual e = simp (incr_at store seen laws) (ground arith)

  -- A commit corrects the tenant's two token windows by the difference between the usage and the
  -- reservation, and changes no other counter.
  pub commit_lem :
      (tenant : TenantContext) (d : QuotaDecision) (actual : Usage) (u : TenantId) (w : Window)
      (s : S)
      → seen u w (commit store tenant d actual s)
        ≡ (if tenant.tenant_id == u then seen u w s +ℤ settled d actual w else seen u w s)
  unfolding commit
  commit_lem tenant d actual u w s =
      elim (Bool-cases (eqb (total_tokens actual) d.reserved_tokens)) [
        | inl e ↦ rw e (ground (arith, no_delta d actual w (seen u w s) e))
        | inr e ↦ rw e (both_adds tenant.tenant_id _ u w s d actual refl)
      ]

  module _ (tenant : TenantContext) where
    -- Once a granted reservation is committed, each of the tenant's token windows has grown by
    -- exactly the usage that the provider reported, and the request window by one; no other
    -- tenant's counters have changed.
    pub reserve-commit :
        (estimated : ℕ) (provider : ModelProvider S) (actual : Usage) (s : S)
        → let (d, s') = reserve store tenant estimated provider s in
          d.outcome ≢ deny
          → (u : TenantId) (w : Window)
          → seen u w (commit store tenant d actual s') ≡ (
              if tenant.tenant_id == u
              then seen u w s +ℤ pos (final_charge actual w)
              else seen u w s)
    reserve-commit estimated provider actual s granted u w =
        settled_total (reserve store tenant estimated provider s)
          (reserve_lem store seen laws tenant estimated provider s) granted w
      where
        settled_total :
            (r : QuotaDecision × S)
            → Decided store seen laws tenant estimated s r
            → r.0.outcome ≢ deny
            → (v : Window)
            → seen u v (commit store tenant r.0 actual r.1) ≡ (
                if tenant.tenant_id == u
                then seen u v s +ℤ pos (final_charge actual v)
                else seen u v s)
        settled_total (d, s') (inl denied) h v = absurd (h denied.0)
        settled_total (d, s') (inr (_, _, charged, reserved)) h requests_per_min =
            commit_lem tenant d actual u requests_per_min s'
            ∙ rw (charged u requests_per_min)
                (ground (arith, add_zero (seen u requests_per_min s +ℤ pos 1)))
        settled_total (d, s') (inr (_, _, charged, reserved)) h tokens_per_min =
            commit_lem tenant d actual u tokens_per_min s'
            ∙ rw (charged u tokens_per_min, reserved)
                (ground
                  (arith, settle_charge estimated (total_tokens actual) (seen u tokens_per_min s)))
        settled_total (d, s') (inr (_, _, charged, reserved)) h tokens_per_day =
            commit_lem tenant d actual u tokens_per_day s'
            ∙ rw (charged u tokens_per_day, reserved)
                (ground
                  (arith, settle_charge estimated (total_tokens actual) (seen u tokens_per_day s)))

    -- No window of the tenant has passed its cap.
    abbrev pub WithinCap : S → Type 0
    WithinCap s = (w : Window) → seen tenant.tenant_id w s ≤ℤ pos (cap tenant.quota w)

    reserve-WithinCap :
        (estimated : ℕ) (provider : ModelProvider S) (s : S)
        → WithinCap s
        → WithinCap (reserve store tenant estimated provider s).1
    reserve-WithinCap estimated provider s h w =
        kept (reserve store tenant estimated provider s)
          (reserve_lem store seen laws tenant estimated provider s)
      where
        kept :
            (r : QuotaDecision × S)
            → Decided store seen laws tenant estimated s r
            → seen tenant.tenant_id w r.1 ≤ℤ pos (cap tenant.quota w)
        kept (d, s') (inl (_, _, same, _)) = rw (same tenant.tenant_id w) (h w)
        kept (d, s') (inr (_, fits, charged, _)) =
            rw (charged tenant.tenant_id w, eq_refl tenant.tenant_id) (fits w)

    -- Calls in flight: reservations made one after another, none of them committed yet.
    pub reserve_all : List (ℕ × ModelProvider S) → S → S
    reserve_all [] s = s
    reserve_all ((estimated, provider) ∷ calls) s =
        reserve_all calls (reserve store tenant estimated provider s).1

    -- However many reservations are in flight at once, no window of the tenant passes its cap.
    pub reserve_all-WithinCap :
        (calls : List (ℕ × ModelProvider S)) (s : S) → WithinCap s → WithinCap (reserve_all calls s)
    unfolding reserve_all
    reserve_all-WithinCap [] s h = h
    reserve_all-WithinCap ((estimated, provider) ∷ calls) s h =
        reserve_all-WithinCap calls (reserve store tenant estimated provider s).1
          (reserve-WithinCap estimated provider s h)

    -- A call that was reserved in one minute and is committed in the next, where the tenant's
    -- minute counter still reads zero, leaves that counter below zero if it used less than the
    -- estimate; the new minute then grants a reservation that passes the minute cap by as much.
    pub late_commit_over_grants :
        (d : QuotaDecision) (actual : Usage) (estimated : ℕ) (provider : ModelProvider S) (s : S)
        → seen tenant.tenant_id tokens_per_min s ≡ pos 0
        → total_tokens actual < d.reserved_tokens
        → estimated + total_tokens actual ≡ tenant.quota.tokens_per_min + d.reserved_tokens
        → seen tenant.tenant_id requests_per_min s +ℤ pos 1 ≤ℤ pos tenant.quota.requests_per_min
        → seen tenant.tenant_id tokens_per_day s +ℤ settled d actual tokens_per_day +ℤ pos estimated
          ≤ℤ pos tenant.quota.tokens_per_day
        → (tenant.quota.tokens_per_min < estimated)
          × ((reserve store tenant estimated provider (commit store tenant d actual s)).0.outcome
              ≢ deny)
    late_commit_over_grants d actual estimated provider s zero_count less big requests day = (
      omega arith,
      (λ e.
          granted (reserve store tenant estimated provider s')
            (reserve_lem store seen laws tenant estimated provider s') e),
    )
      where
        s' : S
        s' = commit store tenant d actual s

        after :
            (w : Window)
            → seen tenant.tenant_id w s' ≡ seen tenant.tenant_id w s +ℤ settled d actual w
        after w = commit_lem tenant d actual tenant.tenant_id w s ∙ rw (eq_refl tenant.tenant_id)

        fits : Fits store seen laws tenant estimated s'
        fits requests_per_min = rw (after requests_per_min) (omega (int_laws, requests))
        fits tokens_per_min =
            rw (after tokens_per_min, zero_count)
              (refund_room (total_tokens actual) d.reserved_tokens tenant.quota.tokens_per_min
                estimated less big)
        fits tokens_per_day = rw (after tokens_per_day) day

        granted :
            (r : QuotaDecision × S)
            → Decided store seen laws tenant estimated s' r
            → r.0.outcome ≡ deny
            → ⊥
        granted r (inl (_, unfit, _, _)) e = unfit fits
        granted r (inr (h, _, _, _)) e = h e
