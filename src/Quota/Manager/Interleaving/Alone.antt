-- ===== src/Quota/Manager/Interleaving/Alone.antt =====
-- A call that no other call interrupts.
use model_dispatcher.Prelude.{
  ℕ, zero, suc, ◌≡◌, refl, ◌⊎◌, inl, inr, Option, none, some, eqb, Bool-cases,
}
use model_dispatcher.Types.{total_tokens}
use model_dispatcher.Quota.Tenant.{TenantContext}
use model_dispatcher.Quota.Store.{Window}
use model_dispatcher.Quota.Manager.{
  QuotaStore, QuotaOutcome, deny, QuotaDecision, Checked, denied, passed, run_checks, pre_charge,
  settle, reserve, commit,
}
use model_dispatcher.Quota.Manager.Interleaving.{
  Job, Call, start, refused, holding, finished, after_checks, deny_decision, grant_decision,
  begin_commit, advance,
}

-- What `reserve` has returned to a call.
abbrev pub returned : {S : Type 0} → Job S → Call → Option QuotaDecision
returned job (refused w) = some (deny_decision job w)
returned job (holding o b) = some (grant_decision job o b)
returned job _ = none

module _ {S : Type 0} (store : QuotaStore S) (tenant : TenantContext) (job : Job S) where
  -- A number of accesses without interruption.
  pub alone : ℕ → S × Call → S × Call
  unfolding advance begin_commit run_checks
  alone zero r = r
  alone (suc n) r = alone n (advance store tenant job r.1 r.0)

  alone-commit :
      (o : QuotaOutcome) (b : Option Window) (s : S)
      → alone 2 (s, holding o b)
        ≡ (commit store tenant (grant_decision job o b) job.actual s, finished)
  unfolding alone commit
  alone-commit o b s = elim (Bool-cases (eqb (total_tokens job.actual) job.estimated)) [
    | inl e ↦ rw e refl
    | inr e ↦ rw e refl
  ]

  alone-settle :
      (c : Checked) (s : S)
      → let (s', call) = alone 3 (s, after_checks c) in
        let (d, s'') = settle store tenant.tenant_id job.estimated job.provider.name c s in
        (s' ≡ s'')
        × (returned job call ≡ some d)
        × ((d.outcome ≡ deny)
            ⊎ (alone 5 (s, after_checks c) ≡ (commit store tenant d job.actual s'', finished)))
  unfolding alone settle pre_charge
  alone-settle (denied w) s = (refl, refl, inl refl)
  alone-settle (passed o b) s = (refl, refl, inr (alone-commit o b _))

  -- A call that is not interrupted does what `reserve` does, and returns its decision; if that is
  -- no denial, it then does what `commit` does with that decision.
  pub alone_lem :
      (s : S)
      → let (s', call) = alone 7 (s, start) in
        let (d, s'') = reserve store tenant job.estimated job.provider s in
        (s' ≡ s'')
        × (returned job call ≡ some d)
        × ((d.outcome ≡ deny)
            ⊎ (alone 9 (s, start) ≡ (commit store tenant d job.actual s'', finished)))
  unfolding alone reserve
  alone_lem s = alone-settle _ _
