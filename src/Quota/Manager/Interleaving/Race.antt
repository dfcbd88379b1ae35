-- ===== src/Quota/Manager/Interleaving/Race.antt =====
-- Calls that all read the counters before any of them is charged.
use model_dispatcher.Prelude.{ℕ, ◌+◌, ◌≡◌, refl, ap, ◌∙◌, ◌≢◌, Option, none, List, [], ◌∷◌, any}
use model_dispatcher.Prelude.Int.{ℤ, pos, ◌+ℤ◌}
use model_dispatcher.Types.{TenantId}
use model_dispatcher.Quota.Tenant.{TenantContext}
use model_dispatcher.Quota.Store.{Window}
use model_dispatcher.Quota.Manager.{
  QuotaStore, QuotaOutcome, allow, deny, Checked, denied, passed, over_cap, charge,
}
use model_dispatcher.Quota.Manager.Laws.{StoreLaws}
use model_dispatcher.Quota.Manager.Reserve.{
  Verdict, run_checks-Verdict, rows, not-Fits-rows, Fits, Unchanged,
}
use model_dispatcher.Quota.Manager.Interleaving.{
  Job, Call, start, granted, holding, after_checks, advance, this, other, turn, elsewhere, Reach,
  begin, later, unbegun,
}
use model_dispatcher.Quota.Manager.Interleaving.Accounted.{total_landed, reach-landed}

-- Calls, one for each job, where each has come to a decision that is no denial.
pub data Each {S : Type 0} (P : Call → Type 0) : List (Job S) → List (Job S × Call) → Type 0 where
  no_call : Each P [] []
  and_call :
      {job : Job S} {jobs : List (Job S)} {c : Call} {cs : List (Job S × Call)}
      → P c
      → Each P jobs cs
      → Each P (job ∷ jobs) ((job, c) ∷ cs)

data IsGranted : Call → Type 0 where
  is_granted : {o : QuotaOutcome} {b : Option Window} → o ≢ deny → IsGranted (granted o b)

-- A call whose `reserve` has returned a decision that is no denial.
pub data IsHolding : Call → Type 0 where
  is_holding : {o : QuotaOutcome} {b : Option Window} → o ≢ deny → IsHolding (holding o b)

abbrev pub total_charge : {S : Type 0} → List (Job S) → Window → ℕ
total_charge [] w = 0
total_charge (job ∷ jobs) w = charge job.estimated w + total_charge jobs w

module _ {S : Type 0} (store : QuotaStore S) (seen : TenantId → Window → S → ℤ)
    (laws : StoreLaws store seen) (tenant : TenantContext) where
  -- Every job alone would stay within the caps.
  abbrev pub AllFit : List (Job S) → S → Type 0
  AllFit [] s = Unit
  AllFit (job ∷ jobs) s = Fits store seen laws tenant job.estimated s × AllFit jobs s

  still_fit :
      (jobs : List (Job S)) (s s' : S)
      → Unchanged store seen laws tenant 0 s s'
      → AllFit jobs s
      → AllFit jobs s'
  still_fit [] s s' same h = tt
  still_fit (job ∷ jobs) s s' same (fits, rest) =
      ((λ w. rw (same tenant.tenant_id w) (fits w)), still_fit jobs s s' same rest)

  then_reach :
      {s s' : S} {cs cs' : List (Job S × Call)} {s'' : S} {cs'' : List (Job S × Call)}
      → Reach store tenant s cs s' cs'
      → Reach store tenant s' cs' s'' cs''
      → Reach store tenant s cs s'' cs''
  then_reach r begin = r
  then_reach r (later q st) = later (then_reach r q) st

  beside :
      (x : Job S × Call) {s : S} {cs : List (Job S × Call)} {s' : S} {cs' : List (Job S × Call)}
      → Reach store tenant s cs s' cs'
      → Reach store tenant s (x ∷ cs) s' (x ∷ cs')
  beside x begin = begin
  beside x (later r (turn t)) = later (beside x r) (turn (other t))
  beside x (later r (elsewhere u w n apart)) = later (beside x r) (elsewhere u w n apart)

  -- A call has come to a decision without a change of the counters.
  abbrev Ready : Job S → List (Job S × Call) → S → Type 0
  Ready job cs s =
      (s' : S) × (c : Call) × Reach store tenant s ((job, start) ∷ cs) s' ((job, c) ∷ cs)
      × IsGranted c
      × Unchanged store seen laws tenant 0 s s'

  after_checks-IsGranted :
      (job : Job S) (s : S) (c : Checked)
      → Fits store seen laws tenant job.estimated s
      → Verdict (any over_cap (rows store seen laws tenant job.estimated s)) c
      → IsGranted (after_checks c)
  after_checks-IsGranted job s (denied w) fits h =
      absurd (not-Fits-rows store seen laws tenant job.estimated s h fits)
  after_checks-IsGranted job s (passed o b) fits h = is_granted h.1

  start-Ready :
      (job : Job S) (cs : List (Job S × Call)) (s : S)
      → Fits store seen laws tenant job.estimated s
      → Ready job cs s
  unfolding advance
  start-Ready job cs s fits = (
    _,
    _,
    later (later (later (later begin (turn this)) (turn this)) (turn this)) (turn this),
    after_checks-IsGranted job s _ fits (
        simp (laws.read_value, laws.read_keeps)
          (run_checks-Verdict tenant.quota.soft_limit_ratio allow none
            (rows store seen laws tenant job.estimated s) (λ e. cc))),
    (λ u w. simp laws.read_keeps),
  )

  -- Every call of a list, begun or not, comes to hold a granted decision.
  abbrev AllReach : (Call → Type 0) → List (Job S) → S → List (Job S × Call) → Type 0
  AllReach P jobs s cs =
      (s' : S) × (cs' : List (Job S × Call)) × Reach store tenant s cs s' cs' × Each P jobs cs'

  all_ready :
      (jobs : List (Job S)) (s : S) → AllFit jobs s → AllReach IsGranted jobs s (unbegun jobs)
  unfolding unbegun
  all_ready [] s h = (s, [], begin, no_call)
  all_ready (job ∷ jobs) s (fits, rest) =
      let (s', c, r, ready, same) = start-Ready job (unbegun jobs) s fits in
      let (s'', cs, q, each) = all_ready jobs s' (still_fit jobs s s' same rest) in
      (s'', (job, c) ∷ cs, then_reach r (beside (job, c) q), and_call ready each)

  all_charge :
      {jobs : List (Job S)} {cs : List (Job S × Call)} (s : S)
      → Each IsGranted jobs cs
      → AllReach IsHolding jobs s cs
  unfolding advance
  all_charge s no_call = (s, [], begin, no_call)
  all_charge s (and_call {job} {cs = cs} (is_granted {o} {b} h) each) =
      let (s', cs', q, held) = all_charge _ each in
      (
        s',
        (job, holding o b) ∷ cs',
        then_reach (later (later (later begin (turn this)) (turn this)) (turn this))
            (beside (job, holding o b) q),
        and_call (is_holding h) held,
      )

  holding-total_charge :
      {jobs : List (Job S)} {cs : List (Job S × Call)} (w : Window)
      → Each IsHolding jobs cs
      → total_landed cs w ≡ total_charge jobs w
  holding-total_charge w no_call = refl
  holding-total_charge w (and_call {job} (is_holding h) each) =
      ap (λ n. charge job.estimated w + n) (holding-total_charge w each)

  -- Calls that would each stay within the caps alone can all be granted: in some interleaving every
  -- one of them holds a decision that is no denial, and each window has grown by the sum of all
  -- their charges, however far that is above its cap.
  pub all_granted :
      (jobs : List (Job S)) (s₀ : S)
      → AllFit jobs s₀
      → (s : S) × (cs : List (Job S × Call)) × Reach store tenant s₀ (unbegun jobs) s cs
        × Each IsHolding jobs cs
        × ((w : Window)
            → seen tenant.tenant_id w s ≡ seen tenant.tenant_id w s₀ +ℤ pos (total_charge jobs w))
  all_granted jobs s₀ h =
      let (s', cs', r, ready) = all_ready jobs s₀ h in
      let (s, cs, q, held) = all_charge s' ready in
      let reached = then_reach r q in
      (
        s,
        cs,
        reached,
        held,
        (λ w.
            reach-landed store seen laws tenant jobs reached w
            ∙ ap (λ n. seen tenant.tenant_id w s₀ +ℤ pos n) (holding-total_charge w held)),
      )
