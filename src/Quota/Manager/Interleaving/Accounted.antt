-- ===== src/Quota/Manager/Interleaving/Accounted.antt =====
-- What interleaved calls have added to the counters.
use model_dispatcher.Prelude.{
  ℕ, ◌+◌, ◌≡◌, refl, ◌∙◌, inl, inr, Option, List, [], ◌∷◌, arith, eq_refl, eqb, Bool-cases,
}
use model_dispatcher.Prelude.Int.{ℤ, pos, ◌+ℤ◌, shift_parts, parts_shift, add_zero}
use model_dispatcher.Types.{TenantId, total_tokens}
use model_dispatcher.Quota.Tenant.{TenantContext}
use model_dispatcher.Quota.Store.{
  Window, same_key, requests_per_min, tokens_per_min, tokens_per_day,
}
use model_dispatcher.Quota.Manager.{QuotaStore, QuotaOutcome, charge, Checked, denied, passed}
use model_dispatcher.Quota.Manager.Laws.{StoreLaws}
use model_dispatcher.Quota.Manager.Reserve.{incr_at}
use model_dispatcher.Quota.Manager.Commit.{final_charge}
use model_dispatcher.Quota.Manager.Interleaving.{
  Job, Call, start, read_requests, read_minute, read_day, granted, charged_requests, charged_minute,
  refused, holding, corrected_minute, finished, after_checks, begin_commit, advance, Turn, this,
  other, Step, turn, elsewhere, Reach, begin, later, unbegun,
}

-- What a call has added to a window so far.
abbrev pub landed : {S : Type 0} → Job S → Call → Window → ℕ
landed job (charged_requests _ _) requests_per_min = 1
landed job (charged_minute _ _) requests_per_min = 1
landed job (charged_minute _ _) tokens_per_min = job.estimated
landed job (holding _ _) w = charge job.estimated w
landed job (corrected_minute _ _) requests_per_min = 1
landed job (corrected_minute _ _) tokens_per_min = total_tokens job.actual
landed job (corrected_minute _ _) tokens_per_day = job.estimated
landed job finished w = final_charge job.actual w
landed job _ w = 0

-- What all the calls have added to a window.
abbrev pub total_landed : {S : Type 0} → List (Job S × Call) → Window → ℕ
total_landed [] w = 0
total_landed ((job, c) ∷ cs) w = landed job c w + total_landed cs w

add_both : (a b : ℤ) (m n k : ℕ) → b +ℤ pos m ≡ a +ℤ pos n → b +ℤ pos (m + k) ≡ a +ℤ pos (n + k)
add_both a b m n k e = parts_shift a b (m + k) (n + k) (omega (arith, shift_parts a b m n e))

add_left : (a b : ℤ) (m n k : ℕ) → b +ℤ pos m ≡ a +ℤ pos n → b +ℤ pos (k + m) ≡ a +ℤ pos (k + n)
add_left a b m n k e = parts_shift a b (k + m) (k + n) (omega (arith, shift_parts a b m n e))

in_turn :
    (a b c : ℤ) (k m n : ℕ)
    → b +ℤ pos k ≡ a +ℤ pos m
    → c +ℤ pos m ≡ b +ℤ pos n
    → c +ℤ pos k ≡ a +ℤ pos n
in_turn a b c k m n e f =
    parts_shift a c k n (omega (arith, shift_parts a b k m e, shift_parts b c m n f))

module _ {S : Type 0} (store : QuotaStore S) (seen : TenantId → Window → S → ℤ)
    (laws : StoreLaws store seen) (tenant : TenantContext) where
  -- A step from (s, before) to (s', after) changes the counter by as much as has landed.
  abbrev Moved : Window → S → ℕ → S → ℕ → Type 0
  Moved w s before s' after =
      seen tenant.tenant_id w s' +ℤ pos before ≡ seen tenant.tenant_id w s +ℤ pos after

  none_landed : (job : Job S) (c : Checked) (w : Window) → landed job (after_checks c) w ≡ 0
  none_landed job (denied _) w = refl
  none_landed job (passed _ _) w = refl

  abbrev tid : TenantId
  tid = tenant.tenant_id

  begin_commit-Moved :
      (job : Job S) (o : QuotaOutcome) (b : Option Window) (w : Window) (s : S)
      → let (s', c') = begin_commit store tenant job o b s in
        Moved w s (charge job.estimated w) s' (landed job c' w)
  unfolding begin_commit ◌+ℤ◌
  begin_commit-Moved job o b requests_per_min s =
      elim (Bool-cases (eqb (total_tokens job.actual) job.estimated)) [
        | inl e ↦ rw e refl
        | inr e ↦ rw e (simp (incr_at store seen laws, eq_refl tid) refl)
      ]
  begin_commit-Moved job o b tokens_per_min s =
      elim (Bool-cases (eqb (total_tokens job.actual) job.estimated)) [
        | inl e ↦ rw e (ground arith)
        | inr e ↦ rw e (simp (incr_at store seen laws, eq_refl tid) (ground arith))
      ]
  begin_commit-Moved job o b tokens_per_day s =
      elim (Bool-cases (eqb (total_tokens job.actual) job.estimated)) [
        | inl e ↦ rw e (ground arith)
        | inr e ↦ rw e (simp (incr_at store seen laws, eq_refl tid) refl)
      ]

  advance-Moved :
      (job : Job S) (c : Call) (w : Window) (s : S)
      → let (s', c') = advance store tenant job c s in
        Moved w s (landed job c w) s' (landed job c' w)
  unfolding advance begin_commit ◌+ℤ◌
  advance-Moved job start w s = rw (laws.read_keeps tid requests_per_min tid w s) refl
  advance-Moved job (read_requests _) w s = rw (laws.read_keeps tid tokens_per_min tid w s) refl
  advance-Moved job (read_minute _ _) w s = rw (laws.read_keeps tid tokens_per_day tid w s) refl
  advance-Moved job (read_day _ _ _) w s = rw (none_landed job _ w) refl
  advance-Moved job (granted o b) requests_per_min s =
      simp (incr_at store seen laws, eq_refl tid) (ground arith)
  advance-Moved job (granted o b) tokens_per_min s =
      simp (incr_at store seen laws, eq_refl tid) (ground arith)
  advance-Moved job (granted o b) tokens_per_day s =
      simp (incr_at store seen laws, eq_refl tid) (ground arith)
  advance-Moved job (charged_requests o b) requests_per_min s =
      simp (incr_at store seen laws, eq_refl tid) (ground arith)
  advance-Moved job (charged_requests o b) tokens_per_min s =
      simp (incr_at store seen laws, eq_refl tid) (ground arith)
  advance-Moved job (charged_requests o b) tokens_per_day s =
      simp (incr_at store seen laws, eq_refl tid) (ground arith)
  advance-Moved job (charged_minute o b) requests_per_min s =
      simp (incr_at store seen laws, eq_refl tid) (ground arith)
  advance-Moved job (charged_minute o b) tokens_per_min s =
      simp (incr_at store seen laws, eq_refl tid) (ground arith)
  advance-Moved job (charged_minute o b) tokens_per_day s =
      simp (incr_at store seen laws, eq_refl tid) (ground arith)
  advance-Moved job (refused _) w s = refl
  advance-Moved job (holding o b) w s = begin_commit-Moved job o b w s
  advance-Moved job (corrected_minute o b) requests_per_min s =
      simp (incr_at store seen laws, eq_refl tid) (ground arith)
  advance-Moved job (corrected_minute o b) tokens_per_min s =
      simp (incr_at store seen laws, eq_refl tid) (ground arith)
  advance-Moved job (corrected_minute o b) tokens_per_day s =
      simp (incr_at store seen laws, eq_refl tid) (ground arith)
  advance-Moved job finished w s = refl

  turn-Moved :
      {s s' : S} {cs cs' : List (Job S × Call)} (w : Window)
      → Turn store tenant s cs s' cs'
      → Moved w s (total_landed cs w) s' (total_landed cs' w)
  turn-Moved w (this {s} {job} {c} {cs}) = add_both _ _ _ _ _ (advance-Moved job c w s)
  turn-Moved w (other t) = add_left _ _ _ _ _ (turn-Moved w t)

  step-Moved :
      {s s' : S} {cs cs' : List (Job S × Call)} (w : Window)
      → Step store tenant s cs s' cs'
      → Moved w s (total_landed cs w) s' (total_landed cs' w)
  unfolding same_key
  step-Moved w (turn t) = turn-Moved w t
  step-Moved w (elsewhere {s} u v n apart) = rw (laws.incr_adds u v tid w n s, apart) refl

  reach-Moved :
      {s₀ : S} {cs₀ : List (Job S × Call)} {s : S} {cs : List (Job S × Call)}
      → Reach store tenant s₀ cs₀ s cs
      → (w : Window) → Moved w s₀ (total_landed cs₀ w) s (total_landed cs w)
  reach-Moved begin w = refl
  reach-Moved (later r st) w = in_turn _ _ _ _ _ _ (reach-Moved r w) (step-Moved w st)

  none_begun : (jobs : List (Job S)) (w : Window) → total_landed (unbegun jobs) w ≡ 0
  unfolding unbegun
  none_begun [] w = refl
  none_begun (job ∷ jobs) w = omega (arith, none_begun jobs w)

  -- However the calls of a tenant are interleaved, with each other and with calls for other
  -- tenants, no update is lost: every counter of the tenant is at any time what it was at first
  -- plus what the calls have added so far, which for a finished call is the usage that its provider
  -- reported, and for a refused one nothing.
  pub reach-landed :
      (jobs : List (Job S)) {s₀ s : S} {cs : List (Job S × Call)}
      → Reach store tenant s₀ (unbegun jobs) s cs
      → (w : Window)
      → seen tenant.tenant_id w s ≡ seen tenant.tenant_id w s₀ +ℤ pos (total_landed cs w)
  reach-landed jobs {s₀} {s} {cs} r w =
      let moved = reach-Moved r w in
      add_zero (seen tid w s)
      ∙ parts_shift (seen tid w s₀) (seen tid w s) 0 (total_landed cs w) (
          omega (
            arith,
            shift_parts (seen tid w s₀) (seen tid w s) (total_landed (unbegun jobs) w)
                (total_landed cs w) moved,
            none_begun jobs w,
          ))
