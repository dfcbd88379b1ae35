-- ===== src/Fallback/Chain/Failover/Served.antt =====
-- Candidates that are down in front of one that answers, on the chain that gateway.py composes.
use model_dispatcher.Prelude.{
  ℕ, ◌+◌, ◌<◌, ◌≡◌, refl, sym, ap, ◌∙◌, subst, some, List, [], ◌∷◌, ◌++◌, arith, eq_refl, All,
}
use model_dispatcher.Prelude.Int.{ℤ, pos, ◌+ℤ◌, ◌≤ℤ◌}
use model_dispatcher.Types.{TenantId, CompletionRequest, CompletionResponse}
use model_dispatcher.Errors.{ok, raised}
use model_dispatcher.Config.{SecuritySettings}
use model_dispatcher.Providers.Base.{ModelProvider}
use model_dispatcher.Quota.Tenant.{TenantContext}
use model_dispatcher.Quota.Store.{Window}
use model_dispatcher.Quota.Manager.{QuotaStore, cap, charge}
use model_dispatcher.Quota.Manager.Laws.{StoreLaws}
use model_dispatcher.Quota.Manager.Reserve.{Fits, Charged}
use model_dispatcher.Security.Credentials.{Credential, resolve_candidates}
use model_dispatcher.Security.Perimeter.{validate}
use model_dispatcher.Fallback.Context.{
  HandlerOutcome, continue, success, fallback, stop, InvocationContext, reset_candidate_state,
  Ended,
}
use model_dispatcher.Fallback.Handlers.Gates.{
  at, perimeter_handle-passes, credential_handle-passes, quota_handle-passes,
}
use model_dispatcher.Fallback.Invocation.{Mode, invoke}
use model_dispatcher.Fallback.Retry.{RetryPolicy}
use model_dispatcher.Fallback.Invocation.Service.{invoke-falls_back, invoke-answers}
use model_dispatcher.Fallback.Chain.{on_continue, run_handlers, succeed}
use model_dispatcher.Fallback.Chain.Default.{links, invoke-IsTame}
use model_dispatcher.Fallback.Chain.Failover.{total_charge, Room, IsDown, IsUp, ServedBy}
use model_dispatcher.Fallback.Chain.Refinement.{decide, first_deciding}

room_first : (a : ℤ) (m n k : ℕ) → a +ℤ pos (m + n) ≤ℤ pos k → a +ℤ pos m ≤ℤ pos k
unfolding ◌+ℤ◌
room_first a m n k h = ground arith

room_rest : (a : ℤ) (m n k : ℕ) → a +ℤ pos (m + n) ≤ℤ pos k → a +ℤ pos m +ℤ pos n ≤ℤ pos k
unfolding ◌+ℤ◌
room_rest a m n k h = ground arith

module _ {S : Type 0} (store : QuotaStore S) (seen : TenantId → Window → S → ℤ)
    (laws : StoreLaws store seen) (mode : Mode S) (policy : RetryPolicy)
    (settings : SecuritySettings) (request : CompletionRequest) (tenant : TenantContext)
    (allowed : validate settings request tenant ≡ ok tt) where
  -- The walk reaches the invocation, with the turn's charge on the counters.
  Reaches : ModelProvider S → List (ModelProvider S) → S → Ended S HandlerOutcome → Type 0
  Reaches p ps s r =
      (c : InvocationContext S) × (s' : S) × Charged store seen laws tenant
        (p.estimate_tokens request) s s'
      × (r
          ≡ on_continue (run_handlers [])
              (invoke store mode policy (at request tenant (p ∷ ps) c) s'))

  walk-Reaches :
      (p : ModelProvider S) (ps : List (ModelProvider S)) (ks : List Credential)
      (c : InvocationContext S) (s : S)
      → resolve_candidates tenant p ≡ ok ks
      → Fits store seen laws tenant (p.estimate_tokens request) s
      → Reaches p ps s
          (run_handlers (links store mode policy settings) (at request tenant (p ∷ ps) c) s)
  unfolding run_handlers on_continue Reaches
  walk-Reaches p ps ks c s found fits =
      let (c', s', charged, e) =
        quota_handle-passes request tenant p ps store seen laws (record c { credentials = ks }) s
          fits in
      (
        c',
        s',
        charged,
        rw (perimeter_handle-passes request tenant settings (p ∷ ps) c s allowed)
            (rw (credential_handle-passes request tenant p ps ks c s found) (rw e refl)),
      )

  Room-Fits :
      (q : ModelProvider S) (qs : List (ModelProvider S)) (s : S)
      → Room seen request tenant (q ∷ qs) s
      → Fits store seen laws tenant (q.estimate_tokens request) s
  Room-Fits q qs s room w = room_first _ _ (total_charge request qs w) _ (room w)

  Room-Charged :
      (q : ModelProvider S) (qs : List (ModelProvider S)) (s s' : S)
      → Room seen request tenant (q ∷ qs) s
      → Charged store seen laws tenant (q.estimate_tokens request) s s'
      → Room seen request tenant qs s'
  Room-Charged q qs s s' room charged w =
      rw (charged tenant.tenant_id w, eq_refl tenant.tenant_id)
        (room_rest (seen tenant.tenant_id w s) (charge (q.estimate_tokens request) w)
          (total_charge request qs w) (cap tenant.quota w) (room w))

  module _
      (pauses : (delay : ℕ) (u : TenantId) (w : Window) (s : S)
        → seen u w (mode.pause delay s) ≡ seen u w s)
      (tries : 0 < policy.max_attempts) (p : ModelProvider S)
      (behind : List (ModelProvider S)) where
    down_falls_back :
        (q : ModelProvider S) (ahead qs : List (ModelProvider S)) (c : InvocationContext S) (s : S)
        → IsDown seen mode tenant q
        → Room seen request tenant qs s
        → let r = invoke store mode policy (at request tenant (q ∷ ahead ++ p ∷ behind) c) s in
          (r.0 ≡ ok fallback) × Room seen request tenant qs r.2
    down_falls_back q [] qs c s down room =
        invoke-falls_back store mode policy (Room seen request tenant qs)
          (λ delay s' h w. rw (pauses delay _ w s') (h w)) q
          (record {
            fails = down.fails;
            keeps = λ r key s' h w. rw (down.leaves r key tenant.tenant_id w s') (h w);
          })
          p behind (record c { request = request; tenant = tenant }) s room
    down_falls_back q (x ∷ xs) qs c s down room =
        invoke-falls_back store mode policy (Room seen request tenant qs)
          (λ delay s' h w. rw (pauses delay _ w s') (h w)) q
          (record {
            fails = down.fails;
            keeps = λ r key s' h w. rw (down.leaves r key tenant.tenant_id w s') (h w);
          })
          x (xs ++ p ∷ behind) (record c { request = request; tenant = tenant }) s room

    decide-success :
        (next : InvocationContext S → S → Ended S CompletionResponse) (r : Ended S HandlerOutcome)
        (a : CompletionResponse)
        → r.0 ≡ ok success
        → r.1.response ≡ some a
        → (decide next (on_continue (run_handlers []) r)).0 ≡ ok a
    unfolding on_continue succeed
    decide-success next (ok success, c, s) a e f = rw f refl
    decide-success next (ok continue, c, s) a e f = absurd cc
    decide-success next (ok fallback, c, s) a e f = absurd cc
    decide-success next (ok stop, c, s) a e f = absurd cc
    decide-success next (raised x, c, s) a e f = absurd cc

    decide-fallback :
        (next : InvocationContext S → S → Ended S CompletionResponse) (r : Ended S HandlerOutcome)
        → r.0 ≡ ok fallback
        → decide next (on_continue (run_handlers []) r) ≡ next r.1 r.2
    unfolding on_continue
    decide-fallback next (ok fallback, c, s) e = refl
    decide-fallback next (ok continue, c, s) e = absurd cc
    decide-fallback next (ok success, c, s) e = absurd cc
    decide-fallback next (ok stop, c, s) e = absurd cc
    decide-fallback next (raised x, c, s) e = absurd cc

    -- A context with the turn's request and tenant is the turn's.
    restart :
        (c : InvocationContext S)
        → c.request ≡ request
        → c.tenant ≡ tenant
        → at request tenant c.candidates c ≡ c
    restart c e f =
        ap (λ r. record c { request = r; tenant = tenant }) (sym e)
        ∙ ap (λ t. record c { tenant = t }) (sym f)

    -- What follows a candidate that falls back.
    abbrev again : List (ModelProvider S) → InvocationContext S → S → Ended S CompletionResponse
    again ps c s =
        first_deciding (links store mode policy settings) ps
          (reset_candidate_state (record c { candidates = ps })) s

    up-ServedBy :
        (ls : List (ModelProvider S)) (c : InvocationContext S) (s : S)
        → IsUp mode request tenant p
        → Room seen request tenant (p ∷ []) s
        → ServedBy mode request p (
            first_deciding
              (links store mode policy settings)
              (p ∷ behind)
              (at request tenant ls c)
              s)
    unfolding first_deciding Reaches
    up-ServedBy ls c s up room =
        let (c', s', _, e) = walk-Reaches p behind up.keys c s up.found (Room-Fits p [] s room) in
        let (succeeds, (a, response, origin)) =
          invoke-answers store mode policy p behind
            (record c' { request = request; tenant = tenant }) s' tries up.answers in
        (
          a,
          ap (λ r. (decide (again behind) r).0) e
              ∙ decide-success (again behind) _ a succeeds response,
          origin,
        )

    -- Candidates that are down, in front of one that answers.
    pub failover :
        (ahead ls : List (ModelProvider S)) (c : InvocationContext S) (s : S)
        → All (IsDown seen mode tenant) ahead
        → IsUp mode request tenant p
        → Room seen request tenant (ahead ++ p ∷ []) s
        → ServedBy mode request p (
            first_deciding
              (links store mode policy settings)
              (ahead ++ p ∷ behind)
              (at request tenant ls c)
              s)
    unfolding first_deciding Reaches
    failover [] ls c s down up room = up-ServedBy ls c s up room
    failover (q ∷ ahead) ls c s (down, rest) up room =
        let (c', s', charged, e) =
          walk-Reaches q (ahead ++ p ∷ behind) down.keys c s down.found
            (Room-Fits q (ahead ++ p ∷ []) s room) in
        let turn = at request tenant (q ∷ ahead ++ p ∷ behind) c' in
        let r = invoke store mode policy turn s' in
        let (falls, room') =
          down_falls_back q ahead (ahead ++ p ∷ []) c' s' down
            (Room-Charged q (ahead ++ p ∷ []) s s' room charged) in
        let frame = (invoke-IsTame store mode policy).at turn s' in
        let c'' = reset_candidate_state (record (r.1) { candidates = ahead ++ p ∷ behind }) in
        let served = failover ahead (ahead ++ p ∷ behind) c'' r.2 rest up room' in
        subst (ServedBy mode request p)
          (sym (
            ap (decide (again (ahead ++ p ∷ behind))) e
            ∙ decide-fallback (again (ahead ++ p ∷ behind)) r falls))
          (subst
            (λ x.
              ServedBy mode request p
                (first_deciding (links store mode policy settings) (ahead ++ p ∷ behind) x r.2))
            (restart c'' frame.request frame.tenant) served)
