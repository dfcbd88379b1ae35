-- ===== src/Fallback/Invocation/Service.antt =====
-- A provider that is down, and one that answers, under the invocation handler.
use model_dispatcher.Prelude.{
  ℕ, zero, suc, ◌+◌, ◌<◌, String, ◌≡◌, refl, sym, ap, ◌∙◌, subst, ◌⊎◌, inl, inr, Bool, true, false,
  ◌||◌, Option, none, some, List, [], ◌∷◌, map, arith, ltb, Bool-cases,
}
use model_dispatcher.Types.{ErrorClass, CompletionRequest, CompletionResponse}
use model_dispatcher.Errors.{Res, ok, raised}
use model_dispatcher.Prelude.Int.{pos, negsuc, ◌+ℤ◌}
use model_dispatcher.Providers.Base.{
  Seconds, millis, nan, RetryAfter, wait_hint, unreadable, VendorError, Reply, completed, failed,
  refused, ModelProvider,
}
use model_dispatcher.Quota.Manager.{QuotaStore}
use model_dispatcher.Security.Credentials.{Credential}
use model_dispatcher.Fallback.Conditions.{is_retryable, is_fallback_worthy}
use model_dispatcher.Fallback.Context.{
  HandlerOutcome, continue, success, fallback, stop, InvocationContext, Ended,
}
use model_dispatcher.Fallback.Invocation.{
  Mode, on_error, on_success, Round, returned, next_credential, aborted, key_of, more,
  tried_credentials, wait, after_pause, sleep_for, after_failure, after_call, attempts_from,
  after_round, credentials_from, invoke,
}
use model_dispatcher.Fallback.Retry.{RetryPolicy, verdict, judge, backoff_delay}

-- A failure that another provider may make good.
abbrev pub passes_on : ErrorClass → Bool
passes_on class = is_fallback_worthy class || is_retryable class

-- While another provider is left, such a failure is retried or passed on, and no hint is looked for.
judge-passes_on :
    (policy : RetryPolicy) (class : ErrorClass) (hint : RetryAfter) (attempt : ℕ) (mc : Bool)
    → passes_on class ≡ true
    → (judge policy class hint attempt mc true ≡ ok none)
      ⊎ (judge policy class hint attempt mc true ≡ ok (some fallback))
unfolding judge verdict
judge-passes_on policy class hint attempt mc h = ground arith

-- A pause can be made of it.
abbrev pub CanWait : RetryAfter → Type 0
CanWait (wait_hint none) = Unit
CanWait (wait_hint (some (millis (pos n)))) = Unit
CanWait _ = ⊥

-- The pause before the next attempt is a number of milliseconds.
pub backoff_delay-CanWait :
    (policy : RetryPolicy) (attempt : ℕ) (hint : Option Seconds)
    → CanWait (wait_hint hint)
    → (n : ℕ) × (backoff_delay policy attempt hint ≡ millis (pos n))
unfolding backoff_delay ◌+ℤ◌
backoff_delay-CanWait policy attempt none h = (_, refl)
backoff_delay-CanWait policy attempt (some (millis (pos n))) h =
    elim (Bool-cases (ltb policy.rate_limit_max_wait (n + 1_000))) [
      | inl e ↦ (policy.rate_limit_max_wait, ground arith)
      | inr e ↦ (n + 1_000, ground arith)
    ]
backoff_delay-CanWait policy attempt (some (millis (negsuc n))) h = elim h [ ]
backoff_delay-CanWait policy attempt (some nan) h = elim h [ ]

module _ {S : Type 0} where
  -- A provider all of whose calls fail, each by a failure that another may make good. `P` is what
  -- its calls and the pauses between them leave as it is.
  pub record Down (mode : Mode S) (P : S → Type 0) (p : ModelProvider S) : Type 0 where
    pub fails :
        (r : CompletionRequest) (key : Option String) (s : S)
        → (e : VendorError) × ((mode.call p r key s).0 ≡ failed e)
          × (passes_on (p.classify_error e) ≡ true)
          × CanWait (p.retry_after e)
    pub keeps :
        (r : CompletionRequest) (key : Option String) (s : S) → P s → P (mode.call p r key s).1

  -- The outcome is FALLBACK, or the next credential's turn.
  FellBack : (S → Type 0) → Round × InvocationContext S × S → Type 0
  FellBack P (o, c, s) = ((o ≡ next_credential) ⊎ (o ≡ returned fallback)) × P s

  module _ (store : QuotaStore S) (mode : Mode S) (policy : RetryPolicy) where
    module _ (P : S → Type 0) (pauses : (delay : ℕ) (s : S) → P s → P (mode.pause delay s))
        (p : ModelProvider S) (down : Down mode P p) where
      after_wait :
          (attempt : ℕ) (again : InvocationContext S → S → Round × InvocationContext S × S)
          (hint : RetryAfter) (c : InvocationContext S) (s : S)
          → CanWait hint
          → P s
          → ((c' : InvocationContext S) (s' : S) → P s' → FellBack P (again c' s'))
          → FellBack P (wait store mode policy attempt hint again c s)
      unfolding wait after_pause sleep_for
      after_wait attempt again (unreadable m) c s can kept next = elim can [ ]
      after_wait attempt again (wait_hint hint) c s can kept next =
          let (n, e) = backoff_delay-CanWait policy attempt hint can in
          subst (λ d. FellBack P (after_pause store mode policy again c (sleep_for mode d s)))
            (sym e) (next c _ (pauses n s kept))

      after_verdict :
          (e : VendorError) (attempt : ℕ) (mc : Bool)
          (again : InvocationContext S → S → Round × InvocationContext S × S)
          (o : Res (Option HandlerOutcome)) (c : InvocationContext S) (s : S)
          → (o ≡ ok none) ⊎ (o ≡ ok (some fallback))
          → CanWait (p.retry_after e)
          → P s
          → ((c' : InvocationContext S) (s' : S) → P s' → FellBack P (again c' s'))
          → FellBack P (after_failure store mode policy p e attempt mc again (o, c) s)
      unfolding after_failure FellBack
      after_verdict e attempt mc again (ok none) c s h can kept next =
          after_wait attempt again (p.retry_after e) c s can kept next
      after_verdict e attempt mc again (raised x) c s h can kept next = absurd (grind arith)
      after_verdict e attempt true again (ok (some fallback)) c s h can kept next = (inl refl, kept)
      after_verdict e attempt false again (ok (some fallback)) c s h can kept next =
          (inr refl, kept)
      after_verdict e attempt mc again (ok (some continue)) c s h can kept next =
          absurd (grind arith)
      after_verdict e attempt mc again (ok (some success)) c s h can kept next =
          absurd (grind arith)
      after_verdict e attempt mc again (ok (some stop)) c s h can kept next = absurd (grind arith)

      after_down :
          (e : VendorError) (attempt : ℕ) (k : Option Credential) (mc : Bool)
          (again : InvocationContext S → S → Round × InvocationContext S × S)
          (c : InvocationContext S) (r : Reply × S)
          → r.0 ≡ failed e
          → passes_on (p.classify_error e) ≡ true
          → CanWait (p.retry_after e)
          → P r.1
          → ((c' : InvocationContext S) (s : S) → P s → FellBack P (again c' s))
          → FellBack P (after_call store mode policy p k attempt mc true again c r)
      unfolding after_call on_error
      after_down e attempt k mc again c (completed b, s) h class can kept next = absurd cc
      after_down e attempt k mc again c (refused b, s) h class can kept next = absurd cc
      after_down e attempt k mc again c (failed b, s) h class can kept next =
          let same : b ≡ e = cc in
          after_verdict b attempt mc again _ _ s
            (judge-passes_on policy (p.classify_error b) (p.retry_after b) attempt mc
              (ap (λ v. passes_on (p.classify_error v)) same ∙ class))
            (subst (λ v. CanWait (p.retry_after v)) (sym same) can) kept next

      attempts_from-FellBack :
          (left attempt : ℕ) (k : Option Credential) (mc : Bool) (c : InvocationContext S) (s : S)
          → P s
          → FellBack P (attempts_from store mode policy p k mc true left attempt c s)
      unfolding attempts_from FellBack
      attempts_from-FellBack zero attempt k mc c s h = (inl refl, h)
      attempts_from-FellBack (suc left) attempt k mc c s h =
          let (e, reply, class, can) = down.fails c.request (key_of k) s in
          after_down e attempt k mc (attempts_from store mode policy p k mc true left (attempt + 1))
            c (mode.call p c.request (key_of k) s) reply class can
            (down.keeps c.request (key_of k) s h)
            (λ c' s' h'. attempts_from-FellBack left (attempt + 1) k mc c' s' h')

      after_round-FellBack :
          (next : InvocationContext S → S → Ended S HandlerOutcome)
          (r : Round × InvocationContext S × S)
          → FellBack P r
          → ((c : InvocationContext S) (s : S)
              → P s
              → ((next c s).0 ≡ ok fallback) × P (next c s).2)
          → ((after_round store mode policy next r).0 ≡ ok fallback)
            × P (after_round store mode policy next r).2
      unfolding after_round FellBack
      after_round-FellBack next (next_credential, c, s) (h, kept) goes = goes c s kept
      after_round-FellBack next (returned fallback, c, s) (h, kept) goes = (refl, kept)
      after_round-FellBack next (returned continue, c, s) (h, kept) goes = absurd (grind arith)
      after_round-FellBack next (returned success, c, s) (h, kept) goes = absurd (grind arith)
      after_round-FellBack next (returned stop, c, s) (h, kept) goes = absurd (grind arith)
      after_round-FellBack next (aborted e, c, s) (h, kept) goes = absurd (grind arith)

      credentials_from-FellBack :
          (ks : List (Option Credential)) (c : InvocationContext S) (s : S)
          → P s
          → let r = credentials_from store mode policy p true ks c s in (r.0 ≡ ok fallback) × P r.2
      unfolding credentials_from
      credentials_from-FellBack [] c s h = (refl, h)
      credentials_from-FellBack (k ∷ ks) c s h =
          after_round-FellBack (credentials_from store mode policy p true ks)
            (attempts_from store mode policy p k (more ks) true policy.max_attempts 1 c s)
            (attempts_from-FellBack policy.max_attempts 1 k (more ks) c s h)
            (λ c' s' h'. credentials_from-FellBack ks c' s' h')

      -- A provider that is down falls back where another one is left, whatever its credentials.
      pub invoke-falls_back :
          (q : ModelProvider S) (ps : List (ModelProvider S)) (c : InvocationContext S) (s : S)
          → P s
          → let r = invoke store mode policy (record c { candidates = p ∷ q ∷ ps }) s in
            (r.0 ≡ ok fallback) × P r.2
      unfolding invoke
      invoke-falls_back q ps c s h =
          credentials_from-FellBack (tried_credentials c.credentials)
            (record c { candidates = p ∷ q ∷ ps }) s h

    module _ (p : ModelProvider S) where
      -- The handler succeeds with what the provider answered.
      abbrev pub Answered : InvocationContext S → Ended S HandlerOutcome → Type 0
      Answered c r =
          (r.0 ≡ ok success)
          × ((a : CompletionResponse) × (r.1.response ≡ some a)
              × ((key : Option String) × (s : S) × ((mode.call p c.request key s).0 ≡ completed a)))

      first_attempt :
          (a : CompletionResponse) (k : Option Credential) (mc mp : Bool)
          (again : InvocationContext S → S → Round × InvocationContext S × S)
          (next : InvocationContext S → S → Ended S HandlerOutcome) (c : InvocationContext S)
          (r : Reply × S)
          → r.0 ≡ completed a
          → let r' =
              after_round store mode policy next
                (after_call store mode policy p k 1 mc mp again c r) in
            (r'.0 ≡ ok success) × (r'.1.response ≡ some a)
      unfolding after_round after_call on_success
      first_attempt a k mc mp again next c (completed b, s) h = (refl, cc)
      first_attempt a k mc mp again next c (failed e, s) h = absurd cc
      first_attempt a k mc mp again next c (refused e, s) h = absurd cc

      credentials_from-Answered :
          (k : Option Credential) (ks : List (Option Credential)) (mp : Bool)
          (c : InvocationContext S) (s : S) (n : ℕ)
          → 0 < n
          → ((key : Option String) (s' : S)
              → (a : CompletionResponse) × ((mode.call p c.request key s').0 ≡ completed a))
          → Answered c (
              after_round store mode policy
                (credentials_from store mode policy p mp ks)
                (attempts_from store mode policy p k (more ks) mp n 1 c s))
      unfolding attempts_from
      credentials_from-Answered k ks mp c s zero less answers = absurd (omega arith)
      credentials_from-Answered k ks mp c s (suc n) less answers =
          let (a, reply) = answers (key_of k) s in
          let (ends, response) =
            first_attempt a k (more ks) mp (attempts_from store mode policy p k (more ks) mp n 2)
              (credentials_from store mode policy p mp ks) c (mode.call p c.request (key_of k) s)
              reply in
          (ends, (a, response, (key_of k, s, reply)))

      -- A provider that answers succeeds at once.
      pub invoke-answers :
          (ps : List (ModelProvider S)) (c : InvocationContext S) (s : S)
          → 0 < policy.max_attempts
          → ((key : Option String) (s' : S)
              → (a : CompletionResponse) × ((mode.call p c.request key s').0 ≡ completed a))
          → Answered c (invoke store mode policy (record c { candidates = p ∷ ps }) s)
      unfolding invoke credentials_from
      invoke-answers ps c s less answers = go c.credentials
        where
          mp : Bool
          mp = elim ps [ [] ↦ false | _ ∷ _ ↦ true ]

          go :
              (ks : List Credential)
              → Answered c (
                  credentials_from store mode policy p mp
                    (tried_credentials ks)
                    (record c { candidates = p ∷ ps })
                    s)
          go [] =
              credentials_from-Answered none [] mp (record c { candidates = p ∷ ps }) s
                policy.max_attempts less answers
          go (k ∷ ks) =
              credentials_from-Answered (some k) (map some ks) mp (record c { candidates = p ∷ ps })
                s policy.max_attempts less answers
