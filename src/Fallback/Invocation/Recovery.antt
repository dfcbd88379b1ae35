-- ===== src/Fallback/Invocation/Recovery.antt =====
-- A provider that fails a number of times and then answers, under the invocation handler.
use model_dispatcher.Prelude.{
  ℕ, zero, suc, ◌+◌, ◌<◌, String, ◌≡◌, refl, sym, ap, ◌∙◌, subst, Bool, true, false, Option, none,
  some, List, [], ◌∷◌, ◌++◌, map, arith, is_some, length, All,
}
use mathlib.Core.List.{append_assoc}
use model_dispatcher.Types.{ErrorClass, transient, CompletionResponse, CompletionRequest}
use model_dispatcher.Errors.{Res, ok}
use model_dispatcher.Providers.Base.{
  RetryAfter, wait_hint, unreadable, VendorError, Reply, completed, failed, refused, ModelProvider,
}
use model_dispatcher.Quota.Manager.{QuotaStore}
use model_dispatcher.Security.Credentials.{Credential}
use model_dispatcher.Fallback.Context.{
  AttemptRecord, HandlerOutcome, success, stop, InvocationContext, Ended,
}
use model_dispatcher.Fallback.Invocation.{
  wait, after_pause, sleep_for, set_error, failed_attempt, Mode, on_error, on_success,
  record_attempt, Round, returned, next_credential, aborted, key_of, more, tried_credentials,
  after_failure, after_call, attempts_from, after_round, credentials_from, invoke,
}
use model_dispatcher.Fallback.Retry.{RetryPolicy, verdict, judge}
use model_dispatcher.Fallback.Invocation.Service.{CanWait, backoff_delay-CanWait}

-- An attempt with a provider, and how it ended.
abbrev pub EndedBy : String → Option ErrorClass → AttemptRecord → Type 0
EndedBy name class a = (a.provider_name ≡ name) × (a.error_class ≡ class)

-- The attempts of a context, then `n` transient failures of a provider and one answer.
pub record Trace (name : String) (n : ℕ) (before after : List AttemptRecord) : Type 0 where
  pub failures : List AttemptRecord
  pub answer : AttemptRecord
  pub added : after ≡ before ++ (failures ++ answer ∷ [])
  pub count : length failures ≡ n
  pub failed : All (EndedBy name (some transient)) failures
  pub succeeded : EndedBy name none answer

Trace-fails :
    (name : String) (n : ℕ) (a : AttemptRecord) (before after : List AttemptRecord)
    → EndedBy name (some transient) a
    → Trace name n (before ++ a ∷ []) after
    → Trace name (suc n) before after
Trace-fails name n a before after by t = record {
  failures = a ∷ t.failures;
  answer = t.answer;
  added = t.added ∙ append_assoc before (a ∷ []) (t.failures ++ t.answer ∷ []);
  count = ap suc t.count;
  failed = (by, t.failed);
  succeeded = t.succeeded;
}

module _ {S : Type 0} where
  -- A provider that in state `s` has `left s` transient failures to come, and then answers; a pause
  -- changes nothing of that.
  pub record Flaky (mode : Mode S) (p : ModelProvider S) (left : S → ℕ) : Type 0 where
    pub answers :
        (s : S)
        → left s ≡ 0
        → (r : CompletionRequest) → (key : Option String)
        → (a : CompletionResponse) × ((mode.call p r key s).0 ≡ completed a)
    pub fails :
        (n : ℕ) (s : S)
        → left s ≡ suc n
        → (r : CompletionRequest) → (key : Option String)
        → (e : VendorError) × ((mode.call p r key s).0 ≡ failed e)
          × (p.classify_error e ≡ transient)
          × CanWait (p.retry_after e)
          × (left (mode.call p r key s).1 ≡ n)
    pub pauses : (delay : ℕ) (s : S) → left (mode.pause delay s) ≡ left s

  -- SUCCESS with a response, after `n` transient failures and one answer.
  pub record Recovered (name : String) (n : ℕ) (c : InvocationContext S)
      (r : Ended S HandlerOutcome) : Type 0 where
    pub outcome : r.0 ≡ ok success
    pub response : is_some r.1.response ≡ true
    pub attempts : Trace name n c.attempts r.1.attempts

  record RoundRecovered (name : String) (n : ℕ) (c : InvocationContext S)
      (r : Round × InvocationContext S × S) : Type 0 where
    outcome : r.0 ≡ returned success
    response : is_some r.1.response ≡ true
    attempts : Trace name n c.attempts r.1.attempts

  module _ (store : QuotaStore S) (mode : Mode S) (policy : RetryPolicy) (p : ModelProvider S)
      (left : S → ℕ) (flaky : Flaky mode p left) where
    after_answer :
        (a : CompletionResponse) (k : Option Credential) (attempt : ℕ) (mc mp : Bool)
        (again : InvocationContext S → S → Round × InvocationContext S × S)
        (c : InvocationContext S) (r : Reply × S)
        → r.0 ≡ completed a
        → RoundRecovered p.name 0 c (after_call store mode policy p k attempt mc mp again c r)
    unfolding after_call on_success record_attempt
    after_answer a k attempt mc mp again c (completed b, s) h = record {
      outcome = refl;
      response = refl;
      attempts = record {
        failures = [];
        answer = _;
        added = refl;
        count = refl;
        failed = tt;
        succeeded = (refl, refl);
      };
    }
    after_answer a k attempt mc mp again c (failed e, s) h = absurd cc
    after_answer a k attempt mc mp again c (refused e, s) h = absurd cc

    on_error-transient :
        (e : VendorError) (attempt : ℕ) (k : Option Credential) (mc mp : Bool)
        (c : InvocationContext S)
        → p.classify_error e ≡ transient
        → attempt < policy.max_attempts
        → on_error policy p e attempt k mc mp c ≡ (ok none, record_attempt (failed_attempt p k e) c)
    unfolding on_error judge verdict set_error
    on_error-transient e attempt k mc mp c class fits = rw class (ground arith)

    after_wait-Recovered :
        (n attempt : ℕ) (hint : RetryAfter)
        (again : InvocationContext S → S → Round × InvocationContext S × S)
        (c : InvocationContext S) (s : S)
        → CanWait hint
        → left s ≡ n
        → ((c' : InvocationContext S) (s' : S)
            → left s' ≡ n
            → RoundRecovered p.name n c' (again c' s'))
        → RoundRecovered p.name n c (wait store mode policy attempt hint again c s)
    unfolding wait after_pause sleep_for
    after_wait-Recovered n attempt (unreadable m) again c s can here next = elim can [ ]
    after_wait-Recovered n attempt (wait_hint hint) again c s can here next =
        let (d, e) = backoff_delay-CanWait policy attempt hint can in
        subst
          (λ v.
            RoundRecovered p.name n c (after_pause store mode policy again c (sleep_for mode v s)))
          (sym e) (next c _ (flaky.pauses d s ∙ here))

    -- A failed attempt that is retried: the next one starts where it left off.
    after_transient :
        (e : VendorError) (n attempt : ℕ) (k : Option Credential) (mc mp : Bool)
        (again : InvocationContext S → S → Round × InvocationContext S × S)
        (c : InvocationContext S) (r : Reply × S)
        → r.0 ≡ failed e
        → p.classify_error e ≡ transient
        → attempt < policy.max_attempts
        → CanWait (p.retry_after e)
        → left r.1 ≡ n
        → ((c' : InvocationContext S) (s : S)
            → left s ≡ n
            → RoundRecovered p.name n c' (again c' s))
        → RoundRecovered p.name (suc n) c (after_call store mode policy p k attempt mc mp again c r)
    unfolding after_call after_failure record_attempt failed_attempt
    after_transient e n attempt k mc mp again c (completed b, s) h class fits can here next =
        absurd cc
    after_transient e n attempt k mc mp again c (refused b, s) h class fits can here next =
        absurd cc
    after_transient e n attempt k mc mp again c (failed b, s) h class fits can here next =
        let same : b ≡ e = cc in
        let c1 = record_attempt (failed_attempt p k b) c in
        let after =
          after_wait-Recovered n attempt (p.retry_after b) again c1 s
            (subst (λ v. CanWait (p.retry_after v)) (sym same) can) here next in
        subst
          (λ v.
            RoundRecovered p.name (suc n) c
              (after_failure store mode policy p b attempt mc again v s))
          (sym (on_error-transient b attempt k mc mp c (ap p.classify_error same ∙ class) fits))
          (record {
            outcome = after.outcome;
            response = after.response;
            attempts =
                Trace-fails p.name n (failed_attempt p k b) c.attempts _
                  (refl, ap some (ap p.classify_error same ∙ class)) after.attempts;
          })

    attempts_from-Recovered :
        (n budget attempt : ℕ) (k : Option Credential) (mc mp : Bool) (c : InvocationContext S)
        (s : S)
        → left s ≡ n
        → n < budget
        → attempt + budget ≡ policy.max_attempts + 1
        → RoundRecovered p.name n c (attempts_from store mode policy p k mc mp budget attempt c s)
    unfolding attempts_from
    attempts_from-Recovered n zero attempt k mc mp c s here less fits = absurd (omega arith)
    attempts_from-Recovered zero (suc budget) attempt k mc mp c s here less fits =
        let (a, reply) = flaky.answers s here c.request (key_of k) in
        after_answer a k attempt mc mp
          (attempts_from store mode policy p k mc mp budget (attempt + 1)) c
          (mode.call p c.request (key_of k) s) reply
    attempts_from-Recovered (suc n) (suc budget) attempt k mc mp c s here less fits =
        let (e, reply, class, can, rest) = flaky.fails n s here c.request (key_of k) in
        after_transient e n attempt k mc mp
          (attempts_from store mode policy p k mc mp budget (attempt + 1)) c
          (mode.call p c.request (key_of k) s) reply class (omega arith) can rest
          (λ c' s' h.
            attempts_from-Recovered n budget (attempt + 1) k mc mp c' s' h (omega arith)
              (omega arith))

    abbrev round_result : Round → Res HandlerOutcome
    round_result (returned o) = ok o
    round_result next_credential = ok stop
    round_result (aborted e) = ok stop

    after_round-Recovered :
        (n : ℕ) (next : InvocationContext S → S → Ended S HandlerOutcome) (c : InvocationContext S)
        (r : Round × InvocationContext S × S)
        → RoundRecovered p.name n c r
        → Recovered p.name n c (after_round store mode policy next r)
    unfolding after_round
    after_round-Recovered n next c (returned o, c', s) h = record {
      outcome = ap round_result h.outcome;
      response = h.response;
      attempts = h.attempts;
    }
    after_round-Recovered n next c (next_credential, c', s) h = absurd (cc h.outcome)
    after_round-Recovered n next c (aborted e, c', s) h = absurd (cc h.outcome)

    credentials_from-Recovered :
        (n : ℕ) (mp : Bool) (k : Option Credential) (ks : List (Option Credential))
        (c : InvocationContext S) (s : S)
        → left s ≡ n
        → n < policy.max_attempts
        → Recovered p.name n c (credentials_from store mode policy p mp (k ∷ ks) c s)
    unfolding credentials_from
    credentials_from-Recovered n mp k ks c s here less =
        after_round-Recovered n (credentials_from store mode policy p mp ks) c
          (attempts_from store mode policy p k (more ks) mp policy.max_attempts 1 c s)
          (attempts_from-Recovered n policy.max_attempts 1 k (more ks) mp c s here less
            (omega arith))

    tried-Recovered :
        (n : ℕ) (mp : Bool) (ks : List Credential) (c : InvocationContext S) (s : S)
        → left s ≡ n
        → n < policy.max_attempts
        → Recovered p.name n c (credentials_from store mode policy p mp (tried_credentials ks) c s)
    tried-Recovered n mp [] c s here less = credentials_from-Recovered n mp none [] c s here less
    tried-Recovered n mp (k ∷ ks) c s here less =
        credentials_from-Recovered n mp (some k) (map some ks) c s here less

    invoke-at :
        (n : ℕ) (ps : List (ModelProvider S)) (c : InvocationContext S) (s : S)
        → left s ≡ n
        → n < policy.max_attempts
        → Recovered p.name n c (invoke store mode policy (record c { candidates = p ∷ ps }) s)
    unfolding invoke
    invoke-at n ps c s here less =
        let r =
          tried-Recovered n (elim ps [ [] ↦ false | _ ∷ _ ↦ true ]) c.credentials
            (record c { candidates = p ∷ ps }) s here less in
        record { outcome = r.outcome; response = r.response; attempts = r.attempts }

    -- Where the current provider has `n` transient failures to come and then answers, and `n` is
    -- less than the attempts allowed, the handler returns SUCCESS with a response, having recorded
    -- exactly `n` transient failures of that provider and then the attempt that answered.
    pub invoke-Recovered :
        (n : ℕ) (ps : List (ModelProvider S)) (c : InvocationContext S) (s : S)
        → c.candidates ≡ p ∷ ps
        → left s ≡ n
        → n < policy.max_attempts
        → Recovered p.name n c (invoke store mode policy c s)
    invoke-Recovered n ps c s e here less =
        subst (λ l. Recovered p.name n c (invoke store mode policy (record c { candidates = l }) s))
          (sym e) (invoke-at n ps c s here less)
