-- ===== src/Fallback/Invocation/Attempts.antt =====
-- The attempts that the invocation handler records.
use model_dispatcher.Prelude.{
  ℕ, zero, suc, ◌+◌, ◌*◌, ◌≤◌, String, ◌≡◌, refl, sym, ap, ◌∙◌, subst, Bool, Option, none, some,
  List, [], ◌∷◌, ◌++◌, arith, length, length-append, All, All-append,
}
use mathlib.Core.List.{append-nil, append_assoc}
use model_dispatcher.Types.{CompletionResponse}
use model_dispatcher.Errors.{Res, ok, raised}
use model_dispatcher.Providers.Base.{
  RetryAfter, wait_hint, unreadable, VendorError, Reply, completed, failed, refused, ModelProvider,
}
use model_dispatcher.Quota.Manager.{QuotaStore}
use model_dispatcher.Security.Credentials.{Credential}
use model_dispatcher.Fallback.Context.{
  HandlerOutcome, fallback, stop, AttemptRecord, InvocationContext, Ended,
}
use model_dispatcher.Fallback.Invocation.{
  Mode, ref_of, key_of, on_error, on_success, Round, returned, next_credential, aborted, set_error,
  failed_attempt, wait, after_pause, sleep_for, after_failure, after_call, attempts_from,
  after_round, more, credentials_from, tried_credentials, invoke,
}
use model_dispatcher.Fallback.Retry.{RetryPolicy, judge, backoff_delay}

-- The attempt names the provider, and shows a credential that may be used.
abbrev pub UsedBy : (Option Credential → Type 0) → String → AttemptRecord → Type 0
UsedBy P name a =
    (a.provider_name ≡ name) × ((k : Option Credential) × P k × (a.credential_ref ≡ ref_of k))

module _ {S : Type 0} (P : Option Credential → Type 0) (p : ModelProvider S) where
  -- From `c` to `c'` at most `n` attempts were recorded, all with the provider and a credential
  -- that may be used; the request, the tenant and the candidates are as before.
  pub record Tried (n : ℕ) (c c' : InvocationContext S) : Type 0 where
    pub request : c'.request ≡ c.request
    pub tenant : c'.tenant ≡ c.tenant
    pub candidates : c'.candidates ≡ c.candidates
    pub new : List AttemptRecord
    pub added : c'.attempts ≡ c.attempts ++ new
    pub bounded : length new ≤ n
    pub used : All (UsedBy P p.name) new

  Tried-refl : (n : ℕ) (c : InvocationContext S) → Tried n c c
  Tried-refl n c = record {
    request = refl;
    tenant = refl;
    candidates = refl;
    new = [];
    added = sym (append-nil c.attempts);
    bounded = omega arith;
    used = tt;
  }

  Tried-trans :
      (n m k : ℕ) (a b c : InvocationContext S)
      → n + m ≤ k
      → Tried n a b
      → Tried m b c
      → Tried k a c
  Tried-trans n m k a b c fits f g = record {
    request = g.request ∙ f.request;
    tenant = g.tenant ∙ f.tenant;
    candidates = g.candidates ∙ f.candidates;
    new = f.new ++ g.new;
    added = g.added ∙ ap (λ l. l ++ g.new) f.added ∙ append_assoc a.attempts f.new g.new;
    bounded = omega (arith, length-append {0} f.new g.new, f.bounded, g.bounded, fits);
    used = All-append (UsedBy P p.name) f.new g.new f.used g.used;
  }

  set_error-Tried :
      (e : VendorError) (o : Res (Option HandlerOutcome)) (n : ℕ) (c c' : InvocationContext S)
      → Tried n c c'
      → Tried n c (set_error p e o c')
  unfolding set_error
  set_error-Tried e (ok (some stop)) n c c' t = record {
    request = t.request;
    tenant = t.tenant;
    candidates = t.candidates;
    new = t.new;
    added = t.added;
    bounded = t.bounded;
    used = t.used;
  }
  set_error-Tried e _ n c c' t = t

  module _ (store : QuotaStore S) (mode : Mode S) (policy : RetryPolicy) where
    on_error-Tried :
        (e : VendorError) (attempt : ℕ) (k : Option Credential) (mc mp : Bool)
        (c : InvocationContext S)
        → P k
        → Tried 1 c (on_error policy p e attempt k mc mp c).1
    unfolding on_error
    on_error-Tried e attempt k mc mp c pk =
        set_error-Tried e (judge policy (p.classify_error e) (p.retry_after e) attempt mc mp) 1 c _
          (record {
            request = refl;
            tenant = refl;
            candidates = refl;
            new = failed_attempt p k e ∷ [];
            added = refl;
            bounded = omega arith;
            used = ((refl, (k, pk, refl)), tt);
          })

    on_success-Tried :
        (r : CompletionResponse) (k : Option Credential) (c : InvocationContext S) (s : S)
        → P k
        → Tried 1 c (on_success store p r k c s).0
    unfolding on_success
    on_success-Tried r k c s pk = record {
      request = refl;
      tenant = refl;
      candidates = refl;
      new = _;
      added = refl;
      bounded = omega arith;
      used = ((refl, (k, pk, refl)), tt);
    }

    -- A loop that makes at most `n` attempts from any context.
    abbrev Bounded : ℕ → (InvocationContext S → S → Round × InvocationContext S × S) → Type 0
    Bounded n f = (c : InvocationContext S) (s : S) → Tried n c (f c s).1

    pause-Tried :
        (n : ℕ) (again : InvocationContext S → S → Round × InvocationContext S × S)
        (c : InvocationContext S) (r : Res (Unit {0}) × S)
        → Bounded n again
        → Tried n c (after_pause store mode policy again c r).1
    unfolding after_pause
    pause-Tried n again c (ok _, s) b = b c s
    pause-Tried n again c (raised e, s) b = Tried-refl n c

    wait-Tried :
        (n attempt : ℕ) (hint : RetryAfter)
        (again : InvocationContext S → S → Round × InvocationContext S × S)
        (c : InvocationContext S) (s : S)
        → Bounded n again
        → Tried n c (wait store mode policy attempt hint again c s).1
    unfolding wait
    wait-Tried n attempt (unreadable m) again c s b = Tried-refl n c
    wait-Tried n attempt (wait_hint hint) again c s b =
        pause-Tried n again c (sleep_for mode (backoff_delay policy attempt hint) s) b

    after_failure-Tried :
        (n : ℕ) (e : VendorError) (attempt : ℕ) (mc : Bool)
        (again : InvocationContext S → S → Round × InvocationContext S × S)
        (r : Res (Option HandlerOutcome) × InvocationContext S) (c : InvocationContext S) (s : S)
        → Bounded n again
        → Tried 1 c r.1
        → Tried (suc n) c (after_failure store mode policy p e attempt mc again r s).1
    unfolding after_failure
    after_failure-Tried n e attempt mc again (ok none, c') c s b t =
        Tried-trans 1 n (suc n) c c' _ (omega arith) t
          (wait-Tried n attempt (p.retry_after e) again c' s b)
    after_failure-Tried n e attempt mc again (raised x, c') c s b t =
        Tried-trans 1 0 (suc n) c c' c' (omega arith) t (Tried-refl 0 c')
    after_failure-Tried n e attempt mc again (ok (some fallback), c') c s b t =
        Tried-trans 1 0 (suc n) c c' c' (omega arith) t (Tried-refl 0 c')
    after_failure-Tried n e attempt mc again (ok (some _), c') c s b t =
        Tried-trans 1 0 (suc n) c c' c' (omega arith) t (Tried-refl 0 c')

    after_call-Tried :
        (n : ℕ) (k : Option Credential) (attempt : ℕ) (mc mp : Bool)
        (again : InvocationContext S → S → Round × InvocationContext S × S)
        (c : InvocationContext S) (r : Reply × S)
        → P k
        → Bounded n again
        → Tried (suc n) c (after_call store mode policy p k attempt mc mp again c r).1
    unfolding after_call
    after_call-Tried n k attempt mc mp again c (completed r, s) pk b =
        Tried-trans 1 0 (suc n) c _ _ (omega arith) (on_success-Tried r k c s pk) (Tried-refl 0 _)
    after_call-Tried n k attempt mc mp again c (refused e, s) pk b = Tried-refl (suc n) c
    after_call-Tried n k attempt mc mp again c (failed e, s) pk b =
        after_failure-Tried n e attempt mc again _ c s b (on_error-Tried e attempt k mc mp c pk)

    pub attempts_from-Tried :
        (k : Option Credential) (mc mp : Bool) (left attempt : ℕ)
        → P k
        → Bounded left (attempts_from store mode policy p k mc mp left attempt)
    unfolding attempts_from
    attempts_from-Tried k mc mp zero attempt pk = λ c s. Tried-refl 0 c
    attempts_from-Tried k mc mp (suc left) attempt pk = λ c s.
        after_call-Tried left k attempt mc mp
          (attempts_from store mode policy p k mc mp left (attempt + 1)) c
          (mode.call p c.request (key_of k) s) pk
          (attempts_from-Tried k mc mp left (attempt + 1) pk)

    after_round-Tried :
        (n m : ℕ) (next : InvocationContext S → S → Ended S HandlerOutcome)
        (c : InvocationContext S) (r : Round × InvocationContext S × S)
        → ((c' : InvocationContext S) (s : S) → Tried m c' (next c' s).1)
        → Tried n c r.1
        → Tried (n + m) c (after_round store mode policy next r).1
    unfolding after_round
    after_round-Tried n m next c (returned o, c', s) b t =
        Tried-trans n 0 (n + m) c c' c' (omega arith) t (Tried-refl 0 c')
    after_round-Tried n m next c (aborted e, c', s) b t =
        Tried-trans n 0 (n + m) c c' c' (omega arith) t (Tried-refl 0 c')
    after_round-Tried n m next c (next_credential, c', s) b t =
        Tried-trans n m (n + m) c c' _ (omega arith) t (b c' s)

    credentials_from-Tried :
        (mp : Bool) (ks : List (Option Credential)) (c : InvocationContext S) (s : S)
        → All P ks
        → Tried
            (length ks * policy.max_attempts)
            c
            (credentials_from store mode policy p mp ks c s).1
    unfolding credentials_from
    credentials_from-Tried mp [] c s pks = Tried-refl _ c
    credentials_from-Tried mp (k ∷ ks) c s pks =
        subst (λ n. Tried n c (credentials_from store mode policy p mp (k ∷ ks) c s).1)
          (omega arith)
          (after_round-Tried policy.max_attempts (length ks * policy.max_attempts)
            (credentials_from store mode policy p mp ks) c
            (attempts_from store mode policy p k (more ks) mp policy.max_attempts 1 c s)
            (λ c' s'. credentials_from-Tried mp ks c' s' pks.1)
            (attempts_from-Tried k (more ks) mp policy.max_attempts 1 pks.0 c s))

module _ {S : Type 0} (store : QuotaStore S) (mode : Mode S) (policy : RetryPolicy) where
  invoke-at :
      (P : Option Credential → Type 0) (p : ModelProvider S) (ps : List (ModelProvider S))
      (c : InvocationContext S) (s : S)
      → All P (tried_credentials c.credentials)
      → let c' = record c { candidates = p ∷ ps } in
        Tried P p
          (length (tried_credentials c.credentials) * policy.max_attempts)
          c'
          (invoke store mode policy c' s).1
  unfolding invoke
  invoke-at P p ps c s h =
      credentials_from-Tried P p store mode policy _ (tried_credentials c.credentials)
        (record c { candidates = p ∷ ps }) s h

  -- One run of the handler on a candidate records at most `max_attempts` attempts for each
  -- credential (for one keyless call, if there is none), each with that candidate's name and the
  -- reference of one of the credentials; however it ends, the attempts before stay as they were,
  -- and the request, the tenant and the candidates too.
  pub invoke-Tried :
      (P : Option Credential → Type 0) (p : ModelProvider S) (ps : List (ModelProvider S))
      (c : InvocationContext S) (s : S)
      → c.candidates ≡ p ∷ ps
      → All P (tried_credentials c.credentials)
      → Tried P p
          (length (tried_credentials c.credentials) * policy.max_attempts)
          c
          (invoke store mode policy c s).1
  invoke-Tried P p ps c s e h =
      subst
        (λ l.
          Tried P p (length (tried_credentials c.credentials) * policy.max_attempts)
            (record c { candidates = l })
            (invoke store mode policy (record c { candidates = l }) s).1)
        (sym e) (invoke-at P p ps c s h)
