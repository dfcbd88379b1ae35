-- ===== src/Fallback/Chain/Default.antt =====
-- The chain that gateway.py composes: its links in order, and what holds of every run of it.
use model_dispatcher.Prelude.{◌≡◌, refl, Option, some, List, [], ◌∷◌, All}
use model_dispatcher.Config.{SecuritySettings}
use model_dispatcher.Types.{CompletionResponse}
use model_dispatcher.Errors.{RaisesServiceError}
use model_dispatcher.Providers.Base.{ModelProvider, Clock}
use model_dispatcher.Quota.Manager.{QuotaStore}
use model_dispatcher.Security.Credentials.{Credential}
use model_dispatcher.Fallback.Context.{InvocationContext, Ended, Handle, FallbackHandler}
use model_dispatcher.Fallback.Handlers.{
  perimeter_handle, credential_handle, quota_handle, computed_link,
}
use model_dispatcher.Fallback.Handlers.Links.{
  perimeter_handle-Passes, credential_handle-Passes, quota_handle-Passes,
}
use model_dispatcher.Fallback.Invocation.{
  Mode, sync_mode, async_mode, tried_credentials, invoke, invocation_link,
}
use model_dispatcher.Fallback.Retry.{RetryPolicy}
use model_dispatcher.Fallback.Invocation.Attempts.{invoke-Tried}
use model_dispatcher.Fallback.Invocation.Outcomes.{IsBacked, invoke-IsBacked}
use model_dispatcher.Fallback.Chain.{run_handlers, execute_handles, execute, aexecute}
use model_dispatcher.Fallback.Chain.Backed.{
  Passes-Frame, on_continue-IsBacked, end-IsBacked, serve-Raises,
}
use model_dispatcher.Fallback.Chain.Frame.{Frame, Frame-refl, IsTame}
use model_dispatcher.Fallback.Chain.Refinement.{serve, execute_handles-refines}

-- The list that `_build_chain` hands to `FallbackChain.build`.
abbrev pub default_links :
    {S : Type 0}
    → SecuritySettings
    → QuotaStore S
    → Clock S
    → RetryPolicy
    → List (FallbackHandler S)
default_links settings store clock policy =
    computed_link (perimeter_handle settings)
    ∷ computed_link credential_handle
    ∷ computed_link (quota_handle store)
    ∷ invocation_link store clock policy
    ∷ []

abbrev AnyCredential : Option Credential → Type 0
AnyCredential k = Unit

All-AnyCredential : (ks : List (Option Credential)) → All AnyCredential ks
All-AnyCredential [] = tt
All-AnyCredential (k ∷ ks) = (tt, All-AnyCredential ks)

module _ {S : Type 0} where
  -- The call ends, with the given result, context and outside state, and what it raises is an
  -- error of the library.
  abbrev pub EndsAs : Option (Ended S CompletionResponse) → Ended S CompletionResponse → Type 0
  EndsAs o r = (o ≡ some r) × RaisesServiceError r.0

  module _ (store : QuotaStore S) (mode : Mode S) (policy : RetryPolicy) where
    invoke-Frame-at :
        (l : List (ModelProvider S)) (c : InvocationContext S) (s : S)
        → Frame
            (record c { candidates = l })
            (invoke store mode policy (record c { candidates = l }) s).1
    unfolding invoke
    invoke-Frame-at [] c s = Frame-refl (record c { candidates = [] })
    invoke-Frame-at (p ∷ ps) c s =
        let t =
          invoke-Tried store mode policy AnyCredential p ps (record c { candidates = p ∷ ps }) s
            refl (All-AnyCredential (tried_credentials c.credentials)) in
        record {
          request = t.request;
          tenant = t.tenant;
          candidates = t.candidates;
          attempts = (t.new, t.added);
        }

    pub invoke-IsTame : IsTame (invoke store mode policy)
    invoke-IsTame = record { at = λ c s. invoke-Frame-at c.candidates c s }

    module _ (settings : SecuritySettings) where
      abbrev pub links : List (Handle S)
      links =
          perimeter_handle settings
          ∷ credential_handle
          ∷ quota_handle store
          ∷ invoke store mode policy
          ∷ []

      links-IsTame : All IsTame links
      links-IsTame = (
        record { at = λ c s. Passes-Frame c _ (perimeter_handle-Passes settings c s) },
        (
          record { at = λ c s. Passes-Frame c _ (credential_handle-Passes c s) },
          (
            record { at = λ c s. Passes-Frame c _ (quota_handle-Passes store c s) },
            (invoke-IsTame, tt),
          ),
        ),
      )

      links-IsBacked : (c : InvocationContext S) (s : S) → IsBacked (run_handlers links c s)
      unfolding run_handlers
      links-IsBacked c s =
          on_continue-IsBacked _ (perimeter_handle settings c s)
            (perimeter_handle-Passes settings c s).ends
            (λ c1 s1.
              on_continue-IsBacked _ (credential_handle c1 s1) (credential_handle-Passes c1 s1).ends
                (λ c2 s2.
                  on_continue-IsBacked _ (quota_handle store c2 s2)
                    (quota_handle-Passes store c2 s2).ends
                    (λ c3 s3.
                      end-IsBacked (invoke store mode policy c3 s3)
                        (invoke-IsBacked store mode policy c3 s3))))

      links-Served :
          (c : InvocationContext S) (s : S)
          → EndsAs (execute_handles links c s) (serve links c.candidates c s)
      links-Served c s = (
        execute_handles-refines links links-IsTame c s,
        serve-Raises links links-IsBacked c.candidates c s,
      )

module _ {S : Type 0} (settings : SecuritySettings) (store : QuotaStore S) (clock : Clock S) where
  pub execute-default_links :
      (policy : RetryPolicy) (c : InvocationContext S) (s : S)
      → EndsAs
          (execute (default_links settings store clock policy) c s)
          (serve (links store (sync_mode clock) policy settings) c.candidates c s)
        × EndsAs
            (aexecute (default_links settings store clock policy) c s)
            (serve (links store (async_mode clock) policy settings) c.candidates c s)
  unfolding execute aexecute invocation_link
  execute-default_links policy c s = (
    links-Served store (sync_mode clock) policy settings c s,
    links-Served store (async_mode clock) policy settings c s,
  )
