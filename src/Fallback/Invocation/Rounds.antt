-- ===== src/Fallback/Invocation/Rounds.antt =====
-- The attempts that the invocation handler records, credential by credential.
use model_dispatcher.Prelude.{
  ℕ, ◌≤◌, String, ◌≡◌, refl, sym, ap, ◌∙◌, subst, Bool, Option, none, some, List, [], ◌∷◌, ◌++◌,
  map, arith, length, All,
}
use mathlib.Core.List.{append-nil, append_assoc}
use model_dispatcher.Providers.Base.{ModelProvider}
use model_dispatcher.Quota.Manager.{QuotaStore}
use model_dispatcher.Security.Credentials.{Credential}
use model_dispatcher.Fallback.Context.{HandlerOutcome, AttemptRecord, InvocationContext, Ended}
use model_dispatcher.Fallback.Invocation.{
  Mode, ref_of, Round, returned, next_credential, aborted, attempts_from, after_round, more,
  credentials_from, tried_credentials, invoke,
}
use model_dispatcher.Fallback.Retry.{RetryPolicy}
use model_dispatcher.Fallback.Invocation.Attempts.{UsedBy, Tried, attempts_from-Tried}

-- The attempts with each credential, one after another: at most `n` for each.
abbrev pub Rounds : ℕ → String → List (Option String) → List AttemptRecord → Type 0
Rounds n name [] new = new ≡ []
Rounds n name (ref ∷ refs) new =
    (own : List AttemptRecord) × (rest : List AttemptRecord) × (new ≡ own ++ rest)
    × (length own ≤ n)
    × All (λ a. (a.provider_name ≡ name) × (a.credential_ref ≡ ref)) own
    × Rounds n name refs rest

Rounds-none : (n : ℕ) (name : String) (refs : List (Option String)) → Rounds n name refs []
Rounds-none n name [] = refl
Rounds-none n name (ref ∷ refs) = ([], [], refl, omega arith, tt, Rounds-none n name refs)

used_with :
    (name : String) (k : Option Credential) (l : List AttemptRecord)
    → All (UsedBy (λ k'. k' ≡ k) name) l
    → All (λ a. (a.provider_name ≡ name) × (a.credential_ref ≡ ref_of k)) l
used_with name k [] h = tt
used_with name k (a ∷ l) ((named, (k', same, ref)), hs) =
    ((named, ref ∙ ap ref_of same), used_with name k l hs)

-- The references of the credentials, in turn; a call without a key has none.
abbrev pub refs_in_turn : List Credential → List (Option String)
refs_in_turn [] = none ∷ []
refs_in_turn (k ∷ ks) = map (λ (k' : Credential). some k'.secret_ref) (k ∷ ks)

refs_of_some :
    (ks : List Credential)
    → map ref_of (map some ks) ≡ map (λ (k : Credential). some k.secret_ref) ks
refs_of_some [] = refl
refs_of_some (k ∷ ks) = ap (λ l. some k.secret_ref ∷ l) (refs_of_some ks)

refs-tried : (ks : List Credential) → map ref_of (tried_credentials ks) ≡ refs_in_turn ks
refs-tried [] = refl
refs-tried (k ∷ ks) = refs_of_some (k ∷ ks)

module _ {S : Type 0} (store : QuotaStore S) (mode : Mode S) (policy : RetryPolicy)
    (p : ModelProvider S) where
  -- What was recorded from `c` to `c'`.
  abbrev pub Recorded : List (Option String) → InvocationContext S → InvocationContext S → Type 0
  Recorded refs c c' =
      (new : List AttemptRecord) × (c'.attempts ≡ c.attempts ++ new)
      × Rounds policy.max_attempts p.name refs new

  round_ends :
      (k : Option Credential) (refs : List (Option String)) (c c' : InvocationContext S)
      → Tried (λ k'. k' ≡ k) p policy.max_attempts c c'
      → Recorded (ref_of k ∷ refs) c c'
  round_ends k refs c c' t = (
    t.new,
    t.added,
    (
      t.new,
      [],
      sym (append-nil t.new),
      t.bounded,
      used_with p.name k t.new t.used,
      Rounds-none policy.max_attempts p.name refs,
    ),
  )

  after_round-Recorded :
      (k : Option Credential) (refs : List (Option String))
      (next : InvocationContext S → S → Ended S HandlerOutcome) (c : InvocationContext S)
      (r : Round × InvocationContext S × S)
      → ((c' : InvocationContext S) (s : S) → Recorded refs c' (next c' s).1)
      → Tried (λ k'. k' ≡ k) p policy.max_attempts c r.1
      → Recorded (ref_of k ∷ refs) c (after_round store mode policy next r).1
  unfolding after_round
  after_round-Recorded k refs next c (returned o, c', s) b t = round_ends k refs c c' t
  after_round-Recorded k refs next c (aborted e, c', s) b t = round_ends k refs c c' t
  after_round-Recorded k refs next c (next_credential, c', s) b t =
      let (rest, added, rounds) = b c' s in
      (
        t.new ++ rest,
        added ∙ ap (λ l. l ++ rest) t.added ∙ append_assoc c.attempts t.new rest,
        (t.new, rest, refl, t.bounded, used_with p.name k t.new t.used, rounds),
      )

  credentials_from-Recorded :
      (mp : Bool) (ks : List (Option Credential)) (c : InvocationContext S) (s : S)
      → Recorded (map ref_of ks) c (credentials_from store mode policy p mp ks c s).1
  unfolding credentials_from
  credentials_from-Recorded mp [] c s = ([], sym (append-nil c.attempts), refl)
  credentials_from-Recorded mp (k ∷ ks) c s =
      after_round-Recorded k (map ref_of ks) (credentials_from store mode policy p mp ks) c
        (attempts_from store mode policy p k (more ks) mp policy.max_attempts 1 c s)
        (λ c' s'. credentials_from-Recorded mp ks c' s')
        (attempts_from-Tried (λ k'. k' ≡ k) p store mode policy k (more ks) mp policy.max_attempts 1
          refl c s)

  invoke-Recorded-at :
      (ps : List (ModelProvider S)) (c : InvocationContext S) (s : S)
      → let c' = record c { candidates = p ∷ ps } in
        Recorded (refs_in_turn c.credentials) c' (invoke store mode policy c' s).1
  unfolding invoke
  invoke-Recorded-at ps c s =
      let c' = record c { candidates = p ∷ ps } in
      subst (λ refs. Recorded refs c' (invoke store mode policy c' s).1) (refs-tried c.credentials)
        (credentials_from-Recorded _ (tried_credentials c.credentials) c' s)

  -- However one run of the handler on a candidate ends, the attempts before stay as they were, and
  -- behind them it has recorded, for one credential after another in their order (for one keyless
  -- call, if there is none), at most `max_attempts` attempts, each with the candidate's name and
  -- that credential's reference.
  pub invoke-Recorded :
      (ps : List (ModelProvider S)) (c : InvocationContext S) (s : S)
      → c.candidates ≡ p ∷ ps
      → Recorded (refs_in_turn c.credentials) c (invoke store mode policy c s).1
  invoke-Recorded ps c s e =
      subst
        (λ l.
          Recorded (refs_in_turn c.credentials) (record c { candidates = l })
            (invoke store mode policy (record c { candidates = l }) s).1)
        (sym e) (invoke-Recorded-at ps c s)
