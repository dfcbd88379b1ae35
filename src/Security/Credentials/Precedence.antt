-- ===== src/Security/Credentials/Precedence.antt =====
-- Which credentials a pair of tenant and provider gets.
use model_dispatcher.Prelude.{
  String, ◌≡◌, refl, ap, false, Option, none, some, List, [], ◌∷◌, map, arith, All,
}
use model_dispatcher.Types.{is_free}
use model_dispatcher.Errors.{RaisesDispatcher, Res, ok, raised}
use model_dispatcher.Providers.Base.{ModelProvider}
use model_dispatcher.Quota.Tenant.{TenantContext}
use model_dispatcher.Security.Credentials.{
  Credential, CredentialSource, keyed, without_keys, by_precedence, user_keys, tenant_keys,
  resolve_candidates, mask, free_credential, global_credential,
}

-- The user's keys, else the tenant's, else one call without a key.
abbrev pub keys_in_order : List String → List String → List (Option String)
keys_in_order (u ∷ us) ts = map some (u ∷ us)
keys_in_order [] (k ∷ ks) = map some (k ∷ ks)
keys_in_order [] [] = none ∷ []

-- The reference that a trace may show of a key.
abbrev pub ShownAs : Option String → String → Type 0
ShownAs none ref = Unit
ShownAs (some key) ref = ref ≡ mask key

-- A credential is for the provider and shows no more of its key than the mask.
abbrev pub BelongsTo : String → Credential → Type 0
BelongsTo name c = (c.provider_name ≡ name) × ShownAs c.raw_key c.secret_ref

keyed-BelongsTo :
    (name : String) (source : CredentialSource) (keys : List String)
    → All (BelongsTo name) (map (keyed name source) keys)
unfolding keyed
keyed-BelongsTo name source [] = tt
keyed-BelongsTo name source (k ∷ ks) = ((refl, refl), keyed-BelongsTo name source ks)

raw_keys-keyed :
    (name : String) (source : CredentialSource) (keys : List String)
    → map (λ (c : Credential). c.raw_key) (map (keyed name source) keys) ≡ map some keys
unfolding keyed
raw_keys-keyed name source [] = refl
raw_keys-keyed name source (k ∷ ks) = ap (λ l. some k ∷ l) (raw_keys-keyed name source ks)

module _ {S : Type 0} (t : TenantContext) (p : ModelProvider S) where
  -- What `resolve_candidates` comes to.
  abbrev pub Resolves : List String → List String → Res (List Credential) → Type 0
  Resolves us ts (ok cs) =
      (map (λ (c : Credential). c.raw_key) cs ≡ keys_in_order us ts) × All (BelongsTo p.name) cs
  Resolves us ts (raised e) =
      (us ≡ []) × (ts ≡ []) × (is_free p.tier ≡ false) × (t.is_zero_setup ≡ false)

  without_keys-Resolves : Resolves [] [] (without_keys t p)
  unfolding without_keys free_credential global_credential
  without_keys-Resolves = ground arith

  by_precedence-Resolves : (us ts : List String) → Resolves us ts (by_precedence t p us ts)
  unfolding by_precedence
  by_precedence-Resolves (u ∷ us) ts =
      (raw_keys-keyed p.name _ (u ∷ us), keyed-BelongsTo p.name _ (u ∷ us))
  by_precedence-Resolves [] (k ∷ ks) =
      (raw_keys-keyed p.name _ (k ∷ ks), keyed-BelongsTo p.name _ (k ∷ ks))
  by_precedence-Resolves [] [] = without_keys-Resolves

  -- The credentials carry the user's keys, all of them and in order, or else the tenant's, or else
  -- there is one without a key; each is for this provider and shows only the mask of its key. An
  -- error is raised only where no key is known, the provider is not free and the tenant has left
  -- the zero-setup stage.
  pub resolve_candidates_lem :
      Resolves (user_keys t p.name) (tenant_keys t p.name) (resolve_candidates t p)
  unfolding resolve_candidates
  resolve_candidates_lem = by_precedence-Resolves (user_keys t p.name) (tenant_keys t p.name)

module _ {S : Type 0} (t : TenantContext) (p : ModelProvider S) where
  by_precedence-RaisesDispatcher :
      (us ts : List String) → RaisesDispatcher (by_precedence t p us ts)
  unfolding by_precedence without_keys
  by_precedence-RaisesDispatcher (u ∷ us) ts = tt
  by_precedence-RaisesDispatcher [] (k ∷ ks) = tt
  by_precedence-RaisesDispatcher [] [] = ground arith

  pub resolve_candidates-RaisesDispatcher : RaisesDispatcher (resolve_candidates t p)
  unfolding resolve_candidates
  resolve_candidates-RaisesDispatcher =
      by_precedence-RaisesDispatcher (user_keys t p.name) (tenant_keys t p.name)
