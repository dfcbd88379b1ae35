-- ===== src/Security/Credentials.antt =====
-- src/model_dispatcher/security/credentials.py: which keys a call may use, in try-order.
pub mod Precedence
pub mod Keys
use model_dispatcher.Prelude.{
  ◌-◌, ◌*◌, String, Bool, true, false, Option, none, some, List, [], ◌∷◌, map, leb, if◌then◌else◌,
}
use model_dispatcher.Prelude.Text.{
  characters, is_nonempty, strip, split, before, last_characters, append,
}
use model_dispatcher.Types.{is_free}
use model_dispatcher.Errors.{Res, ok, raised, dispatcher, index_error, AuthenticationError}
use model_dispatcher.Onboarding.Handoff.{text, quoted}
use model_dispatcher.Providers.Base.{ModelProvider}
use model_dispatcher.Quota.Tenant.{TenantContext, metadata_get}

pub data CredentialSource : Type 0 where
  user tenant global_app free_tier : CredentialSource

pub record Credential : Type 0 where
  pub provider_name : String
  pub source : CredentialSource
  pub secret_ref : String
  pub raw_key : Option String
  pub is_rate_limited : Bool

-- `[key.strip() for key in parts if key.strip()]`
strip_parts : List String → List String
strip_parts [] = []
strip_parts (p ∷ ps) = if is_nonempty (strip p) then strip p ∷ strip_parts ps else strip_parts ps

-- `_split_keys`
unfoldable pub split_keys : Option String → List String
unfolding strip_parts
split_keys none = []
split_keys (some raw) = if is_nonempty raw then strip_parts (split b',' raw) else []

-- `_mask`
pub mask : String → String
mask secret = if leb (characters secret) 4 then "****" else append "****" (last_characters 4 secret)

-- `provider.name.split(":", 1)[0]`
unfoldable pub family : String → String
family name = before b':' name

-- The keys that the tenant's metadata has under `user_key:<family>` and `tenant_key:<family>`.
unfoldable pub user_keys : TenantContext → String → List String
unfolding split_keys family
user_keys t name = split_keys (metadata_get (append "user_key:" (family name)) t.metadata)

pub tenant_keys : TenantContext → String → List String
unfolding split_keys family
tenant_keys t name = split_keys (metadata_get (append "tenant_key:" (family name)) t.metadata)

-- A credential that carries a key.
keyed : String → CredentialSource → String → Credential
unfolding mask
keyed name source key = record {
  provider_name = name;
  source = source;
  secret_ref = mask key;
  raw_key = some key;
  is_rate_limited = false;
}

free_credential : String → Credential
free_credential name = record {
  provider_name = name;
  source = free_tier;
  secret_ref = "keyless";
  raw_key = none;
  is_rate_limited = false;
}

global_credential : String → Credential
global_credential name = record {
  provider_name = name;
  source = global_app;
  secret_ref = "global-app-key";
  raw_key = none;
  is_rate_limited = true;
}

-- `credentials[0]`
first_of_list : Res (List Credential) → Res Credential
first_of_list (raised e) = raised e
first_of_list (ok []) = raised (index_error 0)
first_of_list (ok (c ∷ cs)) = ok c

module _ {S : Type 0} where
  -- Where the tenant has no key of its own.
  without_keys : TenantContext → ModelProvider S → Res (List Credential)
  unfolding free_credential global_credential
  without_keys t p =
      if is_free p.tier
      then ok (free_credential p.name ∷ [])
      else if t.is_zero_setup
      then ok (global_credential p.name ∷ [])
      else raised (
          dispatcher (
            AuthenticationError
              (text "no credential available for provider " ∷ quoted p.name ∷ [])))

  by_precedence :
      TenantContext → ModelProvider S → List String → List String → Res (List Credential)
  unfolding keyed without_keys
  by_precedence t p (u ∷ us) ts = ok (map (keyed p.name user) (u ∷ us))
  by_precedence t p [] (k ∷ ks) = ok (map (keyed p.name tenant) (k ∷ ks))
  by_precedence t p [] [] = without_keys t p

  unfoldable pub resolve_candidates : TenantContext → ModelProvider S → Res (List Credential)
  unfolding by_precedence user_keys tenant_keys
  resolve_candidates t p = by_precedence t p (user_keys t p.name) (tenant_keys t p.name)

  unfoldable pub resolve : TenantContext → ModelProvider S → Res Credential
  unfolding resolve_candidates first_of_list
  resolve t p = first_of_list (resolve_candidates t p)
