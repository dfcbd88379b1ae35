-- ===== src/Byok/Registry.antt =====
-- src/model_dispatcher/byok/registry.py: a registry of the vendors that have some usable key, and
-- the metadata by which a visitor's keys reach the credential resolver.
pub mod Keys
pub mod Usable
use model_dispatcher.Prelude.{
  String, Bool, true, false, not, ◌||◌, Option, none, some, List, [], ◌∷◌, map, ◌==◌, if◌then◌else◌,
  select,
}
use model_dispatcher.Prelude.Text.{append, join, is_nonempty}
use model_dispatcher.Errors.{Res, ok, raised, dispatcher, NoProviderAvailableError}
use model_dispatcher.Onboarding.Handoff.{text}
use model_dispatcher.Providers.Base.{ModelProvider}
use model_dispatcher.Providers.Registry.{ProviderRegistry, register}
use model_dispatcher.Quota.Tenant.{Metadata}

-- `os.environ.get`
abbrev pub Environ : Type 0
Environ = String → Option String

-- A vendor's wiring; `provider_cls` takes the model and the server's key.
pub record ProviderSpec (S : Type 0) : Type 0 where
  pub provider_cls : String → Option String → ModelProvider S
  pub key_env_var : String
  pub model_env_var : String
  pub default_model : String

-- A `Mapping[str, Sequence[str]]`, in its order.
abbrev pub Credentials : Type 0
Credentials = List (String × List String)

-- Whether a value is there and not empty.
abbrev pub is_set : Option String → Bool
is_set none = false
is_set (some value) = is_nonempty value

-- `credentials.get(name)`; a missing vendor has no key, as one with an empty list has none.
unfoldable pub keys_of : String → Credentials → List String
keys_of name [] = []
keys_of name ((vendor, keys) ∷ rest) =
    let later = keys_of name rest in if name == vendor then keys else later

-- `f"user_key:{name}"`
abbrev pub user_key : String → String
user_key name = append "user_key:" name

unfoldable pub credential_metadata : Credentials → Metadata
credential_metadata [] = []
credential_metadata ((vendor, []) ∷ rest) = credential_metadata rest
credential_metadata ((vendor, k ∷ ks) ∷ rest) =
    (user_key vendor, join "," (k ∷ ks)) ∷ credential_metadata rest

module _ {S : Type 0} (env : Environ) where
  unfoldable pub configured_providers : List (String × ProviderSpec S) → List String
  configured_providers specs =
      map (λ (named : String × ProviderSpec S). named.0)
        (select (λ (named : String × ProviderSpec S). is_set (env named.1.key_env_var)) specs)

  -- Not skipped: there is a server key or a visitor's key.
  pub usable : Credentials → String × ProviderSpec S → Bool
  usable credentials (name, spec) =
      is_set (env spec.key_env_var)
      || not (elim (keys_of name credentials) [ [] ↦ true | _ ∷ _ ↦ false ])

  -- `spec.provider_cls(model=model, api_key=server_key)`
  abbrev pub construct : ProviderSpec S → ModelProvider S
  construct spec =
      spec.provider_cls
        (elim (env spec.model_env_var) [
          | none ↦ spec.default_model
          | some model ↦ if is_nonempty model then model else spec.default_model
        ])
        (env spec.key_env_var)

  -- `for name, spec in specs.items()`
  register_usable :
      Credentials → List (String × ProviderSpec S) → ProviderRegistry S → ProviderRegistry S
  unfolding usable
  register_usable credentials [] r = r
  register_usable credentials ((name, spec) ∷ specs) r =
      register_usable credentials specs
        (if usable credentials (name, spec) then register (construct spec) r else r)

  pub build_registry : List (String × ProviderSpec S) → Credentials → Res (ProviderRegistry S)
  unfolding register_usable
  build_registry specs credentials = elim (register_usable credentials specs []) [
    | [] ↦ raised (
        dispatcher (
          NoProviderAvailableError
            (text "no provider key available -- set one on the server or supply your own" ∷ [])))
    | p ∷ ps ↦ ok (p ∷ ps)
  ]
