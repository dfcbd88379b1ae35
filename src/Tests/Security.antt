-- ===== src/Tests/Security.antt =====
-- The theorems on keys and on the perimeter, on one tenant.
use model_dispatcher.Prelude.{String, ◌≡◌, refl, some, List, [], ◌∷◌, All}
use model_dispatcher.Prelude.Text.{join, strip, strip_left, strip_right}
use model_dispatcher.Config.{SecuritySettings, default_security}
use model_dispatcher.Security.Credentials.{split_keys, user_keys, tenant_keys, resolve_candidates}
use model_dispatcher.Security.Credentials.Keys.{IsKey, split_keys-join}
use model_dispatcher.Security.Credentials.Precedence.{Resolves, resolve_candidates_lem}
use model_dispatcher.Security.Perimeter.{validate}
use model_dispatcher.Security.Perimeter.Accepts.{Accepts, validate-unpinned}
use model_dispatcher.Tests.Fixtures.{request, tenant, steady}

abbrev pub keys : List String
keys = "sk-1" ∷ "sk-2" ∷ []

pub keys-IsKey : All IsKey keys
unfolding strip strip_left strip_right
keys-IsKey = (
  (refl, refl, (refl, (refl, (refl, (refl, tt))))),
  ((refl, refl, (refl, (refl, (refl, (refl, tt))))), tt),
)

split_keys-join_example : split_keys (some (join "," keys)) ≡ keys
split_keys-join_example = split_keys-join "sk-1" ("sk-2" ∷ []) keys-IsKey

resolve_candidates_lem_example :
    Resolves tenant steady
      (user_keys tenant steady.name)
      (tenant_keys tenant steady.name)
      (resolve_candidates tenant steady)
resolve_candidates_lem_example = resolve_candidates_lem tenant steady

abbrev strict : SecuritySettings
strict = record default_security { allowed_providers = "flaky" ∷ [] }

validate-unpinned_example :
    validate strict request tenant
    ≡ validate (record strict { allowed_providers = [] }) request tenant
validate-unpinned_example = validate-unpinned strict request tenant refl
