-- ===== src/Byok/Registry/Keys.antt =====
-- A visitor's keys on their way through the tenant's metadata.
use model_dispatcher.Prelude.{
  String, ◌≡◌, sym, ap, ◌∙◌, inl, inr, some, List, [], ◌∷◌, arith, ◌==◌, eq_iff, eq_refl,
  Bool-cases, All,
}
use model_dispatcher.Prelude.Text.{append, join, drop_characters}
use model_dispatcher.Quota.Tenant.{TenantContext, metadata_get}
use model_dispatcher.Security.Credentials.{family, user_keys}
use model_dispatcher.Security.Credentials.Keys.{IsKey, split_keys-join}
use model_dispatcher.Byok.Registry.{Credentials, keys_of, user_key, credential_metadata}

-- Two vendors have the same metadata key only if they have the same name.
user_key_inj : (a b : String) → user_key a ≡ user_key b → a ≡ b
unfolding append
user_key_inj a b e = ap (drop_characters 9) e

user_key_eq : (a b : String) → (user_key a == user_key b) ≡ (a == b)
user_key_eq a b = elim (Bool-cases (a == b)) [
  | inl e ↦ rw ((eq_iff a b).0 e, eq_refl b) (eq_refl (user_key b))
  | inr e ↦ elim (Bool-cases (user_key a == user_key b)) [
    | inl f ↦ f ∙ sym ((eq_iff a b).1 (user_key_inj a b ((eq_iff (user_key a) (user_key b)).0 f)))
    | inr f ↦ f ∙ sym e
  ]
]

metadata_get-credential_metadata :
    (name k : String) (ks : List String) (credentials : Credentials)
    → keys_of name credentials ≡ k ∷ ks
    → metadata_get (user_key name) (credential_metadata credentials) ≡ some (join "," (k ∷ ks))
unfolding keys_of credential_metadata
metadata_get-credential_metadata name k ks [] h = cc
metadata_get-credential_metadata name k ks ((vendor, []) ∷ rest) h =
    ground (arith, metadata_get-credential_metadata name k ks rest)
metadata_get-credential_metadata name k ks ((vendor, l ∷ ls) ∷ rest) h =
    ground (arith, user_key_eq name vendor, metadata_get-credential_metadata name k ks rest)

-- Where the tenant's metadata is what `credential_metadata` makes of the visitor's keys, the
-- credential resolver finds, for a provider of the vendor's family, the vendor's keys as the visitor
-- gave them, all and in order, if there is one, and none is empty, has white space at its ends or
-- has a comma.
pub user_keys-credential_metadata :
    (t : TenantContext) (provider_name name k : String) (ks : List String)
    (credentials : Credentials)
    → t.metadata ≡ credential_metadata credentials
    → family provider_name ≡ name
    → keys_of name credentials ≡ k ∷ ks
    → All IsKey (k ∷ ks)
    → user_keys t provider_name ≡ k ∷ ks
unfolding user_keys
user_keys-credential_metadata t provider_name name k ks credentials m f found keys =
    rw (m, f, metadata_get-credential_metadata name k ks credentials found)
      (split_keys-join k ks keys)
