-- ===== src/Vercel/Auth/Identity.antt =====
-- Whom the production verifier lets pass.
use model_dispatcher.Prelude.{
  String, ◌≡◌, refl, sym, subst, inl, inr, true, not, ◌||◌, Option, none, some, Bool-cases,
}
use model_dispatcher.Prelude.Text.{is_nonempty}
use model_dispatcher.Errors.{ok, raised}
use model_dispatcher.Providers.Openai.Sdk.{SdkReply, answered, threw}
use model_dispatcher.Vercel.Firebase.{
  Environment, IdToken, FirebaseAdmin, ServiceAccounts, ensure_default_app,
}
use model_dispatcher.Vercel.Auth.{
  Verified, accepted, rejected, crashed, AuthClaims, extract_bearer_token, partition_space,
  lowered_is, claims_of, decoded_claims, verified_token, firebase_auth,
}

-- A user whose ID token was verified.
pub record Identified (admin : FirebaseAdmin) (header : Option String) (claims : AuthClaims)
    : Type 0 where
  pub token : String
  pub uid : String
  pub bearer : extract_bearer_token header ≡ accepted token
  pub verified : admin.verify_id_token token ≡ answered (record { uid = some uid })
  pub uid_nonempty : is_nonempty uid ≡ true
  pub claimed : claims.uid ≡ some uid

-- The verifier lets only such a user pass, and no other exception out.
abbrev pub IsIdentifying : FirebaseAdmin → Option String → Verified AuthClaims → Type 0
IsIdentifying admin header (accepted claims) = Identified admin header claims
IsIdentifying admin header (rejected message) = Unit
IsIdentifying admin header (crashed e) = ⊥

abbrev Sound : Verified String → Type 0
Sound (crashed e) = ⊥
Sound _ = Unit

extract-Sound : (header : Option String) → Sound (extract_bearer_token header)
unfolding extract_bearer_token
extract-Sound none = tt
extract-Sound (some header) = elim (Bool-cases (is_nonempty header)) [
  | inr e ↦ rw e tt
  | inl e ↦
      elim (Bool-cases (
        not (lowered_is "bearer" (partition_space header).0)
        || not (is_nonempty (partition_space header).1))) [
          | inl f ↦ rw (e, f) tt
          | inr f ↦ rw (e, f) tt
        ]
]

module _ (admin : FirebaseAdmin) (header : Option String) where
  claims_of-IsIdentifying :
      (token : String) (uid : Option String)
      → extract_bearer_token header ≡ accepted token
      → admin.verify_id_token token ≡ answered (record { uid = uid })
      → IsIdentifying admin header (claims_of uid)
  claims_of-IsIdentifying token none bearer verified = tt
  claims_of-IsIdentifying token (some uid) bearer verified = elim (Bool-cases (is_nonempty uid)) [
    | inl e ↦ rw e (record {
      token = token;
      uid = uid;
      bearer = bearer;
      verified = verified;
      uid_nonempty = e;
      claimed = refl;
    })
    | inr e ↦ rw e tt
  ]

  decoded-IsIdentifying :
      (token : String) (reply : SdkReply IdToken)
      → extract_bearer_token header ≡ accepted token
      → admin.verify_id_token token ≡ reply
      → IsIdentifying admin header (decoded_claims reply)
  decoded-IsIdentifying token (threw e) bearer verified = tt
  decoded-IsIdentifying token (answered decoded) bearer verified =
      claims_of-IsIdentifying token decoded.uid bearer verified

  pub firebase_auth-IsIdentifying :
      (accounts : ServiceAccounts) (environ : Environment)
      → ensure_default_app admin accounts environ ≡ ok tt
      → IsIdentifying admin header (firebase_auth admin accounts environ header)
  unfolding firebase_auth verified_token
  firebase_auth-IsIdentifying accounts environ ready =
      go (extract_bearer_token header) refl (extract-Sound header)
    where
      go :
          (v : Verified String)
          → extract_bearer_token header ≡ v
          → Sound v
          → IsIdentifying admin header (verified_token admin accounts environ v)
      go (accepted token) bearer sound =
          subst
            (λ o. IsIdentifying admin header (elim o [
              | raised e ↦ crashed e
              | ok _ ↦ decoded_claims (admin.verify_id_token token)
            ]))
            (sym ready) (decoded-IsIdentifying token (admin.verify_id_token token) bearer refl)
      go (rejected message) bearer sound = tt
      go (crashed e) bearer sound = absurd sound
