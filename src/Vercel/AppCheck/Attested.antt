-- ===== src/Vercel/AppCheck/Attested.antt =====
-- Which app the production verifier lets pass.
use model_dispatcher.Prelude.{String, ◌≡◌, refl, inl, inr, Option, none, some, Bool-cases}
use model_dispatcher.Prelude.Text.{is_nonempty}
use model_dispatcher.Errors.{ok}
use model_dispatcher.Providers.Openai.{or_else}
use model_dispatcher.Providers.Openai.Sdk.{SdkReply, answered, threw}
use model_dispatcher.Vercel.Firebase.{
  Environment, AppCheckToken, FirebaseAdmin, ServiceAccounts, ensure_default_app,
}
use model_dispatcher.Vercel.Auth.{Verified, accepted, rejected, crashed}
use model_dispatcher.Vercel.AppCheck.{AppCheckClaims, app_claims, decoded_app, firebase_app_check}

-- An app whose token was verified.
pub record Attested (admin : FirebaseAdmin) (header : Option String) : Type 0 where
  pub token : String
  pub given : header ≡ some token
  pub decoded : AppCheckToken
  pub verified : admin.verify_token token ≡ answered decoded

abbrev pub IsAttesting : FirebaseAdmin → Option String → Verified AppCheckClaims → Type 0
IsAttesting admin header (accepted claims) = Attested admin header
IsAttesting admin header (rejected message) = Unit
IsAttesting admin header (crashed e) = ⊥

module _ (admin : FirebaseAdmin) where
  app_claims-IsAttesting :
      (header app_id sub : Option String)
      → Attested admin header
      → IsAttesting admin header (app_claims app_id sub)
  app_claims-IsAttesting header none sub h = tt
  app_claims-IsAttesting header (some app_id) sub h = elim (Bool-cases (is_nonempty app_id)) [
    | inl e ↦ rw e h
    | inr e ↦ rw e tt
  ]

  decoded-IsAttesting :
      (token : String) (reply : SdkReply AppCheckToken)
      → admin.verify_token token ≡ reply
      → IsAttesting admin (some token) (decoded_app reply)
  decoded-IsAttesting token (threw e) verified = tt
  decoded-IsAttesting token (answered decoded) verified =
      app_claims-IsAttesting (some token) (or_else decoded.app_id decoded.sub) decoded.sub
        (record { token = token; given = refl; decoded = decoded; verified = verified })

  pub firebase_app_check-IsAttesting :
      (accounts : ServiceAccounts) (environ : Environment) (header : Option String)
      → ensure_default_app admin accounts environ ≡ ok tt
      → IsAttesting admin header (firebase_app_check admin accounts environ header)
  unfolding firebase_app_check
  firebase_app_check-IsAttesting accounts environ none ready = tt
  firebase_app_check-IsAttesting accounts environ (some token) ready =
      elim (Bool-cases (is_nonempty token)) [
        | inl e ↦ rw (e, ready) (decoded-IsAttesting token (admin.verify_token token) refl)
        | inr e ↦ rw e tt
      ]
