-- ===== src/Vercel/AppCheck.antt =====
-- templates/vercel-app/api/_lib/appcheck.py: the attestation of the app.
pub mod Attested
use model_dispatcher.Prelude.{◌-◌, String, Option, none, some, [], ◌∷◌, if◌then◌else◌}
use model_dispatcher.Prelude.Text.{strip, is_nonempty}
use model_dispatcher.Errors.{ok, raised}
use model_dispatcher.Onboarding.Handoff.{text}
use model_dispatcher.Providers.Openai.{or_else}
use model_dispatcher.Providers.Openai.Sdk.{SdkReply, answered, threw}
use model_dispatcher.Vercel.Firebase.{
  Environment, AppCheckToken, FirebaseAdmin, ServiceAccounts, ensure_default_app,
}
use model_dispatcher.Vercel.Auth.{Verified, accepted, rejected, crashed, lowered_is}

pub record AppCheckClaims : Type 0 where
  pub app_id : String
  pub subject : String

abbrev pub AppCheckVerifier : Type 0
AppCheckVerifier = Option String → Verified AppCheckClaims

-- `str(claims.get("app_id") or claims.get("sub") or "")` and what is made of it
abbrev pub app_claims : Option String → Option String → Verified AppCheckClaims
app_claims none sub = rejected (text "App Check token carried no app_id" ∷ [])
app_claims (some app_id) sub =
    if is_nonempty app_id
    then accepted
        (record { app_id = app_id; subject = elim sub [ none ↦ app_id | some subject ↦ subject ] })
    else rejected (text "App Check token carried no app_id" ∷ [])

abbrev pub decoded_app : SdkReply AppCheckToken → Verified AppCheckClaims
decoded_app (answered token) = app_claims (or_else token.app_id token.sub) token.sub
decoded_app (threw e) = rejected (text "invalid App Check token: " ∷ text e.text ∷ [])

module _ (admin : FirebaseAdmin) (accounts : ServiceAccounts) (environ : Environment) where
  -- `FirebaseAppCheckVerifier.verify`
  unfoldable pub firebase_app_check : AppCheckVerifier
  unfolding ensure_default_app
  firebase_app_check none = rejected (text "missing App Check token" ∷ [])
  firebase_app_check (some token) =
      if is_nonempty token
      then elim (ensure_default_app admin accounts environ) [
        | raised e ↦ crashed e
        | ok _ ↦ decoded_app (admin.verify_token token)
      ]
      else rejected (text "missing App Check token" ∷ [])

  -- `NoopAppCheckVerifier.verify`
  abbrev pub noop_app_check : AppCheckVerifier
  noop_app_check token = accepted (record { app_id = "dev-bypass"; subject = "dev-bypass" })

  -- `os.environ.get("MD_APP_CHECK_MODE", "enforce").strip().lower()`
  unfoldable pub build_verifier : AppCheckVerifier
  unfolding firebase_app_check lowered_is strip
  build_verifier =
      if lowered_is "disabled"
        (strip (elim (environ "MD_APP_CHECK_MODE") [ none ↦ "enforce" | some mode ↦ mode ]))
      then noop_app_check
      else firebase_app_check
