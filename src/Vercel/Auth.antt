-- ===== src/Vercel/Auth.antt =====
-- templates/vercel-app/api/_lib/auth.py: the tenant's identity from a Firebase Auth token.
pub mod Identity
use Prim.Native.Char.{code}
use model_dispatcher.Prelude.{
  ℕ, String, Bool, true, false, not, ◌&&◌, ◌||◌, Option, none, some, List, [], ◌∷◌, eqb,
  if◌then◌else◌,
}
use model_dispatcher.Prelude.Text.{codes, lower, strip, is_nonempty}
use model_dispatcher.Errors.{Exn, ok, raised}
use model_dispatcher.Onboarding.Handoff.{Text, text}
use model_dispatcher.Providers.Openai.Sdk.{SdkReply, answered, threw}
use model_dispatcher.Vercel.Firebase.{
  Environment, IdToken, FirebaseAdmin, ServiceAccounts, ensure_default_app,
}

-- What a verifier does: it returns claims, raises its own error, or lets another one out.
pub data Verified (A : Type 0) : Type 0 where
  accepted : A → Verified A
  rejected : Text → Verified A
  crashed : Exn → Verified A

pub record AuthClaims : Type 0 where
  pub uid : Option String

abbrev pub AuthVerifier : Type 0
AuthVerifier = Option String → Verified AuthClaims

-- `s.partition(" ")`, without the separator
unfoldable pub partition_space : String → String × String
partition_space String.[] = ("", "")
partition_space (String.◌∷◌ c s) =
    let (before, behind) = partition_space s in
    if eqb (code c) b' ' then ("", s) else (String.◌∷◌ c before, behind)

-- `a == b`, of code points
unfoldable pub same_codes : List ℕ → List ℕ → Bool
same_codes [] [] = true
same_codes (c ∷ s) (d ∷ t) = eqb c d && same_codes s t
same_codes _ _ = false

-- `s.lower() == word`, for a word in lower case
unfoldable pub lowered_is : String → String → Bool
unfolding lower same_codes
lowered_is word s = same_codes (lower (codes s)) (codes word)

-- `_extract_bearer_token`
unfoldable pub extract_bearer_token : Option String → Verified String
unfolding partition_space lowered_is
extract_bearer_token none = rejected (text "missing Authorization header" ∷ [])
extract_bearer_token (some header) =
    let (scheme, token) = partition_space header in
    if not (is_nonempty header)
    then rejected (text "missing Authorization header" ∷ [])
    else if not (lowered_is "bearer" scheme) || not (is_nonempty token)
    then rejected (text "Authorization header must be a Bearer token" ∷ [])
    else accepted token

-- The claims of a token that the package accepted.
abbrev pub claims_of : Option String → Verified AuthClaims
claims_of none = rejected (text "ID token carried no uid" ∷ [])
claims_of (some uid) =
    if is_nonempty uid
    then accepted (record { uid = some uid })
    else rejected (text "ID token carried no uid" ∷ [])

abbrev pub decoded_claims : SdkReply IdToken → Verified AuthClaims
decoded_claims (answered token) = claims_of token.uid
decoded_claims (threw e) = rejected (text "invalid ID token: " ∷ text e.text ∷ [])

module _ (admin : FirebaseAdmin) (accounts : ServiceAccounts) (environ : Environment) where
  verified_token : Verified String → Verified AuthClaims
  unfolding ensure_default_app
  verified_token (accepted token) = elim (ensure_default_app admin accounts environ) [
    | raised e ↦ crashed e
    | ok _ ↦ decoded_claims (admin.verify_id_token token)
  ]
  verified_token (rejected message) = rejected message
  verified_token (crashed e) = crashed e

  -- `FirebaseAuthVerifier.verify`
  unfoldable pub firebase_auth : AuthVerifier
  unfolding verified_token extract_bearer_token
  firebase_auth header = verified_token (extract_bearer_token header)

  -- `NoopAuthVerifier.verify`
  abbrev pub noop_auth : AuthVerifier
  noop_auth header = accepted (record { uid = none })

  -- `os.environ.get("MD_AUTH_MODE", "enforce").strip().lower()`
  unfoldable pub build_auth_verifier : AuthVerifier
  unfolding firebase_auth lowered_is strip
  build_auth_verifier =
      if lowered_is "disabled"
        (strip (elim (environ "MD_AUTH_MODE") [ none ↦ "enforce" | some mode ↦ mode ]))
      then noop_auth
      else firebase_auth
