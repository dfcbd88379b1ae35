-- ===== src/Vercel/Firebase.antt =====
-- templates/vercel-app/api/_lib/firebase_app.py: the default app of the `firebase_admin` package,
-- which is a parameter, as are the environment, `json` and `base64`.
use model_dispatcher.Prelude.{String, Bool, Option, none, some, if◌then◌else◌}
use model_dispatcher.Prelude.Text.{strip, is_nonempty}
use model_dispatcher.Types.Json.{Fields}
use model_dispatcher.Errors.{Res, ok, raised}
use model_dispatcher.Providers.Openai.Sdk.{SdkReply}

-- `os.environ.get`
abbrev pub Environment : Type 0
Environment = String → Option String

-- What the wrapper reads of a verified ID token and of a verified App Check token.
pub record IdToken : Type 0 where
  pub uid : Option String

pub record AppCheckToken : Type 0 where
  pub app_id : Option String
  pub sub : Option String

-- The package: whether there is a default app, how one is made, with a service account or without,
-- and the two verifications.
pub record FirebaseAdmin : Type 0 where
  pub has_app : Bool
  pub initialize_app : Option Fields → Res (Unit {0})
  pub verify_id_token : String → SdkReply IdToken
  pub verify_token : String → SdkReply AppCheckToken

-- `json.loads` of a text, which gives nothing where it is no JSON, and of what the text is in
-- base64.
pub record ServiceAccounts : Type 0 where
  pub loads : String → Option Fields
  pub loads_base64 : String → Res Fields

-- `parse_service_account_json`
parse_service_account_json : ServiceAccounts → String → Res Fields
unfolding strip
parse_service_account_json accounts raw = elim (accounts.loads (strip raw)) [
  | some info ↦ ok info
  | none ↦ accounts.loads_base64 (strip raw)
]

initialize_with : FirebaseAdmin → Res Fields → Res (Unit {0})
initialize_with admin (ok info) = admin.initialize_app (some info)
initialize_with admin (raised e) = raised e

-- `ensure_default_app`
unfoldable pub ensure_default_app : FirebaseAdmin → ServiceAccounts → Environment → Res (Unit {0})
unfolding parse_service_account_json initialize_with
ensure_default_app admin accounts environ =
    if admin.has_app then ok tt else elim (environ "FIREBASE_SERVICE_ACCOUNT_JSON") [
      | none ↦ admin.initialize_app none
      | some raw ↦
          if is_nonempty raw
          then initialize_with admin (parse_service_account_json accounts raw)
          else admin.initialize_app none
    ]
