-- ===== src/Providers/Openai/Status.antt =====
-- How the exceptions of the `openai` package are classified.
use model_dispatcher.Prelude.{◌≡◌, true, ◌&&◌, arith, if◌then◌else◌}
use model_dispatcher.Types.{quota}
use model_dispatcher.Providers.Base.{VendorError}
use model_dispatcher.Providers.Openai.{classify_status, is_insufficient_quota, classify_error}
use model_dispatcher.Providers.Openai.Sdk.{OpenaiSdk}

-- The classes of the package's exceptions for the HTTP statuses: an instance of one of the four has
-- that status, and all of them are status errors.
pub record StatusClasses {S : Type 0} (sdk : OpenaiSdk S) : Type 0 where
  pub rate_limit_status : (e : VendorError) → sdk.is_rate_limit_error e ≡ true → e.status_code ≡ 429
  pub authentication_status :
      (e : VendorError) → sdk.is_authentication_error e ≡ true → e.status_code ≡ 401
  pub permission_denied_status :
      (e : VendorError) → sdk.is_permission_denied_error e ≡ true → e.status_code ≡ 403
  pub bad_request_status :
      (e : VendorError) → sdk.is_bad_request_error e ≡ true → e.status_code ≡ 400

module _ {S : Type 0} (sdk : OpenaiSdk S) (classes : StatusClasses sdk) where
  -- An exception for an HTTP status is classified by the status alone, as `_classify_status` does,
  -- but for one thing: a rate limit error with the code `insufficient_quota` is an exhausted quota.
  pub classify_error-status :
      (e : VendorError)
      → sdk.is_api_status_error e ≡ true
      → classify_error sdk e ≡ (
          if sdk.is_rate_limit_error e && is_insufficient_quota e.code
          then quota
          else classify_status e.status_code)
  unfolding classify_error classify_status
  classify_error-status e h = ground (
    arith,
    h,
    classes.rate_limit_status e,
    classes.authentication_status e,
    classes.permission_denied_status e,
    classes.bad_request_status e,
  )
