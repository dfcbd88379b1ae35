-- ===== src/Vercel/Handler.antt =====
-- templates/vercel-app/api/gateway.py: the handler behind the socket. What the standard library has
-- read is given: the headers, and the bytes that come behind them.
pub mod Posts
pub mod Served
use model_dispatcher.Prelude.{
  ℕ, zero, suc, ◌-◌, ◌/◌, String, Option, none, some, List, [], ◌∷◌, if◌then◌else◌, length, take,
}
use model_dispatcher.Prelude.Int.{ℤ, pos, negsuc}
use model_dispatcher.Prelude.Text.{codes, lower, is_nonempty}
use model_dispatcher.Prelude.Decimal.{str, parse_int}
use model_dispatcher.Errors.{Res, ok, raised, value_error}
use model_dispatcher.Onboarding.Handoff.{text}
use model_dispatcher.Vercel.Auth.{same_codes}
use model_dispatcher.Vercel.Pipeline.{
  HttpRequest, Body, error_body, Response, Pipeline, run_dispatch,
}

pub record Incoming : Type 0 where
  pub headers : List (String × String)
  pub rest : List ℕ

-- What is written to the socket.
pub record Written : Type 0 where
  pub status : ℕ
  pub headers : List (String × String)
  pub payload : List ℕ

-- `self.headers.get(name)`: the first header of the name, in any case.
unfoldable pub get_header : String → List (String × String) → Option String
unfolding lower same_codes
get_header name [] = none
get_header name ((key, value) ∷ headers) =
    if same_codes (lower (codes key)) (lower (codes name))
    then some value
    else get_header name headers

or_value_error : String → Option ℤ → Res ℤ
or_value_error header none =
    raised
      (value_error (text "invalid literal for int() with base 10: '" ∷ text header ∷ text "'" ∷ []))
or_value_error header (some n) = ok n

-- `int(... or 0)`
pub content_length : Option String → Res ℤ
unfolding parse_int or_value_error
content_length none = ok (pos 0)
content_length (some header) =
    if is_nonempty header then or_value_error header (parse_int header) else ok (pos 0)

-- `self.rfile.read(length) if length else b"{}"`; a buffered reader reads to the end for -1, and
-- takes no other negative length.
pub read_body : ℤ → List ℕ → Res (List ℕ)
read_body (pos zero) rest = ok (codes "{}")
read_body (pos (suc n)) rest = ok (take (suc n) rest)
read_body (negsuc zero) rest = ok rest
read_body (negsuc (suc n)) rest =
    raised (value_error (text "read length must be non-negative or -1" ∷ []))

read_length : Res ℤ → List ℕ → Res (List ℕ)
unfolding read_body
read_length (raised e) rest = raised e
read_length (ok n) rest = read_body n rest

-- The body of a request, as `do_POST` reads it.
unfoldable pub receive : Incoming → Res (List ℕ)
unfolding content_length get_header read_length
receive incoming =
    read_length (content_length (get_header "content-length" incoming.headers)) incoming.rest

-- The request that `run_dispatch` is called with.
abbrev pub request_of : Incoming → List ℕ → HttpRequest
unfolding get_header
request_of incoming body = record {
  app_check_token = get_header "X-Firebase-AppCheck" incoming.headers;
  authorization_header = get_header "Authorization" incoming.headers;
  raw_body = body;
}

module _ (dumps : Body → List ℕ) where
  -- `_write_json`
  pub write_json : ℕ → Body → Written
  unfolding str
  write_json status body = record {
    status = status;
    headers =
        ("content-type", "application/json") ∷ ("content-length", str (length (dumps body))) ∷ [];
    payload = dumps body;
  }

  -- `do_GET`
  unfoldable pub do_get : Written
  unfolding write_json
  do_get = write_json 405 (error_body (("error", text "method_not_allowed" ∷ []) ∷ []))

  module _ {S : Type 0} (p : Pipeline S) where
    write_response : Option (Res Response × S) → Option (Res Written × S)
    unfolding write_json
    write_response none = none
    write_response (some (ok response, s)) = some (ok (write_json response.status response.body), s)
    write_response (some (raised e, s)) = some (raised e, s)

    respond : Incoming → Res (List ℕ) → S → Option (Res Written × S)
    unfolding write_response get_header
    respond incoming (raised e) s = some (raised e, s)
    respond incoming (ok body) s = write_response (run_dispatch p (request_of incoming body) s)

    -- `do_POST`
    pub do_post : Incoming → S → Option (Res Written × S)
    unfolding respond receive
    do_post incoming s = respond incoming (receive incoming) s
