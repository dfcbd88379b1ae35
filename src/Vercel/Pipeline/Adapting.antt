-- ===== src/Vercel/Pipeline/Adapting.antt =====
-- What the decoding of a body raises.
use model_dispatcher.Prelude.{ℕ, String, Option, none, some, List, [], ◌∷◌}
use model_dispatcher.Types.{CompletionRequest}
use model_dispatcher.Types.Json.{
  JsonValue, null, boolean, integer, float, string, array, object, Fields,
}
use model_dispatcher.Errors.{value_error, Res, ok, raised}
use model_dispatcher.Onboarding.Handoff.{text}
use model_dispatcher.Vercel.Http.{
  get_field, nonempty_or_anonymous, prompt_request, prompt_of, parse_dispatch_request,
}
use model_dispatcher.Vercel.Pipeline.{Loads, body_or_empty, parse_decoded, adapt}

-- What `json.loads` raises is a ValueError.
abbrev pub RaisesValueError : {A : Type 0} → Res A → Type 0
RaisesValueError (ok a) = Unit
RaisesValueError (raised (value_error message)) = Unit
RaisesValueError (raised _) = ⊥

parse-RaisesValueError : (fs : Fields) → RaisesValueError (parse_dispatch_request fs)
unfolding parse_dispatch_request
parse-RaisesValueError fs = go (prompt_of (get_field "prompt" fs))
  where
    go :
        (prompt : Option String)
        → RaisesValueError {A = CompletionRequest × String} (elim prompt [
          | none ↦ raised (value_error (text "field 'prompt' must be a non-empty string" ∷ []))
          | some prompt ↦ ok (
            prompt_request prompt (nonempty_or_anonymous (get_field "tenant_id" fs)),
            nonempty_or_anonymous (get_field "tenant_id" fs),
          )
        ])
    go none = tt
    go (some prompt) = tt

decoded-RaisesValueError :
    (r : Res JsonValue) → RaisesValueError r → RaisesValueError (parse_decoded r)
unfolding parse_decoded
decoded-RaisesValueError (raised e) h = h
decoded-RaisesValueError (ok (object fs)) h = parse-RaisesValueError fs
decoded-RaisesValueError (ok null) h = tt
decoded-RaisesValueError (ok (boolean b)) h = tt
decoded-RaisesValueError (ok (integer n)) h = tt
decoded-RaisesValueError (ok (float x)) h = tt
decoded-RaisesValueError (ok (string x)) h = tt
decoded-RaisesValueError (ok (array xs)) h = tt

pub adapt-RaisesValueError :
    (loads : Loads)
    → ((body : List ℕ) → RaisesValueError (loads body))
    → (raw_body : List ℕ) → RaisesValueError (adapt loads raw_body)
unfolding adapt
adapt-RaisesValueError loads h raw_body =
    decoded-RaisesValueError (loads (body_or_empty raw_body)) (h (body_or_empty raw_body))
