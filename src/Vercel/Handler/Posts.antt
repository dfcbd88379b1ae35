-- ===== src/Vercel/Handler/Posts.antt =====
-- What becomes of a POST.
use model_dispatcher.Prelude.{◌⊎◌, ℕ, ◌≡◌, Option, some, List}
use model_dispatcher.Onboarding.Handoff.{Text}
use model_dispatcher.Errors.{value_error, Res, ok, raised}
use model_dispatcher.Vercel.Firebase.{
  Environment, FirebaseAdmin, ServiceAccounts, ensure_default_app,
}
use model_dispatcher.Vercel.Pipeline.{Body, Response, Pipeline}
use model_dispatcher.Vercel.Pipeline.Adapting.{RaisesValueError}
use model_dispatcher.Vercel.Pipeline.Guards.{Guarded}
use model_dispatcher.Vercel.Handler.{Incoming, Written, write_json, request_of}

module _ {S : Type 0} (admin : FirebaseAdmin) (accounts : ServiceAccounts) (environ : Environment)
    (ready : ensure_default_app admin accounts environ ≡ ok tt) (p : Pipeline S)
    (loads : (body : List ℕ) → RaisesValueError (p.loads body)) (dumps : Body → List ℕ)
    (incoming : Incoming) (s : S) where
  -- The request has been answered, after what the pipeline does with its body.
  pub record Answered (body : List ℕ) (out : Option (Res Written × S)) : Type 0 where
    pub response : Response
    pub after : S
    pub written : out ≡ some (ok (write_json dumps response.status response.body), after)
    pub guarded :
        Guarded admin accounts environ ready p loads
          (request_of incoming body)
          s
          (some (ok response, after))

  -- The pipeline has let a ValueError out, and nothing has been written.
  pub record LetOut (body : List ℕ) (out : Option (Res Written × S)) : Type 0 where
    pub message : Text
    pub after : S
    pub thrown : out ≡ some (raised (value_error message), after)
    pub guarded :
        Guarded admin accounts environ ready p loads
          (request_of incoming body)
          s
          (some (raised (value_error message), after))

  -- What becomes of a request whose body is read, or cannot be.
  abbrev pub Posted : Res (List ℕ) → Option (Res Written × S) → Type 0
  Posted (ok body) out = Answered body out ⊎ LetOut body out
  Posted (raised e) out = RaisesValueError {A = List ℕ} (raised e) × (out ≡ some (raised e, s))
