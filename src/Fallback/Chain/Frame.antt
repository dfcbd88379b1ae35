-- ===== src/Fallback/Chain/Frame.antt =====
-- What a handler leaves alone, and how that carries over to the walk over the handlers.
use model_dispatcher.Prelude.{
  ◌≡◌, refl, ◌∙◌, List, [], ◌∷◌, All, Extends, Extends-refl, Extends-trans,
}
use model_dispatcher.Errors.{ok, raised}
use model_dispatcher.Fallback.Context.{
  HandlerOutcome, continue, success, fallback, stop, InvocationContext, Ended, Handle,
}
use model_dispatcher.Fallback.Chain.{on_continue, run_handlers}

module _ {S : Type 0} where
  -- The request, the tenant and the candidates are as before, and the attempts only grow.
  pub record Frame (c c' : InvocationContext S) : Type 0 where
    pub request : c'.request ≡ c.request
    pub tenant : c'.tenant ≡ c.tenant
    pub candidates : c'.candidates ≡ c.candidates
    pub attempts : Extends c.attempts c'.attempts

  pub Frame-refl : (c : InvocationContext S) → Frame c c
  Frame-refl c = record {
    request = refl;
    tenant = refl;
    candidates = refl;
    attempts = Extends-refl c.attempts;
  }

  pub Frame-trans : (a b c : InvocationContext S) → Frame a b → Frame b c → Frame a c
  Frame-trans a b c f g = record {
    request = g.request ∙ f.request;
    tenant = g.tenant ∙ f.tenant;
    candidates = g.candidates ∙ f.candidates;
    attempts = Extends-trans a.attempts f.attempts g.attempts;
  }

  -- Whatever a handler returns or raises, it leaves the frame alone.
  pub record IsTame (h : Handle S) : Type 0 where
    pub at : (c : InvocationContext S) (s : S) → Frame c (h c s).1

  on_continue-Frame :
      (next : Handle S) (c : InvocationContext S) (r : Ended S HandlerOutcome)
      → IsTame next
      → Frame c r.1
      → Frame c (on_continue next r).1
  unfolding on_continue
  on_continue-Frame next c (ok continue, c', s) tame f = Frame-trans c c' _ f (tame.at c' s)
  on_continue-Frame next c (ok success, c', s) tame f = f
  on_continue-Frame next c (ok fallback, c', s) tame f = f
  on_continue-Frame next c (ok stop, c', s) tame f = f
  on_continue-Frame next c (raised e, c', s) tame f = f

  pub run_handlers-IsTame : (hs : List (Handle S)) → All IsTame hs → IsTame (run_handlers hs)
  unfolding run_handlers
  run_handlers-IsTame [] h = record { at = λ c s. Frame-refl c }
  run_handlers-IsTame (h ∷ hs) (tame, rest) = record {
    at = λ c s.
        on_continue-Frame (run_handlers hs) c (h c s) (run_handlers-IsTame hs rest) (tame.at c s);
  }
