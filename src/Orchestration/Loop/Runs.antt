-- ===== src/Orchestration/Loop/Runs.antt =====
-- How a run of the loop ends.
use mathlib.Core.List.{append-nil, append_assoc}
use model_dispatcher.Prelude.{
  ℕ, zero, suc, ◌<◌, ◌≡◌, refl, sym, ◌∙◌, ◌≢◌, Bool, true, false, Option, none, some, List, [], ◌∷◌,
  ◌++◌, map, arith, length, All,
}
use model_dispatcher.Types.{ToolCall, ToolResult, CompletionResponse}
use model_dispatcher.Errors.{ok, raised, Exn, IsServiceError, RaisesServiceError}
use model_dispatcher.Providers.Base.{ModelProvider, Clock}
use model_dispatcher.Quota.Tenant.{TenantContext}
use model_dispatcher.Fallback.Context.{AttemptRecord, InvocationContext, fresh_context, Ended}
use model_dispatcher.Orchestration.State.{
  ConversationState, to_request, StopReason, completed, max_iterations, deadline, error, StepResult,
  RunResult,
}
use model_dispatcher.Orchestration.Loop.{
  finalize, absorb_response, step_of, LoopMode, RunEnd, past_deadline, after_turn, before_turn,
  iterate, run,
}
use model_dispatcher.Orchestration.Loop.Transcript.{
  Turn, AnsweredBy, IsAnswered, AllAsk, Stops, After, Answered, After-refl, After-turn,
  run_tool_calls-Answered, Answered-refl,
}

abbrev steps_of : List Turn → List StepResult
steps_of ts = map (λ t. t.step) ts

-- A run of at most `n` turns from `st`, after the steps `steps`, that returns `result`.
pub record Ran (n : ℕ) (st : ConversationState) (steps : List StepResult) (result : RunResult)
    (st' : ConversationState) : Type 0 where
  pub turns : List Turn
  pub answered : All IsAnswered turns
  pub after : After st turns st'
  pub stops : Stops result.stop_reason n turns
  pub steps_taken : result.steps ≡ steps ++ steps_of turns
  pub transcript : result.transcript ≡ st'.messages
  pub usage : result.usage ≡ st'.usage

-- A run that an error of the library ends, after turns that all asked for tools.
pub record Failed (n : ℕ) (st : ConversationState) (e : Exn) (st' : ConversationState)
    : Type 0 where
  pub turns : List Turn
  pub answered : All IsAnswered turns
  pub after : After st turns st'
  pub asked : AllAsk turns
  pub bounded : length turns < n
  pub library : IsServiceError e

-- The loop always ends, in one of these two ways.
abbrev pub RunEnds :
    {S : Type 0} → ℕ → ConversationState → List StepResult → Option (RunEnd S) → Type 0
RunEnds n st steps none = ⊥
RunEnds n st steps (some (ok result, st', s)) = Ran n st steps result st'
RunEnds n st steps (some (raised e, st', s)) = Failed n st e st'

-- A model turn ends, and raises only errors of the library.
abbrev pub IsServed : {S A : Type 0} → Option (Ended S A) → Type 0
IsServed none = ⊥
IsServed (some r) = RaisesServiceError r.0

Stops-cons :
    (reason : StopReason) (n : ℕ) (t : Turn) (ts : List Turn)
    → t.step.message.tool_calls ≢ []
    → Stops reason n ts
    → Stops reason (suc n) (t ∷ ts)
Stops-cons completed n t [] asks (h, b) = elim h [ ]
Stops-cons completed n t (u ∷ ts) asks (h, b) = ((asks, h), omega (arith, b))
Stops-cons max_iterations n t ts asks (h, b) = ((asks, h), omega (arith, b))
Stops-cons deadline n t ts asks (h, b) = ((asks, h), omega (arith, b))
Stops-cons error n t ts asks h = h

module _ {S : Type 0} (r : CompletionResponse) (attempts : List AttemptRecord)
    (results : List ToolResult) (n : ℕ) (st st' : ConversationState) (steps : List StepResult)
    (asks : r.message.tool_calls ≢ []) (ids : AnsweredBy r.message.tool_calls results)
    (turn : Answered (absorb_response r st) results st') where
  RunEnds-turn :
      (o : Option (RunEnd S))
      → RunEnds n st' (steps ++ step_of r attempts ∷ []) o
      → RunEnds (suc n) st steps o
  RunEnds-turn none h = h
  RunEnds-turn (some (ok result, st'', s)) h = record {
    turns = record { step = step_of r attempts; results = results } ∷ h.turns;
    answered = (ids, h.answered);
    after = After-turn r attempts results h.turns st st' st'' turn h.after;
    stops = Stops-cons result.stop_reason n _ h.turns asks h.stops;
    steps_taken = h.steps_taken ∙ append_assoc steps (step_of r attempts ∷ []) (steps_of h.turns);
    transcript = h.transcript;
    usage = h.usage;
  }
  RunEnds-turn (some (raised e, st'', s)) h = record {
    turns = record { step = step_of r attempts; results = results } ∷ h.turns;
    answered = (ids, h.answered);
    after = After-turn r attempts results h.turns st st' st'' turn h.after;
    asked = (asks, h.asked);
    bounded = omega (arith, h.bounded);
    library = h.library;
  }

module _ {S : Type 0} (clock : Clock S) (mode : LoopMode S)
    (answers : (call : ToolCall) (s : S) → (mode.call_tool call s).0.call_id ≡ call.id) where
  after_turn-RunEnds :
      (n : ℕ) (again : ConversationState → List StepResult → S → Option (RunEnd S))
      (st : ConversationState) (steps : List StepResult) (o : Option (Ended S CompletionResponse))
      → ((st' : ConversationState) (steps' : List StepResult) (s : S)
          → RunEnds n st' steps' (again st' steps' s))
      → IsServed o
      → RunEnds (suc n) st steps (after_turn clock mode again st steps o)
  unfolding after_turn finalize
  after_turn-RunEnds n again st steps none goes h = h
  after_turn-RunEnds n again st steps (some (raised e, c, s)) goes h = record {
    turns = [];
    answered = tt;
    after = After-refl st;
    asked = tt;
    bounded = omega arith;
    library = h;
  }
  after_turn-RunEnds n again st steps (some (ok r, c, s)) goes h = go r.message.tool_calls
    where
      go :
          (l : List ToolCall)
          → RunEnds (suc n) st steps (
              after_turn clock mode again st steps
                (some (ok (record r { message = record (r.message) { tool_calls = l } }), c, s)))
      go [] = record {
        turns =
            record {
              step =
                  step_of (record r { message = record (r.message) { tool_calls = [] } })
                    c.attempts;
              results = [];
            }
            ∷ [];
        answered = (refl, tt);
        after =
            After-turn (record r { message = record (r.message) { tool_calls = [] } }) c.attempts []
              [] st _ _
              (Answered-refl (
                absorb_response (record r { message = record (r.message) { tool_calls = [] } }) st))
              (After-refl _);
        stops = (refl, omega arith);
        steps_taken = refl;
        transcript = refl;
        usage = refl;
      }
      go (call ∷ calls) =
          let r' = record r { message = record (r.message) { tool_calls = call ∷ calls } } in
          let (results, (ids, a)) =
            run_tool_calls-Answered clock mode answers (call ∷ calls) (absorb_response r' st) s in
          RunEnds-turn r' c.attempts results n st _ steps (cc) ids a _ (goes _ _ _)

  module _ (limit : Option ℕ) (tenant : TenantContext) (candidates : List (ModelProvider S))
      (served : (c : InvocationContext S) (s : S) → IsServed (mode.turn c s)) where
    before_turn-RunEnds :
        (n : ℕ) (again : ConversationState → List StepResult → S → Option (RunEnd S))
        (st : ConversationState) (steps : List StepResult) (b : Bool × S)
        → ((st' : ConversationState) (steps' : List StepResult) (s : S)
            → RunEnds n st' steps' (again st' steps' s))
        → RunEnds (suc n) st steps (before_turn clock mode limit tenant candidates again st steps b)
    unfolding before_turn finalize
    before_turn-RunEnds n again st steps (true, s) goes = record {
      turns = [];
      answered = tt;
      after = After-refl st;
      stops = (tt, omega arith);
      steps_taken = sym (append-nil steps);
      transcript = refl;
      usage = refl;
    }
    before_turn-RunEnds n again st steps (false, s) goes =
        after_turn-RunEnds n again st steps _ goes
          (served (fresh_context (to_request st) tenant candidates) s)

    iterate-RunEnds :
        (n : ℕ) (st : ConversationState) (steps : List StepResult) (s : S)
        → RunEnds n st steps (iterate clock mode limit tenant candidates n st steps s)
    unfolding iterate finalize
    iterate-RunEnds zero st steps s = record {
      turns = [];
      answered = tt;
      after = After-refl st;
      stops = (tt, refl);
      steps_taken = sym (append-nil steps);
      transcript = refl;
      usage = refl;
    }
    iterate-RunEnds (suc n) st steps s =
        before_turn-RunEnds n (iterate clock mode limit tenant candidates n) st steps
          (past_deadline clock mode limit s) (iterate-RunEnds n)

    -- Where each tool result has the id of its call, and each model turn ends and raises only errors
    -- of the library, a run of at most `n` turns ends. Either it returns: the conversation has grown
    -- by a list of turns, in each of which every tool call has one result, in order; the steps and
    -- the usage are those of the turns; and the stop reason is COMPLETED where the last turn, and
    -- only it, asked for no tools, MAX_ITERATIONS where `n` turns all asked, and DEADLINE where
    -- fewer than `n` did. Or an error of the library ends it after fewer than `n` such turns.
    pub run-RunEnds :
        (n : ℕ) (st : ConversationState) (s : S)
        → RunEnds n st [] (run clock mode limit tenant candidates n st s)
    unfolding run
    run-RunEnds n st s = iterate-RunEnds n st [] s
