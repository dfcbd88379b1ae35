-- ===== src/Providers/Openai/Turns.antt =====
-- The turns of the agent loop as the adapter sends them.
use model_dispatcher.Prelude.{
  String, ◌≡◌, refl, sym, ap, ◌∙◌, subst, ◌≢◌, Option, List, [], ◌∷◌, ◌++◌, map, All,
}
use model_dispatcher.Types.{Role, system, user, assistant, tool, ToolCall, ToolResult, Message}
use model_dispatcher.Orchestration.State.{ConversationState, to_request}
use model_dispatcher.Orchestration.Loop.{tool_message}
use model_dispatcher.Orchestration.Loop.Transcript.{Turn, turn_messages, After}
use model_dispatcher.Providers.Pairing.{
  Event, says, calls, answers, IsPaired, IsOpening, IsAsking, Translates, conversation-IsPaired,
  asking, saying, opening-saying, asking-turn,
}
use model_dispatcher.Providers.Openai.{
  OpenaiProvider, function_call, calls_or_plain, to_openai_message, build_kwargs,
}
use model_dispatcher.Providers.Openai.Sdk.{Json, OpenaiMessage, tool_reply, assistant_calls, plain}

-- What the vendor sees: calls and replies are matched by the id of the call.
abbrev pub event_of : OpenaiMessage → Event
event_of (tool_reply id content) = answers id
event_of (assistant_calls content cs) = calls (map (λ c. c.id) cs)
event_of (plain role content) = says

abbrev pub turn_ids : Turn → List String
turn_ids t = map (λ c. c.id) t.step.message.tool_calls

module _ (json : Json) where
  sent : Unit {0} → List Message → List Event
  sent _ ms = map event_of (map (to_openai_message json) ms)

  ids-function_call :
      (cs : List ToolCall)
      → map (λ c. c.id) (map (function_call json) cs) ≡ map (λ (c : ToolCall). c.id) cs
  unfolding function_call
  ids-function_call [] = refl
  ids-function_call (c ∷ cs) = ap (λ l. c.id ∷ l) (ids-function_call cs)

  asking-event :
      (content : Option String) (cs : List ToolCall) (result : Option ToolResult)
      → cs ≢ []
      → event_of (to_openai_message json (asking content cs result)) ≡ calls (map (λ c. c.id) cs)
  unfolding to_openai_message calls_or_plain
  asking-event content [] result h = absurd (h refl)
  asking-event content (call ∷ cs) result h = ap calls (ids-function_call (call ∷ cs))

  saying-event :
      (role : Role) (content : Option String) (result : Option ToolResult)
      → role ≢ tool
      → event_of (to_openai_message json (saying role content result)) ≡ says
  unfolding to_openai_message calls_or_plain
  saying-event system content result h = refl
  saying-event user content result h = refl
  saying-event assistant content result h = refl
  saying-event tool content result h = absurd (h refl)

  results-sent :
      (rs : List ToolResult) (ms : List Message)
      → sent tt (map tool_message rs ++ ms) ≡ map answers (map (λ r. r.call_id) rs) ++ sent tt ms
  unfolding sent to_openai_message
  results-sent [] ms = refl
  results-sent (r ∷ rs) ms = ap (λ l. answers r.call_id ∷ l) (results-sent rs ms)

  turn-sent :
      (t : Turn) (ms : List Message)
      → IsAsking t
      → sent tt (turn_messages t ++ ms)
        ≡ calls (turn_ids t) ∷ (map answers (turn_ids t) ++ sent tt ms)
  unfolding sent
  turn-sent t ms (role, asks, answered) =
      let m = t.step.message in
      ap (λ e. e ∷ sent tt (map tool_message t.results ++ ms))
        (asking-turn (λ x. event_of (to_openai_message json x) ≡ calls (turn_ids t)) t
          (role, asks, answered) (asking-event m.content m.tool_calls m.tool_result asks))
      ∙ ap (λ l. calls (turn_ids t) ∷ l)
          (results-sent t.results ms ∙ ap (λ ids. map answers ids ++ sent tt ms) answered)

  sent-Translates : Translates sent IsAsking turn_ids
  unfolding sent
  sent-Translates = record {
    nothing = λ k. refl;
    opening = λ k m ms opens. (
      event_of (to_openai_message json m) ∷ [],
      tt,
      (opening-saying (λ x. event_of (to_openai_message json x) ≡ says) saying-event m opens, tt),
      refl,
    );
    turn = λ k t ms asks. (tt, turn-sent t ms asks);
  }

  -- A conversation that began with messages that neither answer nor call tools, after any number of
  -- turns of the loop that asked for tools and had them answered: the messages sent to OpenAI, or to
  -- a vendor that takes the same requests, call the tools of the turns, turn by turn with the ids of
  -- their calls, and nothing else; and right behind each of them stand the replies to its calls, one
  -- for each, in their order and with their ids, and no other replies.
  pub build_kwargs-IsPaired :
      (p : OpenaiProvider) (st st' : ConversationState) (ts : List Turn)
      → All IsOpening st.messages
      → All IsAsking ts
      → After st ts st'
      → IsPaired [] (map turn_ids ts) (map event_of (build_kwargs json p (to_request st')).messages)
  unfolding build_kwargs sent
  build_kwargs-IsPaired p st st' ts h hs after =
      subst (λ l. IsPaired [] (map turn_ids ts) (map event_of (map (to_openai_message json) l)))
        (sym after.messages)
        (conversation-IsPaired sent IsAsking turn_ids sent-Translates tt st.messages ts h hs)
