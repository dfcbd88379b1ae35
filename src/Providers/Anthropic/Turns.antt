-- ===== src/Providers/Anthropic/Turns.antt =====
-- The turns of the agent loop as the adapter sends them.
use model_dispatcher.Prelude.{
  String, ◌≡◌, refl, sym, ap, ◌∙◌, subst, ◌≢◌, inl, inr, Option, none, some, List, [], ◌∷◌, ◌++◌,
  map, Bool-cases, All,
}
use mathlib.Core.List.{append_assoc, map-append}
use model_dispatcher.Prelude.Text.{is_nonempty}
use model_dispatcher.Types.{Role, system, user, assistant, tool, ToolCall, ToolResult, Message}
use model_dispatcher.Orchestration.State.{ConversationState, to_request}
use model_dispatcher.Orchestration.Loop.{tool_message}
use model_dispatcher.Orchestration.Loop.Transcript.{Turn, turn_messages, After}
use model_dispatcher.Providers.Pairing.{
  Event, says, calls, answers, IsPaired, IsOpening, IsAsking, Translates, conversation-IsPaired,
  asking, saying, opening-saying, asking-turn,
}
use model_dispatcher.Providers.Anthropic.{
  Block, tool_use, tool_result, plain, blocks, AnthropicMessage, tool_use_of, text_blocks,
  result_message, calls_or_plain, split_message, split_all, split_messages,
}

-- What Claude sees: calls and results are matched by the id of the call.
abbrev use_ids : List Block → List String
use_ids [] = []
use_ids (tool_use id _ _ ∷ bs) = id ∷ use_ids bs
use_ids (_ ∷ bs) = use_ids bs

abbrev block_event : List Block → Event
block_event (tool_result id _ _ ∷ bs) = answers id
block_event bs = calls (use_ids bs)

abbrev pub event_of : AnthropicMessage → Event
event_of m = elim m.content [ plain _ ↦ says | blocks bs ↦ block_event bs ]

abbrev pub events : List AnthropicMessage → List Event
events ms = map event_of ms

use_ids-tool_use_of : (cs : List ToolCall) → use_ids (map tool_use_of cs) ≡ map (λ call. call.id) cs
unfolding tool_use_of
use_ids-tool_use_of [] = refl
use_ids-tool_use_of (c ∷ cs) = ap (λ l. c.id ∷ l) (use_ids-tool_use_of cs)

split_all-append :
    (xs ys : List Message) → (split_all (xs ++ ys)).1 ≡ (split_all xs).1 ++ (split_all ys).1
unfolding split_all
split_all-append [] ys = refl
split_all-append (x ∷ xs) ys =
    ap (λ l. (split_message x).1 ++ l) (split_all-append xs ys)
    ∙ sym (append_assoc (split_message x).1 (split_all xs).1 (split_all ys).1)

-- A message that calls tools.
blocks-event :
    (content : Option String) (call : ToolCall) (cs : List ToolCall)
    → block_event (text_blocks content ++ map tool_use_of (call ∷ cs))
      ≡ calls (map (λ c. c.id) (call ∷ cs))
unfolding text_blocks tool_use_of
blocks-event none call cs = ap (λ l. calls (call.id ∷ l)) (use_ids-tool_use_of cs)
blocks-event (some text) call cs = elim (Bool-cases (is_nonempty text)) [
  | inl e ↦ rw e (ap (λ l. calls (call.id ∷ l)) (use_ids-tool_use_of cs))
  | inr e ↦ rw e (ap (λ l. calls (call.id ∷ l)) (use_ids-tool_use_of cs))
]

asking-events :
    (content : Option String) (cs : List ToolCall) (result : Option ToolResult)
    → cs ≢ []
    → events (split_message (asking content cs result)).1 ≡ calls (map (λ c. c.id) cs) ∷ []
unfolding split_message calls_or_plain
asking-events content [] result h = absurd (h refl)
asking-events content (call ∷ cs) result h = ap (λ e. e ∷ []) (blocks-event content call cs)

results-events :
    (rs : List ToolResult)
    → events (split_all (map tool_message rs)).1 ≡ map answers (map (λ r. r.call_id) rs)
unfolding split_all split_message result_message
results-events [] = refl
results-events (r ∷ rs) = ap (λ l. answers r.call_id ∷ l) (results-events rs)

abbrev AllSay : Message → Type 0
AllSay m = All (λ e. e ≡ says) (events (split_message m).1)

saying-AllSay :
    (role : Role) (content : Option String) (result : Option ToolResult)
    → role ≢ tool
    → AllSay (saying role content result)
unfolding split_message calls_or_plain
saying-AllSay system content result h = tt
saying-AllSay user content result h = (refl, tt)
saying-AllSay assistant content result h = (refl, tt)
saying-AllSay tool content result h = absurd (h refl)

turn_of_asking-events :
    (content : Option String) (cs : List ToolCall) (result : Option ToolResult)
    (rs : List ToolResult)
    → cs ≢ []
    → map (λ r. r.call_id) rs ≡ map (λ c. c.id) cs
    → events (split_all (asking content cs result ∷ map tool_message rs)).1
      ≡ calls (map (λ c. c.id) cs) ∷ map answers (map (λ c. c.id) cs)
unfolding split_all
turn_of_asking-events content cs result rs asks answered =
    map-append event_of (split_message (asking content cs result)).1
      (split_all (map tool_message rs)).1
    ∙ ap (λ l. l ++ events (split_all (map tool_message rs)).1)
        (asking-events content cs result asks)
    ∙ ap (λ l. calls (map (λ c. c.id) cs) ∷ l)
        (results-events rs ∙ ap (λ ids. map answers ids) answered)

-- The ids of the calls, turn by turn.
abbrev pub turn_ids : Turn → List String
turn_ids t = map (λ c. c.id) t.step.message.tool_calls

abbrev pub called_ids : List Turn → List (List String)
called_ids ts = map turn_ids ts

-- What Claude sees of messages; nothing is remembered from one to the next.
abbrev sent : Unit {0} → List Message → List Event
sent _ ms = events (split_all ms).1

turn-sent :
    (t : Turn) (ms : List Message)
    → IsAsking t
    → sent tt (turn_messages t ++ ms)
      ≡ calls (turn_ids t) ∷ (map answers (turn_ids t) ++ sent tt ms)
turn-sent t ms (role, asks, answered) =
    let m = t.step.message in
    ap events (split_all-append (turn_messages t) ms)
    ∙ map-append event_of (split_all (turn_messages t)).1 (split_all ms).1
    ∙ ap (λ l. l ++ sent tt ms)
        (asking-turn
          (λ x.
            events (split_all (x ∷ map tool_message t.results)).1
            ≡ calls (turn_ids t) ∷ map answers (turn_ids t))
          t (role, asks, answered)
          (turn_of_asking-events m.content m.tool_calls m.tool_result t.results asks answered))

sent-Translates : Translates sent IsAsking turn_ids
unfolding split_all
sent-Translates = record {
  nothing = λ k. refl;
  opening = λ k m ms opens. (
    events (split_message m).1,
    tt,
    opening-saying AllSay saying-AllSay m opens,
    map-append event_of (split_message m).1 (split_all ms).1,
  );
  turn = λ k t ms asks. (tt, turn-sent t ms asks);
}

-- A conversation that began with messages that neither answer nor call tools, after any number of
-- turns of the loop that asked for tools and had them answered: the messages sent to Claude call
-- the tools of the turns, turn by turn with the ids of their calls, and nothing else; and right
-- behind each of them stand the answers to its calls, one for each, in their order and with their
-- ids, and no other answers.
pub split_messages-IsPaired :
    (st st' : ConversationState) (ts : List Turn)
    → All IsOpening st.messages
    → All IsAsking ts
    → After st ts st'
    → IsPaired [] (called_ids ts) (events (split_messages (to_request st')).1)
unfolding split_messages
split_messages-IsPaired st st' ts h hs after =
    subst (λ l. IsPaired [] (called_ids ts) (events (split_all l).1)) (sym after.messages)
      (conversation-IsPaired sent IsAsking turn_ids sent-Translates tt st.messages ts h hs)
