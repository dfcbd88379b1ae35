-- ===== src/Providers/Gemini/Contents/Names.antt =====
-- The names by which Gemini matches responses and calls.
use model_dispatcher.Prelude.{
  String, ◌≡◌, refl, sym, ap, ◌∙◌, subst, ◌≢◌, inl, inr, Option, none, some, List, [], ◌∷◌, ◌++◌,
  map, Bool-cases, All,
}
use mathlib.Core.List.{map-append}
use model_dispatcher.Prelude.Text.{is_nonempty}
use model_dispatcher.Types.{Role, system, user, assistant, tool, ToolCall, ToolResult, Message}
use model_dispatcher.Orchestration.State.{ConversationState, to_request}
use model_dispatcher.Orchestration.Loop.{tool_message}
use model_dispatcher.Orchestration.Loop.Transcript.{Turn, turn_messages, After}
use model_dispatcher.Providers.Pairing.{
  Event, says, calls, answers, IsPaired, IsOpening, IsAsking, Translates, conversation-IsPaired,
  asking, saying, opening-saying, asking-turn,
}
use model_dispatcher.Providers.Gemini.Contents.Lookups.{DistinctIds, names_of-remember}
use model_dispatcher.Providers.Gemini.Contents.{
  CallNames, name_of, remember, text_parts, call_part, response_content, calls_or_text,
  build_content, build_all, build_contents,
}
use model_dispatcher.Providers.Gemini.Sdk.{
  Part, from_function_call, from_function_response, Content,
}

-- What Gemini sees: calls and responses are matched by the name of the function.
abbrev called_names : List Part → List String
called_names [] = []
called_names (from_function_call name _ ∷ ps) = name ∷ called_names ps
called_names (_ ∷ ps) = called_names ps

abbrev calling : List String → Event
calling [] = says
calling (name ∷ names) = calls (name ∷ names)

abbrev parts_event : List Part → Event
parts_event (from_function_response name _ ∷ ps) = answers name
parts_event ps = calling (called_names ps)

abbrev pub events : List Content → List Event
events cs = map (λ c. parts_event c.parts) cs

called_names-call_part :
    (cs : List ToolCall) → called_names (map call_part cs) ≡ map (λ c. c.name) cs
unfolding call_part
called_names-call_part [] = refl
called_names-call_part (c ∷ cs) = ap (λ l. c.name ∷ l) (called_names-call_part cs)

calls-event :
    (content : Option String) (call : ToolCall) (cs : List ToolCall)
    → parts_event (text_parts content ++ map call_part (call ∷ cs))
      ≡ calls (map (λ c. c.name) (call ∷ cs))
unfolding text_parts call_part
calls-event none call cs = ap (λ l. calls (call.name ∷ l)) (called_names-call_part cs)
calls-event (some text) call cs = elim (Bool-cases (is_nonempty text)) [
  | inl e ↦ rw e (ap (λ l. calls (call.name ∷ l)) (called_names-call_part cs))
  | inr e ↦ rw e (ap (λ l. calls (call.name ∷ l)) (called_names-call_part cs))
]

-- A message that calls tools, and what is known behind it.
asking-step :
    (names : CallNames) (content : Option String) (cs : List ToolCall) (result : Option ToolResult)
    → cs ≢ []
    → (events (build_content names (asking content cs result)).contents
        ≡ calls (map (λ c. c.name) cs) ∷ [])
      × ((build_content names (asking content cs result)).names ≡ remember names cs)
unfolding build_content calls_or_text
asking-step names content [] result h = absurd (h refl)
asking-step names content (call ∷ cs) result h =
    (ap (λ e. e ∷ []) (calls-event content call cs), refl)

results-events :
    (names : CallNames) (rs : List ToolResult) (ms : List Message)
    → events (build_all names (map tool_message rs ++ ms)).1
      ≡ map answers (map (name_of names) (map (λ r. r.call_id) rs)) ++ events (build_all names ms).1
unfolding build_all build_content response_content
results-events names [] ms = refl
results-events names (r ∷ rs) ms =
    ap (λ l. answers (name_of names r.call_id) ∷ l) (results-events names rs ms)

map-map :
    (f : String → String) (cs : List ToolCall) → map f (map (λ c. c.id) cs) ≡ map (λ c. f c.id) cs
map-map f [] = refl
map-map f (c ∷ cs) = ap (λ l. f c.id ∷ l) (map-map f cs)

-- A whole turn, in front of the messages `ms`.
turn_of_asking-events :
    (names : CallNames) (content : Option String) (cs : List ToolCall) (result : Option ToolResult)
    (rs : List ToolResult) (ms : List Message)
    → cs ≢ []
    → DistinctIds cs
    → map (λ r. r.call_id) rs ≡ map (λ c. c.id) cs
    → events (build_all names (asking content cs result ∷ (map tool_message rs ++ ms))).1
      ≡ calls (map (λ c. c.name) cs)
        ∷ (map answers (map (λ c. c.name) cs) ++ events (build_all (remember names cs) ms).1)
unfolding build_all
turn_of_asking-events names content cs result rs ms asks distinct answered =
    let step = build_content names (asking content cs result) in
    let (called, known) = asking-step names content cs result asks in
    let rest = map tool_message rs ++ ms in
    map-append (λ c. parts_event c.parts) step.contents (build_all step.names rest).1
    ∙ ap (λ l. l ++ events (build_all step.names rest).1) called
    ∙ ap (λ n. calls (map (λ c. c.name) cs) ∷ events (build_all n rest).1) known
    ∙ ap (λ l. calls (map (λ c. c.name) cs) ∷ l)
        (results-events (remember names cs) rs ms
          ∙ ap (λ ns. map answers ns ++ events (build_all (remember names cs) ms).1)
              (ap (map (name_of (remember names cs))) answered
                ∙ map-map (name_of (remember names cs)) cs
                ∙ names_of-remember names cs distinct))

abbrev pub AsksDistinctly : Turn → Type 0
AsksDistinctly t = IsAsking t × DistinctIds t.step.message.tool_calls

-- The names of the functions called, turn by turn.
abbrev pub called : Turn → List String
called t = map (λ c. c.name) t.step.message.tool_calls

abbrev pub turn_names : List Turn → List (List String)
turn_names ts = map called ts

-- What Gemini sees of messages, behind those whose calls are known.
abbrev sent : CallNames → List Message → List Event
sent names ms = events (build_all names ms).1

turn-sent :
    (names : CallNames) (t : Turn) (ms : List Message)
    → AsksDistinctly t
    → sent names (turn_messages t ++ ms)
      ≡ calls (called t)
        ∷ (map answers (called t) ++ sent (remember names t.step.message.tool_calls) ms)
turn-sent names t ms ((role, asks, answered), distinct) =
    let m = t.step.message in
    asking-turn
      (λ x.
        sent names (x ∷ (map tool_message t.results ++ ms))
        ≡ calls (called t) ∷ (map answers (called t) ++ sent (remember names m.tool_calls) ms))
      t (role, asks, answered)
      (turn_of_asking-events names m.content m.tool_calls m.tool_result t.results ms asks distinct
        answered)

-- It says something, if anything, and makes no new name known.
abbrev Says : CallNames → Message → Type 0
Says names m =
    All (λ e. e ≡ says) (events (build_content names m).contents)
    × ((build_content names m).names ≡ names)

saying-Says :
    (names : CallNames) (role : Role) (content : Option String) (result : Option ToolResult)
    → role ≢ tool
    → Says names (saying role content result)
unfolding build_content calls_or_text
saying-Says names system content result h = (tt, refl)
saying-Says names user content result h = ((refl, tt), refl)
saying-Says names assistant content result h = ((refl, tt), refl)
saying-Says names tool content result h = absurd (h refl)

opening-sent :
    (names : CallNames) (m : Message) (ms : List Message)
    → IsOpening m
    → (es : List Event) × (names' : CallNames) × All (λ e. e ≡ says) es
      × (sent names (m ∷ ms) ≡ es ++ sent names' ms)
unfolding build_all
opening-sent names m ms opens =
    let step = build_content names m in
    let (all_say, _) = opening-saying (Says names) (saying-Says names) m opens in
    (
      events step.contents,
      step.names,
      all_say,
      map-append (λ c. parts_event c.parts) step.contents (build_all step.names ms).1,
    )

sent-Translates : Translates sent AsksDistinctly called
unfolding build_all
sent-Translates = record {
  nothing = λ names. refl;
  opening = opening-sent;
  turn = λ names t ms asks. (remember names t.step.message.tool_calls, turn-sent names t ms asks);
}

-- Gemini, which matches by the name of a function and not by the id of a call: a conversation that
-- began with messages that neither answer nor call tools, after turns of the loop that asked for
-- tools, each with distinct call ids, and had them answered. The contents that are sent call the
-- functions of the turns, turn by turn, and nothing else; and right behind each of them stand the
-- responses to its calls, one for each, in their order and with their names, and no others. An id
-- that an earlier turn used too does no harm.
pub build_contents-IsPaired :
    (st st' : ConversationState) (ts : List Turn)
    → All IsOpening st.messages
    → All AsksDistinctly ts
    → After st ts st'
    → IsPaired [] (turn_names ts) (events (build_contents (to_request st')).1)
unfolding build_contents
build_contents-IsPaired st st' ts h hs after =
    subst (λ l. IsPaired [] (turn_names ts) (events (build_all [] l).1)) (sym after.messages)
      (conversation-IsPaired sent AsksDistinctly called sent-Translates [] st.messages ts h hs)
