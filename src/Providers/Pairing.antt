-- ===== src/Providers/Pairing.antt =====
-- What the vendors ask of a conversation: right behind a message that calls tools stand the answers
-- to its calls, one for each, in order, before anything else is said.
use model_dispatcher.Prelude.{
  Option, ap, String, ◌≡◌, refl, sym, subst, ◌≢◌, List, [], ◌∷◌, ◌++◌, map, All,
}
use model_dispatcher.Types.{Role, assistant, tool, ToolCall, ToolResult, Message}
use model_dispatcher.Orchestration.Loop.Transcript.{Turn, IsAnswered, turn_messages, transcript_of}

-- A vendor's message: it says something, calls tools, or answers one call. Calls and answers are
-- told by what the vendor matches them by.
pub data Event : Type 0 where
  says : Event
  calls : List String → Event
  answers : String → Event

-- The answers that are still to come stand in front, and the calls that are still to be made behind
-- them.
abbrev pub IsPaired : List String → List (List String) → List Event → Type 0
IsPaired pending called [] = (pending ≡ []) × (called ≡ [])
IsPaired pending called (says ∷ es) = (pending ≡ []) × IsPaired [] called es
IsPaired pending [] (calls ids ∷ es) = ⊥
IsPaired pending (names ∷ called) (calls ids ∷ es) =
    (pending ≡ []) × (names ≡ ids) × IsPaired ids called es
IsPaired [] called (answers id ∷ es) = ⊥
IsPaired (p ∷ pending) called (answers id ∷ es) = (p ≡ id) × IsPaired pending called es

-- A message that a caller begins with: it is not a tool's, and calls none.
abbrev pub IsOpening : Message → Type 0
IsOpening m = (m.role ≢ tool) × (m.tool_calls ≡ [])

-- A turn of the loop that asked for tools.
abbrev pub IsAsking : Turn → Type 0
IsAsking t = (t.step.message.role ≡ assistant) × (t.step.message.tool_calls ≢ []) × IsAnswered t

pub answers-IsPaired :
    (ids : List String) (called : List (List String)) (es : List Event)
    → IsPaired [] called es
    → IsPaired ids called (map answers ids ++ es)
answers-IsPaired [] called es h = h
answers-IsPaired (id ∷ ids) called es h = (refl, answers-IsPaired ids called es h)

pub says-IsPaired :
    (events : List Event) (called : List (List String)) (es : List Event)
    → All (λ e. e ≡ says) events
    → IsPaired [] called es
    → IsPaired [] called (events ++ es)
says-IsPaired [] called es h k = k
says-IsPaired (e ∷ events) called es h k =
    subst (λ x. IsPaired [] called (x ∷ (events ++ es))) (sym h.0)
      (refl, says-IsPaired events called es h.1 k)

-- What a vendor's translation of messages does, seen as events, where `K` is what it has learnt so
-- far: it begins with nothing, an opening message only says something, and a turn calls and is
-- answered by what `named` gives.
module _ {K : Type 0} (send : K → List Message → List Event) (Good : Turn → Type 0)
    (named : Turn → List String) where
  pub record Translates : Type 0 where
    pub nothing : (k : K) → send k [] ≡ []
    pub opening :
        (k : K) (m : Message) (ms : List Message)
        → IsOpening m
        → (es : List Event) × (k' : K) × All (λ e. e ≡ says) es
          × (send k (m ∷ ms) ≡ es ++ send k' ms)
    pub turn :
        (k : K) (t : Turn) (ms : List Message)
        → Good t
        → (k' : K) × (send k (turn_messages t ++ ms)
            ≡ calls (named t) ∷ (map answers (named t) ++ send k' ms))

  module _ (translates : Translates) where
    transcript-IsPaired :
        (k : K) (ts : List Turn)
        → All Good ts
        → IsPaired [] (map named ts) (send k (transcript_of ts))
    transcript-IsPaired k [] h = subst (IsPaired [] []) (sym (translates.nothing k)) (refl, refl)
    transcript-IsPaired k (t ∷ ts) (h, hs) =
        let (k', e) = translates.turn k t (transcript_of ts) h in
        subst (IsPaired [] (map named (t ∷ ts))) (sym e) (
          refl,
          refl,
          answers-IsPaired (named t) (map named ts) (send k' (transcript_of ts))
              (transcript-IsPaired k' ts hs),
        )

    -- A whole conversation.
    pub conversation-IsPaired :
        (k : K) (ms : List Message) (ts : List Turn)
        → All IsOpening ms
        → All Good ts
        → IsPaired [] (map named ts) (send k (ms ++ transcript_of ts))
    conversation-IsPaired k [] ts h hs = transcript-IsPaired k ts hs
    conversation-IsPaired k (m ∷ ms) ts (h, hm) hs =
        let (es, k', quiet, e) = translates.opening k m (ms ++ transcript_of ts) h in
        subst (IsPaired [] (map named ts)) (sym e) (
          says-IsPaired es (map named ts) (send k' (ms ++ transcript_of ts)) quiet
            (conversation-IsPaired k' ms ts hm hs))

-- A message that calls tools, and one that does not.
abbrev pub asking : Option String → List ToolCall → Option ToolResult → Message
asking content cs result = record {
  role = assistant;
  content = content;
  tool_calls = cs;
  tool_result = result;
}

abbrev pub saying : Role → Option String → Option ToolResult → Message
saying role content result = record {
  role = role;
  content = content;
  tool_calls = [];
  tool_result = result;
}

-- An opening message is one that says something.
pub opening-saying :
    (P : Message → Type 0)
    → ((role : Role) (content : Option String) (result : Option ToolResult)
        → role ≢ tool
        → P (saying role content result))
    → (m : Message) → IsOpening m
    → P m
opening-saying P said m (role, none_called) =
    subst P (sym (ap (λ cs. record m { tool_calls = cs }) none_called))
      (said m.role m.content m.tool_result role)

-- The message of a turn that asked is one that asks.
pub asking-turn :
    (P : Message → Type 0)
    → (t : Turn) → IsAsking t
    → P (asking t.step.message.content t.step.message.tool_calls t.step.message.tool_result)
    → P t.step.message
asking-turn P t (role, _, _) h =
    let m = t.step.message in subst (λ r. P (record m { role = r })) (sym role) h
