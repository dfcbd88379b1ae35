-- ===== src/Providers/Gemini/CallIds.antt =====
-- The ids that the adapter makes up for Gemini's calls.
use model_dispatcher.Prelude.{
  ℕ, suc, ◌≤◌, String, ◌≡◌, refl, sym, ap, ◌∙◌, ◌≢◌, Bool, true, false, Option, none, some, List,
  [], ◌∷◌, ◌++◌, map, arith, if◌then◌else◌, All,
}
use model_dispatcher.Prelude.Text.{append}
use model_dispatcher.Prelude.Decimal.{str, str-injective}
use model_dispatcher.Types.Json.{Fields, end}
use model_dispatcher.Types.{ToolCall}
use model_dispatcher.Providers.Gemini.{
  GeminiProvider, call_name, to_tool_call, has_text, part_calls, response_parts, to_response,
}
use model_dispatcher.Providers.Gemini.Sdk.{ResponseCall, ResponsePart, GeminiResponse}
use model_dispatcher.Providers.Gemini.Contents.Lookups.{DistinctIds}

abbrev behind : String → String
behind String.[] = ""
behind (String.◌∷◌ c s) = s

append-injective : (prefix s t : String) → append prefix s ≡ append prefix t → s ≡ t
unfolding append
append-injective String.[] s t h = h
append-injective (String.◌∷◌ c p) s t h = append-injective p s t (ap behind h)

call_name-injective : (i j : ℕ) → call_name i ≡ call_name j → i ≡ j
unfolding call_name
call_name-injective i j h = str-injective i j (append-injective "call_" (str i) (str j) h)

-- The vendor gave no id for a call.
abbrev pub IsUnnamed : ResponsePart → Type 0
IsUnnamed part = elim part.function_call [ none ↦ Unit | some call ↦ call.id ≡ none ]

-- An id made up for a part at `index` or behind it.
abbrev MadeFrom : ℕ → ToolCall → Type 0
MadeFrom index c = (j : ℕ) × (index ≤ j) × (c.id ≡ call_name j)

MadeFrom-suc :
    (index : ℕ) (cs : List ToolCall) → All (MadeFrom (suc index)) cs → All (MadeFrom index) cs
MadeFrom-suc index [] h = tt
MadeFrom-suc index (c ∷ cs) ((j, le, made), hs) =
    ((j, omega (arith, le), made), MadeFrom-suc index cs hs)

others-Distinct :
    (index : ℕ) (c : ToolCall) (cs : List ToolCall)
    → c.id ≡ call_name index
    → All (MadeFrom (suc index)) cs
    → All (λ d. d.id ≢ c.id) cs
others-Distinct index c [] made h = tt
others-Distinct index c (d ∷ ds) made ((j, le, made'), hs) = (
  λ same. absurd (omega (arith, le, call_name-injective j index (sym made' ∙ same ∙ made))),
  others-Distinct index c ds made hs,
)

abbrev Made : ℕ → List ToolCall → Type 0
Made index cs = All (MadeFrom index) cs × DistinctIds cs

-- The calls from one part, in front of those behind it.
chosen-Made :
    (index : ℕ) (says : Bool) (call : Option ResponseCall) (rest : List ToolCall)
    → (elim call as (λ o. Type 0) [ none ↦ Unit | some c ↦ c.id ≡ none ])
    → Made (suc index) rest
    → Made index
        (if says then rest else elim call [ none ↦ rest | some c ↦ to_tool_call index c ∷ rest ])
unfolding to_tool_call
chosen-Made index true call rest h (made, distinct) = (MadeFrom-suc index rest made, distinct)
chosen-Made index false none rest h (made, distinct) = (MadeFrom-suc index rest made, distinct)
chosen-Made index false (some c) rest h (made, distinct) =
    let own : (to_tool_call index c).id ≡ call_name index = rw h refl in
    (
      ((index, omega arith, own), MadeFrom-suc index rest made),
      (others-Distinct index (to_tool_call index c) rest own made, distinct),
    )

part_calls-MadeFrom :
    (index : ℕ) (parts : List ResponsePart)
    → All IsUnnamed parts
    → All (MadeFrom index) (part_calls index parts) × DistinctIds (part_calls index parts)
unfolding part_calls to_tool_call
part_calls-MadeFrom index [] h = (tt, tt)
part_calls-MadeFrom index (part ∷ parts) (h, hs) =
    chosen-Made index (has_text part) part.function_call (part_calls (suc index) parts) h
      (part_calls-MadeFrom (suc index) parts hs)

-- What the parts without a text call: the function's name, and its arguments.
abbrev call_made : ResponsePart → List (String × Fields)
call_made part = if has_text part then [] else elim part.function_call [
  | none ↦ []
  | some call ↦ (call.name, elim call.args [ none ↦ end | some args ↦ args ]) ∷ []
]

abbrev pub calls_made : List ResponsePart → List (String × Fields)
calls_made [] = []
calls_made (part ∷ parts) = call_made part ++ calls_made parts

abbrev pub made : ToolCall → String × Fields
made c = (c.name, c.arguments)

chosen-made :
    (index : ℕ) (says : Bool) (call : Option ResponseCall) (rest : List ToolCall)
    → map made
        (if says then rest else elim call [ none ↦ rest | some c ↦ to_tool_call index c ∷ rest ])
      ≡ (if says then [] else elim call [
        | none ↦ []
        | some c ↦ (c.name, elim c.args [ none ↦ end | some args ↦ args ]) ∷ []
      ])
        ++ map made rest
unfolding to_tool_call
chosen-made index true call rest = refl
chosen-made index false none rest = refl
chosen-made index false (some c) rest = refl

part_calls-made :
    (index : ℕ) (parts : List ResponsePart) → map made (part_calls index parts) ≡ calls_made parts
unfolding part_calls
part_calls-made index [] = refl
part_calls-made index (part ∷ parts) =
    chosen-made index (has_text part) part.function_call (part_calls (suc index) parts)
    ∙ ap (λ l. call_made part ++ l) (part_calls-made (suc index) parts)

-- Where the vendor gave no ids for the calls of a response, the response's calls are those of its
-- parts that have no text, in order and with their functions' names and arguments, and their ids are pairwise distinct.
pub to_response-DistinctIds :
    (p : GeminiProvider) (response : GeminiResponse)
    → All IsUnnamed (response_parts response.candidates)
    → (map made (to_response p response).message.tool_calls
        ≡ calls_made (response_parts response.candidates))
      × DistinctIds (to_response p response).message.tool_calls
unfolding to_response
to_response-DistinctIds p response h = (
  part_calls-made 0 (response_parts response.candidates),
  (part_calls-MadeFrom 0 (response_parts response.candidates) h).1,
)
