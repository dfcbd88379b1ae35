-- ===== src/Providers/Openai/Echo.antt =====
-- An assistant's message that is sent out and read back.
use model_dispatcher.Prelude.{
  String, ◌≡◌, refl, sym, ap, ◌∙◌, subst, ◌≢◌, ◌⊎◌, inl, inr, true, Option, none, some, List, [],
  ◌∷◌, map, is_some, All,
}
use model_dispatcher.Prelude.Text.{is_nonempty}
use model_dispatcher.Types.{assistant, Usage, ToolCall, Message}
use model_dispatcher.Providers.Base.{Reply, completed}
use model_dispatcher.Providers.Openai.{
  OpenaiProvider, provider_name, function_call, calls_or_plain, to_openai_message, arguments_text,
  to_tool_calls, with_usage, with_calls, to_response,
}
use model_dispatcher.Providers.Openai.Sdk.{
  Json, FunctionCall, OpenaiMessage, tool_reply, assistant_calls, plain, ChoiceCall, Choice,
  ChatCompletion,
}

-- `json` prints the call's arguments as some text, which it reads back as those arguments.
abbrev pub IsReadBack : Json → ToolCall → Type 0
IsReadBack json call =
    (json.loads (json.dumps call.arguments) ≡ some call.arguments)
    × (is_nonempty (json.dumps call.arguments) ≡ true)

abbrev choice_call : FunctionCall → ChoiceCall
choice_call call = record { id = call.id; name = call.name; arguments = some call.arguments }

-- The choice of a vendor that answers with the very message that it was sent.
abbrev pub echo : OpenaiMessage → Choice
echo (tool_reply id content) = record { content = some content; tool_calls = none }
echo (assistant_calls content calls) = record {
  content = content;
  tool_calls = some (map choice_call calls);
}
echo (plain role content) = record { content = some content; tool_calls = none }

-- An assistant's message as a response gives it: it calls tools or says something.
abbrev pub IsReply : Message → Type 0
IsReply m =
    (m.role ≡ assistant)
    × (m.tool_result ≡ none)
    × ((m.tool_calls ≢ []) ⊎ (is_some m.content ≡ true))

module _ (json : Json) where
  to_tool_calls-function_call :
      (calls : List ToolCall)
      → All (IsReadBack json) calls
      → to_tool_calls json (map choice_call (map (function_call json) calls)) ≡ some calls
  unfolding to_tool_calls arguments_text function_call
  to_tool_calls-function_call [] h = refl
  to_tool_calls-function_call (call ∷ calls) ((reads, prints), hs) =
      rw (prints, reads, to_tool_calls-function_call calls hs) refl

  abbrev pub reply_to : OpenaiProvider → Message → Usage → Reply
  reply_to p m usage = completed (record {
    message = m;
    usage = usage;
    provider_name = provider_name p;
    tier = p.tier;
    raw = none;
  })

  abbrev pub echoed : OpenaiMessage → List Choice → Usage → ChatCompletion
  echoed wire others usage = record { choices = echo wire ∷ others; usage = some usage }

  calls-echo :
      (p : OpenaiProvider) (call : ToolCall) (calls : List ToolCall) (content : Option String)
      (others : List Choice) (usage : Usage)
      → All (IsReadBack json) (call ∷ calls)
      → to_response json p
          (echoed (assistant_calls content (map (function_call json) (call ∷ calls))) others usage)
        ≡ reply_to p
            (record {
              role = assistant;
              content = content;
              tool_calls = call ∷ calls;
              tool_result = none;
            })
            usage
  unfolding to_response with_calls with_usage
  calls-echo p call calls content others usage h =
      ap (with_calls json p content (some usage)) (to_tool_calls-function_call (call ∷ calls) h)

  abbrev reply_message : Option String → List ToolCall → Message
  reply_message content calls = record {
    role = assistant;
    content = content;
    tool_calls = calls;
    tool_result = none;
  }

  reply_message-echo :
      (p : OpenaiProvider) (content : Option String) (calls : List ToolCall) (others : List Choice)
      (usage : Usage)
      → All (IsReadBack json) calls
      → (calls ≢ []) ⊎ (is_some content ≡ true)
      → to_response json p
          (echoed (to_openai_message json (reply_message content calls)) others usage)
        ≡ reply_to p (reply_message content calls) usage
  unfolding to_openai_message calls_or_plain to_response with_calls with_usage to_tool_calls
  reply_message-echo p content (call ∷ calls) others usage h says =
      calls-echo p call calls content others usage h
  reply_message-echo p (some content) [] others usage h says = refl
  reply_message-echo p none [] others usage h (inl says) = absurd (says refl)
  reply_message-echo p none [] others usage h (inr says) = absurd cc

  message_eq :
      (m : Message)
      → m.role ≡ assistant
      → m.tool_result ≡ none
      → m ≡ reply_message m.content m.tool_calls
  message_eq m role result =
      ap (λ r. record m { role = r }) role
      ∙ ap (λ t. record (reply_message m.content m.tool_calls) { tool_result = t }) result

  -- Where `json` reads back the arguments that it prints, an assistant's message survives the trip:
  -- a vendor that answers with the message that it was sent gives the same message, with its tool
  -- calls, their ids and their arguments, and with the vendor's usage.
  pub to_response-to_openai_message :
      (p : OpenaiProvider) (m : Message) (others : List Choice) (usage : Usage)
      → IsReply m
      → All (IsReadBack json) m.tool_calls
      → to_response json p (echoed (to_openai_message json m) others usage) ≡ reply_to p m usage
  to_response-to_openai_message p m others usage (role, result, says) reads =
      subst Echoes (sym (message_eq m role result))
        (reply_message-echo p m.content m.tool_calls others usage reads says)
    where
      Echoes : Message → Type 0
      Echoes n =
          to_response json p (echoed (to_openai_message json n) others usage) ≡ reply_to p n usage
