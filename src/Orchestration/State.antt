-- ===== src/Orchestration/State.antt =====
-- src/model_dispatcher/orchestration/state.py and result.py: what a run keeps and what it returns.
use model_dispatcher.Prelude.{ℕ, none, List, [], ◌∷◌, ◌++◌}
use model_dispatcher.Types.{
  TenantId, Message, ToolSpec, Usage, no_usage, add_usages, CompletionRequest,
}
use model_dispatcher.Types.Json.{end}
use model_dispatcher.Fallback.Context.{AttemptRecord}

pub record ConversationState : Type 0 where
  pub tenant : TenantId
  pub messages : List Message
  pub tools : List ToolSpec
  pub usage : Usage
  pub iterations : ℕ

-- `ConversationState(tenant, messages, tools)`
abbrev pub fresh_state : TenantId → List Message → List ToolSpec → ConversationState
fresh_state tenant messages tools = record {
  tenant = tenant;
  messages = messages;
  tools = tools;
  usage = no_usage;
  iterations = 0;
}

-- `append`
abbrev pub append_message : Message → ConversationState → ConversationState
append_message m st = record st { messages = st.messages ++ m ∷ [] }

-- `add_usage`
abbrev pub add_usage : Usage → ConversationState → ConversationState
add_usage u st = record st { usage = add_usages st.usage u }

-- `to_request`: the other fields take their defaults.
abbrev pub to_request : ConversationState → CompletionRequest
to_request st = record {
  messages = st.messages;
  tenant = st.tenant;
  tools = st.tools;
  tier_hint = none;
  max_tokens = none;
  temperature = none;
  metadata = end;
}

pub data StopReason : Type 0 where
  completed max_iterations deadline error : StopReason

pub record StepResult : Type 0 where
  pub message : Message
  pub usage : Usage
  pub attempts : List AttemptRecord

pub record RunResult : Type 0 where
  pub final_message : Message
  pub transcript : List Message
  pub usage : Usage
  pub stop_reason : StopReason
  pub steps : List StepResult
